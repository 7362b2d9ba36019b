-- ===== src/Examples/Fetching.antt =====
-- Tests of internal/registry/oras.go.
use oci2gdsd.Prelude.{
  ℕ, ◌≡◌, refl, sym, true, false, Option, none, some, [], ◌∷◌, map, Text, codes, text_eq,
  trim_space, is_empty, has_rune, lookup, insert, pos, sort_slice, contains, lower, inl, inr,
}
use mathlib.Core.Path.{subst}
use oci2gdsd.AppErr.{new_app_error, exit_auth, registry_auth_failed, ok, err}
use oci2gdsd.Names.{validate_shard_name}
use oci2gdsd.Ref.{parse_digest_pinned_ref}
use oci2gdsd.Profile.{sort_shards_by_ordinal}
use oci2gdsd.Profile.Lint.{is_shard_layer}
use oci2gdsd.Service.State.{FetchedModel, Env}
use oci2gdsd.Service.Hoare.{Meets}
use oci2gdsd.Service.Ensure.{ensure}
use oci2gdsd.Service.Ensure.Invariant.{AllVerified}
use oci2gdsd.Service.Ensure.Transaction.{Served}
use oci2gdsd.Registry.{
  Descriptor, Manifest, Registry, resolved, unresolved, opened, layer_of, fetch, answer,
  wrap_registry_error,
}
use oci2gdsd.Registry.Pinned.{Pinned, fetch-Pinned}
use oci2gdsd.Registry.Errors.{Coded, fetch-Coded}
use oci2gdsd.Registry.Complete.{Tidy, ensure_fetched-Served}
use oci2gdsd.Examples.Transactions.{empty_disk, request_a, none_verified}
use oci2gdsd.Examples.{calm, profile_one, blob_one}

abbrev layer_one : Descriptor
layer_one = record {
  media_type = codes "model.shard";
  digest = codes "abc";
  size = pos 3;
  title = [];
}

abbrev manifest_one : Manifest
manifest_one = record {
  artifact_type = [];
  config = record { media_type = []; digest = codes "c"; size = pos 1; title = [] };
  layers = layer_one ∷ [];
}

-- The content of a digest is that digest.
abbrev registry_one : Registry
registry_one = record {
  algorithm = λ d. some (codes "sha256");
  repository_ok = λ n. true;
  resolve = λ n d. resolved d;
  content = λ n d. opened d none;
  from_bytes = λ t. t;
  parse_manifest = λ t. some manifest_one;
  parse_profile = λ t. some profile_one;
  four_digits = λ n. codes "0001";
}

abbrev fetched_one : FetchedModel
fetched_one = record {
  reference = codes "r@d";
  artifact_type = [];
  profile = profile_one;
  layers = layer_of layer_one ∷ [];
  blobs = blob_one ∷ [];
}

fetch_one : fetch registry_one (codes "r@d") ≡ ok fetched_one
unfolding fetch parse_digest_pinned_ref is_empty trim_space text_eq sort_shards_by_ordinal
    sort_slice lookup insert validate_shard_name has_rune
fetch_one = refl

fetch-Pinned_example : Pinned registry_one (codes "r@d") fetched_one
fetch-Pinned_example = fetch-Pinned registry_one (codes "r@d") fetched_one fetch_one

abbrev env_one : Env
env_one = record (calm (pos 100)) { fetch = λ n ref. answer (fetch registry_one ref) }

shard_layer : is_shard_layer (layer_of layer_one) ≡ true
unfolding contains
shard_layer = refl

Tidy-one : Tidy profile_one.shards (layer_of layer_one ∷ [])
unfolding trim_space
Tidy-one = record {
  trimmed = (refl, tt);
  distinct = (tt, tt);
  one_size = (tt, tt);
  marked = λ l i s j e. elim i [
    | inl same ↦ subst (λ x. is_shard_layer x ≡ true) same shard_layer
    | inr none_other ↦ absurd none_other
  ];
}

same_some : {A : Type 0} {a b : A} → ◌≡◌ {A = Option A} (some a) (some b) → a ≡ b
same_some h = cc

-- Every fetch gives the one manifest and the one profile.
all-Tidy :
    (n : ℕ) (ref : Text) (f : FetchedModel)
    → fetch registry_one ref ≡ ok f
    → Tidy f.profile.shards f.layers
all-Tidy n ref f h =
    let p = fetch-Pinned registry_one ref f h in
    let layers : map layer_of manifest_one.layers ≡ f.layers =
      subst (λ m. map layer_of m.layers ≡ f.layers) (sym (same_some p.manifest_pinned.read_as))
        (sym p.layers_kept) in
    subst (λ q. Tidy q.shards f.layers) (same_some p.profile_pinned.read_as)
      (subst (Tidy profile_one.shards) layers Tidy-one)

ensure_fetched-Served_example :
    Meets (Served env_one) (AllVerified env_one) (ensure env_one request_a empty_disk)
ensure_fetched-Served_example =
    ensure_fetched-Served env_one (λ n. registry_one) request_a empty_disk (λ n. refl)
      (λ n ref. refl) all-Tidy (none_verified env_one)

-- A registry that refuses the client.
abbrev closed_registry : Registry
closed_registry = record registry_one {
  resolve = λ n d. unresolved (record {
    response = some (record { status = 401; errors = [] });
    deadline_exceeded = false;
    net_timeout = false;
    text = [];
  });
}

fetch_closed :
    fetch closed_registry (codes "r@d") ≡ err (new_app_error exit_auth registry_auth_failed)
unfolding fetch parse_digest_pinned_ref is_empty trim_space text_eq wrap_registry_error
fetch_closed = refl

fetch-Coded_example : Coded (new_app_error exit_auth registry_auth_failed)
fetch-Coded_example =
    fetch-Coded closed_registry (codes "r@d") (new_app_error exit_auth registry_auth_failed)
      fetch_closed

-- What the text of an error says decides last.
denied_text :
    wrap_registry_error (record {
      response = none;
      deadline_exceeded = false;
      net_timeout = false;
      text = codes "Access DENIED";
    })
    ≡ new_app_error exit_auth registry_auth_failed
unfolding wrap_registry_error contains lower
denied_text = refl
