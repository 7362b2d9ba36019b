-- ===== src/Registry.antt =====
-- internal/registry/oras.go: a model from a registry. A `Registry` is what the registry and the
-- libraries answer during one `Fetch`; `buildAuthClient`, which always gives a client, is part of it.
mod Failures
pub mod Pinned
pub mod Complete
pub mod Errors
unfoldable pub use Failures.*
use oci2gdsd.Prelude.{
  ℕ, suc, ◌+◌, ◌==◌, ltb, leb, Bool, true, false, not, ◌&&◌, ◌||◌, Option, none, some, List, [],
  ◌∷◌, ◌++◌, length, take, map, is_empty, Text, codes, text_eq, trim_space, lower, contains, Map,
  lookup, insert, ℤ, pos, pos_part, ltb_ℤ, eq_ℤ, if◌then◌else◌,
}
use oci2gdsd.AppErr.{
  GoError, app, AppError, Reason, new_app_error, exit_validation, validation_failed,
  profile_lint_failed, exit_auth, registry_auth_failed, exit_registry, registry_timeout,
  registry_unreachable, manifest_not_found, blob_not_found, exit_integrity, blob_digest_mismatch,
  blob_size_mismatch, Result, ok, err,
}
use oci2gdsd.Names.{NameError, validate_shard_name}
use oci2gdsd.Ref.{ParsedRef, parsed, refused, parse_digest_pinned_ref}
use oci2gdsd.Profile.{ModelShard, ModelProfile, ManifestLayer, sort_shards_by_ordinal}
use oci2gdsd.Service.State.{RemoteBlob, FetchedModel, FetchAnswer, fetched, fetch_error}

infixl 5 ◌>>=◌ ◌>>◌
abbrev pub ◌>>=◌ : {A B : Type 0} → Result A → (A → Result B) → Result B
ok a >>= f = f a
err e >>= f = err e

abbrev pub ◌>>◌ : {A B : Type 0} → Result A → Result B → Result B
m >> n = m >>= λ _. n

-- `if … { return nil, NewAppError(…) }`, the condition for going on.
abbrev pub require : Bool → AppError → Result (Unit {0})
require true e = ok tt
require false e = err e

abbrev pub given : {A : Type 0} → Option A → AppError → Result A
given (some a) e = ok a
given none e = err e

abbrev pub mismatch : AppError
mismatch = new_app_error exit_integrity blob_digest_mismatch

abbrev pub invalid : AppError
invalid = new_app_error exit_validation validation_failed

abbrev pub size_mismatch : AppError
size_mismatch = new_app_error exit_integrity blob_size_mismatch

abbrev pub not_a_profile : AppError
not_a_profile = new_app_error exit_validation profile_lint_failed

abbrev pub missing_layer : AppError
missing_layer = new_app_error exit_integrity blob_not_found

-- `repo.Fetch` and its error.
unfoldable pub open_content : Content → Result (Text × Option Failure)
open_content (unopened f) = err (wrap_registry_error f)
open_content (opened t f) = ok (t, f)

unfoldable pub read : ReadResult → Result Text
read (whole t) = ok t
read over_limit = err invalid
read (read_failed f) = err (wrap_registry_error f)

-- The limit of the config: its size, where that is given.
unfoldable pub config_limit : ℤ → Result ℕ
config_limit size =
    if ltb_ℤ (pos 0) size
    then (if ltb_ℤ (pos max_config_bytes) size then err invalid else ok (pos_part size))
    else ok max_config_bytes

abbrev pub layer_of : Descriptor → ManifestLayer
layer_of d = record { media_type = d.media_type; digest = d.digest; size = d.size }

-- `layerMap`: of two layers with one digest the later is kept.
unfoldable pub layer_map_from : Map Descriptor → List Descriptor → Map Descriptor
layer_map_from m [] = m
layer_map_from m (d ∷ ds) = layer_map_from (insert d.digest d m) ds

unfoldable pub resolution : Resolution → Result Text
resolution (resolved d) = ok d
resolution (unresolved f) = err (wrap_registry_error f)

module _ (r : Registry) where
  -- The manifest of the digest: twice the digest is compared, as resolved and as computed.
  unfoldable pub fetch_manifest : Text → Text → Result Manifest
  unfolding resolution open_content read read_all_with_limit
  fetch_manifest repository digest = do
    d ← resolution (r.resolve repository digest)
    require (text_eq d digest) mismatch
    c ← open_content (r.content repository d)
    bytes ← read (read_all_with_limit c.0 c.1 max_manifest_bytes)
    require (text_eq (r.from_bytes bytes) digest) mismatch
    given (r.parse_manifest bytes) invalid

  unfoldable pub fetch_profile : Text → Descriptor → Result ModelProfile
  unfolding open_content read read_all_with_limit config_limit
  fetch_profile repository config = do
    c ← open_content (r.content repository config.digest)
    limit ← config_limit config.size
    bytes ← read (read_all_with_limit c.0 c.1 limit)
    require (not (ltb_ℤ (pos 0) config.size) || eq_ℤ (pos (length bytes)) config.size) size_mismatch
    require (is_empty config.digest || text_eq (r.from_bytes bytes) config.digest) mismatch
    given (r.parse_profile bytes) not_a_profile

  -- The name of a shard's file.
  unfoldable pub blob_name : ModelShard → Descriptor → Text
  blob_name s d =
      let name = trim_space s.name in
      if not (is_empty name)
      then name
      else if not (is_empty d.title)
      then d.title
      else codes "shard-" ++ r.four_digits s.ordinal

  unfoldable pub blob_of : Map Descriptor → ModelShard → Result RemoteBlob
  unfolding blob_name
  blob_of layers s = do
    d ← given (lookup s.digest layers) missing_layer
    elim (validate_shard_name (blob_name s d)) [
      | some e ↦ err not_a_profile
      | none ↦ ok (record { name = blob_name s d; digest = d.digest; size = d.size })
    ]

  unfoldable pub blobs_of : Map Descriptor → List ModelShard → Result (List RemoteBlob)
  unfolding blob_of
  blobs_of layers [] = ok []
  blobs_of layers (s ∷ ss) = do b ← blob_of layers s; bs ← blobs_of layers ss; ok (b ∷ bs)

  unfoldable pub fetch_from : Text → Text → Text → Result FetchedModel
  unfolding fetch_manifest fetch_profile blobs_of layer_map_from
  fetch_from ref repository digest = do
    require (r.repository_ok repository) invalid
    manifest ← fetch_manifest repository digest
    profile ← fetch_profile repository manifest.config
    blobs ← blobs_of (layer_map_from [] manifest.layers) (sort_shards_by_ordinal profile.shards)
    ok (record {
      reference = ref;
      artifact_type = manifest.artifact_type;
      profile = profile;
      layers = map layer_of manifest.layers;
      blobs = blobs;
    })

  -- `Fetch`
  unfoldable pub fetch : Text → Result FetchedModel
  unfolding fetch_from
  fetch ref = elim (parse_digest_pinned_ref r.algorithm ref) [
    | refused _ ↦ err invalid
    | parsed repository digest ↦ fetch_from ref repository digest
  ]

-- The answer that the service sees.
unfoldable pub answer : Result FetchedModel → FetchAnswer
answer (ok f) = fetched f
answer (err e) = fetch_error (app e)
