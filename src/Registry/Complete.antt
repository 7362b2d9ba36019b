-- ===== src/Registry/Complete.antt =====
-- Models that `Fetch` of internal/registry/oras.go returns and that `Ensure` can publish as verified.
use mathlib.Core.Path.{subst}
use oci2gdsd.Prelude.{
  ℕ, ◌≡◌, ◌≢◌, refl, sym, ◌∙◌, ap, true, false, Option, none, some, List, [], ◌∷◌, map, is_empty,
  Text, text_eq, text_eq_sound, trim_space, Map, lookup, insert, lookup-insert, arith, Bool-cases,
  inl, inr, All, ℤ, Has, All-Has, All-each, Pairwise, sort_slice, All-sort_slice,
  sort_slice-Pairwise,
}
use oci2gdsd.AppErr.{Result, ok, err}
use oci2gdsd.Names.{validate_shard_name, check_component}
use oci2gdsd.Profile.{ModelShard, ManifestLayer, ordinal_less, sort_shards_by_ordinal}
use oci2gdsd.Profile.Lint.{is_shard_layer, lint_profile}
use oci2gdsd.Profile.Sound.{
  ShardSound, HasShard, LayerSound, ProfileSound, lint_profile-ProfileSound,
}
use oci2gdsd.Service.State.{ShardFile, RemoteBlob, FetchedModel}
use oci2gdsd.Service.Download.{file_of}
use oci2gdsd.Service.Download.Exact.{FreshNames, Uninterrupted}
use oci2gdsd.Service.Ensure.Publish.{Matches}
use oci2gdsd.Service.State.{World, Env, fetched}
use oci2gdsd.Service.Hoare.{Meets}
use oci2gdsd.Service.Ensure.{EnsureRequest, ensure}
use oci2gdsd.Service.Ensure.Invariant.{AllVerified}
use oci2gdsd.Service.Ensure.Transaction.{Faithful, Served}
use oci2gdsd.Service.Ensure.Safe.{ensure-Served}
use oci2gdsd.Registry.{Descriptor, Registry, layer_of, blob_name, fetch, answer}
use oci2gdsd.Registry.Pinned.{AllDrawn, Pinned, fetch-Pinned}

abbrev pub SameSize : ModelShard → ModelShard → Type 0
SameSize s t = s.digest ≡ t.digest → s.size ≡ t.size

-- What a profile needs beyond the lint: names without spaces around them that are distinct, one
-- size for a digest, and layers of shards that say that they are.
pub record Tidy (shards : List ModelShard) (layers : List ManifestLayer) : Type 0 where
  pub trimmed : All (λ (s : ModelShard). trim_space s.name ≡ s.name) shards
  pub distinct : Pairwise (λ s t. s.name ≢ t.name) shards
  pub one_size : Pairwise SameSize shards
  pub marked :
      (l : ManifestLayer)
      → Has l layers
      → (s : ModelShard) → Has s shards
      → l.digest ≡ s.digest
      → is_shard_layer l ≡ true

Has-map : {A B : Type 0} (f : A → B) (a : A) (l : List A) → Has a l → Has (f a) (map f l)
Has-map f a [] m = m
Has-map f a (b ∷ l) (inl e) = inl (ap f e)
Has-map f a (b ∷ l) (inr m) = inr (Has-map f a l m)

-- A shard that agrees with each of the list in size has the size of one of its digest.
agrees :
    (s : ModelShard) (d : Text) {z : ℤ} (ss : List ModelShard)
    → All (SameSize s) ss
    → HasShard d z ss
    → s.digest ≡ d
    → s.size ≡ z
agrees s d [] h m e = absurd m
agrees s d (t ∷ ss) h (inl p) e = h.0 (e ∙ sym p.0) ∙ p.1
agrees s d (t ∷ ss) h (inr m) e = agrees s d ss h.1 m e

one_size_of :
    (s : ModelShard) (d : Text) {z : ℤ} (ss : List ModelShard)
    → Pairwise SameSize ss
    → Has s ss
    → HasShard d z ss
    → s.digest ≡ d
    → s.size ≡ z
one_size_of s d [] h m q e = absurd m
one_size_of s d {z} (t ∷ ss) h (inl m) (inl p) e = subst (λ u. u.size ≡ z) m p.1
one_size_of s d (t ∷ ss) h (inl m) (inr q) e =
    agrees s d ss (subst (λ u. All (SameSize u) ss) m h.0) q e
one_size_of s d (t ∷ ss) h (inr m) (inl p) e =
    sym (All-Has (SameSize t) ss h.0 s m (p.0 ∙ sym e)) ∙ p.1
one_size_of s d (t ∷ ss) h (inr m) (inr q) e = one_size_of s d ss h.1 m q e

-- What is used of each shard.
record Ready (r : Registry) (layers : List Descriptor) (s : ModelShard) : Type 0 where
  trimmed : trim_space s.name ≡ s.name
  valid : validate_shard_name s.name ≡ none
  sized : (l : Descriptor) → Has l layers → l.digest ≡ s.digest → s.size ≡ l.size

not_blank : (name : Text) → validate_shard_name name ≡ none → is_empty (trim_space name) ≡ false
unfolding validate_shard_name check_component
not_blank name h = elim (Bool-cases (is_empty (trim_space name))) [
  | inl e ↦ absurd (ground (arith, rw e at h))
  | inr e ↦ e
]

drawn_name :
    (r : Registry) (layers : List Descriptor) (s : ModelShard) (d : Descriptor)
    → Ready r layers s
    → blob_name r s d ≡ s.name
unfolding blob_name
drawn_name r layers s d h = rw (not_blank s.name h.valid, h.trimmed) refl

drawn_Matches :
    (r : Registry) (layers : List Descriptor) (ss : List ModelShard) (bs : List RemoteBlob)
    → All (Ready r layers) ss
    → AllDrawn r layers ss bs
    → Matches ss bs
drawn_Matches r layers [] [] h d = tt
drawn_Matches r layers [] (b ∷ bs) h d = d
drawn_Matches r layers (s ∷ ss) [] h d = d
drawn_Matches r layers (s ∷ ss) (b ∷ bs) h d = (
  sym (d.0.named ∙ drawn_name r layers s d.0.layer h.0),
  sym d.0.same_digest,
  h.0.sized d.0.layer d.0.there d.0.of_digest ∙ sym d.0.same_size,
  drawn_Matches r layers ss bs h.1 d.1,
)

-- Names that no file and no other blob has.
fresh_names :
    (files : Map ShardFile) (ss : List ModelShard) (bs : List RemoteBlob)
    → Matches ss bs
    → All (λ (s : ModelShard). lookup s.name files ≡ none) ss
    → Pairwise (λ s t. s.name ≢ t.name) ss
    → FreshNames files bs
fresh_names files [] [] m new p = tt
fresh_names files [] (b ∷ bs) m new p = absurd m
fresh_names files (s ∷ ss) [] m new p = absurd m
fresh_names files (s ∷ ss) (b ∷ bs) m new p = (
  subst (λ n. lookup n files ≡ none) m.0 new.0,
  λ c.
      fresh_names (insert b.name (file_of c) files) ss bs m.3
        (All-each _ ss λ t i. other t c (All-Has _ ss p.0 t i) (All-Has _ ss new.1 t i)) p.1,
)
  where
    other :
        (t : ModelShard) (c : Text)
        → s.name ≢ t.name
        → lookup t.name files ≡ none
        → lookup t.name (insert b.name (file_of c) files) ≡ none
    other t c e l = elim (Bool-cases (text_eq b.name t.name)) [
      | inl g ↦ absurd (e (m.0 ∙ text_eq_sound b.name t.name g))
      | inr g ↦ rw (lookup-insert b.name t.name (file_of c) files, g) l
    ]

nowhere : (n : Text) → lookup {V = ShardFile} n [] ≡ none
unfolding lookup
nowhere n = refl

-- A model that a fetch returned, whose profile the lint finds valid and is tidy, has exactly the
-- blobs of its shards, with their names, digests and sizes, under distinct names.
pub fetch-Faithful :
    (r : Registry) (algorithm : Text → Option Text) (ref digest : Text) (f : FetchedModel)
    → fetch r ref ≡ ok f
    → (lint_profile algorithm (some f.profile) digest f.layers).valid ≡ true
    → Tidy f.profile.shards f.layers
    → Faithful f
unfolding sort_shards_by_ordinal
fetch-Faithful r algorithm ref digest f h lint tidy = (
  matches,
  fresh_names [] (sort_slice ordinal_less f.profile.shards) f.blobs matches
      (All-each _ _ λ s m. nowhere s.name)
      (sort_slice-Pairwise ordinal_less (λ s t. s.name ≢ t.name) (λ s t n e. n (sym e))
        f.profile.shards tidy.distinct),
)
  where
    pinned : Pinned r ref f
    pinned = fetch-Pinned r ref f h

    sound : ProfileSound algorithm f.profile digest f.layers
    sound = lint_profile-ProfileSound algorithm f.profile digest f.layers lint

    sized :
        (s : ModelShard)
        → Has s f.profile.shards
        → (l : Descriptor) → Has l pinned.manifest.layers
        → l.digest ≡ s.digest
        → s.size ≡ l.size
    sized s m l n e =
        let there : Has (layer_of l) f.layers =
          subst (Has (layer_of l)) (sym pinned.layers_kept)
            (Has-map layer_of l pinned.manifest.layers n) in
        one_size_of s l.digest f.profile.shards tidy.one_size m
          (All-Has (LayerSound f.profile.shards) f.layers sound.layers_sound (layer_of l) there
            (tidy.marked (layer_of l) there s m e))
          (sym e)

    each : All (Ready r pinned.manifest.layers) f.profile.shards
    each = All-each _ f.profile.shards λ s m. record {
      trimmed = All-Has _ f.profile.shards tidy.trimmed s m;
      valid = (All-Has (ShardSound algorithm) f.profile.shards sound.shards_sound s m).name_valid;
      sized = sized s m;
    }

    matches : Matches (sort_shards_by_ordinal f.profile.shards) f.blobs
    matches =
        drawn_Matches r pinned.manifest.layers (sort_slice ordinal_less f.profile.shards) f.blobs
          (All-sort_slice ordinal_less (Ready r pinned.manifest.layers) f.profile.shards each)
          pinned.blobs_drawn

-- Only a fetch that returned gives a model.
answered : (o : Result FetchedModel) (f : FetchedModel) → answer o ≡ fetched f → o ≡ ok f
unfolding answer
answered (ok g) f h = cc
answered (err e) f h = cc

-- Whatever becomes of an `Ensure` that fetches from a registry, as long as the profiles that it
-- fetches are tidy and its download workers never find the context done: a database in which every ready record has a path that verifies stays so, and a
-- path that is returned verifies.
pub ensure_fetched-Served :
    (env : Env) (registry : ℕ → Registry) (req : EnsureRequest) (w : World)
    → Uninterrupted env
    → ((n : ℕ) (ref : Text) → env.fetch n ref ≡ answer (fetch (registry n) ref))
    → ((n : ℕ) (ref : Text) (f : FetchedModel)
        → fetch (registry n) ref ≡ ok f
        → Tidy f.profile.shards f.layers)
    → AllVerified env w.db w.dirs
    → Meets (Served env) (AllVerified env) (ensure env req w)
ensure_fetched-Served env registry req w alive same tidy =
    ensure-Served env req w alive λ n ref f e digest lint.
      let got : fetch (registry n) ref ≡ ok f =
        answered (fetch (registry n) ref) f (sym (same n ref) ∙ e) in
      fetch-Faithful (registry n) env.algorithm ref digest f got lint (tidy n ref f got)
