-- ===== src/Registry/Pinned.antt =====
-- What `Fetch` of internal/registry/oras.go returns comes from content of the digests it is pinned to.
use mathlib.Core.Path.{subst}
use oci2gdsd.Prelude.{
  ℕ, ◌<◌, ◌≤◌, ◌≡◌, refl, ◌==◌, ltb, Bool, true, false, not, ◌||◌, Option, none, some, List, [],
  ◌∷◌, length, map, is_empty, Text, text_eq, text_eq_sound, Map, lookup, insert, lookup-insert, ℤ,
  pos, pos_part, ltb_ℤ, eq_ℤ, arith, Bool-cases, inl, inr, Has, ◌⊎◌,
}
use oci2gdsd.AppErr.{AppError, Result, ok, err}
use oci2gdsd.Names.{NameError, validate_shard_name}
use oci2gdsd.Ref.{ParsedRef, parsed, refused, parse_digest_pinned_ref}
use oci2gdsd.Profile.{ModelShard, ModelProfile, sort_shards_by_ordinal}
use oci2gdsd.Service.State.{RemoteBlob, FetchedModel}
use oci2gdsd.Registry.{
  Failure, Descriptor, Manifest, ReadResult, whole, read_failed, Registry, max_manifest_bytes,
  max_config_bytes, read_all_with_limit, ◌>>=◌, ◌>>◌, require, given, open_content, read,
  config_limit, layer_of, layer_map_from, resolution, fetch_manifest, fetch_profile, mismatch,
  invalid, size_mismatch, not_a_profile, blob_name, blob_of, blobs_of, fetch_from, fetch,
}

-- A computation that returned went through its first part.
record Split {A B : Type 0} (m : Result A) (f : A → Result B) (b : B) : Type 0 where
  value : A
  first : m ≡ ok value
  rest : f value ≡ ok b

split : {A B : Type 0} (m : Result A) (f : A → Result B) (b : B) → (m >>= f) ≡ ok b → Split m f b
split (ok a) f b h = record { value = a; first = refl; rest = h }
split (err e) f b h = cc

required :
    {B : Type 0} (t : Bool) (e : AppError) (n : Result B) (b : B)
    → (require t e >> n) ≡ ok b
    → (t ≡ true) × (n ≡ ok b)
required true e n b h = (refl, h)
required false e n b h = cc

given_ok : {A : Type 0} (o : Option A) (e : AppError) (a : A) → given o e ≡ ok a → o ≡ some a
given_ok (some b) e a h = cc
given_ok none e a h = cc

-- What is read is within the limit.
read_within :
    (t : Text) (f : Option Failure) (limit : ℕ) (b : Text)
    → read (read_all_with_limit t f limit) ≡ ok b
    → length b ≤ limit
unfolding read read_all_with_limit
read_within t f limit b h = elim (Bool-cases (limit == 0)) [
  | inl e ↦ absurd (ground (arith, rw e at h))
  | inr e ↦ elim (Bool-cases (ltb limit (length t))) [
    | inl g ↦ absurd (ground (arith, rw (e, g) at h))
    | inr g ↦ all_of (ground (arith, g)) f (rw (e, g) at h)
  ]
]
  where
    same : ◌≡◌ {A = Result Text} (ok t) (ok b) → length t ≡ length b
    same k = cc

    all_of :
        length t ≤ limit
        → (o : Option Failure)
        → read (elim o as (λ _. ReadResult) [ none ↦ whole t | some x ↦ read_failed x ]) ≡ ok b
        → length b ≤ limit
    all_of g none k = omega (arith, g, same k)
    all_of g (some x) k = cc

-- The manifest is the content of its digest.
pub record ManifestPinned (r : Registry) (digest : Text) (m : Manifest) : Type 0 where
  pub bytes : Text
  pub of_digest : r.from_bytes bytes ≡ digest
  pub bounded : length bytes ≤ max_manifest_bytes
  pub read_as : r.parse_manifest bytes ≡ some m

-- The profile is the content of the manifest's config, where the config has a digest and a size.
pub record ProfilePinned (r : Registry) (config : Descriptor) (p : ModelProfile) : Type 0 where
  pub bytes : Text
  pub of_digest : is_empty config.digest ≡ false → r.from_bytes bytes ≡ config.digest
  pub of_size : 0 < pos_part config.size → pos (length bytes) ≡ config.size
  pub bounded : length bytes ≤ max_config_bytes
  pub read_as : r.parse_profile bytes ≡ some p

fetch_manifest-Pinned :
    (r : Registry) (repository digest : Text) (m : Manifest)
    → fetch_manifest r repository digest ≡ ok m
    → ManifestPinned r digest m
unfolding fetch_manifest
fetch_manifest-Pinned r repository digest m h =
    let s₁ = split (resolution (r.resolve repository digest)) _ m h in
    let s₂ = required (text_eq s₁.value digest) mismatch _ m s₁.rest in
    let s₃ = split (open_content (r.content repository s₁.value)) _ m s₂.1 in
    let s₄ =
      split (read (read_all_with_limit s₃.value.0 s₃.value.1 max_manifest_bytes)) _ m s₃.rest in
    let s₅ =
      required (text_eq (r.from_bytes s₄.value) digest) mismatch
        (given (r.parse_manifest s₄.value) invalid) m s₄.rest in
    record {
      bytes = s₄.value;
      of_digest = text_eq_sound _ _ s₅.0;
      bounded = read_within s₃.value.0 s₃.value.1 max_manifest_bytes s₄.value s₄.first;
      read_as = given_ok (r.parse_manifest s₄.value) invalid m s₅.1;
    }

same_limit : {a b : ℕ} → ◌≡◌ {A = Result ℕ} (ok a) (ok b) → a ≡ b
same_limit e = cc

config_limit_le : (size : ℤ) (limit : ℕ) → config_limit size ≡ ok limit → limit ≤ max_config_bytes
unfolding config_limit
config_limit_le size limit h = elim (Bool-cases (ltb_ℤ (pos 0) size)) [
  | inr e ↦ omega (arith, same_limit (rw e at h))
  | inl e ↦ elim (Bool-cases (ltb_ℤ (pos max_config_bytes) size)) [
    | inl f ↦ absurd (ground (arith, rw (e, f) at h))
    | inr f ↦ omega (arith, same_limit (rw (e, f) at h), below size f)
  ]
]
  where
    below : (z : ℤ) → ltb_ℤ (pos max_config_bytes) z ≡ false → pos_part z ≤ max_config_bytes
    below z e = ground (arith, e)

right_size :
    (size : ℤ) (n : ℕ)
    → 0 < pos_part size
    → (not (ltb_ℤ (pos 0) size) || eq_ℤ (pos n) size) ≡ true
    → pos n ≡ size
right_size size n h e = ground (arith, e)

fetch_profile-Pinned :
    (r : Registry) (repository : Text) (config : Descriptor) (p : ModelProfile)
    → fetch_profile r repository config ≡ ok p
    → ProfilePinned r config p
unfolding fetch_profile
fetch_profile-Pinned r repository config p h =
    let s₁ = split (open_content (r.content repository config.digest)) _ p h in
    let s₂ = split (config_limit config.size) _ p s₁.rest in
    let s₃ = split (read (read_all_with_limit s₁.value.0 s₁.value.1 s₂.value)) _ p s₂.rest in
    let s₄ =
      required (not (ltb_ℤ (pos 0) config.size) || eq_ℤ (pos (length s₃.value)) config.size)
        size_mismatch _ p s₃.rest in
    let s₅ =
      required (is_empty config.digest || text_eq (r.from_bytes s₃.value) config.digest) mismatch
        (given (r.parse_profile s₃.value) not_a_profile) p s₄.1 in
    record {
      bytes = s₃.value;
      of_digest = λ e. text_eq_sound _ _ (ground (arith, e, s₅.0));
      of_size = λ e. right_size config.size (length s₃.value) e s₄.0;
      bounded = omega (
        arith,
        read_within s₁.value.0 s₁.value.1 s₂.value s₃.value s₃.first,
        config_limit_le config.size s₂.value s₂.first,
      );
      read_as = given_ok (r.parse_profile s₃.value) not_a_profile p s₅.1;
    }

-- What a blob is made of: the shard, and a layer of its digest.
pub record Drawn (r : Registry) (layers : List Descriptor) (s : ModelShard) (b : RemoteBlob)
    : Type 0 where
  pub layer : Descriptor
  pub there : Has layer layers
  pub of_digest : layer.digest ≡ s.digest
  pub same_digest : b.digest ≡ s.digest
  pub same_size : b.size ≡ layer.size
  pub named : b.name ≡ blob_name r s layer
  pub name_valid : validate_shard_name b.name ≡ none

-- One blob for each shard, in their order.
abbrev pub AllDrawn : Registry → List Descriptor → List ModelShard → List RemoteBlob → Type 0
AllDrawn r layers [] [] = Unit
AllDrawn r layers [] (b ∷ bs) = ⊥
AllDrawn r layers (s ∷ ss) [] = ⊥
AllDrawn r layers (s ∷ ss) (b ∷ bs) = Drawn r layers s b × AllDrawn r layers ss bs

same_some : {A : Type 0} {a b : A} → ◌≡◌ {A = Option A} (some a) (some b) → a ≡ b
same_some h = cc

same_ok : {A : Type 0} {a b : A} → ◌≡◌ {A = Result A} (ok a) (ok b) → a ≡ b
same_ok h = cc

-- What the map of layers has under a digest is a layer of that digest.
layer_map_from-Has :
    (k : Text) (d : Descriptor) (m : Map Descriptor) (ds : List Descriptor)
    → lookup k (layer_map_from m ds) ≡ some d
    → (Has d ds × (d.digest ≡ k)) ⊎ (lookup k m ≡ some d)
unfolding layer_map_from
layer_map_from-Has k d m [] h = inr h
layer_map_from-Has k d m (c ∷ ds) h = elim (layer_map_from-Has k d (insert c.digest c m) ds h) [
  | inl p ↦ inl (inr p.0, p.1)
  | inr p ↦ elim (Bool-cases (text_eq c.digest k)) [
    | inl e ↦
        let same : c ≡ d = same_some (rw (lookup-insert c.digest k c m, e) at p) in
        inl (inl same, subst (λ x. x.digest ≡ k) same (text_eq_sound c.digest k e))
    | inr e ↦ inr (rw (lookup-insert c.digest k c m, e) at p)
  ]
]

blob_of-Drawn :
    (r : Registry) (layers : List Descriptor) (s : ModelShard) (b : RemoteBlob)
    → blob_of r (layer_map_from [] layers) s ≡ ok b
    → Drawn r layers s b
unfolding blob_of lookup
blob_of-Drawn r layers s b h =
    let s₁ = split (given (lookup s.digest (layer_map_from [] layers)) _) _ b h in
    let d = s₁.value in
    let q = accepted d (validate_shard_name (blob_name r s d)) refl s₁.rest in
    elim (layer_map_from-Has s.digest d [] layers (given_ok _ _ d s₁.first)) [
      | inl l ↦ record {
        layer = d;
        there = l.0;
        of_digest = l.1;
        same_digest = subst (λ x. x.digest ≡ s.digest) q.1 l.1;
        same_size = subst (λ x. x.size ≡ d.size) q.1 refl;
        named = subst (λ x. x.name ≡ blob_name r s d) q.1 refl;
        name_valid = subst (λ x. validate_shard_name x.name ≡ none) q.1 q.0;
      }
      | inr e ↦ cc
    ]
  where
    blob : Descriptor → RemoteBlob
    blob d = record { name = blob_name r s d; digest = d.digest; size = d.size }

    accepted :
        (d : Descriptor) (o : Option NameError)
        → validate_shard_name (blob_name r s d) ≡ o
        → (elim o as (λ _. Result RemoteBlob) [ some e ↦ err not_a_profile | none ↦ ok (blob d) ])
          ≡ ok b
        → (validate_shard_name (blob_name r s d) ≡ none) × (blob d ≡ b)
    accepted d none e k = (e, same_ok k)
    accepted d (some x) e k = cc

blobs_of-Drawn :
    (r : Registry) (layers : List Descriptor) (ss : List ModelShard) (bs : List RemoteBlob)
    → blobs_of r (layer_map_from [] layers) ss ≡ ok bs
    → AllDrawn r layers ss bs
unfolding blobs_of
blobs_of-Drawn r layers [] bs h = subst (AllDrawn r layers []) (same_ok h) tt
blobs_of-Drawn r layers (s ∷ ss) bs h =
    let s₁ = split (blob_of r (layer_map_from [] layers) s) _ bs h in
    let s₂ = split (blobs_of r (layer_map_from [] layers) ss) _ bs s₁.rest in
    subst (AllDrawn r layers (s ∷ ss)) (same_ok s₂.rest)
      (blob_of-Drawn r layers s s₁.value s₁.first, blobs_of-Drawn r layers ss s₂.value s₂.first)

-- Where a fetched model comes from.
pub record Pinned (r : Registry) (ref : Text) (f : FetchedModel) : Type 0 where
  pub repository : Text
  pub digest : Text
  pub manifest : Manifest
  pub of_ref : parse_digest_pinned_ref r.algorithm ref ≡ parsed repository digest
  pub manifest_pinned : ManifestPinned r digest manifest
  pub profile_pinned : ProfilePinned r manifest.config f.profile
  pub layers_kept : f.layers ≡ map layer_of manifest.layers
  pub blobs_drawn : AllDrawn r manifest.layers (sort_shards_by_ordinal f.profile.shards) f.blobs

-- A fetch that returns has parsed the reference, read a manifest of the reference's digest and the
-- profile of that manifest's config, each within its limit, and made one blob for each shard, in the
-- order of the ordinals, with the digest of the shard, the size of a layer of that digest, and a
-- valid name.
pub fetch-Pinned :
    (r : Registry) (ref : Text) (f : FetchedModel) → fetch r ref ≡ ok f → Pinned r ref f
unfolding fetch fetch_from
fetch-Pinned r ref f h = known (parse_digest_pinned_ref r.algorithm ref) refl h
  where
    known :
        (o : ParsedRef)
        → parse_digest_pinned_ref r.algorithm ref ≡ o
        → (elim o as (λ _. Result FetchedModel) [
          | refused _ ↦ err invalid
          | parsed repository digest ↦ fetch_from r ref repository digest
        ])
          ≡ ok f
        → Pinned r ref f
    known (refused x) e k = cc
    known (parsed repository digest) e k =
        let s₁ = required (r.repository_ok repository) invalid _ f k in
        let s₂ = split (fetch_manifest r repository digest) _ f s₁.1 in
        let m = s₂.value in
        let s₃ = split (fetch_profile r repository m.config) _ f s₂.rest in
        let s₄ =
          split (blobs_of r (layer_map_from [] m.layers) (sort_shards_by_ordinal s₃.value.shards)) _
            f s₃.rest in
        subst (Pinned r ref) (same_ok s₄.rest) (record {
          repository = repository;
          digest = digest;
          manifest = m;
          of_ref = e;
          manifest_pinned = fetch_manifest-Pinned r repository digest m s₂.first;
          profile_pinned = fetch_profile-Pinned r repository m.config s₃.value s₃.first;
          layers_kept = refl;
          blobs_drawn = blobs_of-Drawn r m.layers _ s₄.value s₄.first;
        })
