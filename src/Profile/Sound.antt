-- ===== src/Profile/Sound.antt =====
-- What a profile that `LintProfile` of internal/app/profile.go finds valid is.
use oci2gdsd.Prelude.{
  ℕ, ◌+◌, ◌<◌, ◌≡◌, ◌≢◌, ◌⊎◌, inl, inr, refl, Bool, true, false, Option, none, some, List, [], ◌∷◌,
  ◌++◌, Text, text_eq_iff, is_empty, not, All, Map, lookup, insert, lookup-insert, ℤ, pos, pos_part,
  eq_ℤ, arith, Option-cases,
}
use oci2gdsd.Names.{validate_shard_name}
use oci2gdsd.Profile.{ModelShard, ModelProfile, ManifestLayer, manifest_digest_placeholder}
use oci2gdsd.Profile.Lint.{
  LintError, schema_version, complain, blank, malformed, bad_kind, name_errors, integrity_errors,
  header_errors, has_ordinal, add_ordinal, shard_errors, lint_shards, is_shard_layer, layer_errors,
  lint_layers, in_layers, missing_shards, manifest_errors, lint_profile,
}

-- No errors from two parts is no errors from each.
both_nil : (xs ys : List LintError) → xs ++ ys ≡ [] → (xs ≡ []) × (ys ≡ [])
both_nil [] ys h = (refl, h)
both_nil (x ∷ xs) ys h = cc

not_complained : (b : Bool) (e : LintError) → complain b e ≡ [] → b ≡ false
not_complained true e h = cc
not_complained false e h = refl

eq_ℤ-sound : (a b : ℤ) → eq_ℤ a b ≡ true → a ≡ b
eq_ℤ-sound a b h = ground arith

-- Ordinals that are neither in the list nor twice among the shards.
abbrev pub DistinctFrom : List ℤ → List ModelShard → Type 0
DistinctFrom os [] = Unit
DistinctFrom os (s ∷ shards) =
    (has_ordinal s.ordinal os ≡ false) × DistinctFrom (s.ordinal ∷ os) shards

add_new : (o : ℤ) (os : List ℤ) → has_ordinal o os ≡ false → add_ordinal o os ≡ o ∷ os
unfolding add_ordinal
add_new o os h = rw h

module _ (algorithm : Text → Option Text) where
  -- What holds of each shard.
  pub record ShardSound (s : ModelShard) : Type 0 where
    pub name_valid : validate_shard_name s.name ≡ none
    pub digest_formed : malformed algorithm s.digest ≡ false
    pub size_positive : 0 < pos_part s.size
    pub ordinal_positive : 0 < pos_part s.ordinal
    pub kind_known : bad_kind s.kind ≡ false

  name_errors_nil :
      (i : ℕ) (name : Text) → name_errors i name ≡ [] → validate_shard_name name ≡ none
  name_errors_nil i name h = ground arith

  shard_errors_nil :
      (i : ℕ) (os : List ℤ) (s : ModelShard)
      → shard_errors algorithm i os s ≡ []
      → ShardSound s × (has_ordinal s.ordinal os ≡ false)
  unfolding shard_errors
  shard_errors_nil i os s h =
      let a = both_nil _ _ h in
      let b = both_nil _ _ a.1 in
      let c = both_nil _ _ b.1 in
      let d = both_nil _ _ c.1 in
      let e = both_nil _ _ d.1 in
      (
        record {
          name_valid = name_errors_nil i s.name a.0;
          digest_formed = not_complained _ _ b.0;
          size_positive = ground (arith, not_complained _ _ c.0);
          ordinal_positive = ground (arith, not_complained _ _ d.0);
          kind_known = not_complained _ _ e.0;
        },
        not_complained _ _ e.1,
      )

  lint_shards_nil :
      (i : ℕ) (os : List ℤ) (ds : Map ModelShard) (shards : List ModelShard)
      → (lint_shards algorithm i os ds shards).0 ≡ []
      → All ShardSound shards × DistinctFrom os shards
  unfolding lint_shards
  lint_shards_nil i os ds [] h = (tt, tt)
  lint_shards_nil i os ds (s ∷ shards) h =
      let a = both_nil (shard_errors algorithm i os s) _ h in
      let (sound, fresh) = shard_errors_nil i os s a.0 in
      let (ss, os') =
        lint_shards_nil (i + 1) (s.ordinal ∷ os) (insert s.digest s ds) shards
          (rw (add_new s.ordinal os fresh) at a.1) in
      ((sound, ss), (fresh, os'))

-- Some shard of the list has the digest and the size.
abbrev pub HasShard : Text → ℤ → List ModelShard → Type 0
HasShard digest size [] = ⊥
HasShard digest size (s ∷ shards) =
    ((s.digest ≡ digest) × (s.size ≡ size)) ⊎ HasShard digest size shards

digests_HasShard :
    (algorithm : Text → Option Text) (i : ℕ) (os : List ℤ) (ds : Map ModelShard)
    (shards : List ModelShard) (d : Text) {s : ModelShard}
    → lookup d (lint_shards algorithm i os ds shards).2 ≡ some s
    → HasShard d s.size shards ⊎ (lookup d ds ≡ some s)
unfolding lint_shards
digests_HasShard algorithm i os ds [] d h = inr h
digests_HasShard algorithm i os ds (t ∷ shards) d {s} h =
    elim (digests_HasShard algorithm (i + 1) (add_ordinal t.ordinal os) (insert t.digest t ds)
      shards d h) [
        | inl p ↦ inl (inr p)
        | inr p ↦ ground (arith, lookup-insert t.digest d t ds, text_eq_iff t.digest d)
      ]

-- A layer of the manifest that is a shard is one of the profile's, at its size.
abbrev pub LayerSound : List ModelShard → ManifestLayer → Type 0
LayerSound shards l = is_shard_layer l ≡ true → HasShard l.digest l.size shards

layer_errors_nil :
    (algorithm : Text → Option Text) (shards : List ModelShard) (l : ManifestLayer)
    → layer_errors (lint_shards algorithm 0 [] [] shards).2 l ≡ []
    → LayerSound shards l
unfolding layer_errors lookup
layer_errors_nil algorithm shards l h layer =
    elim (Option-cases (lookup l.digest (lint_shards algorithm 0 [] [] shards).2)) [
      | inl e ↦ ground arith
      | inr (s, e) ↦ elim (digests_HasShard algorithm 0 [] [] shards l.digest e) [
        | inl p ↦ rw (← eq_ℤ-sound s.size l.size (ground (arith, e))) p
        | inr p ↦ cc
      ]
    ]

lint_layers_nil :
    (algorithm : Text → Option Text) (shards : List ModelShard) (layers : List ManifestLayer)
    → lint_layers (lint_shards algorithm 0 [] [] shards).2 layers ≡ []
    → All (LayerSound shards) layers
unfolding lint_layers
lint_layers_nil algorithm shards [] h = tt
lint_layers_nil algorithm shards (l ∷ layers) h =
    let a = both_nil (layer_errors (lint_shards algorithm 0 [] [] shards).2 l) _ h in
    (layer_errors_nil algorithm shards l a.0, lint_layers_nil algorithm shards layers a.1)

missing_shards_nil :
    (layers : List ManifestLayer) (shards : List ModelShard)
    → missing_shards layers shards ≡ []
    → All (λ (s : ModelShard). in_layers layers s.digest ≡ true) shards
unfolding missing_shards
missing_shards_nil layers [] h = tt
missing_shards_nil layers (s ∷ shards) h =
    let a = both_nil (complain (not (in_layers layers s.digest)) _) _ h in
    (ground (arith, not_complained _ _ a.0), missing_shards_nil layers shards a.1)

-- What holds of a valid profile, for a resolved digest and the layers of the manifest.
pub record ProfileSound (algorithm : Text → Option Text) (p : ModelProfile) (resolved : Text)
    (layers : List ManifestLayer) : Type 0 where
  pub schema : p.schema_version ≡ pos 1
  pub named :
      (blank p.model_id ≡ false)
      × (blank p.model_revision ≡ false)
      × (blank p.framework ≡ false)
      × (blank p.format ≡ false)
  pub some_shards : p.shards ≢ []
  pub integrity :
      (p.manifest_digest ≡ manifest_digest_placeholder)
      ⊎ (malformed algorithm p.manifest_digest ≡ false)
        × ((resolved ≡ []) ⊎ (p.manifest_digest ≡ resolved))
  pub shards_sound : All (ShardSound algorithm) p.shards
  pub ordinals_distinct : DistinctFrom [] p.shards
  pub layers_sound : All (LayerSound p.shards) layers
  pub shards_in_layers :
      layers ≢ [] → All (λ (s : ModelShard). in_layers layers s.digest ≡ true) p.shards

integrity_errors_nil :
    (algorithm : Text → Option Text) (declared resolved : Text)
    → integrity_errors algorithm declared resolved ≡ []
    → (declared ≡ manifest_digest_placeholder)
      ⊎ (malformed algorithm declared ≡ false) × ((resolved ≡ []) ⊎ (declared ≡ resolved))
unfolding integrity_errors is_empty
integrity_errors_nil algorithm declared [] h =
    ground (arith, text_eq_iff declared manifest_digest_placeholder)
integrity_errors_nil algorithm declared (c ∷ resolved) h =
    ground
      (arith, text_eq_iff declared manifest_digest_placeholder, text_eq_iff declared (c ∷ resolved))

manifest_errors_nil :
    (algorithm : Text → Option Text) (layers : List ManifestLayer) (shards : List ModelShard)
    → manifest_errors (lint_shards algorithm 0 [] [] shards).2 layers shards ≡ []
    → All (LayerSound shards) layers
      × (layers ≢ [] → All (λ (s : ModelShard). in_layers layers s.digest ≡ true) shards)
unfolding manifest_errors
manifest_errors_nil algorithm [] shards h = (tt, λ n. absurd (n refl))
manifest_errors_nil algorithm (l ∷ layers) shards h =
    let a = both_nil (lint_layers (lint_shards algorithm 0 [] [] shards).2 (l ∷ layers)) _ h in
    (
      lint_layers_nil algorithm shards (l ∷ layers) a.0,
      λ _. missing_shards_nil (l ∷ layers) shards a.1,
    )

is_empty_sound : (xs : List LintError) → is_empty xs ≡ true → xs ≡ []
unfolding is_empty
is_empty_sound [] h = refl
is_empty_sound (x ∷ xs) h = cc

shards_given : (shards : List ModelShard) → is_empty shards ≡ false → shards ≢ []
unfolding is_empty
shards_given [] h e = cc
shards_given (s ∷ shards) h e = cc

schema_one : (v : ℤ) → complain (not (eq_ℤ v (pos 1))) schema_version ≡ [] → v ≡ pos 1
schema_one v h = eq_ℤ-sound v (pos 1) (ground (arith, not_complained _ _ h))

-- A profile that `LintProfile` finds valid has schema version 1, its names, a manifest digest that is
-- the placeholder or well-formed and the resolved one, shards each with a valid name, digest, size,
-- ordinal and kind, distinct ordinals, and the layers of the manifest and the shards match.
pub lint_profile-ProfileSound :
    (algorithm : Text → Option Text) (p : ModelProfile) (resolved : Text)
    (layers : List ManifestLayer)
    → (lint_profile algorithm (some p) resolved layers).valid ≡ true
    → ProfileSound algorithm p resolved layers
unfolding lint_profile header_errors
lint_profile-ProfileSound algorithm p resolved layers h =
    let none_at_all = both_nil _ _ (is_empty_sound _ h) in
    let header = none_at_all.0 in
    let body = both_nil (lint_shards algorithm 0 [] [] p.shards).0 _ none_at_all.1 in
    let tail = both_nil (complain _ _) _ body.1 in
    let a = both_nil (complain _ _) _ header in
    let b = both_nil (complain _ _) _ a.1 in
    let c = both_nil (complain _ _) _ b.1 in
    let d = both_nil (complain _ _) _ c.1 in
    let e = both_nil (complain _ _) _ d.1 in
    let f = both_nil (complain _ _) _ e.1 in
    let loop = lint_shards_nil algorithm 0 [] [] p.shards body.0 in
    let manifest = manifest_errors_nil algorithm layers p.shards tail.1 in
    record {
      schema = schema_one p.schema_version a.0;
      named = (
        not_complained _ _ b.0,
        not_complained _ _ c.0,
        not_complained _ _ d.0,
        not_complained _ _ e.0,
      );
      some_shards = shards_given p.shards (not_complained _ _ f.0);
      integrity = integrity_errors_nil algorithm p.manifest_digest resolved f.1;
      shards_sound = loop.0;
      ordinals_distinct = loop.1;
      layers_sound = manifest.0;
      shards_in_layers = manifest.1;
    }
