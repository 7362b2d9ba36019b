-- ===== src/Profile/Lint.antt =====
-- `LintProfile` of internal/app/profile.go. The messages are constructors, with the index where the
-- message has one; the parser of digests is the parameter `algorithm`. The sum of the sizes that the
-- loop computes is not used and is left out.
use oci2gdsd.Prelude.{
  ℕ, ◌+◌, Bool, true, false, not, ◌&&◌, ◌==◌, Option, none, some, List, [], ◌∷◌, ◌++◌, length, Text,
  codes, text_eq, is_empty, trim_space, lower, contains, Map, lookup, insert, ℤ, pos, eq_ℤ, leb_ℤ,
  if◌then◌else◌,
}
use oci2gdsd.Names.{NameError, validate_shard_name}
use oci2gdsd.Profile.{ModelShard, ModelProfile, ManifestLayer, manifest_digest_placeholder}

pub data LintError : Type 0 where
  profile_nil schema_version model_id_required model_revision_required : LintError
  framework_required format_required no_shards : LintError
  integrity_required integrity_malformed integrity_mismatch : LintError
  shard_name_required shard_digest_malformed shard_size shard_ordinal shard_kind : ℕ → LintError
  shard_name_invalid : ℕ → NameError → LintError
  duplicate_ordinal : ℤ → LintError
  ordinals_incomplete : LintError
  layer_not_in_profile layer_size_mismatch shard_not_in_layers : Text → LintError

pub data LintWarning : Type 0 where
  non_standard_format digest_placeholder : LintWarning
  non_shard_layer : Text → LintWarning

pub record LintResult : Type 0 where
  pub valid : Bool
  pub errors : List LintError
  pub warnings : List LintWarning

-- `if fails { errs = append(errs, e) }`
abbrev pub complain : Bool → LintError → List LintError
complain true e = e ∷ []
complain false e = []

abbrev pub blank : Text → Bool
blank s = is_empty (trim_space s)

module _ (algorithm : Text → Option Text) where
  abbrev pub malformed : Text → Bool
  malformed d = elim (algorithm d) [ none ↦ true | some _ ↦ false ]

  -- The tests before the loop over the shards.
  unfoldable pub integrity_errors : Text → Text → List LintError
  integrity_errors declared resolved =
      if is_empty declared
      then integrity_required ∷ []
      else if text_eq declared manifest_digest_placeholder
      then []
      else if malformed declared
      then integrity_malformed ∷ []
      else complain (not (is_empty resolved) && not (text_eq declared resolved)) integrity_mismatch

  unfoldable pub header_errors : ModelProfile → Text → List LintError
  unfolding integrity_errors
  header_errors p resolved =
      complain (not (eq_ℤ p.schema_version (pos 1))) schema_version
      ++ (complain (blank p.model_id) model_id_required
          ++ (complain (blank p.model_revision) model_revision_required
              ++ (complain (blank p.framework) framework_required
                  ++ (complain (blank p.format) format_required
                      ++ (complain (is_empty p.shards) no_shards
                          ++ integrity_errors p.manifest_digest resolved)))))

unfoldable pub has_ordinal : ℤ → List ℤ → Bool
has_ordinal o [] = false
has_ordinal o (p ∷ os) = if eq_ℤ p o then true else has_ordinal o os

-- `ordinals[o] = true`, in the set of ordinals seen.
unfoldable pub add_ordinal : ℤ → List ℤ → List ℤ
unfolding has_ordinal
add_ordinal o os = if has_ordinal o os then os else o ∷ os

abbrev pub name_errors : ℕ → Text → List LintError
name_errors i name =
    if blank name
    then shard_name_required i ∷ []
    else elim (validate_shard_name name) [ none ↦ [] | some e ↦ shard_name_invalid i e ∷ [] ]

abbrev pub bad_kind : Text → Bool
bad_kind kind =
    let k = lower (trim_space kind) in
    not (is_empty k) && not (text_eq k (codes "weight")) && not (text_eq k (codes "runtime"))

module _ (algorithm : Text → Option Text) where
  -- One round of the loop over the shards.
  unfoldable pub shard_errors : ℕ → List ℤ → ModelShard → List LintError
  unfolding has_ordinal
  shard_errors i ordinals s =
      name_errors i s.name
      ++ (complain (malformed algorithm s.digest) (shard_digest_malformed i)
          ++ (complain (leb_ℤ s.size (pos 0)) (shard_size i)
              ++ (complain (leb_ℤ s.ordinal (pos 0)) (shard_ordinal i)
                  ++ (complain (bad_kind s.kind) (shard_kind i)
                      ++ complain (has_ordinal s.ordinal ordinals) (duplicate_ordinal s.ordinal)))))

  -- The loop: the errors, the ordinals seen and the last shard of each digest.
  unfoldable pub lint_shards :
      ℕ → List ℤ → Map ModelShard → List ModelShard → List LintError × List ℤ × Map ModelShard
  unfolding shard_errors add_ordinal
  lint_shards i ordinals digests [] = ([], ordinals, digests)
  lint_shards i ordinals digests (s ∷ shards) =
      let rest =
        lint_shards (i + 1) (add_ordinal s.ordinal ordinals) (insert s.digest s digests) shards in
      (shard_errors i ordinals s ++ rest.0, rest.1, rest.2)

abbrev pub is_shard_layer : ManifestLayer → Bool
is_shard_layer l = contains l.media_type (codes "model.shard")

unfoldable pub layer_errors : Map ModelShard → ManifestLayer → List LintError
layer_errors digests l =
    if is_shard_layer l
    then elim (lookup l.digest digests) [
      | none ↦ layer_not_in_profile l.digest ∷ []
      | some s ↦ complain (not (eq_ℤ s.size l.size)) (layer_size_mismatch s.name)
    ]
    else []

unfoldable pub lint_layers : Map ModelShard → List ManifestLayer → List LintError
unfolding layer_errors
lint_layers digests [] = []
lint_layers digests (l ∷ layers) = layer_errors digests l ++ lint_layers digests layers

unfoldable pub layer_warnings : List ManifestLayer → List LintWarning
layer_warnings [] = []
layer_warnings (l ∷ layers) =
    let rest = layer_warnings layers in
    if is_shard_layer l then rest else non_shard_layer l.digest ∷ rest

unfoldable pub in_layers : List ManifestLayer → Text → Bool
in_layers [] digest = false
in_layers (l ∷ layers) digest = if text_eq l.digest digest then true else in_layers layers digest

unfoldable pub missing_shards : List ManifestLayer → List ModelShard → List LintError
unfolding in_layers
missing_shards layers [] = []
missing_shards layers (s ∷ shards) =
    complain (not (in_layers layers s.digest)) (shard_not_in_layers s.name)
    ++ missing_shards layers shards

-- `if len(layers) > 0 { … }`
unfoldable pub manifest_errors :
    Map ModelShard → List ManifestLayer → List ModelShard → List LintError
unfolding lint_layers missing_shards
manifest_errors digests [] shards = []
manifest_errors digests (l ∷ layers) shards =
    lint_layers digests (l ∷ layers) ++ missing_shards (l ∷ layers) shards

unfoldable pub header_warnings : ModelProfile → List LintWarning
header_warnings p =
    let format = lower (trim_space p.format) in
    (if not (is_empty format)
        && not (text_eq format (codes "safetensors"))
        && not (text_eq format (codes "gguf"))
      then non_standard_format ∷ []
      else [])
    ++ (if not (is_empty p.manifest_digest) && text_eq p.manifest_digest manifest_digest_placeholder
        then digest_placeholder ∷ []
        else [])

module _ (algorithm : Text → Option Text) where
  unfoldable pub lint_profile : Option ModelProfile → Text → List ManifestLayer → LintResult
  unfolding header_errors lint_shards manifest_errors header_warnings layer_warnings
  lint_profile none resolved layers = record {
    valid = false;
    errors = profile_nil ∷ [];
    warnings = [];
  }
  lint_profile (some p) resolved layers =
      let loop = lint_shards algorithm 0 [] [] p.shards in
      let errs =
        header_errors algorithm p resolved
        ++ (loop.0
            ++ (complain (not (length loop.1 == length p.shards)) ordinals_incomplete
                ++ manifest_errors loop.2 layers p.shards)) in
      record {
        valid = is_empty errs;
        errors = errs;
        warnings = header_warnings p ++ layer_warnings layers;
      }
