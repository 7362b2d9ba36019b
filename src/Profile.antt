-- ===== src/Profile.antt =====
-- internal/app/profile.go: the profile of a model, its shards and its layers, and the functions on
-- shards; `sumShardSizes` of internal/app/service.go. `Profile.Lint` has `LintProfile`.
pub mod Lint
pub mod Sound
pub mod Sizes
use oci2gdsd.Prelude.{
  ℕ, suc, ◌-◌, ◌+◌, Bool, true, false, ◌||◌, Option, none, some, List, [], ◌∷◌, length, keep, Text,
  codes, text_eq, is_empty, trim_space, lower, sort_slice, ℤ, pos, negsuc, ltb, ltb_ℤ, ◌+ℤ◌,
  wrap_int64, max_int64, if◌then◌else◌,
}

pub record ModelShard : Type 0 where
  pub name : Text
  pub digest : Text
  pub size : ℤ
  pub ordinal : ℤ
  pub kind : Text
  pub alignment : ℤ

-- `LoadPlan` and `IOHints` are kept for other programs and read by none of this code.
pub record ModelProfile : Type 0 where
  pub schema_version : ℤ
  pub model_id : Text
  pub model_revision : Text
  pub framework : Text
  pub format : Text
  pub shards : List ModelShard
  pub manifest_digest : Text
  pub tensor_map_digest : Text

pub record ManifestLayer : Type 0 where
  pub media_type : Text
  pub digest : Text
  pub size : ℤ

abbrev pub media_type_model_artifact : Text
media_type_model_artifact = codes "application/vnd.oci2gdsd.model.v1"

abbrev pub manifest_digest_placeholder : Text
manifest_digest_placeholder = codes "resolved-manifest-digest"

pub record ProfileSummary : Type 0 where
  pub model_id : Text
  pub model_revision : Text
  pub framework : Text
  pub format : Text
  pub shard_count : ℕ
  pub total_shard_size : ℤ
  pub manifest_digest : Text

-- `total += shard.Size` wraps.
unfoldable pub total_from : ℤ → List ModelShard → ℤ
total_from total [] = total
total_from total (s ∷ shards) = total_from (wrap_int64 (total +ℤ s.size)) shards

unfoldable pub build_profile_summary : Option ModelProfile → ProfileSummary
unfolding total_from
build_profile_summary none = record {
  model_id = [];
  model_revision = [];
  framework = [];
  format = [];
  shard_count = 0;
  total_shard_size = pos 0;
  manifest_digest = [];
}
build_profile_summary (some p) = record {
  model_id = p.model_id;
  model_revision = p.model_revision;
  framework = p.framework;
  format = p.format;
  shard_count = length p.shards;
  total_shard_size = total_from (pos 0) p.shards;
  manifest_digest = p.manifest_digest;
}

unfoldable pub ordinal_less : ModelShard → ModelShard → Bool
ordinal_less a b = ltb_ℤ a.ordinal b.ordinal

unfoldable pub sort_shards_by_ordinal : List ModelShard → List ModelShard
unfolding ordinal_less
sort_shards_by_ordinal = sort_slice ordinal_less

unfoldable pub shard_is_weight : ModelShard → Bool
shard_is_weight s =
    let kind = lower (trim_space s.kind) in is_empty kind || text_eq kind (codes "weight")

unfoldable pub filter_weight_shards : List ModelShard → List ModelShard
unfolding shard_is_weight
filter_weight_shards = keep shard_is_weight

-- Why `sumShardSizes` fails, and at which shard.
pub data SumResult : Type 0 where
  sum : ℕ → SumResult
  negative_size overflow : ℕ → SumResult

-- The loop; the total is never negative, and the sizes are `int64`.
unfoldable pub sum_from : ℕ → ℕ → List ModelShard → SumResult
sum_from i total [] = sum total
sum_from i total (s ∷ shards) =
    let rest = λ (n : ℕ). sum_from (i + 1) (total + n) shards in
    elim s.size [
      | negsuc _ ↦ negative_size i
      | pos n ↦ if ltb (max_int64 - n) total then overflow i else rest n
    ]

unfoldable pub sum_shard_sizes : List ModelShard → SumResult
unfolding sum_from
sum_shard_sizes shards = sum_from 0 0 shards
