-- ===== src/Profile/Sizes.antt =====
-- The exact sum that `sumShardSizes` of internal/app/service.go is to return.
use oci2gdsd.Prelude.{
  ℕ, ◌+◌, ◌≤◌, ◌≡◌, ◌↔◌, List, [], ◌∷◌, pos_part, neg_part, max_int64, All, arith,
}
use oci2gdsd.Profile.{ModelShard, sum, sum_from, sum_shard_sizes}

-- The exact sum of the sizes.
abbrev pub total_size : List ModelShard → ℕ
total_size [] = 0
total_size (s ∷ shards) = pos_part s.size + total_size shards

-- No size is negative.
abbrev pub Sized : List ModelShard → Type 0
Sized = All (λ (s : ModelShard). neg_part s.size ≡ 0)

-- No size is beyond `int64`.
abbrev pub InRange : List ModelShard → Type 0
InRange = All (λ (s : ModelShard). pos_part s.size ≤ max_int64)

sum_from_fits :
    (i total : ℕ) (shards : List ModelShard)
    → InRange shards
    → Sized shards
    → total + total_size shards ≤ max_int64
    → sum_from i total shards ≡ sum (total + total_size shards)
unfolding sum_from
sum_from_fits i total [] r z h = ground arith
sum_from_fits i total (s ∷ shards) r z h =
    ground (arith, sum_from_fits (i + 1) (total + pos_part s.size) shards r.1 z.1)

sum_from_sum :
    (i total : ℕ) (shards : List ModelShard) (n : ℕ)
    → InRange shards
    → total ≤ max_int64
    → sum_from i total shards ≡ sum n
    → Sized shards × (n ≡ total + total_size shards) × (n ≤ max_int64)
unfolding sum_from
sum_from_sum i total [] n r t h = ground arith
sum_from_sum i total (s ∷ shards) n r t h =
    ground (arith, sum_from_sum (i + 1) (total + pos_part s.size) shards n r.1)

-- For sizes in the range of `int64` the sum is returned just if no size is negative and the exact
-- sum is in range, and it is that sum.
pub sum_shard_sizes_iff :
    (shards : List ModelShard) (n : ℕ)
    → InRange shards
    → (sum_shard_sizes shards ≡ sum n) ↔ (Sized shards × (n ≡ total_size shards) × (n ≤ max_int64))
unfolding sum_shard_sizes
sum_shard_sizes_iff shards n r = (
  λ h. let p = sum_from_sum 0 0 shards n r (omega arith) h in (p.0, omega (arith, p.1), p.2),
  λ h. ground (arith, sum_from_fits 0 0 shards r h.0, h.1, h.2),
)
