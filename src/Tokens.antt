-- ===== src/Tokens.antt =====
-- internal/app/runtime_bundle_token.go: the tokens that give access to runtime bundles, and their
-- limit of internal/app/runtime_controls.go. The lock is held throughout each operation. A time is
-- in nanoseconds, 0 the zero time; `next_token` is the text for a sequence number and an allocation.
pub mod Table
pub mod Consistency
pub mod Revocation
pub mod Within
pub mod Revoked
pub mod Traces
pub mod Limit
pub mod Issued
use oci2gdsd.Prelude.{
  ℕ, suc, ◌+◌, ◌-◌, ◌==◌, ltb, leb, Bool, true, false, not, ◌&&◌, Option, none, some, List, [], ◌∷◌,
  length, take, is_empty, Text, text_eq, text_lt, trim_space, Map, lookup, insert, erase,
  sort_slice, ℤ, pos, pos_part, leb_ℤ, if◌then◌else◌,
}
use oci2gdsd.AppErr.{new_app_error, exit_validation, validation_failed, AppError, Result, ok, err}

-- `runtimeBundleAccessToken`
pub record Access : Type 0 where
  pub allocation_id : Text
  pub include_weights : Bool
  pub created_at : ℕ
  pub expires_at : ℕ

-- A set of tokens, as a map without values.
abbrev pub Tokens : Type 0
Tokens = Map (Unit {0})

pub record Bundles : Type 0 where
  pub seq : ℕ
  pub tokens : Map Access
  pub by_allocation : Map Tokens
  pub hits : ℕ
  pub misses : ℕ
  pub evictions : ℕ

-- `bundleTTL`: five minutes.
abbrev pub bundle_ttl : ℕ
bundle_ttl = 300000000000

abbrev pub refused_token : AppError
refused_token = new_app_error exit_validation validation_failed

-- `runtimeBundleTokenLimit`
unfoldable pub token_limit : ℤ → ℕ
token_limit configured = if leb_ℤ configured (pos 0) then 1024 else pos_part configured

unfoldable pub expired : ℕ → Access → Bool
expired now r = not (r.expires_at == 0) && ltb r.expires_at now

-- The allocation's set without the token; an empty set is dropped.
unfoldable pub drop_from_set : Text → Text → Map Tokens → Map Tokens
drop_from_set token allocation sets = elim (lookup allocation sets) [
  | none ↦ sets
  | some set ↦
      let rest = erase token set in
      if is_empty rest then erase allocation sets else insert allocation rest sets
]

-- `deleteRuntimeBundleTokenLocked`
unfoldable pub delete_token : Text → Text → Bundles → Bundles
unfolding drop_from_set
delete_token token allocation s = record s {
  tokens = erase token s.tokens;
  by_allocation = drop_from_set token allocation s.by_allocation;
}

abbrev pub evict : Text → Access → Bundles → Bundles
evict token r s = record (delete_token token r.allocation_id s) { evictions = s.evictions + 1 }

unfoldable pub evict_all : Map Access → Bundles → Bundles
unfolding delete_token
evict_all [] s = s
evict_all ((token, r) ∷ entries) s = evict_all entries (evict token r s)

unfoldable pub cleanup_from : ℕ → Map Access → Bundles → Bundles
unfolding expired delete_token
cleanup_from now [] s = s
cleanup_from now ((token, r) ∷ entries) s =
    cleanup_from now entries (if expired now r then evict token r s else s)

-- `cleanupExpiredRuntimeBundleTokensLocked`
unfoldable pub cleanup_expired : ℕ → Bundles → Bundles
unfolding cleanup_from
cleanup_expired now s = cleanup_from now s.tokens s

abbrev pub created : ℕ → Access → ℕ
created now r = if r.created_at == 0 then now else r.created_at

-- Older, and by the text of the token among those of one time.
unfoldable pub older : ℕ → Text × Access → Text × Access → Bool
older now (t, r) (u, q) =
    if created now r == created now q then text_lt t u else ltb (created now r) (created now q)

-- `enforceRuntimeBundleTokenLimitLocked`
unfoldable pub enforce_limit : ℕ → ℕ → Bundles → Bundles
unfolding older evict_all
enforce_limit limit now s =
    if limit == 0
    then s
    else if leb (length s.tokens) limit
    then s
    else evict_all (take (length s.tokens - limit) (sort_slice (older now) s.tokens)) s

abbrev pub set_of : Option Tokens → Tokens
set_of none = []
set_of (some set) = set

abbrev pub add_to_set : Text → Text → Map Tokens → Map Tokens
add_to_set token allocation sets =
    insert allocation (insert token tt (set_of (lookup allocation sets))) sets

-- The record of a new token.
unfoldable pub add_token : Text → Text → Access → Bundles → Bundles
add_token token allocation r s = record s {
  seq = s.seq + 1;
  tokens = insert token r s.tokens;
  by_allocation = add_to_set token allocation s.by_allocation;
}

module _ (next_token : ℕ → Text → Text) where
  -- `issueRuntimeBundleToken`
  unfoldable pub issue : ℤ → ℕ → Text → Bool → Bundles → (Text × ℕ) × Bundles
  unfolding cleanup_expired add_token token_limit enforce_limit
  issue configured now allocation include_weights s =
      let s₁ = cleanup_expired now s in
      let token = next_token (s.seq + 1) allocation in
      let r : Access = record {
        allocation_id = allocation;
        include_weights = include_weights;
        created_at = now;
        expires_at = now + bundle_ttl;
      } in
      (
        (token, now + bundle_ttl),
        enforce_limit (token_limit configured) now (add_token token allocation r s₁),
      )

-- The record of a token, after those that expired are gone.
unfoldable pub resolve_found : ℕ → Text → Bundles → Result (Text × Bool) × Bundles
unfolding expired delete_token
resolve_found now token s = elim (lookup token s.tokens) [
  | none ↦ (err refused_token, record s { misses = s.misses + 1 })
  | some r ↦
      if expired now r
      then (
        err refused_token,
        record (delete_token token r.allocation_id s) { misses = s.misses + 1 },
      )
      else (ok (r.allocation_id, r.include_weights), record s { hits = s.hits + 1 })
]

-- `resolveRuntimeBundleToken`
unfoldable pub resolve : ℕ → Text → Bundles → Result (Text × Bool) × Bundles
unfolding cleanup_expired resolve_found
resolve now text s =
    let token = trim_space text in
    if is_empty token
    then (err refused_token, s)
    else resolve_found now token (cleanup_expired now s)

-- `for token := range set { delete(s.bundleMap, token) }`
unfoldable pub delete_each : Tokens → Map Access → Map Access
delete_each [] tokens = tokens
delete_each ((token, _) ∷ set) tokens = delete_each set (erase token tokens)

-- `revokeRuntimeBundleTokensForAllocation`
unfoldable pub revoke : Text → Bundles → Bundles
unfolding delete_each
revoke text s =
    let allocation = trim_space text in
    if is_empty allocation then s else elim (lookup allocation s.by_allocation) [
      | none ↦ record s { by_allocation = erase allocation s.by_allocation }
      | some set ↦ record s {
        tokens = delete_each set s.tokens;
        by_allocation = erase allocation s.by_allocation;
        evictions = s.evictions + length set;
      }
    ]

-- What is asked of the tokens, each at its time.
pub data TokenCall : Type 0 where
  issues : Text → Bool → TokenCall
  resolves revokes : Text → TokenCall

unfoldable pub run_token_call : (ℕ → Text → Text) → ℤ → ℕ → TokenCall → Bundles → Bundles
unfolding issue resolve revoke
run_token_call next_token configured now (issues allocation include_weights) s =
    (issue next_token configured now allocation include_weights s).1
run_token_call next_token configured now (resolves text) s = (resolve now text s).1
run_token_call next_token configured now (revokes text) s = revoke text s

unfoldable pub run_token_calls : (ℕ → Text → Text) → ℤ → List (ℕ × TokenCall) → Bundles → Bundles
unfolding run_token_call
run_token_calls next_token configured [] s = s
run_token_calls next_token configured ((now, c) ∷ calls) s =
    run_token_calls next_token configured calls (run_token_call next_token configured now c s)

-- `Recover` begins with no token.
abbrev pub no_tokens : Bundles
no_tokens = record { seq = 0; tokens = []; by_allocation = []; hits = 0; misses = 0; evictions = 0 }
