-- ===== src/Tokens/Within.antt =====
-- The operations of internal/app/runtime_bundle_token.go but the issue add no token.
use oci2gdsd.Prelude.{
  ℕ, ◌+◌, ◌-◌, ◌==◌, leb, ◌≡◌, Bool, true, false, Option, none, some, [], ◌∷◌, length, take,
  is_empty, Text, trim_space, Map, lookup, erase, lookup-erase, sort_slice, arith, if◌then◌else◌,
}
use oci2gdsd.AppErr.{Result, ok, err}
use oci2gdsd.Tokens.{
  refused_token, Access, Tokens, Bundles, expired, delete_token, evict, evict_all, cleanup_from,
  older, enforce_limit, resolve_found, delete_each, revoke,
}

-- The records of a table are among those of another.
abbrev pub Within : Map Access → Map Access → Type 0
Within m n = (t : Text) (r : Access) → lookup t m ≡ some r → lookup t n ≡ some r

pub erase-Within : (u : Text) (m : Map Access) → Within (erase u m) m
erase-Within u m t r h = ground (arith, lookup-erase u t m, h)

pub either :
    (b : Bool) (x y : Bundles) (n : Map Access)
    → Within x.tokens n
    → Within y.tokens n
    → Within (if b then x else y).tokens n
either true x y n h k = h
either false x y n h k = k

pub either_answer :
    (b : Bool) (x y : Result (Text × Bool) × Bundles) (n : Map Access)
    → Within x.1.tokens n
    → Within y.1.tokens n
    → Within (if b then x else y).1.tokens n
either_answer true x y n h k = h
either_answer false x y n h k = k

pub cleanup_from-Within :
    (now : ℕ) (entries : Map Access) (s : Bundles)
    → Within (cleanup_from now entries s).tokens s.tokens
unfolding cleanup_from delete_token
cleanup_from-Within now [] s t r h = h
cleanup_from-Within now ((u, q) ∷ entries) s t r h =
    either (expired now q) (evict u q s) s s.tokens (erase-Within u s.tokens) (λ v p k. k) t r
      (cleanup_from-Within now entries (if expired now q then evict u q s else s) t r h)

pub evict_all-Within :
    (entries : Map Access) (s : Bundles) → Within (evict_all entries s).tokens s.tokens
unfolding evict_all delete_token
evict_all-Within [] s t r h = h
evict_all-Within ((u, q) ∷ entries) s t r h =
    erase-Within u s.tokens t r (evict_all-Within entries (evict u q s) t r h)

pub enforce_limit-Within :
    (limit now : ℕ) (s : Bundles) → Within (enforce_limit limit now s).tokens s.tokens
unfolding enforce_limit
enforce_limit-Within limit now s =
    either (limit == 0) s _ s.tokens (λ t r h. h)
      (either (leb (length s.tokens) limit) s _ s.tokens (λ t r h. h)
        (evict_all-Within (take (length s.tokens - limit) (sort_slice (older now) s.tokens)) s))

pub delete_each-Within : (set : Tokens) (m : Map Access) → Within (delete_each set m) m
unfolding delete_each
delete_each-Within [] m t r h = h
delete_each-Within ((u, x) ∷ set) m t r h =
    erase-Within u m t r (delete_each-Within set (erase u m) t r h)

pub revoke-Within : (text : Text) (s : Bundles) → Within (revoke text s).tokens s.tokens
unfolding revoke
revoke-Within text s =
    either (is_empty (trim_space text)) s _ s.tokens (λ t r h. h)
      (sets (lookup (trim_space text) s.by_allocation))
  where
    sets :
        (o : Option Tokens)
        → Within
            (elim o as (λ _. Bundles) [
              | none ↦ record s { by_allocation = erase (trim_space text) s.by_allocation }
              | some set ↦ record s {
                tokens = delete_each set s.tokens;
                by_allocation = erase (trim_space text) s.by_allocation;
                evictions = s.evictions + length set;
              }
            ]).tokens
            s.tokens
    sets none t r h = h
    sets (some set) t r h = delete_each-Within set s.tokens t r h

pub resolve_found-Within :
    (now : ℕ) (u : Text) (s : Bundles) → Within (resolve_found now u s).1.tokens s.tokens
unfolding resolve_found delete_token
resolve_found-Within now u s = looked (lookup u s.tokens)
  where
    looked :
        (o : Option Access)
        → Within
            (elim o as (λ _. Result (Text × Bool) × Bundles) [
              | none ↦ (err refused_token, record s { misses = s.misses + 1 })
              | some r ↦
                  if expired now r
                  then (
                    err refused_token,
                    record (delete_token u r.allocation_id s) { misses = s.misses + 1 },
                  )
                  else (ok (r.allocation_id, r.include_weights), record s { hits = s.hits + 1 })
            ]).1.tokens
            s.tokens
    looked none = λ t r h. h
    looked (some q) =
        either_answer (expired now q)
          (err refused_token, record (delete_token u q.allocation_id s) { misses = s.misses + 1 })
          (ok (q.allocation_id, q.include_weights), record s { hits = s.hits + 1 }) s.tokens
          (erase-Within u s.tokens) (λ t r h. h)
