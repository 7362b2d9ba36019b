-- ===== src/Tokens/Limit.antt =====
-- How many tokens internal/app/runtime_bundle_token.go keeps.
use oci2gdsd.Prelude.{
  ℕ, zero, suc, ◌+◌, ◌-◌, ◌≤◌, ◌==◌, leb, ◌≡◌, refl, Bool, false, some, [], ◌∷◌, length, take, Text,
  text_eq, text_eq_iff, Map, lookup, erase, lookup-erase, Apart, insert-Apart, All, All-map,
  Pairwise, sort_slice, All-sort_slice, sort_slice-Pairwise, length-sort_slice, ℤ, arith,
  Bool-cases, inl, inr,
}
use oci2gdsd.Tokens.{
  Access, Bundles, delete_token, evict, evict_all, cleanup_expired, older, enforce_limit, add_token,
  token_limit, issue,
}
use oci2gdsd.Tokens.Table.{Consistent}
use oci2gdsd.Tokens.Consistency.{cleanup_expired-Consistent, entries_found, All-take}

-- The key is there.
abbrev Present : Map Access → Text × Access → Type 0
Present m e = lookup e.0 m ≡ some e.1

abbrev Differ : Text × Access → Text × Access → Type 0
Differ e f = text_eq e.0 f.0 ≡ false

length-erase_le : (k : Text) (m : Map Access) → length (erase k m) ≤ length m
unfolding erase
length-erase_le k [] = omega arith
length-erase_le k ((j, v) ∷ m) = ground (arith, length-erase_le k m)

length-erase :
    (k : Text) (v : Access) (m : Map Access)
    → lookup k m ≡ some v
    → suc (length (erase k m)) ≤ length m
unfolding erase lookup
length-erase k v [] h = absurd (ground arith)
length-erase k v ((j, w) ∷ m) h = elim (Bool-cases (text_eq j k)) [
  | inl e ↦ rw e (omega (arith, length-erase_le k m))
  | inr e ↦ rw e (omega (arith, length-erase k v m (rw e at h)))
]

-- Entries of different keys, all there, are all evicted.
length-evict_all :
    (entries : Map Access) (s : Bundles)
    → All (Present s.tokens) entries
    → Pairwise Differ entries
    → length (evict_all entries s).tokens + length entries ≤ length s.tokens
unfolding evict_all delete_token
length-evict_all [] s h d = omega arith
length-evict_all ((t, r) ∷ entries) s h d = omega (
  arith,
  length-erase t r s.tokens h.0,
  length-evict_all entries (evict t r s) (rest entries d.0 h.1) d.1,
)
  where
    rest :
        (es : Map Access)
        → All (Differ (t, r)) es
        → All (Present s.tokens) es
        → All (Present (erase t s.tokens)) es
    rest [] a b = tt
    rest (e ∷ es) a b = (ground (arith, lookup-erase t e.0 s.tokens, a.0, b.0), rest es a.1 b.1)

Apart-Differ : (m : Map Access) → Apart m → Pairwise Differ m
unfolding lookup
Apart-Differ [] h = tt
Apart-Differ ((k, v) ∷ m) h = (
  All-map (Present m) (Differ (k, v)) m
      (λ e f. elim (Bool-cases (text_eq k e.0)) [
        | inr g ↦ g
        | inl g ↦ absurd (ground (arith, f, h.0, text_eq_iff k e.0, g))
      ])
      (entries_found m h.1),
  Apart-Differ m h.1,
)

Differ-sym : (e f : Text × Access) → Differ e f → Differ f e
Differ-sym e f h = ground (arith, h, text_eq_iff e.0 f.0, text_eq_iff f.0 e.0)

Pairwise-take : (n : ℕ) (m : Map Access) → Pairwise Differ m → Pairwise Differ (take n m)
unfolding take
Pairwise-take zero m h = tt
Pairwise-take (suc n) [] h = tt
Pairwise-take (suc n) (e ∷ m) h = (All-take (Differ e) n m h.0, Pairwise-take n m h.1)

length-take : (n : ℕ) (m : Map Access) → n ≤ length m → length (take n m) ≡ n
unfolding take
length-take zero m h = refl
length-take (suc n) [] h = absurd (omega arith)
length-take (suc n) (e ∷ m) h = omega (arith, length-take n m (omega arith))

enforce_limit_bound :
    (limit now : ℕ) (s : Bundles)
    → Apart s.tokens
    → (limit == 0) ≡ false
    → length (enforce_limit limit now s).tokens ≤ limit
unfolding enforce_limit
enforce_limit_bound limit now s h z = elim (Bool-cases (leb (length s.tokens) limit)) [
  | inl f ↦ rw (z, f) (ground (arith, f))
  | inr f ↦ rw (z, f) (ground (arith, f, evicted, size))
]
  where
    extra : Map Access
    extra = take (length s.tokens - limit) (sort_slice (older now) s.tokens)

    evicted : length (evict_all extra s).tokens + length extra ≤ length s.tokens
    evicted =
        length-evict_all extra s
          (All-take (Present s.tokens) _ _
            (All-sort_slice (older now) (Present s.tokens) s.tokens (entries_found s.tokens h)))
          (Pairwise-take _ _
            (sort_slice-Pairwise (older now) Differ Differ-sym s.tokens (Apart-Differ s.tokens h)))

    size : length extra ≡ length s.tokens - limit
    size = length-take _ _ (omega (arith, length-sort_slice (older now) s.tokens))

limit_positive : (configured : ℤ) → (token_limit configured == 0) ≡ false
unfolding token_limit
limit_positive configured = ground arith

-- After the issue of a token there are no more tokens than the limit, where the tables agreed.
pub issue-limit :
    (next_token : ℕ → Text → Text) (configured : ℤ) (now : ℕ) (allocation : Text)
    (include_weights : Bool) (s : Bundles)
    → Consistent s
    → length (issue next_token configured now allocation include_weights s).1.tokens
      ≤ token_limit configured
unfolding issue add_token
issue-limit next_token configured now allocation include_weights s h =
    enforce_limit_bound (token_limit configured) now _
      (insert-Apart _ _ (cleanup_expired now s).tokens (cleanup_expired-Consistent now s h).apart)
      (limit_positive configured)
