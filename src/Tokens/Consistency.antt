-- ===== src/Tokens/Consistency.antt =====
-- The operations of internal/app/runtime_bundle_token.go keep its two tables in agreement.
use oci2gdsd.Prelude.{
  ℕ, zero, suc, ◌+◌, ◌-◌, ◌==◌, leb, ◌≡◌, refl, sym, ◌∙◌, Bool, true, false, ◌&&◌, Option, none,
  some, List, [], ◌∷◌, length, take, is_empty, Text, text_eq, text_eq_iff, text_eq_refl, trim_space,
  Map, lookup, erase, lookup-erase, Apart, insert-Apart, erase-Apart, All, All-map, sort_slice,
  All-sort_slice, ℤ, arith, Bool-cases, inl, inr, if◌then◌else◌,
}
use oci2gdsd.AppErr.{Result, ok, err}
use oci2gdsd.Tokens.{
  refused_token, Access, Bundles, expired, delete_token, evict, evict_all, cleanup_from,
  cleanup_expired, older, enforce_limit, add_token, token_limit, bundle_ttl, issue, resolve_found,
  resolve,
}
use oci2gdsd.Tokens.Table.{
  in_sets, owned, Consistent, owned-erase, owned-insert, in_sets-drop, in_sets-add,
}

-- The token is no other allocation's than the record's.
abbrev Own : Map Access → Text × Access → Type 0
Own m (t, r) = (c : Text) → text_eq r.allocation_id c ≡ false → owned t c m ≡ false

Own-erase : (u : Text) (m : Map Access) (e : Text × Access) → Own m e → Own (erase u m) e
Own-erase u m (t, r) h c n = ground (arith, owned-erase t c u m, h c n)

delete_token-Consistent :
    (t : Text) (r : Access) (s : Bundles)
    → Own s.tokens (t, r)
    → Consistent s
    → Consistent (delete_token t r.allocation_id s)
unfolding delete_token
delete_token-Consistent t r s own h = record {
  agree = λ u c.
      in_sets-drop u c t r.allocation_id s.by_allocation
      ∙ same u c
      ∙ sym (owned-erase u c t s.tokens);
  apart = erase-Apart t s.tokens h.apart;
}
  where
    same :
        (u c : Text)
        → (if text_eq r.allocation_id c && text_eq t u then false else in_sets u c s.by_allocation)
          ≡ (if text_eq t u then false else owned u c s.tokens)
    same u c = elim (Bool-cases (text_eq t u)) [
      | inr e ↦ rw e (ground (arith, h.agree u c))
      | inl e ↦ elim (Bool-cases (text_eq r.allocation_id c)) [
        | inl f ↦ rw (e, f) refl
        | inr f ↦ rw (e, f) (h.agree u c ∙ rw (← (text_eq_iff t u).0 e) (own c f))
      ]
    ]

evict_all-Consistent :
    (entries : Map Access) (s : Bundles)
    → All (Own s.tokens) entries
    → Consistent s
    → Consistent (evict_all entries s)
unfolding evict_all delete_token
evict_all-Consistent [] s own h = h
evict_all-Consistent ((t, r) ∷ entries) s own h =
    evict_all-Consistent entries (evict t r s)
      (All-map (Own s.tokens) (Own (erase t s.tokens)) entries (Own-erase t s.tokens) own.1)
      (let d = delete_token-Consistent t r s own.0 h in record { agree = d.agree; apart = d.apart })

cleanup_from-Consistent :
    (now : ℕ) (entries : Map Access) (s : Bundles)
    → All (Own s.tokens) entries
    → Consistent s
    → Consistent (cleanup_from now entries s)
unfolding cleanup_from delete_token
cleanup_from-Consistent now [] s own h = h
cleanup_from-Consistent now ((t, r) ∷ entries) s own h = elim (Bool-cases (expired now r)) [
  | inr e ↦ rw e (cleanup_from-Consistent now entries s own.1 h)
  | inl e ↦ rw e (
      cleanup_from-Consistent now entries (evict t r s)
        (All-map (Own s.tokens) (Own (erase t s.tokens)) entries (Own-erase t s.tokens) own.1)
        (let d = delete_token-Consistent t r s own.0 h in
          record { agree = d.agree; apart = d.apart }))
]

-- Each entry of a table is found under its key.
pub entries_found : (m : Map Access) → Apart m → All (λ e. lookup e.0 m ≡ some e.1) m
unfolding lookup
entries_found [] h = tt
entries_found ((k, v) ∷ m) h = (
  rw (text_eq_refl k) refl,
  All-map (λ e. lookup e.0 m ≡ some e.1) (λ e. lookup e.0 ((k, v) ∷ m) ≡ some e.1) m
      (λ e f. ground (arith, text_eq_iff k e.0, h.0, f)) (entries_found m h.1),
)

entries_Own : (m : Map Access) → Apart m → All (Own m) m
entries_Own m h = All-map _ (Own m) m (λ e f c n. ground (arith, f, n)) (entries_found m h)

pub All-take : {A : Type 0} (P : A → Type 0) (n : ℕ) (l : List A) → All P l → All P (take n l)
unfolding take
All-take P zero l h = tt
All-take P (suc n) [] h = tt
All-take P (suc n) (a ∷ l) h = (h.0, All-take P n l h.1)

pub cleanup_expired-Consistent :
    (now : ℕ) (s : Bundles) → Consistent s → Consistent (cleanup_expired now s)
unfolding cleanup_expired
cleanup_expired-Consistent now s h =
    cleanup_from-Consistent now s.tokens s (entries_Own s.tokens h.apart) h

enforce_limit-Consistent :
    (limit now : ℕ) (s : Bundles) → Consistent s → Consistent (enforce_limit limit now s)
unfolding enforce_limit
enforce_limit-Consistent limit now s h = elim (Bool-cases (limit == 0)) [
  | inl e ↦ rw e h
  | inr e ↦ elim (Bool-cases (leb (length s.tokens) limit)) [
    | inl f ↦ rw (e, f) h
    | inr f ↦
        rw (e, f)
          (evict_all-Consistent _ s
            (All-take (Own s.tokens) (length s.tokens - limit) (sort_slice (older now) s.tokens)
              (All-sort_slice (older now) (Own s.tokens) s.tokens (entries_Own s.tokens h.apart)))
            h)
  ]
]

add_token-Consistent :
    (t : Text) (r : Access) (s : Bundles)
    → lookup t s.tokens ≡ none
    → Consistent s
    → Consistent (add_token t r.allocation_id r s)
unfolding add_token
add_token-Consistent t r s new h = record {
  agree = λ u c.
      in_sets-add u c t r.allocation_id s.by_allocation
      ∙ same u c
      ∙ sym (owned-insert u c t r s.tokens);
  apart = insert-Apart t r s.tokens h.apart;
}
  where
    nobody : (c : Text) → owned t c s.tokens ≡ false
    nobody c = ground (arith, new)

    same :
        (u c : Text)
        → (if text_eq r.allocation_id c && text_eq t u then true else in_sets u c s.by_allocation)
          ≡ (if text_eq t u then text_eq r.allocation_id c else owned u c s.tokens)
    same u c = elim (Bool-cases (text_eq t u)) [
      | inr e ↦ rw e (ground (arith, h.agree u c))
      | inl e ↦ elim (Bool-cases (text_eq r.allocation_id c)) [
        | inl f ↦ rw (e, f) refl
        | inr f ↦ rw (e, f) (h.agree u c ∙ rw (← (text_eq_iff t u).0 e) (nobody c))
      ]
    ]

-- What a cleanup leaves was there.
pub cleanup_from-none :
    (now : ℕ) (entries : Map Access) (s : Bundles) (t : Text)
    → lookup t s.tokens ≡ none
    → lookup t (cleanup_from now entries s).tokens ≡ none
unfolding cleanup_from delete_token
cleanup_from-none now [] s t h = h
cleanup_from-none now ((u, r) ∷ entries) s t h = elim (Bool-cases (expired now r)) [
  | inr e ↦ rw (e, cleanup_from) (cleanup_from-none now entries s t h)
  | inl e ↦
      rw (e, cleanup_from)
        (cleanup_from-none now entries (evict u r s) t
          (ground (arith, lookup-erase u t s.tokens, h)))
]

-- Where a new token is not in use, its issue keeps the tables in agreement: a token is in the set of
-- an allocation just if its record is that allocation's.
pub issue-Consistent :
    (next_token : ℕ → Text → Text) (configured : ℤ) (now : ℕ) (allocation : Text)
    (include_weights : Bool) (s : Bundles)
    → lookup (next_token (s.seq + 1) allocation) s.tokens ≡ none
    → Consistent s
    → Consistent (issue next_token configured now allocation include_weights s).1
unfolding issue cleanup_expired
issue-Consistent next_token configured now allocation include_weights s new h =
    enforce_limit-Consistent (token_limit configured) now _ (
      add_token-Consistent (next_token (s.seq + 1) allocation) r (cleanup_expired now s)
        (cleanup_from-none now s.tokens s _ new) (cleanup_expired-Consistent now s h))
  where
    r : Access
    r = record {
      allocation_id = allocation;
      include_weights = include_weights;
      created_at = now;
      expires_at = now + bundle_ttl;
    }

found_Own : (t : Text) (r : Access) (m : Map Access) → lookup t m ≡ some r → Own m (t, r)
found_Own t r m e c n = ground (arith, e, n)

resolve_found-Consistent :
    (now : ℕ) (t : Text) (s : Bundles) → Consistent s → Consistent (resolve_found now t s).1
unfolding resolve_found
resolve_found-Consistent now t s h = looked (lookup t s.tokens) refl
  where
    looked :
        (o : Option Access)
        → lookup t s.tokens ≡ o
        → Consistent
            (elim o as (λ _. Result (Text × Bool) × Bundles) [
              | none ↦ (err refused_token, record s { misses = s.misses + 1 })
              | some r ↦
                  if expired now r
                  then (
                    err refused_token,
                    record (delete_token t r.allocation_id s) { misses = s.misses + 1 },
                  )
                  else (ok (r.allocation_id, r.include_weights), record s { hits = s.hits + 1 })
            ]).1
    looked none e = record { agree = h.agree; apart = h.apart }
    looked (some r) e = elim (Bool-cases (expired now r)) [
      | inl f ↦
          let d = delete_token-Consistent t r s (found_Own t r s.tokens e) h in
          rw f (record { agree = d.agree; apart = d.apart })
      | inr f ↦ rw f (record { agree = h.agree; apart = h.apart })
    ]

-- The answer to a token keeps the tables in agreement.
pub resolve-Consistent :
    (now : ℕ) (text : Text) (s : Bundles) → Consistent s → Consistent (resolve now text s).1
unfolding resolve
resolve-Consistent now text s h = elim (Bool-cases (is_empty (trim_space text))) [
  | inl e ↦ rw e h
  | inr e ↦ rw e (
      resolve_found-Consistent now (trim_space text) (cleanup_expired now s)
        (cleanup_expired-Consistent now s h))
]
