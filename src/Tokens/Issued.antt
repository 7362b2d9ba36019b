-- ===== src/Tokens/Issued.antt =====
-- What a token of internal/app/runtime_bundle_token.go gives after its issue.
use oci2gdsd.Prelude.{
  ℕ, suc, ◌+◌, ◌≤◌, ◌<◌, ◌≡◌, refl, sym, ap, ◌∙◌, Bool, true, false, some, [], ◌∷◌, length,
  is_empty, Text, text_eq, text_eq_iff, text_eq_refl, trim_space, Map, lookup, insert, erase,
  lookup-insert, lookup-erase, Apart, insert-Apart, All, ℤ, arith, Bool-cases, inl, inr, All-map,
}
use oci2gdsd.AppErr.{ok}
use oci2gdsd.Tokens.{
  Access, Bundles, expired, delete_token, evict, cleanup_from, cleanup_expired, enforce_limit,
  add_token, token_limit, bundle_ttl, issue, resolve_found, resolve,
}
use oci2gdsd.Tokens.Table.{Consistent}
use oci2gdsd.Tokens.Consistency.{cleanup_expired-Consistent, entries_found}

-- Entries under the key have not expired.
abbrev Live : ℕ → Text → Text × Access → Type 0
Live now t e = text_eq e.0 t ≡ true → expired now e.1 ≡ false

cleanup_from_keeps :
    (now : ℕ) (t : Text) (r : Access) (entries : Map Access) (s : Bundles)
    → All (Live now t) entries
    → lookup t s.tokens ≡ some r
    → lookup t (cleanup_from now entries s).tokens ≡ some r
unfolding cleanup_from delete_token
cleanup_from_keeps now t r [] s h e = e
cleanup_from_keeps now t r ((u, q) ∷ entries) s h e = elim (Bool-cases (expired now q)) [
  | inr f ↦ rw (f, cleanup_from) (cleanup_from_keeps now t r entries s h.1 e)
  | inl f ↦
      rw (f, cleanup_from)
        (cleanup_from_keeps now t r entries (evict u q s) h.1
          (ground (arith, lookup-erase u t s.tokens, e, h.0, f)))
]

entries_Live :
    (now : ℕ) (t : Text) (r : Access) (m : Map Access)
    → Apart m
    → lookup t m ≡ some r
    → expired now r ≡ false
    → All (Live now t) m
entries_Live now t r m h e l =
    All-map (λ x. lookup x.0 m ≡ some x.1) (Live now t) m
      (λ x f same. same_expiry (ap (λ k. lookup k m) (sym ((text_eq_iff x.0 t).0 same)) ∙ f))
      (entries_found m h)
  where
    same_expiry : {q : Access} → lookup t m ≡ some q → expired now q ≡ false
    same_expiry f = ground (arith, l, f, e)

length-erase_le : (k : Text) (m : Map Access) → length (erase k m) ≤ length m
unfolding erase
length-erase_le k [] = omega arith
length-erase_le k ((j, v) ∷ m) = ground (arith, length-erase_le k m)

length-insert_le : (k : Text) (r : Access) (m : Map Access) → length (insert k r m) ≤ suc (length m)
unfolding insert
length-insert_le k r [] = omega arith
length-insert_le k r ((j, v) ∷ m) = ground (arith, length-insert_le k r m)

length-cleanup_from :
    (now : ℕ) (entries : Map Access) (s : Bundles)
    → length (cleanup_from now entries s).tokens ≤ length s.tokens
unfolding cleanup_from delete_token
length-cleanup_from now [] s = omega arith
length-cleanup_from now ((u, q) ∷ entries) s = elim (Bool-cases (expired now q)) [
  | inr f ↦ rw (f, cleanup_from) (length-cleanup_from now entries s)
  | inl f ↦
      rw (f, cleanup_from)
        (omega (arith, length-cleanup_from now entries (evict u q s), length-erase_le u s.tokens))
]

within_limit :
    (limit now : ℕ) (s : Bundles) → length s.tokens ≤ limit → enforce_limit limit now s ≡ s
unfolding enforce_limit
within_limit limit now s h = ground (arith, h)

resolved_found :
    (now : ℕ) (t : Text) (r : Access) (s : Bundles)
    → lookup t s.tokens ≡ some r
    → expired now r ≡ false
    → (resolve_found now t s).0 ≡ ok (r.allocation_id, r.include_weights)
unfolding resolve_found
resolved_found now t r s e f = rw (e, f, resolve_found) refl

fresh_live :
    (now moment : ℕ) (r : Access)
    → r.expires_at ≡ now + bundle_ttl
    → moment ≤ now + bundle_ttl
    → expired moment r ≡ false
unfolding expired
fresh_live now moment r e l = ground (arith, e, l)

-- Where the tables agree and there is room below the limit, a token that was issued, and that has no
-- spaces around it, gives its allocation and its weights until five minutes have passed.
pub resolve-issue :
    (next_token : ℕ → Text → Text) (configured : ℤ) (now moment : ℕ) (allocation : Text)
    (include_weights : Bool) (s : Bundles)
    → Consistent s
    → length s.tokens < token_limit configured
    → trim_space (next_token (s.seq + 1) allocation) ≡ next_token (s.seq + 1) allocation
    → is_empty (next_token (s.seq + 1) allocation) ≡ false
    → moment ≤ now + bundle_ttl
    → (resolve moment
        (next_token (s.seq + 1) allocation)
        (issue next_token configured now allocation include_weights s).1).0
      ≡ ok (allocation, include_weights)
unfolding issue
resolve-issue next_token configured now moment allocation include_weights s h room trimmed given l =
    ap (λ x. (resolve moment token x).0) (within_limit (token_limit configured) now full room_left)
    ∙ answered
  where
    token : Text
    token = next_token (s.seq + 1) allocation

    r : Access
    r = record {
      allocation_id = allocation;
      include_weights = include_weights;
      created_at = now;
      expires_at = now + bundle_ttl;
    }

    cleaned : Bundles
    cleaned = cleanup_expired now s

    full : Bundles
    full = add_token token allocation r cleaned

    room_left : length full.tokens ≤ token_limit configured
    room_left =
        unfold add_token cleanup_expired in
        omega
          (arith, room, length-insert_le token r cleaned.tokens, length-cleanup_from now s.tokens s)

    there : lookup token full.tokens ≡ some r
    there =
        unfold add_token in rw (lookup-insert token token r cleaned.tokens, text_eq_refl token) refl

    apart : Apart full.tokens
    apart =
        unfold add_token in
        insert-Apart token r cleaned.tokens (cleanup_expired-Consistent now s h).apart

    alive : expired moment r ≡ false
    alive = fresh_live now moment r refl l

    kept : lookup token (cleanup_expired moment full).tokens ≡ some r
    kept =
        unfold cleanup_expired in
        cleanup_from_keeps moment token r full.tokens full
          (entries_Live moment token r full.tokens apart there alive) there

    answered : (resolve moment token full).0 ≡ ok (allocation, include_weights)
    answered =
        unfold resolve in
        rw (trimmed, given) (resolved_found moment token r (cleanup_expired moment full) kept alive)
