-- ===== src/Tokens/Traces.antt =====
-- What the tokens of internal/app/runtime_bundle_token.go give, after any calls.
use oci2gdsd.Prelude.{
  ℕ, ◌+◌, ◌-◌, ◌<◌, ◌≡◌, refl, ◌∙◌, Bool, false, none, List, [], ◌∷◌, length, take, is_empty, Text,
  text_eq, text_eq_iff, trim_space, Map, lookup, insert, lookup-insert, sort_slice, ℤ, arith,
  Bool-cases, Option-cases, inl, inr,
}
use oci2gdsd.AppErr.{err}
use oci2gdsd.Tokens.{
  refused_token, Access, Bundles, expired, delete_token, evict, evict_all, cleanup_from,
  cleanup_expired, older, enforce_limit, add_token, token_limit, bundle_ttl, issue, resolve_found,
  resolve, revoke, TokenCall, issues, resolves, revokes, run_token_call, run_token_calls,
}
use oci2gdsd.Tokens.Table.{Consistent}
use oci2gdsd.Tokens.Consistency.{issue-Consistent, resolve-Consistent}
use oci2gdsd.Tokens.Revocation.{revoke-Consistent}
use oci2gdsd.Tokens.Within.{
  Within, either_answer, cleanup_from-Within, enforce_limit-Within, revoke-Within,
  resolve_found-Within,
}

-- What holds after any calls: the tables agree, and no token has a number still to come.
pub record Sane (next_token : ℕ → Text → Text) (s : Bundles) : Type 0 where
  pub consistent : Consistent s
  pub numbered : (n : ℕ) (a : Text) → s.seq < n → lookup (next_token n a) s.tokens ≡ none

still_none : (m n : Map Access) (t : Text) → Within m n → lookup t n ≡ none → lookup t m ≡ none
still_none m n t h e = elim (Option-cases (lookup t m)) [
  | inl f ↦ f
  | inr (r, f) ↦ absurd (ground (arith, h t r f, e))
]

cleanup_from_seq :
    (now : ℕ) (entries : Map Access) (s : Bundles) → (cleanup_from now entries s).seq ≡ s.seq
unfolding cleanup_from delete_token
cleanup_from_seq now [] s = refl
cleanup_from_seq now ((u, q) ∷ entries) s = elim (Bool-cases (expired now q)) [
  | inl e ↦ rw (e, cleanup_from) (cleanup_from_seq now entries (evict u q s))
  | inr e ↦ rw (e, cleanup_from) (cleanup_from_seq now entries s)
]

evict_all_seq : (entries : Map Access) (s : Bundles) → (evict_all entries s).seq ≡ s.seq
unfolding evict_all delete_token
evict_all_seq [] s = refl
evict_all_seq ((u, q) ∷ entries) s = evict_all_seq entries (evict u q s)

enforce_limit_seq : (limit now : ℕ) (s : Bundles) → (enforce_limit limit now s).seq ≡ s.seq
unfolding enforce_limit
enforce_limit_seq limit now s =
    ground
      (arith, evict_all_seq (take (length s.tokens - limit) (sort_slice (older now) s.tokens)) s)

cleanup_expired_seq : (now : ℕ) (s : Bundles) → (cleanup_expired now s).seq ≡ s.seq
unfolding cleanup_expired
cleanup_expired_seq now s = cleanup_from_seq now s.tokens s

resolve_found_seq : (now : ℕ) (t : Text) (s : Bundles) → (resolve_found now t s).1.seq ≡ s.seq
unfolding resolve_found delete_token
resolve_found_seq now t s = ground arith

resolve_seq : (now : ℕ) (text : Text) (s : Bundles) → (resolve now text s).1.seq ≡ s.seq
unfolding resolve
resolve_seq now text s = ground (
  arith,
  resolve_found_seq now (trim_space text) (cleanup_expired now s),
  cleanup_expired_seq now s,
)

revoke_seq : (text : Text) (s : Bundles) → (revoke text s).seq ≡ s.seq
unfolding revoke
revoke_seq text s = ground arith

resolve-Within :
    (now : ℕ) (text : Text) (s : Bundles) → Within (resolve now text s).1.tokens s.tokens
unfolding resolve cleanup_expired
resolve-Within now text s =
    either_answer (is_empty (trim_space text)) (err refused_token, s) _ s.tokens (λ t r h. h)
      (λ t r h.
        cleanup_from-Within now s.tokens s t r
          (resolve_found-Within now (trim_space text) (cleanup_expired now s) t r h))

module _ (next_token : ℕ → Text → Text)
    (by_number : (n k : ℕ) (a c : Text) → next_token n a ≡ next_token k c → n ≡ k) where
  issue_numbered :
      (configured : ℤ) (now : ℕ) (allocation : Text) (include_weights : Bool) (s : Bundles)
      → Sane next_token s
      → (n : ℕ) (a : Text)
      → (issue next_token configured now allocation include_weights s).1.seq < n
      → lookup
          (next_token n a)
          (issue next_token configured now allocation include_weights s).1.tokens
        ≡ none
  unfolding issue add_token
  issue_numbered configured now allocation include_weights s h n a l =
      still_none _ (insert token r (cleanup_expired now s).tokens) (next_token n a)
        (enforce_limit-Within (token_limit configured) now
          (add_token token allocation r (cleanup_expired now s)))
        (lookup-insert token (next_token n a) r (cleanup_expired now s).tokens ∙ rw other before)
    where
      token : Text
      token = next_token (s.seq + 1) allocation

      r : Access
      r = record {
        allocation_id = allocation;
        include_weights = include_weights;
        created_at = now;
        expires_at = now + bundle_ttl;
      }

      later_number : s.seq + 1 < n
      later_number = omega (
        arith,
        l,
        enforce_limit_seq (token_limit configured) now
            (add_token token allocation r (cleanup_expired now s)),
        cleanup_expired_seq now s,
      )

      other : text_eq token (next_token n a) ≡ false
      other = elim (Bool-cases (text_eq token (next_token n a))) [
        | inr e ↦ e
        | inl e ↦ absurd (
            omega (
              arith,
              later_number,
              by_number (s.seq + 1) n allocation a ((text_eq_iff token (next_token n a)).0 e),
            ))
      ]

      before : lookup (next_token n a) (cleanup_expired now s).tokens ≡ none
      before =
          unfold cleanup_expired in
          still_none _ s.tokens (next_token n a) (cleanup_from-Within now s.tokens s)
            (h.numbered n a (omega (arith, later_number)))

  run_token_call-Sane :
      (configured : ℤ) (now : ℕ) (c : TokenCall) (s : Bundles)
      → Sane next_token s
      → Sane next_token (run_token_call next_token configured now c s)
  unfolding run_token_call
  run_token_call-Sane configured now (issues allocation include_weights) s h = record {
    consistent =
        issue-Consistent next_token configured now allocation include_weights s
          (h.numbered (s.seq + 1) allocation (omega arith)) h.consistent;
    numbered = issue_numbered configured now allocation include_weights s h;
  }
  run_token_call-Sane configured now (resolves text) s h = record {
    consistent = resolve-Consistent now text s h.consistent;
    numbered = λ n a l.
        still_none _ s.tokens _ (resolve-Within now text s)
          (h.numbered n a (omega (arith, l, resolve_seq now text s)));
  }
  run_token_call-Sane configured now (revokes text) s h = record {
    consistent = revoke-Consistent text s h.consistent;
    numbered = λ n a l.
        still_none _ s.tokens _ (revoke-Within text s)
          (h.numbered n a (omega (arith, l, revoke_seq text s)));
  }

  -- Where the texts of different numbers differ, whatever is asked of the tokens keeps the tables in
  -- agreement, so that a token is in the set of an allocation just if its record is that allocation's,
  -- and keeps the numbers that are still to come unused.
  pub run_token_calls-Sane :
      (configured : ℤ) (calls : List (ℕ × TokenCall)) (s : Bundles)
      → Sane next_token s
      → Sane next_token (run_token_calls next_token configured calls s)
  unfolding run_token_calls
  run_token_calls-Sane configured [] s h = h
  run_token_calls-Sane configured ((now, c) ∷ calls) s h =
      run_token_calls-Sane configured calls (run_token_call next_token configured now c s)
        (run_token_call-Sane configured now c s h)
