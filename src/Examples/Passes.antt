-- ===== src/Examples/Passes.antt =====
-- Tests of internal/app/runtime_bundle_token.go.
use mathlib.Core.Path.{subst}
use oci2gdsd.Prelude.{
  ℕ, ◌+◌, ◌≤◌, ◌<◌, ◌≡◌, ◌≢◌, refl, true, false, List, [], ◌∷◌, length, is_empty, Text, codes,
  text_eq, trim_space, lookup, insert, erase, pos, arith,
}
use oci2gdsd.AppErr.{ok}
use oci2gdsd.Tokens.{
  Bundles, TokenCall, issues, issue, resolve, revoke, run_token_calls, run_token_call, no_tokens,
  token_limit, cleanup_expired, cleanup_from, expired, enforce_limit, add_token, resolve_found,
  delete_each,
}
use oci2gdsd.Tokens.Table.{Consistent}
use oci2gdsd.Tokens.Revoked.{resolve-revoke}
use oci2gdsd.Tokens.Traces.{Sane, run_token_calls-Sane}
use oci2gdsd.Tokens.Limit.{issue-limit}
use oci2gdsd.Tokens.Issued.{resolve-issue}

-- The text of a number: `A` and on.
abbrev lettered : ℕ → Text → Text
lettered n a = (64 + n) ∷ []

by_letter : (n k : ℕ) (a c : Text) → lettered n a ≡ lettered k c → n ≡ k
by_letter n k a c h = omega (arith, first h)
  where
    first : {x y : ℕ} → ◌≡◌ {A = Text} (x ∷ []) (y ∷ []) → x ≡ y
    first e = cc

none_Consistent : Consistent no_tokens
unfolding lookup
none_Consistent = record { agree = λ t a. refl; apart = tt }

none_Sane : Sane lettered no_tokens
unfolding lookup
none_Sane = record { consistent = none_Consistent; numbered = λ n a l. refl }

-- Two allocations get a token each, at the times 1 and 2.
abbrev two_calls : List (ℕ × TokenCall)
two_calls = (1, issues (codes "a") true) ∷ (2, issues (codes "b") false) ∷ []

run_token_calls-Sane_example : Sane lettered (run_token_calls lettered (pos 2) two_calls no_tokens)
run_token_calls-Sane_example =
    run_token_calls-Sane lettered by_letter (pos 2) two_calls no_tokens none_Sane

abbrev two_tokens : Bundles
two_tokens = record {
  seq = 2;
  tokens =
      (
        codes "A",
        record {
          allocation_id = codes "a";
          include_weights = true;
          created_at = 1;
          expires_at = 300000000001;
        },
      )
      ∷ (
        codes "B",
        record {
          allocation_id = codes "b";
          include_weights = false;
          created_at = 2;
          expires_at = 300000000002;
        },
      )
      ∷ [];
  by_allocation = (codes "a", (codes "A", tt) ∷ []) ∷ (codes "b", (codes "B", tt) ∷ []) ∷ [];
  hits = 0;
  misses = 0;
  evictions = 0;
}

two_calls_run : run_token_calls lettered (pos 2) two_calls no_tokens ≡ two_tokens
unfolding run_token_calls run_token_call issue cleanup_expired cleanup_from add_token lookup insert
    enforce_limit token_limit text_eq
two_calls_run = refl

two_Consistent : Consistent two_tokens
two_Consistent =
    subst Consistent two_calls_run
      (run_token_calls-Sane lettered by_letter (pos 2) two_calls no_tokens none_Sane).consistent

-- Of a limit of two, the third token drives out the oldest.
issue-limit_example :
    length (issue lettered (pos 2) 3 (codes "c") true two_tokens).1.tokens ≤ token_limit (pos 2)
issue-limit_example = issue-limit lettered (pos 2) 3 (codes "c") true two_tokens two_Consistent

-- The token of `b` is still good when that of `a` is revoked.
abbrev after_b : Bundles
after_b = record {
  seq = 2;
  tokens =
      (
        codes "B",
        record {
          allocation_id = codes "b";
          include_weights = false;
          created_at = 2;
          expires_at = 300000000002;
        },
      )
      ∷ [];
  by_allocation = (codes "b", (codes "B", tt) ∷ []) ∷ [];
  hits = 1;
  misses = 0;
  evictions = 1;
}

b_resolves :
    resolve 3 (codes "B") (revoke (codes "a") two_tokens) ≡ (ok (codes "b", false), after_b)
unfolding resolve resolve_found revoke delete_each is_empty trim_space lookup erase text_eq
    cleanup_expired cleanup_from expired
b_resolves = refl

resolve-revoke_example : codes "b" ≢ trim_space (codes "a")
resolve-revoke_example =
    resolve-revoke 3 (codes "a") (codes "B") two_tokens after_b (codes "b") false two_Consistent
      a_given b_resolves
  where
    a_given : is_empty (trim_space (codes "a")) ≡ false
    a_given = unfold is_empty trim_space in refl

room_for_c : length two_tokens.tokens < token_limit (pos 9)
unfolding token_limit
room_for_c = omega arith

resolve-issue_example :
    (resolve 6
      (lettered (two_tokens.seq + 1) (codes "c"))
      (issue lettered (pos 9) 5 (codes "c") true two_tokens).1).0
    ≡ ok (codes "c", true)
resolve-issue_example =
    resolve-issue lettered (pos 9) 5 6 (codes "c") true two_tokens two_Consistent room_for_c
      c_trimmed c_given (omega arith)
  where
    c_trimmed :
        trim_space (lettered (two_tokens.seq + 1) (codes "c"))
        ≡ lettered (two_tokens.seq + 1) (codes "c")
    c_trimmed = unfold trim_space in refl

    c_given : is_empty (lettered (two_tokens.seq + 1) (codes "c")) ≡ false
    c_given = unfold is_empty in refl
