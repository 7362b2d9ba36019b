-- ===== src/Tokens/Revoked.antt =====
-- What an accepted token of internal/app/runtime_bundle_token.go is, and that revoked ones are not accepted.
use oci2gdsd.Prelude.{
  ℕ, ◌+◌, ◌≡◌, ◌≢◌, refl, ap, Bool, true, false, Option, none, some, is_empty, Text, text_eq_iff,
  trim_space, Map, lookup, arith, Bool-cases, inl, inr, if◌then◌else◌,
}
use oci2gdsd.AppErr.{Result, ok, err}
use oci2gdsd.Tokens.{
  refused_token, Access, Bundles, expired, delete_token, cleanup_expired, resolve_found, resolve,
  revoke,
}
use oci2gdsd.Tokens.Table.{Consistent}
use oci2gdsd.Tokens.Revocation.{owned-revoke}
use oci2gdsd.Tokens.Within.{cleanup_from-Within}

-- What the record of an accepted token is.
pub record Accepted (now : ℕ) (t : Text) (a : Text) (w : Bool) (m : Map Access) : Type 0 where
  pub access : Access
  pub found : lookup t m ≡ some access
  pub allocation : access.allocation_id ≡ a
  pub weights : access.include_weights ≡ w
  pub live : expired now access ≡ false

same_first :
    {a c : Text} {w v : Bool} → ◌≡◌ {A = Result (Text × Bool)} (ok (a, w)) (ok (c, v)) → a ≡ c
same_first h = cc

same_second :
    {a c : Text} {w v : Bool} → ◌≡◌ {A = Result (Text × Bool)} (ok (a, w)) (ok (c, v)) → w ≡ v
same_second h = cc

no_answer :
    {a : Text} {w : Bool} → ◌≡◌ {A = Result (Text × Bool)} (err refused_token) (ok (a, w)) → ⊥
no_answer h = cc

resolve_found-Accepted :
    (now : ℕ) (t : Text) (s s' : Bundles) (a : Text) (w : Bool)
    → resolve_found now t s ≡ (ok (a, w), s')
    → Accepted now t a w s.tokens
unfolding resolve_found
resolve_found-Accepted now t s s' a w h = looked (lookup t s.tokens) refl (ap (λ p. p.0) h)
  where
    accepted : (r : Access) → Result (Text × Bool) × Bundles
    accepted r = (ok (r.allocation_id, r.include_weights), record s { hits = s.hits + 1 })

    refused : Access → Result (Text × Bool) × Bundles
    refused r =
        (err refused_token, record (delete_token t r.allocation_id s) { misses = s.misses + 1 })

    chosen :
        (r : Access) (b : Bool)
        → lookup t s.tokens ≡ some r
        → expired now r ≡ b
        → (if b then refused r else accepted r).0 ≡ ok (a, w)
        → Accepted now t a w s.tokens
    chosen r true e f k = cc
    chosen r false e f k = record {
      access = r;
      found = e;
      allocation = same_first k;
      weights = same_second k;
      live = f;
    }

    looked :
        (o : Option Access)
        → lookup t s.tokens ≡ o
        → (elim o as (λ _. Result (Text × Bool) × Bundles) [
          | none ↦ (err refused_token, record s { misses = s.misses + 1 })
          | some r ↦ if expired now r then refused r else accepted r
        ]).0
          ≡ ok (a, w)
        → Accepted now t a w s.tokens
    looked none e k = cc
    looked (some r) e k = chosen r (expired now r) e refl k

-- A token that is accepted is that of a record that has not expired, and gives what the record says.
pub resolve-Accepted :
    (now : ℕ) (text : Text) (s s' : Bundles) (a : Text) (w : Bool)
    → resolve now text s ≡ (ok (a, w), s')
    → Accepted now (trim_space text) a w s.tokens
unfolding resolve cleanup_expired
resolve-Accepted now text s s' a w h = elim (Bool-cases (is_empty (trim_space text))) [
  | inl e ↦ absurd (no_answer (ap (λ p. p.0) (rw e at h)))
  | inr e ↦
      let r =
        resolve_found-Accepted now (trim_space text) (cleanup_expired now s) s' a w (rw e at h) in
      record {
        access = r.access;
        found = cleanup_from-Within now s.tokens s (trim_space text) r.access r.found;
        allocation = r.allocation;
        weights = r.weights;
        live = r.live;
      }
]

-- After a revocation, where the tables agree, no token gives access to the allocation.
pub resolve-revoke :
    (now : ℕ) (text token : Text) (s s' : Bundles) (a : Text) (w : Bool)
    → Consistent s
    → is_empty (trim_space text) ≡ false
    → resolve now token (revoke text s) ≡ (ok (a, w), s')
    → a ≢ trim_space text
resolve-revoke now text token s s' a w h e k same =
    let q = resolve-Accepted now token (revoke text s) s' a w k in
    let none_left = owned-revoke text s h e (trim_space token) a in
    ground (
      arith,
      none_left,
      q.found,
      q.allocation,
      text_eq_iff (trim_space text) a,
      text_eq_iff q.access.allocation_id a,
      same,
    )
