-- ===== src/Ref/Laws.antt =====
-- What `ParseDigestPinnedRef` of internal/app/util.go accepts.
use oci2gdsd.Prelude.{
  ◌≡◌, ◌≢◌, refl, ◌∙◌, false, Option, some, List, [], ◌∷◌, ◌++◌, Text, codes, text_eq_iff,
  text_eq_refl, Option-cases, inl, inr, is_empty, trim_space, is_space, has_rune, arith, All,
}
use oci2gdsd.Names.Safety.{has_rune-trim_space}
use oci2gdsd.Ref.{parsed, split_at_sign, check_parts, parse_parts, parse_digest_pinned_ref}

abbrev NoSign : Text → Type 0
NoSign s = has_rune b'@' s ≡ false

split_at_sign-NoSign : (s : Text) → NoSign (split_at_sign s).0 × All NoSign (split_at_sign s).1
unfolding split_at_sign has_rune
split_at_sign-NoSign [] = (refl, tt)
split_at_sign-NoSign (c ∷ s) = ground (arith, split_at_sign-NoSign s)

split_at_sign_none : (s : Text) → NoSign s → split_at_sign s ≡ (s, [])
unfolding split_at_sign has_rune
split_at_sign_none [] h = refl
split_at_sign_none (c ∷ s) h = ground (arith, split_at_sign_none s)

split_at_sign_one : (s t : Text) → NoSign s → NoSign t → split_at_sign (s ++ b'@' ∷ t) ≡ (s, t ∷ [])
unfolding split_at_sign has_rune
split_at_sign_one [] t h k = rw (split_at_sign_none t k)
split_at_sign_one (c ∷ s) t h k = ground (arith, split_at_sign_one s t)

module _ (algorithm : Text → Option Text) where
  check_parts_parsed :
      (r d : Text) {repository digest : Text}
      → check_parts algorithm r d ≡ parsed repository digest
      → (repository ≡ r)
        × (digest ≡ d)
        × (repository ≢ [])
        × (algorithm digest ≡ some (codes "sha256"))
  unfolding check_parts is_empty
  check_parts_parsed [] d h = cc
  check_parts_parsed (c ∷ r) d {repository} {digest} h = elim (Option-cases (algorithm d)) [
    | inl e ↦ cc (rw e at h)
    | inr (a, e) ↦ ground (arith, e, text_eq_iff a (codes "sha256"))
  ]

  parse_parts_parsed :
      (p : Text × List Text)
      → All NoSign p.1
      → {repository digest : Text} → parse_parts algorithm p ≡ parsed repository digest
      → (repository ≢ [])
        × (algorithm digest ≡ some (codes "sha256"))
        × (has_rune b'@' digest ≡ false)
  unfolding parse_parts
  parse_parts_parsed (first, []) clean h = cc
  parse_parts_parsed (first, second ∷ []) clean h =
      let r = check_parts_parsed (trim_space first) (trim_space second) h in
      (r.2, r.3, rw r.1 (has_rune-trim_space b'@' (unfold is_space in refl) second ∙ clean.0))
  parse_parts_parsed (first, a ∷ b ∷ rest) clean h = cc

  -- A reference that is accepted has a repository, and a digest of the algorithm sha256 that holds
  -- no `@`.
  pub parsed_ref :
      (ref : Text) {repository digest : Text}
      → parse_digest_pinned_ref algorithm ref ≡ parsed repository digest
      → (repository ≢ [])
        × (algorithm digest ≡ some (codes "sha256"))
        × (has_rune b'@' digest ≡ false)
  unfolding parse_digest_pinned_ref
  parsed_ref ref h = parse_parts_parsed (split_at_sign ref) (split_at_sign-NoSign ref).1 h

  -- A repository and a sha256 digest, neither with an `@` nor with spaces around it, are read back
  -- from the reference that joins them.
  pub parse_digest_pinned_ref_join :
      (repository digest : Text)
      → repository ≢ []
      → (has_rune b'@' repository ≡ false) × (has_rune b'@' digest ≡ false)
      → (trim_space repository ≡ repository) × (trim_space digest ≡ digest)
      → algorithm digest ≡ some (codes "sha256")
      → parse_digest_pinned_ref algorithm (repository ++ b'@' ∷ digest) ≡ parsed repository digest
  unfolding parse_digest_pinned_ref is_empty
  parse_digest_pinned_ref_join [] digest n h t a = absurd (n refl)
  parse_digest_pinned_ref_join (c ∷ r) digest n h t a =
      rw (split_at_sign_one (c ∷ r) digest h.0 h.1)
        (rw (t.0, t.1) (rw (a, text_eq_refl) (cc (t.0, t.1))))
