-- ===== src/Names/Keys.antt =====
-- Keys of internal/app/util.go, and the file names that internal/app/lock.go and journal.go make of
-- them.
use oci2gdsd.Prelude.{
  ℕ, ◌≡◌, ◌≢◌, refl, ap, true, false, [], ◌∷◌, ◌++◌, Text, codes, has_rune, arith,
}
use oci2gdsd.Names.{model_key, safe_rune, safe_name, journal_name, lock_name}

has_rune_middle : (c : ℕ) (s t : Text) → has_rune c (s ++ c ∷ t) ≡ true
unfolding has_rune
has_rune_middle c [] t = ground arith
has_rune_middle c (d ∷ s) t = ground (arith, has_rune_middle c s t)

abbrev rest : Text → Text
rest [] = []
rest (c ∷ s) = s

abbrev first : Text → ℕ
first [] = 0
first (c ∷ s) = c

rest_eq : (s t : Text) (a b : ℕ) → ◌≡◌ {A = Text} (a ∷ s) (b ∷ t) → s ≡ t
rest_eq s t a b h = ap rest h

-- Two models with digests that hold no `@` have the same key only if they are the same model.
pub model_key_injective :
    (a d b e : Text)
    → has_rune b'@' d ≡ false
    → has_rune b'@' e ≡ false
    → model_key a d ≡ model_key b e
    → (a ≡ b) × (d ≡ e)
unfolding model_key
model_key_injective [] d [] e hd he h = (refl, cc)
model_key_injective [] d (c ∷ b) e hd he h =
    cc (has_rune_middle b'@' b e, rest_eq d (b ++ b'@' ∷ e) b'@' c h, hd)
model_key_injective (c ∷ a) d [] e hd he h =
    cc (has_rune_middle b'@' a d, rest_eq (a ++ b'@' ∷ d) e c b'@' h, he)
model_key_injective (c ∷ a) d (c' ∷ b) e hd he h =
    let r = model_key_injective a d b e hd he (rest_eq _ _ c c' h) in (cc (r.0, h), r.1)

safe_name_collision :
    (a b t : Text) → safe_name ((a ++ b'@' ∷ b) ++ t) ≡ safe_name ((a ++ b'_' ∷ b) ++ t)
unfolding safe_name
safe_name_collision [] b t = refl
safe_name_collision (c ∷ a) b t = ap (λ r. safe_rune c ∷ r) (safe_name_collision a b t)

signs_differ : (a b t : Text) → (a ++ b'@' ∷ b) ++ t ≢ (a ++ b'_' ∷ b) ++ t
signs_differ [] b t h = let e : ◌≡◌ {A = ℕ} b'@' b'_' = ap first h in absurd (omega arith)
signs_differ (c ∷ a) b t h = signs_differ a b t (rest_eq _ _ c c h)

-- Two model ids that differ only in one `@` against one `_` have different keys, and the same
-- journal and the same lock.
pub journal_name_collision :
    (a b digest : Text)
    → let at = a ++ b'@' ∷ b in
      let underscore = a ++ b'_' ∷ b in
      (journal_name at digest ≡ journal_name underscore digest)
      × (lock_name (model_key at digest) ≡ lock_name (model_key underscore digest))
      × (model_key at digest ≢ model_key underscore digest)
unfolding journal_name lock_name model_key
journal_name_collision a b digest = (
  ap (λ s. s ++ codes ".journal") (safe_name_collision a b (b'@' ∷ digest)),
  ap (λ s. s ++ codes ".lock") (safe_name_collision a b (b'@' ∷ digest)),
  signs_differ a b (b'@' ∷ digest),
)
