-- ===== src/Prelude/TextOrder.antt =====
-- The order of texts, byte by byte, as Go compares strings.
use mathlib.Core.Path.{◌≡◌, refl}
use mathlib.Core.Bool.{true, false}
use mathlib.Core.List.{[], ◌∷◌}
use native.Mathlib.Omega.{arith}
use oci2gdsd.Prelude.Texts.{Text, text_lt}

pub text_lt_asym : (s t : Text) → text_lt s t ≡ true → text_lt t s ≡ false
unfolding text_lt
text_lt_asym s [] h = cc
text_lt_asym [] (b ∷ t) h = refl
text_lt_asym (a ∷ s) (b ∷ t) h = ground (arith, text_lt_asym s t)

pub text_lt-negtrans :
    (s t u : Text) → text_lt t s ≡ false → text_lt u t ≡ false → text_lt u s ≡ false
unfolding text_lt
text_lt-negtrans [] t [] h k = refl
text_lt-negtrans [] t (c ∷ u) h k = refl
text_lt-negtrans (a ∷ s) [] u h k = cc
text_lt-negtrans (a ∷ s) (b ∷ t) [] h k = cc
text_lt-negtrans (a ∷ s) (b ∷ t) (c ∷ u) h k = ground (arith, text_lt-negtrans s t u)

pub text_lt-connex : (s t : Text) → text_lt s t ≡ false → text_lt t s ≡ false → s ≡ t
unfolding text_lt
text_lt-connex [] [] h k = refl
text_lt-connex [] (b ∷ t) h k = cc
text_lt-connex (a ∷ s) [] h k = cc
text_lt-connex (a ∷ s) (b ∷ t) h k = ground (arith, text_lt-connex s t)
