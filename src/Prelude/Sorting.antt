-- ===== src/Prelude/Sorting.antt =====
-- `sort.Slice` as insertion sort by the program's `less`; the order of elements that compare equal,
-- which Go leaves open, is then one of those that Go allows.
use Prim.Native.Nat.{suc}
use mathlib.Core.Path.{◌≡◌, refl, subst}
use mathlib.Core.Logic.{◌⊎◌, inl, inr}
use mathlib.Core.Bool.{Bool, true, false}
use mathlib.Core.List.{List, [], ◌∷◌, Perm}
use mathlib.Core.List.Perm
use oci2gdsd.Prelude.Tests.{if◌then◌else◌}
use native.Mathlib.Omega.{arith}
use oci2gdsd.Prelude.Lists.{All, length}

-- The element is in the list.
abbrev pub Has : {A : Type 0} → A → List A → Type 0
Has a [] = ⊥
Has a (b ∷ l) = (b ≡ a) ⊎ Has a l

-- Every element stands in the relation to each later one.
abbrev pub Pairwise : {A : Type 0} → (A → A → Type 0) → List A → Type 0
Pairwise R [] = Unit
Pairwise R (a ∷ l) = All (R a) l × Pairwise R l

pub Pairwise-map :
    {A : Type 0} {R S : A → A → Type 0} (l : List A)
    → ((a b : A) → R a b → S a b)
    → Pairwise R l
    → Pairwise S l
Pairwise-map [] f p = tt
Pairwise-map {A} {R} {S} (a ∷ l) f p = (each l p.0, Pairwise-map l f p.1)
  where
    each : (l : List A) → All (R a) l → All (S a) l
    each [] h = tt
    each (b ∷ l) h = (f a b h.0, each l h.1)

pub All-Has : {A : Type 0} (P : A → Type 0) (l : List A) → All P l → (a : A) → Has a l → P a
All-Has P [] h a m = absurd m
All-Has P (b ∷ l) h a (inl e) = subst P e h.0
All-Has P (b ∷ l) h a (inr m) = All-Has P l h.1 a m

pub All-each : {A : Type 0} (P : A → Type 0) (l : List A) → ((a : A) → Has a l → P a) → All P l
All-each P [] f = tt
All-each P (b ∷ l) f = (f b (inl refl), All-each P l (λ a m. f a (inr m)))

module _ {ℓ} {A : Type ℓ} (less : A → A → Bool) where
  unfoldable pub insert_sorted : A → List A → List A
  insert_sorted a [] = a ∷ []
  insert_sorted a (b ∷ l) = if less b a then b ∷ insert_sorted a l else a ∷ b ∷ l

  unfoldable pub sort_slice : List A → List A
  unfolding insert_sorted
  sort_slice [] = []
  sort_slice (a ∷ l) = insert_sorted a (sort_slice l)

  pub insert_sorted-perm : (a : A) (l : List A) → Perm (insert_sorted a l) (a ∷ l)
  unfolding insert_sorted
  insert_sorted-perm a [] = Perm.refl _
  insert_sorted-perm a (b ∷ l) =
      elim (less b a) as (λ t. Perm (if t then b ∷ insert_sorted a l else a ∷ b ∷ l) (a ∷ b ∷ l)) [
        | true ↦ Perm.trans (Perm.cons b (insert_sorted-perm a l)) (Perm.swap a b l)
        | false ↦ Perm.refl _
      ]

  pub sort_slice-perm : (l : List A) → Perm (sort_slice l) l
  unfolding sort_slice
  sort_slice-perm [] = Perm.refl []
  sort_slice-perm (a ∷ l) =
      Perm.trans (insert_sorted-perm a (sort_slice l)) (Perm.cons a (sort_slice-perm l))

  All-insert_sorted {κ} :
      (P : A → Type κ) (a : A) (l : List A) → P a → All P l → All P (insert_sorted a l)
  unfolding insert_sorted
  All-insert_sorted P a [] h t = (h, tt)
  All-insert_sorted P a (b ∷ l) h t =
      elim (less b a) as (λ t. All P (if t then b ∷ insert_sorted a l else a ∷ b ∷ l)) [
        | true ↦ (t.0, All-insert_sorted P a l h t.1)
        | false ↦ (h, t)
      ]

  pub All-sort_slice {κ} : (P : A → Type κ) (l : List A) → All P l → All P (sort_slice l)
  unfolding sort_slice
  All-sort_slice P [] h = tt
  All-sort_slice P (a ∷ l) h = All-insert_sorted P a (sort_slice l) h.0 (All-sort_slice P l h.1)

  insert_sorted-All {κ} :
      (P : A → Type κ) (a : A) (l : List A) → All P (insert_sorted a l) → P a × All P l
  unfolding insert_sorted
  insert_sorted-All P a [] h = h
  insert_sorted-All P a (b ∷ l) h =
      (elim (less b a)
          as (λ t. All P (if t then b ∷ insert_sorted a l else a ∷ b ∷ l) → P a × All P (b ∷ l)) [
            | true ↦ λ k. let rest = insert_sorted-All P a l k.1 in (rest.0, (k.0, rest.1))
            | false ↦ λ k. k
          ])
        h

  pub sort_slice-All {κ} : (P : A → Type κ) (l : List A) → All P (sort_slice l) → All P l
  unfolding sort_slice
  sort_slice-All P [] h = tt
  sort_slice-All P (a ∷ l) h =
      let parts = insert_sorted-All P a (sort_slice l) h in (parts.0, sort_slice-All P l parts.1)

  length-insert_sorted : (a : A) (l : List A) → length (insert_sorted a l) ≡ suc (length l)
  unfolding insert_sorted
  length-insert_sorted a [] = refl
  length-insert_sorted a (b ∷ l) =
      elim (less b a)
        as (λ t. length (if t then b ∷ insert_sorted a l else a ∷ b ∷ l) ≡ suc (suc (length l))) [
          | true ↦ omega (arith, length-insert_sorted a l)
          | false ↦ refl
        ]

  pub length-sort_slice : (l : List A) → length (sort_slice l) ≡ length l
  unfolding sort_slice
  length-sort_slice [] = refl
  length-sort_slice (a ∷ l) =
      omega (arith, length-insert_sorted a (sort_slice l), length-sort_slice l)

module _ {A : Type 0} (less : A → A → Bool) where
  insert_sorted-Pairwise :
      (R : A → A → Type 0) (sym : (a b : A) → R a b → R b a) (a : A) (l : List A)
      → All (R a) l
      → Pairwise R l
      → Pairwise R (insert_sorted less a l)
  unfolding insert_sorted
  insert_sorted-Pairwise R sym a [] h p = (tt, tt)
  insert_sorted-Pairwise R sym a (b ∷ l) h p =
      elim (less b a) as (λ t. Pairwise R (if t then b ∷ insert_sorted less a l else a ∷ b ∷ l)) [
        | true ↦ (
          All-insert_sorted less (R b) a l (sym a b h.0) p.0,
          insert_sorted-Pairwise R sym a l h.1 p.1,
        )
        | false ↦ (h, p)
      ]

  pub sort_slice-Pairwise :
      (R : A → A → Type 0) (sym : (a b : A) → R a b → R b a) (l : List A)
      → Pairwise R l
      → Pairwise R (sort_slice less l)
  unfolding sort_slice
  sort_slice-Pairwise R sym [] p = tt
  sort_slice-Pairwise R sym (a ∷ l) p =
      insert_sorted-Pairwise R sym a (sort_slice less l) (All-sort_slice less (R a) l p.0)
        (sort_slice-Pairwise R sym l p.1)

  Has-insert_sorted : (a b : A) (l : List A) → (b ≡ a) ⊎ Has a l → Has a (insert_sorted less b l)
  unfolding insert_sorted
  Has-insert_sorted a b [] h = h
  Has-insert_sorted a b (c ∷ l) h =
      elim (less c b) as (λ t. Has a (if t then c ∷ insert_sorted less b l else b ∷ c ∷ l)) [
        | true ↦ elim h [
          | inl e ↦ inr (Has-insert_sorted a b l (inl e))
          | inr (inl e) ↦ inl e
          | inr (inr m) ↦ inr (Has-insert_sorted a b l (inr m))
        ]
        | false ↦ h
      ]

  pub Has-sort_slice : (a : A) (l : List A) → Has a l → Has a (sort_slice less l)
  unfolding sort_slice
  Has-sort_slice a [] h = h
  Has-sort_slice a (b ∷ l) h =
      Has-insert_sorted a b (sort_slice less l)
        (elim h [ inl e ↦ inl e | inr m ↦ inr (Has-sort_slice a l m) ])

-- Where `less` is an order by keys, the result is in that order: no element is less than one before.
module _ {A : Type 0} (less : A → A → Bool) (asym : (a b : A) → less a b ≡ true → less b a ≡ false)
    (negtrans : (a b c : A) → less b a ≡ false → less c b ≡ false → less c a ≡ false) where
  abbrev pub Ordered : A → A → Type 0
  Ordered a b = less b a ≡ false

  All-below : (a b : A) (l : List A) → Ordered a b → All (Ordered b) l → All (Ordered a) l
  All-below a b [] h p = tt
  All-below a b (c ∷ l) h p = (negtrans a b c h p.0, All-below a b l h p.1)

  insert_sorted-Ordered :
      (a : A) (l : List A) → Pairwise Ordered l → Pairwise Ordered (insert_sorted less a l)
  unfolding insert_sorted
  insert_sorted-Ordered a [] p = (tt, tt)
  insert_sorted-Ordered a (b ∷ l) p =
      elim (less b a)
          as (λ t.
            less b a ≡ t → Pairwise Ordered (if t then b ∷ insert_sorted less a l else a ∷ b ∷ l)) [
              | true ↦ λ e. (
                All-insert_sorted less (Ordered b) a l (asym b a e) p.0,
                insert_sorted-Ordered a l p.1,
              )
              | false ↦ λ e. ((e, All-below a b l e p.0), p)
            ]
        refl

  pub sort_slice-Ordered : (l : List A) → Pairwise Ordered (sort_slice less l)
  unfolding sort_slice
  sort_slice-Ordered [] = tt
  sort_slice-Ordered (a ∷ l) = insert_sorted-Ordered a (sort_slice less l) (sort_slice-Ordered l)
