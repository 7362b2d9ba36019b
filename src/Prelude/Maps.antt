-- ===== src/Prelude/Maps.antt =====
-- Go maps with string keys, as association lists; the range order of a map is that of the list.
use mathlib.Core.Path.{◌≡◌, refl}
use mathlib.Core.Bool.{true, false}
use mathlib.Core.Option.{Option, none, some}
use mathlib.Core.List.{List, [], ◌∷◌}
use native.Mathlib.Omega.{arith}
use oci2gdsd.Prelude.Tests.{if◌then◌else◌}
use oci2gdsd.Prelude.Texts.{Text, text_eq, text_eq_iff}

abbrev pub Map {ℓ} : Type ℓ → Type ℓ
Map V = List (Text × V)

module _ {ℓ} {V : Type ℓ} where
  -- `v, ok := m[k]`
  unfoldable pub lookup : Text → Map V → Option V
  lookup k [] = none
  lookup k ((j, v) ∷ m) = if text_eq j k then some v else lookup k m

  -- `m[k] = v`
  unfoldable pub insert : Text → V → Map V → Map V
  insert k v [] = (k, v) ∷ []
  insert k v ((j, w) ∷ m) = if text_eq j k then (j, v) ∷ m else (j, w) ∷ insert k v m

  -- `delete(m, k)`
  unfoldable pub erase : Text → Map V → Map V
  erase k [] = []
  erase k ((j, w) ∷ m) = let rest = erase k m in if text_eq j k then rest else (j, w) ∷ rest

  unfoldable pub values : Map V → List V
  values [] = []
  values ((_, v) ∷ m) = v ∷ values m

  pub lookup-insert :
      (k j : Text) (v : V) (m : Map V)
      → lookup j (insert k v m) ≡ (if text_eq k j then some v else lookup j m)
  unfolding lookup insert
  lookup-insert k j v [] = refl
  lookup-insert k j v ((i, w) ∷ m) =
      ground (arith, text_eq_iff k j, text_eq_iff i k, text_eq_iff i j, lookup-insert k j v m)

  pub lookup-erase :
      (k j : Text) (m : Map V) → lookup j (erase k m) ≡ (if text_eq k j then none else lookup j m)
  unfolding lookup erase
  lookup-erase k j [] = ground arith
  lookup-erase k j ((i, w) ∷ m) =
      ground (arith, text_eq_iff k j, text_eq_iff i k, text_eq_iff i j, lookup-erase k j m)

  -- No key stands twice.
  abbrev pub Apart : Map V → Type ℓ
  Apart [] = Unit
  Apart ((k, v) ∷ m) = (lookup k m ≡ none) × Apart m

  pub insert-Apart : (k : Text) (v : V) (m : Map V) → Apart m → Apart (insert k v m)
  unfolding lookup insert
  insert-Apart k v [] h = (refl, tt)
  insert-Apart k v ((j, w) ∷ m) h =
      elim (text_eq j k)
          as (λ b. text_eq j k ≡ b → Apart (if b then (j, v) ∷ m else (j, w) ∷ insert k v m)) [
            | true ↦ λ e. h
            | false ↦ λ e. (
              ground (arith, lookup-insert k j v m, text_eq_iff k j, text_eq_iff j k, h.0),
              insert-Apart k v m h.1,
            )
          ]
        refl

  pub erase-Apart : (k : Text) (m : Map V) → Apart m → Apart (erase k m)
  unfolding lookup erase
  erase-Apart k [] h = tt
  erase-Apart k ((j, w) ∷ m) h =
      elim (text_eq j k) as (λ b. Apart (if b then erase k m else (j, w) ∷ erase k m)) [
        | true ↦ erase-Apart k m h.1
        | false ↦ (ground (arith, lookup-erase k j m, h.0), erase-Apart k m h.1)
      ]

pub ruleset map_laws = (lookup-insert, lookup-erase)
