-- ===== src/Tokens/Table.antt =====
-- The two tables of internal/app/runtime_bundle_token.go, which say the same of every token.
use oci2gdsd.Prelude.{
  ◌≡◌, refl, sym, ap, ◌∙◌, Bool, true, false, ◌&&◌, Option, none, some, [], ◌∷◌, is_empty, Text,
  text_eq, text_eq_iff, Map, lookup, insert, erase, lookup-insert, lookup-erase, Apart, arith,
  Bool-cases, inl, inr, if◌then◌else◌,
}
use oci2gdsd.Tokens.{Access, Tokens, Bundles, drop_from_set, add_to_set, set_of}

abbrev pub has : Text → Tokens → Bool
has t set = elim (lookup t set) [ none ↦ false | some _ ↦ true ]

abbrev pub set_has : Text → Option Tokens → Bool
set_has t none = false
set_has t (some set) = has t set

-- The allocation's set has the token.
abbrev pub in_sets : Text → Text → Map Tokens → Bool
in_sets t a sets = set_has t (lookup a sets)

-- The token's record is the allocation's.
abbrev pub owned : Text → Text → Map Access → Bool
owned t a tokens = elim (lookup t tokens) [ none ↦ false | some r ↦ text_eq r.allocation_id a ]

pub record Consistent (s : Bundles) : Type 0 where
  pub agree : (t a : Text) → in_sets t a s.by_allocation ≡ owned t a s.tokens
  pub apart : Apart s.tokens

has-erase :
    (t u : Text) (set : Tokens) → has t (erase u set) ≡ (if text_eq u t then false else has t set)
has-erase t u set = ground (arith, lookup-erase u t set)

has-insert :
    (t u : Text) (set : Tokens)
    → has t (insert u tt set) ≡ (if text_eq u t then true else has t set)
has-insert t u set = ground (arith, lookup-insert u t tt set)

pub owned-erase :
    (t a u : Text) (m : Map Access)
    → owned t a (erase u m) ≡ (if text_eq u t then false else owned t a m)
owned-erase t a u m = ground (arith, lookup-erase u t m)

pub owned-insert :
    (t a u : Text) (r : Access) (m : Map Access)
    → owned t a (insert u r m) ≡ (if text_eq u t then text_eq r.allocation_id a else owned t a m)
owned-insert t a u r m = ground (arith, lookup-insert u t r m)

has_empty : (t : Text) (set : Tokens) → is_empty set ≡ true → has t set ≡ false
unfolding is_empty lookup
has_empty t [] e = refl
has_empty t (x ∷ set) e = cc

-- What is left of an allocation's set.
abbrev shrunk : Text → Option Tokens → Option Tokens
shrunk u none = none
shrunk u (some set) = if is_empty (erase u set) then none else some (erase u set)

lookup-drop_from_set :
    (a u b : Text) (sets : Map Tokens)
    → lookup a (drop_from_set u b sets)
      ≡ (if text_eq b a then shrunk u (lookup b sets) else lookup a sets)
unfolding drop_from_set
lookup-drop_from_set a u b sets = there (lookup b sets) refl
  where
    there :
        (o : Option Tokens)
        → lookup b sets ≡ o
        → lookup a (elim o as (λ _. Map Tokens) [
          | none ↦ sets
          | some set ↦
              let rest = erase u set in if is_empty rest then erase b sets else insert b rest sets
        ])
          ≡ (if text_eq b a then shrunk u o else lookup a sets)
    there none e = ground (arith, text_eq_iff b a, e)
    there (some set) e = ground (arith, lookup-erase b a sets, lookup-insert b a (erase u set) sets)

has-shrunk :
    (t u : Text) (o : Option Tokens)
    → set_has t (shrunk u o) ≡ (if text_eq u t then false else set_has t o)
has-shrunk t u none = ground arith
has-shrunk t u (some set) = elim (Bool-cases (is_empty (erase u set))) [
  | inl g ↦ rw g (sym (has_empty t (erase u set) g) ∙ has-erase t u set)
  | inr g ↦ rw g (has-erase t u set)
]

pub in_sets-drop :
    (t a u b : Text) (sets : Map Tokens)
    → in_sets t a (drop_from_set u b sets)
      ≡ (if text_eq b a && text_eq u t then false else in_sets t a sets)
in_sets-drop t a u b sets =
    ap (set_has t) (lookup-drop_from_set a u b sets) ∙ elim (Bool-cases (text_eq b a)) [
      | inl f ↦ rw (f, (text_eq_iff b a).0 f) (has-shrunk t u (lookup a sets))
      | inr f ↦ rw f refl
    ]

has-set_of : (t : Text) (o : Option Tokens) → has t (set_of o) ≡ set_has t o
unfolding lookup
has-set_of t none = refl
has-set_of t (some set) = refl

pub in_sets-add :
    (t a u b : Text) (sets : Map Tokens)
    → in_sets t a (add_to_set u b sets)
      ≡ (if text_eq b a && text_eq u t then true else in_sets t a sets)
in_sets-add t a u b sets =
    ap (set_has t) (lookup-insert b a (insert u tt (set_of (lookup b sets))) sets)
    ∙ elim (Bool-cases (text_eq b a)) [
      | inl f ↦
          rw (f, (text_eq_iff b a).0 f)
            (ground (arith, has-insert t u (set_of (lookup a sets)), has-set_of t (lookup a sets)))
      | inr f ↦ rw f refl
    ]
