-- ===== src/Tokens/Revocation.antt =====
-- A revocation of internal/app/runtime_bundle_token.go removes the tokens of its allocation and no others.
use oci2gdsd.Prelude.{
  ◌+◌, ◌≡◌, refl, sym, ap, ◌∙◌, false, Option, none, some, [], ◌∷◌, length, is_empty, Text, text_eq,
  text_eq_iff, trim_space, Map, lookup, erase, lookup-erase, Apart, erase-Apart, arith, Bool-cases,
  Option-cases, inl, inr, if◌then◌else◌,
}
use oci2gdsd.Tokens.{Access, Tokens, Bundles, delete_each, revoke}
use oci2gdsd.Tokens.Table.{has, set_has, in_sets, owned, Consistent, owned-erase}

owned-delete_each :
    (u c : Text) (set : Tokens) (m : Map Access)
    → owned u c (delete_each set m) ≡ (if has u set then false else owned u c m)
unfolding delete_each lookup
owned-delete_each u c [] m = refl
owned-delete_each u c ((t, x) ∷ set) m =
    ground (arith, owned-delete_each u c set (erase t m), owned-erase u c t m)

delete_each-Apart : (set : Tokens) (m : Map Access) → Apart m → Apart (delete_each set m)
unfolding delete_each
delete_each-Apart [] m h = h
delete_each-Apart ((t, x) ∷ set) m h = delete_each-Apart set (erase t m) (erase-Apart t m h)

one_owner :
    (x a c : Text)
    → (if text_eq x a then false else text_eq x c) ≡ (if text_eq a c then false else text_eq x c)
one_owner x a c = ground (arith, text_eq_iff x a, text_eq_iff x c, text_eq_iff a c)

-- A token of one allocation is no other's.
owned_apart :
    (u a c : Text) (m : Map Access)
    → (if owned u a m then false else owned u c m) ≡ (if text_eq a c then false else owned u c m)
owned_apart u a c m = elim (Option-cases (lookup u m)) [
  | inl e ↦ ground (arith, e)
  | inr (r, e) ↦ ground (arith, e, one_owner r.allocation_id a c)
]

-- No token of the allocation is left.
pub owned-revoke :
    (text : Text) (s : Bundles)
    → Consistent s
    → is_empty (trim_space text) ≡ false
    → (u c : Text)
    → owned u c (revoke text s).tokens
      ≡ (if text_eq (trim_space text) c then false else owned u c s.tokens)
unfolding revoke
owned-revoke text s h e u c = rw e (sets (lookup (trim_space text) s.by_allocation) refl)
  where
    a : Text
    a = trim_space text

    sets :
        (o : Option Tokens)
        → lookup a s.by_allocation ≡ o
        → owned u c
            (elim o as (λ _. Bundles) [
              | none ↦ record s { by_allocation = erase a s.by_allocation }
              | some set ↦ record s {
                tokens = delete_each set s.tokens;
                by_allocation = erase a s.by_allocation;
                evictions = s.evictions + length set;
              }
            ]).tokens
          ≡ (if text_eq a c then false else owned u c s.tokens)
    sets none f = ground (arith, h.agree u c, text_eq_iff a c, f)
    sets (some set) f =
        let member : has u set ≡ owned u a s.tokens = sym (ap (set_has u) f) ∙ h.agree u a in
        owned-delete_each u c set s.tokens
        ∙ ap (λ b. if b then false else owned u c s.tokens) member
        ∙ owned_apart u a c s.tokens

revoke_sets :
    (text : Text) (s : Bundles)
    → is_empty (trim_space text) ≡ false
    → (revoke text s).by_allocation ≡ erase (trim_space text) s.by_allocation
unfolding revoke
revoke_sets text s e = rw e (elim (Option-cases (lookup (trim_space text) s.by_allocation)) [
  | inl f ↦ rw f refl
  | inr (set, f) ↦ rw f refl
])

revoke-Apart : (text : Text) (s : Bundles) → Apart s.tokens → Apart (revoke text s).tokens
unfolding revoke
revoke-Apart text s h = elim (Bool-cases (is_empty (trim_space text))) [
  | inl e ↦ rw e h
  | inr e ↦ rw e (elim (Option-cases (lookup (trim_space text) s.by_allocation)) [
    | inl f ↦ rw f h
    | inr (set, f) ↦ rw f (delete_each-Apart set s.tokens h)
  ])
]

-- A revocation keeps the tables in agreement.
pub revoke-Consistent : (text : Text) (s : Bundles) → Consistent s → Consistent (revoke text s)
unfolding revoke
revoke-Consistent text s h = elim (Bool-cases (is_empty (trim_space text))) [
  | inl e ↦ rw e h
  | inr e ↦ record {
    agree = λ u c.
        ap (in_sets u c) (revoke_sets text s e)
        ∙ ap (set_has u) (lookup-erase (trim_space text) c s.by_allocation)
        ∙ in_rest u c
        ∙ sym (owned-revoke text s h e u c);
    apart = revoke-Apart text s h.apart;
  }
]
  where
    in_rest :
        (u c : Text)
        → set_has u (if text_eq (trim_space text) c then none else lookup c s.by_allocation)
          ≡ (if text_eq (trim_space text) c then false else owned u c s.tokens)
    in_rest u c = elim (Bool-cases (text_eq (trim_space text) c)) [
      | inl f ↦ rw f refl
      | inr f ↦ rw f (h.agree u c)
    ]
