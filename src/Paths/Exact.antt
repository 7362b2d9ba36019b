-- ===== src/Paths/Exact.antt =====
-- When `EnsureUnderRoot` of internal/app/util.go accepts.
use mathlib.Core.Path.{subst}
use oci2gdsd.Prelude.{
  ◌≡◌, ◌≢◌, refl, sym, ap, ◌∙◌, ◌↔◌, false, [], ◌∷◌, ◌++◌, Text, codes, text_eq, text_eq_iff,
  trim_space, All, Bool-cases, inl, inr,
}
use oci2gdsd.Paths.{
  Components, Resolved, real, not_exist, eval_error, Links, rev_onto, rev, abs_clean_rev,
  resolve_parents, resolve_allow_missing, goes_up, compare_resolved, inside, ensure_under_root,
}
use oci2gdsd.Paths.Containment.{
  Absent, ResolvesTo, Plain, Contained, rev-append, append_nil, rel-append,
  ensure_under_root-Contained,
}

rev_onto-rev_onto : (xs ys zs : Components) → rev_onto (rev_onto xs ys) zs ≡ rev_onto ys (xs ++ zs)
unfolding rev_onto
rev_onto-rev_onto [] ys zs = refl
rev_onto-rev_onto (x ∷ xs) ys zs = rev_onto-rev_onto xs (x ∷ ys) zs

rev-rev : (xs : Components) → rev (rev xs) ≡ xs
unfolding rev rev_onto
rev-rev xs = rev_onto-rev_onto xs [] [] ∙ append_nil xs

rev_onto-both : (xs ys zs : Components) → rev_onto (xs ++ ys) zs ≡ rev_onto ys (rev_onto xs zs)
unfolding rev_onto
rev_onto-both [] ys zs = refl
rev_onto-both (x ∷ xs) ys zs = rev_onto-both xs ys (x ∷ zs)

module _ (eval : Components → Resolved) (up : Components) where
  -- None of the paths is there that end with one of the components `extra`, the last first, above `up`.
  abbrev Gone : Components → Type 0
  Gone [] = Unit
  Gone (c ∷ extra) = (eval (rev (c ∷ extra ++ up)) ≡ not_exist) × Gone extra

  Absent-Gone :
      (cs extra : Components)
      → Gone extra
      → Absent eval (rev (extra ++ up)) cs
      → Gone (rev_onto cs extra)
  unfolding rev_onto
  Absent-Gone [] extra g a = g
  Absent-Gone (c ∷ cs) extra g a =
      let e : rev (extra ++ up) ++ c ∷ [] ≡ rev (c ∷ extra ++ up) =
        unfold rev rev_onto in rev-append (extra ++ up) (c ∷ []) in
      Absent-Gone cs (c ∷ extra) (subst (λ p. eval p ≡ not_exist) e a.0, g)
        (subst (λ p. Absent eval p cs) e a.1)

  module _ {place : Components} (there : eval (rev up) ≡ real place) where
    first_there :
        (up' : Components) (missing : Components)
        → eval (rev up') ≡ real place
        → resolve_parents eval up' missing ≡ real (place ++ missing)
    unfolding resolve_parents rev rev_onto
    first_there [] missing e = rw (resolve_parents, e) refl
    first_there (c ∷ up') missing e = rw (resolve_parents, e) refl

    parents_found :
        (extra missing : Components)
        → Gone extra
        → resolve_parents eval (extra ++ up) missing ≡ real (place ++ rev_onto extra missing)
    unfolding resolve_parents rev_onto
    parents_found [] missing g = first_there up missing there
    parents_found (c ∷ extra) missing g = rw g.0 (parents_found extra (c ∷ missing) g.1)

    resolved_at :
        (extra : Components)
        → Gone extra
        → (elim (eval (rev (extra ++ up))) [
          | real out ↦ real out
          | eval_error ↦ eval_error
          | not_exist ↦ resolve_parents eval (extra ++ up) []
        ])
          ≡ real (place ++ rev extra)
    unfolding rev rev_onto
    resolved_at [] g = rw there (ap real (sym (append_nil place)))
    resolved_at (c ∷ extra) g = rw g.0 (parents_found (c ∷ extra) [] g)

-- The place is the one that the code finds.
resolve_allow_missing_of :
    (l : Links) (path : Text) {target : Components}
    → ResolvesTo l.eval_symlinks (rev (abs_clean_rev l.cwd path)) target
    → resolve_allow_missing l path ≡ real target
unfolding resolve_allow_missing
resolve_allow_missing_of l path {target} r =
    let up : Components = rev r.existing in
    let there : l.eval_symlinks (rev up) ≡ real r.place =
      subst (λ p. l.eval_symlinks p ≡ real r.place) (sym (rev-rev r.existing)) r.exists in
    let gone : Gone l.eval_symlinks up (rev r.missing) =
      unfold rev in
      Absent-Gone l.eval_symlinks up r.missing [] tt
        (subst (λ p. Absent l.eval_symlinks p r.missing) (sym (rev-rev r.existing)) r.absent) in
    let split : rev (r.existing ++ r.missing) ≡ rev r.missing ++ up =
      unfold rev in rev_onto-both r.existing r.missing [] ∙ sym (rev-append r.missing up) in
    let same : abs_clean_rev l.cwd path ≡ rev r.missing ++ up =
      sym (rev-rev (abs_clean_rev l.cwd path)) ∙ ap rev r.whole ∙ split in
    subst
      (λ u.
        (elim (l.eval_symlinks (rev u)) [
          | real out ↦ real out
          | eval_error ↦ eval_error
          | not_exist ↦ resolve_parents l.eval_symlinks u []
        ])
        ≡ real target)
      (sym same)
      (resolved_at l.eval_symlinks up there (rev r.missing) gone
        ∙ ap (λ m. real (r.place ++ m)) (rev-rev r.missing)
        ∙ ap real (sym r.joined))

-- No component goes up.
abbrev pub Down : Components → Type 0
Down cs = All (λ c. c ≢ codes "..") cs

All-append : (P : Text → Type 0) (a b : Components) → All P a → All P b → All P (a ++ b)
All-append P [] b h k = k
All-append P (c ∷ a) b h k = (h.0, All-append P a b h.1 k)

All-front : (P : Text → Type 0) (a b : Components) → All P (a ++ b) → All P a
All-front P [] b h = tt
All-front P (c ∷ a) b h = (h.0, All-front P a b h.1)

All-tail : (P : Text → Type 0) (a b : Components) → All P (a ++ b) → All P b
All-tail P [] b h = h
All-tail P (c ∷ a) b h = All-tail P a b h.1

Plain-Down : (cs : Components) → All Plain cs → Down cs
Plain-Down [] h = tt
Plain-Down (c ∷ cs) h = (h.0.2, Plain-Down cs h.1)

not_up : (cs : Components) → Down cs → goes_up cs ≡ false
unfolding goes_up
not_up [] h = refl
not_up (c ∷ cs) h = elim (Bool-cases (text_eq c (codes ".."))) [
  | inl e ↦ absurd (h.0 ((text_eq_iff c (codes "..")).0 e))
  | inr n ↦ n
]

-- In a working directory of plain components, and where a path without `..` resolves to one, the
-- paths that pass are those that are contained: the root is a real directory, the longest part of the
-- path that exists is real, and its place, with the components that are missing, is below the root's.
pub ensure_under_root_iff :
    (l : Links) (root path : Text)
    → All Plain l.cwd
    → ((cs out : Components) → Down cs → l.eval_symlinks cs ≡ real out → Down out)
    → (ensure_under_root l root path ≡ inside) ↔ Contained l root path
unfolding ensure_under_root compare_resolved
ensure_under_root_iff l root path w clean = (
  λ h. unfold ensure_under_root in ensure_under_root-Contained l root path w h,
  λ c.
      let whole : Down (c.resolved.existing ++ c.resolved.missing) =
        subst Down c.resolved.whole (Plain-Down _ c.plain) in
      let down : Down (c.root_place ++ c.below) = subst Down (sym c.resolved.joined) (
        All-append _ c.resolved.place c.resolved.missing
          (clean c.resolved.existing c.resolved.place
            (All-front _ c.resolved.existing c.resolved.missing whole) c.resolved.exists)
          (All-tail _ c.resolved.existing c.resolved.missing whole)) in
      rw
        (
          c.root_given,
          c.path_given,
          c.root_real,
          resolve_allow_missing_of l (trim_space path) c.resolved,
          rel-append c.root_place c.below,
          not_up c.below (All-tail _ c.root_place c.below down),
        )
        refl,
)
