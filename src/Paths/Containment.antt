-- ===== src/Paths/Containment.antt =====
-- What `EnsureUnderRoot` of internal/app/util.go guarantees.
use oci2gdsd.Prelude.{
  ◌≡◌, ◌≢◌, refl, sym, ap, Bool, true, false, List, [], ◌∷◌, ◌++◌, Text, codes, text_eq,
  text_eq_iff, text_eq_refl, is_empty, trim_space, if◌then◌else◌, arith, All, Bool-cases, inl, inr,
}
use oci2gdsd.Names.{is_abs}
use oci2gdsd.Paths.{
  Components, Resolved, real, not_exist, eval_error, Links, clean_step, clean_from, rev_onto, rev,
  split_slash, abs_clean_rev, resolve_parents, resolve_allow_missing, ups, rel, goes_up, inside,
  root_empty, path_empty, root_unresolved, compare_resolved, ensure_under_root,
}

-- A relative path that does not go up starts at the root.
rel-below :
    (root path : Components)
    → goes_up (rel root path) ≡ false
    → (below : Components) × (path ≡ root ++ below)
unfolding rel ups goes_up
rel-below [] path h = (path, refl)
rel-below (r ∷ root) [] h = cc (rw text_eq_refl at h)
rel-below (r ∷ root) (p ∷ path) h = elim (Bool-cases (text_eq r p)) [
  | inl e ↦
      let (below, q) = rel-below root path (rw e at h) in (below, cc ((text_eq_iff r p).0 e, q))
  | inr n ↦ cc (rw (n, text_eq_refl) at h)
]

pub rel-append : (root below : Components) → rel root (root ++ below) ≡ below
unfolding rel
rel-append [] below = refl
rel-append (r ∷ root) below = rw text_eq_refl (rel-append root below)

rev_onto-append : (cs out more : Components) → rev_onto cs out ++ more ≡ rev_onto cs (out ++ more)
unfolding rev_onto
rev_onto-append [] out more = refl
rev_onto-append (c ∷ cs) out more = rev_onto-append cs (c ∷ out) more

pub rev-append : (cs more : Components) → rev cs ++ more ≡ rev_onto cs more
unfolding rev
rev-append cs more = rev_onto-append cs [] more

-- The components that follow a path are not there, one after the other.
abbrev pub Absent : (Components → Resolved) → Components → Components → Type 0
Absent eval base [] = Unit
Absent eval base (c ∷ cs) = (eval (base ++ c ∷ []) ≡ not_exist) × Absent eval (base ++ c ∷ []) cs

-- A path resolved as far as it exists: the longest part that exists is real, the rest is appended.
pub record ResolvesTo (eval : Components → Resolved) (path target : Components) : Type 0 where
  pub existing : Components
  pub missing : Components
  pub place : Components
  pub whole : path ≡ existing ++ missing
  pub exists : eval existing ≡ real place
  pub absent : Absent eval existing missing
  pub joined : target ≡ place ++ missing

resolve_parents_lem :
    (eval : Components → Resolved) (up missing : Components) {target : Components}
    → Absent eval (rev up) missing
    → resolve_parents eval up missing ≡ real target
    → ResolvesTo eval (rev_onto up missing) target
unfolding resolve_parents
resolve_parents_lem eval [] missing {target} gone h = top (eval []) refl h
  where
    top :
        (r : Resolved)
        → eval [] ≡ r
        → (elim r [
          | real out ↦ real (out ++ missing)
          | not_exist ↦ eval_error
          | eval_error ↦ eval_error
        ])
          ≡ real target
        → ResolvesTo eval (rev_onto [] missing) target
    top (real out) e h = record {
      existing = [];
      missing = missing;
      place = out;
      whole = unfold rev_onto in refl;
      exists = e;
      absent = gone;
      joined = cc;
    }
    top not_exist e h = cc
    top eval_error e h = cc
resolve_parents_lem eval (c ∷ up) missing {target} gone h =
    at (eval (rev (c ∷ up))) refl h (resolve_parents_lem eval up (c ∷ missing))
  where
    at :
        (r : Resolved)
        → eval (rev (c ∷ up)) ≡ r
        → (elim r [
          | real out ↦ real (out ++ missing)
          | not_exist ↦ resolve_parents eval up (c ∷ missing)
          | eval_error ↦ eval_error
        ])
          ≡ real target
        → (Absent eval (rev up) (c ∷ missing)
            → resolve_parents eval up (c ∷ missing) ≡ real target
            → ResolvesTo eval (rev_onto up (c ∷ missing)) target)
        → ResolvesTo eval (rev_onto (c ∷ up) missing) target
    at (real out) e h ih = record {
      existing = rev (c ∷ up);
      missing = missing;
      place = out;
      whole = sym (rev-append (c ∷ up) missing);
      exists = e;
      absent = gone;
      joined = cc;
    }
    at not_exist e h ih = unfold rev_onto in ih (rw (rev-append up (c ∷ [])) (e, gone)) h
    at eval_error e h ih = cc

pub append_nil : (cs : Components) → cs ++ [] ≡ cs
append_nil [] = refl
append_nil (c ∷ cs) = ap (λ r. c ∷ r) (append_nil cs)

resolve_allow_missing_lem :
    (l : Links) (path : Text) {target : Components}
    → resolve_allow_missing l path ≡ real target
    → ResolvesTo l.eval_symlinks (rev (abs_clean_rev l.cwd path)) target
unfolding resolve_allow_missing
resolve_allow_missing_lem l path {target} h =
    at (l.eval_symlinks (rev (abs_clean_rev l.cwd path))) refl h
  where
    at :
        (r : Resolved)
        → l.eval_symlinks (rev (abs_clean_rev l.cwd path)) ≡ r
        → (elim r [
          | real out ↦ real out
          | eval_error ↦ eval_error
          | not_exist ↦ resolve_parents l.eval_symlinks (abs_clean_rev l.cwd path) []
        ])
          ≡ real target
        → ResolvesTo l.eval_symlinks (rev (abs_clean_rev l.cwd path)) target
    at (real out) e h = record {
      existing = rev (abs_clean_rev l.cwd path);
      missing = [];
      place = out;
      whole = sym (append_nil _);
      exists = e;
      absent = tt;
      joined = rw append_nil (cc);
    }
    at not_exist e h =
        unfold rev in resolve_parents_lem l.eval_symlinks (abs_clean_rev l.cwd path) [] tt h
    at eval_error e h = cc

-- A component that moves: none is left in a clean path.
abbrev pub Plain : Text → Type 0
Plain c = (c ≢ []) × (c ≢ codes ".") × (c ≢ codes "..")

clean_step-Plain : (up : Components) (piece : Text) → All Plain up → All Plain (clean_step up piece)
unfolding clean_step is_empty
clean_step-Plain up [] h = h
clean_step-Plain up (c ∷ s) h = elim (Bool-cases (text_eq (c ∷ s) (codes "."))) [
  | inl e ↦ rw e h
  | inr n ↦ elim (Bool-cases (text_eq (c ∷ s) (codes ".."))) [
    | inl e ↦ rw (n, e) (drop_one up h)
    | inr m ↦
        rw (n, m)
          (
            (
              λ x. cc,
              λ x. false_of (text_eq (c ∷ s) (codes ".")) n ((text_eq_iff _ _).1 x),
              λ x. false_of (text_eq (c ∷ s) (codes "..")) m ((text_eq_iff _ _).1 x),
            ),
            h,
          )
  ]
]
  where
    false_of : (b : Bool) → b ≡ false → b ≡ true → ⊥
    false_of b f t = cc

    drop_one :
        (up : Components)
        → All Plain up
        → All Plain (let rest : Components = elim up [ [] ↦ [] | _ ∷ rest ↦ rest ] in rest)
    drop_one [] h = tt
    drop_one (_ ∷ rest) h = h.1

clean_from-Plain :
    (up : Components) (pieces : List Text) → All Plain up → All Plain (clean_from up pieces)
unfolding clean_from
clean_from-Plain up [] h = h
clean_from-Plain up (p ∷ ps) h = clean_from-Plain (clean_step up p) ps (clean_step-Plain up p h)

All-rev_onto : (cs out : Components) → All Plain cs → All Plain out → All Plain (rev_onto cs out)
unfolding rev_onto
All-rev_onto [] out h k = k
All-rev_onto (c ∷ cs) out h k = All-rev_onto cs (c ∷ out) h.1 (h.0, k)

abs_clean_rev-Plain :
    (cwd : Components) (path : Text) → All Plain cwd → All Plain (rev (abs_clean_rev cwd path))
unfolding abs_clean_rev rev
abs_clean_rev-Plain cwd path h =
    All-rev_onto (abs_clean_rev cwd path) []
      (clean_from-Plain _ ((split_slash path).0 ∷ (split_slash path).1) (start (is_abs path))) tt
  where
    start : (b : Bool) → All Plain (if b then [] else rev_onto cwd [])
    start true = tt
    start false = All-rev_onto cwd [] h tt

-- The tests of `EnsureUnderRoot` in turn, with what they look at as variables.
tests_passed :
    (e₁ e₂ : Bool) (r t : Resolved)
    → (if e₁ then root_empty else if e₂ then path_empty else elim r [
      | not_exist ↦ root_unresolved
      | eval_error ↦ root_unresolved
      | real root ↦ compare_resolved root t
    ])
      ≡ inside
    → ((e₁ ≡ false) × (e₂ ≡ false))
      × ((root : Components) × (below : Components) × (r ≡ real root) × (t ≡ real (root ++ below)))
unfolding compare_resolved
tests_passed true e₂ r t h = cc
tests_passed false true r t h = cc
tests_passed false false not_exist t h = cc
tests_passed false false eval_error t h = cc
tests_passed false false (real root) not_exist h = cc
tests_passed false false (real root) eval_error h = cc
tests_passed false false (real root) (real path) h =
    let (below, e) = rel-below root path (ground arith) in
    ((refl, refl), (root, below, refl, ap real e))

-- A path that passes `EnsureUnderRoot`: the root is a real directory, the part of the path that
-- exists is real, the part that does not has no `.` or `..`, and together they are below the root.
pub record Contained (l : Links) (root path : Text) : Type 0 where
  pub root_given : is_empty (trim_space root) ≡ false
  pub path_given : is_empty (trim_space path) ≡ false
  pub root_place : Components
  pub root_real : l.eval_symlinks (rev (abs_clean_rev l.cwd (trim_space root))) ≡ real root_place
  pub below : Components
  pub resolved :
      ResolvesTo l.eval_symlinks (rev (abs_clean_rev l.cwd (trim_space path))) (root_place ++ below)
  pub plain : All Plain (rev (abs_clean_rev l.cwd (trim_space path)))

-- In a working directory of plain components, a path that passes resolves to a place at or below the
-- place of the root: the longest prefix of it that exists resolves, and what is missing is joined without `..`.
pub ensure_under_root-Contained :
    (l : Links) (root path : Text)
    → All Plain l.cwd
    → ensure_under_root l root path ≡ inside
    → Contained l root path
unfolding ensure_under_root
ensure_under_root-Contained l root path w h =
    let (given, (place, below, e, t)) =
      tests_passed (is_empty (trim_space root)) (is_empty (trim_space path))
        (l.eval_symlinks (rev (abs_clean_rev l.cwd (trim_space root))))
        (resolve_allow_missing l (trim_space path)) h in
    record {
      root_given = given.0;
      path_given = given.1;
      root_place = place;
      root_real = e;
      below = below;
      resolved = resolve_allow_missing_lem l (trim_space path) t;
      plain = abs_clean_rev-Plain l.cwd (trim_space path) w;
    }
