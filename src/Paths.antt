-- ===== src/Paths.antt =====
-- `EnsureUnderRoot`, `SafeJoinUnderRoot` and `resolvePathWithSymlinksAllowMissing` of
-- internal/app/util.go. An absolute, clean path is the list of its components from the root
-- directory on. The operating system enters as the working directory and the resolution of
-- symbolic links; `Env` holds both.
pub mod Containment
pub mod Exact
use oci2gdsd.Prelude.{
  ℕ, Bool, true, false, ◌==◌, Option, none, some, List, [], ◌∷◌, ◌++◌, Text, codes, text_eq,
  is_empty, trim_space, if◌then◌else◌,
}
use oci2gdsd.Names.{slash, is_abs}

abbrev pub Components : Type 0
Components = List Text

-- `filepath.EvalSymlinks` of an absolute path: its real components, that it does not exist, or
-- another error.
pub data Resolved : Type 0 where
  real : Components → Resolved
  not_exist : Resolved
  eval_error : Resolved

pub record Links : Type 0 where
  pub cwd : Components
  pub eval_symlinks : Components → Resolved

-- The pieces between slashes.
unfoldable pub split_slash : Text → Text × List Text
split_slash [] = ([], [])
split_slash (c ∷ s) =
    let (piece, rest) = split_slash s in
    if c == slash then ([], piece ∷ rest) else (c ∷ piece, rest)

-- One piece in `filepath.Clean` of an absolute path; `up` is the path so far, last component first.
unfoldable pub clean_step : Components → Text → Components
clean_step up piece =
    if is_empty piece
    then up
    else if text_eq piece (codes ".")
    then up
    else if text_eq piece (codes "..")
    then elim up [ [] ↦ [] | _ ∷ rest ↦ rest ]
    else piece ∷ up

unfoldable pub clean_from : Components → List Text → Components
unfolding clean_step
clean_from up [] = up
clean_from up (piece ∷ rest) = clean_from (clean_step up piece) rest

unfoldable pub rev_onto : Components → Components → Components
rev_onto [] out = out
rev_onto (c ∷ cs) out = rev_onto cs (c ∷ out)

unfoldable pub rev : Components → Components
unfolding rev_onto
rev cs = rev_onto cs []

-- `filepath.Abs(filepath.Clean(path))`, with the last component first.
unfoldable pub abs_clean_rev : Components → Text → Components
unfolding clean_from split_slash is_abs rev
abs_clean_rev cwd path =
    let (piece, rest) = split_slash path in
    clean_from (if is_abs path then [] else rev cwd) (piece ∷ rest)

-- The loop of `resolvePathWithSymlinksAllowMissing` over the parents of a path (last component
-- first): the first parent that exists, with the components that are missing behind it.
unfoldable pub resolve_parents : (Components → Resolved) → Components → Components → Resolved
unfolding rev
resolve_parents eval [] missing = elim (eval []) [
  | real out ↦ real (out ++ missing)
  | not_exist ↦ eval_error
  | eval_error ↦ eval_error
]
resolve_parents eval (c ∷ up) missing =
    let rest = resolve_parents eval up (c ∷ missing) in
    elim (eval (rev (c ∷ up))) [
      | real out ↦ real (out ++ missing)
      | not_exist ↦ rest
      | eval_error ↦ eval_error
    ]

unfoldable pub resolve_allow_missing : Links → Text → Resolved
unfolding resolve_parents abs_clean_rev rev
resolve_allow_missing l path =
    let up = abs_clean_rev l.cwd path in
    elim (l.eval_symlinks (rev up)) [
      | real out ↦ real out
      | eval_error ↦ eval_error
      | not_exist ↦ resolve_parents l.eval_symlinks up []
    ]

-- One `..` for each component.
unfoldable pub ups : Components → Components
ups [] = []
ups (_ ∷ cs) = codes ".." ∷ ups cs

-- `filepath.Rel` of two clean absolute paths, `.` being no component: what they have in common is
-- left out, then it is up from the rest of the first and down the rest of the second.
unfoldable pub rel : Components → Components → Components
unfolding ups
rel [] path = path
rel (r ∷ root) [] = ups (r ∷ root)
rel (r ∷ root) (p ∷ path) =
    let rest = rel root path in if text_eq r p then rest else ups (r ∷ root) ++ p ∷ path

-- `rel == ".." || strings.HasPrefix(rel, "../")`
unfoldable pub goes_up : Components → Bool
goes_up [] = false
goes_up (c ∷ _) = text_eq c (codes "..")

pub data PathCheck : Type 0 where
  inside : PathCheck
  root_empty path_empty root_unresolved path_unresolved escapes : PathCheck

unfoldable pub compare_resolved : Components → Resolved → PathCheck
unfolding rel goes_up
compare_resolved root (real path) = if goes_up (rel root path) then escapes else inside
compare_resolved root not_exist = path_unresolved
compare_resolved root eval_error = path_unresolved

unfoldable pub ensure_under_root : Links → Text → Text → PathCheck
unfolding abs_clean_rev rev compare_resolved resolve_allow_missing
ensure_under_root l root path =
    let r = trim_space root in
    let p = trim_space path in
    if is_empty r
    then root_empty
    else if is_empty p
    then path_empty
    else elim (l.eval_symlinks (rev (abs_clean_rev l.cwd r))) [
      | not_exist ↦ root_unresolved
      | eval_error ↦ root_unresolved
      | real canonical_root ↦ compare_resolved canonical_root (resolve_allow_missing l p)
    ]

-- `err == nil`
abbrev pub passes : PathCheck → Bool
passes inside = true
passes _ = false

-- The text of a clean absolute path.
unfoldable pub join_slash : Components → Text
join_slash [] = []
join_slash (c ∷ cs) = slash ∷ c ++ join_slash cs

unfoldable pub path_text : Components → Text
unfolding join_slash
path_text [] = slash ∷ []
path_text (c ∷ cs) = join_slash (c ∷ cs)

-- `filepath.Join` and `filepath.Clean` of an absolute root and components that follow it.
unfoldable pub join_clean : Text → List Text → Text
unfolding path_text rev abs_clean_rev clean_from
join_clean root parts = path_text (rev (abs_clean_rev [] (root ++ join_slash parts)))

-- `SafeJoinUnderRoot`, for an absolute root: `none` where the joined path leaves it.
unfoldable pub safe_join_under_root : Links → Text → List Text → Option Text
unfolding ensure_under_root join_clean
safe_join_under_root l root parts =
    let joined = join_clean (trim_space root) parts in
    if passes (ensure_under_root l root joined) then some joined else none
