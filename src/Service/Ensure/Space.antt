-- ===== src/Service/Ensure/Space.antt =====
-- What `Ensure` of internal/app/service.go admits: the tests between the fetch and the download.
use oci2gdsd.Prelude.{
  ℕ, ◌≤◌, ◌≡◌, ◌↔◌, refl, Bool, true, false, not, ◌&&◌, Option, none, some, [], ◌∷◌, ◌⊎◌, Text,
  is_empty, text_eq, text_eq_iff, ℤ, pos, negsuc, max_int64, ◌+ℤ◌, ◌≤ℤ◌, arith, inl, inr,
  if◌then◌else◌,
}
use oci2gdsd.AppErr.{profile_lint_failed}
use oci2gdsd.Profile.{sum, SumResult, sum_shard_sizes, media_type_model_artifact}
use oci2gdsd.Profile.Sound.{ProfileSound, lint_profile-ProfileSound}
use oci2gdsd.Profile.Sizes.{total_size, Sized, InRange, sum_shard_sizes_iff}
use oci2gdsd.Profile.Lint.{lint_profile}
use oci2gdsd.Service.State.{FetchedModel, Env}
use oci2gdsd.Service.Ensure.{EnsureRequest, Admission, admitted, denied, admit_space, admit}

-- The room on the disk, without wrapping, for so many bytes beside those that are to stay free.
abbrev pub Room : ℤ → Option ℤ → ℕ → Type 0
Room min_free none n = ⊥
Room min_free (some free) n = (min_free +ℤ pos n ≤ℤ free) × (min_free +ℤ pos n ≤ℤ pos max_int64)

admit_space_sum :
    (min_free : ℤ) (free : Option ℤ) (s : SumResult) (n : ℕ)
    → admit_space min_free free s ≡ admitted n
    → s ≡ sum n
unfolding admit_space
admit_space_sum min_free free s n h = ground arith

admit_space_iff :
    (min_free : ℤ) (free : Option ℤ) (n : ℕ)
    → n ≤ max_int64
    → (admit_space min_free free (sum n) ≡ admitted n) ↔ Room min_free free n
unfolding admit_space
admit_space_iff min_free none n b = ground arith
admit_space_iff (pos m) (some (pos f)) n b = ground arith
admit_space_iff (pos m) (some (negsuc f)) n b = ground arith
admit_space_iff (negsuc m) (some (pos f)) n b = ground arith
admit_space_iff (negsuc m) (some (negsuc f)) n b = ground arith

admit_guards :
    (v s a t i m : Bool) (rest : Admission) (n : ℕ)
    → (if not v
        then denied profile_lint_failed
        else if s && not a && not t
        then denied profile_lint_failed
        else if not i && not m
        then denied profile_lint_failed
        else rest)
      ≡ admitted n
    → (v ≡ true)
      × (s ≡ true → (a ≡ true) ⊎ (t ≡ true))
      × ((i ≡ true) ⊎ (m ≡ true))
      × (rest ≡ admitted n)
admit_guards true s true t true m rest n h = (refl, λ _. inl refl, inl refl, ground arith)
admit_guards true s true t false m rest n h = ground arith
admit_guards true s false t i m rest n h = ground arith
admit_guards false s a t i m rest n h = absurd (ground arith)

empty_or_equal : (a b : Text) → (is_empty a ≡ true) ⊎ (text_eq a b ≡ true) → (a ≡ []) ⊎ (a ≡ b)
unfolding is_empty
empty_or_equal a b (inr e) = inr ((text_eq_iff a b).0 e)
empty_or_equal [] b (inl e) = inl refl
empty_or_equal (x ∷ a) b (inl e) = absurd (ground arith)

-- For sizes in the range of `int64`, what is admitted passes the lint, fits the request, and has
-- room on the disk beside the bytes that are to stay free; the sum is exact.
pub record Admitted (env : Env) (req : EnsureRequest) (digest : Text) (f : FetchedModel)
    (free : Option ℤ) (n : ℕ) : Type 0 where
  pub sound : ProfileSound env.algorithm f.profile digest f.layers
  pub named : (f.profile.model_id ≡ []) ⊎ (f.profile.model_id ≡ req.model_id)
  pub typed :
      req.strict_integrity ≡ true
      → (f.artifact_type ≡ []) ⊎ (f.artifact_type ≡ media_type_model_artifact)
  pub sized : Sized f.profile.shards
  pub exact : n ≡ total_size f.profile.shards
  pub room : Room env.min_free_bytes free n

pub admit_linted :
    (env : Env) (req : EnsureRequest) (digest : Text) (f : FetchedModel) (free : Option ℤ) (n : ℕ)
    → admit env req digest f free ≡ admitted n
    → (lint_profile env.algorithm (some f.profile) digest f.layers).valid ≡ true
unfolding admit
admit_linted env req digest f free n h =
    (admit_guards _ req.strict_integrity (is_empty f.artifact_type)
      (text_eq f.artifact_type media_type_model_artifact) (is_empty f.profile.model_id)
      (text_eq f.profile.model_id req.model_id)
      (admit_space env.min_free_bytes free (sum_shard_sizes f.profile.shards)) n h).0

-- What `Ensure` admits for sizes in the range of `int64` has a sound profile that is the request's,
-- sizes that are not negative, and room for their exact sum beside the bytes that are to stay free.
pub admit-Admitted :
    (env : Env) (req : EnsureRequest) (digest : Text) (f : FetchedModel) (free : Option ℤ) (n : ℕ)
    → InRange f.profile.shards
    → admit env req digest f free ≡ admitted n
    → Admitted env req digest f free n
unfolding admit
admit-Admitted env req digest f free n r h =
    let g = admit_guards _ _ _ _ _ _ _ n h in
    let s = admit_space_sum env.min_free_bytes free (sum_shard_sizes f.profile.shards) n g.3 in
    let z = (sum_shard_sizes_iff f.profile.shards n r).0 s in
    record {
      sound = lint_profile-ProfileSound env.algorithm f.profile digest f.layers g.0;
      named = empty_or_equal f.profile.model_id req.model_id g.2;
      typed = λ q. empty_or_equal f.artifact_type media_type_model_artifact (g.1 q);
      sized = z.0;
      exact = z.1;
      room = (admit_space_iff env.min_free_bytes free n z.2).0 (rw s at g.3);
    }
