-- ===== src/Examples/Inputs.antt =====
-- Tests of the names, references, paths and profiles of internal/app/util.go and
-- internal/app/profile.go, and of the transitions of internal/app/lock.go.
use mathlib.Core.Path.{subst}
use oci2gdsd.Prelude.{
  ◌≤◌, ◌≡◌, ◌↔◌, refl, true, false, [], ◌∷◌, Text, codes, max_int64, arith, inl, ◌≢◌, Option, none,
  some, text_eq, trim_space, trim_left, trim_right, is_space, is_empty, has_rune, contains,
  has_prefix, lower, to_lower, lookup, insert,
}
use oci2gdsd.Profile.Lint.{
  lint_profile, header_errors, integrity_errors, lint_shards, shard_errors, has_ordinal,
  add_ordinal, manifest_errors, layer_errors, lint_layers, layer_warnings, in_layers,
  missing_shards, header_warnings,
}
use oci2gdsd.Model.{
  new, ready, allowed, transition_state, publishing, resolving, downloading, verifying,
}
use oci2gdsd.Model.Transitions.{Reaches, here, next, ready_needs_publishing}
use oci2gdsd.Names.{
  validate_shard_name, validate_model_id, model_key, check_component, is_abs, base,
  drop_trailing_slashes, after_last_slash, journal_name, lock_name,
}
use oci2gdsd.Names.Safety.{IsComponent, validate_shard_name_iff, validate_model_id-IsComponent}
use oci2gdsd.Names.Keys.{model_key_injective, journal_name_collision}
use oci2gdsd.Ref.{parsed, parse_digest_pinned_ref, parse_parts, check_parts, split_at_sign}
use oci2gdsd.Ref.Laws.{parsed_ref, parse_digest_pinned_ref_join}
use oci2gdsd.Paths.{
  Components, real, inside, ensure_under_root, compare_resolved, resolve_allow_missing, ups, rel,
  goes_up, abs_clean_rev, clean_from, clean_step, split_slash, rev, rev_onto,
}
use oci2gdsd.Paths.Exact.{Down, ensure_under_root_iff}
use oci2gdsd.Paths.Containment.{Contained, ensure_under_root-Contained}
use oci2gdsd.Profile.{sum, sum_shard_sizes}
use oci2gdsd.Profile.Sound.{ProfileSound, lint_profile-ProfileSound}
use oci2gdsd.Profile.Sizes.{Sized, total_size, sum_shard_sizes_iff}
use oci2gdsd.Examples.{no_links, shard_one, profile_one}

ready_needs_publishing_example : Reaches new publishing × Reaches publishing ready
unfolding transition_state allowed
ready_needs_publishing_example = ready_needs_publishing new ready tt (inl refl) (
    next {t = publishing}
      (next {t = verifying}
        (next {t = downloading} (next {t = resolving} (next {t = new} here refl) refl) refl) refl)
      refl)

validate_shard_name_iff_example :
    (validate_shard_name (codes " one.bin") ≡ none) ↔ IsComponent (trim_space (codes " one.bin"))
validate_shard_name_iff_example = validate_shard_name_iff (codes " one.bin")

valid_name : validate_shard_name (codes " one.bin") ≡ none
unfolding validate_shard_name check_component is_abs base drop_trailing_slashes after_last_slash
    has_rune text_eq trim_space trim_left trim_right is_space is_empty
valid_name = refl

valid_id : validate_model_id (codes "qwen") ≡ none
unfolding validate_model_id check_component is_abs base drop_trailing_slashes after_last_slash
    has_rune text_eq trim_space trim_left trim_right is_space is_empty
valid_id = refl

validate_model_id-IsComponent_example : IsComponent (codes "qwen")
validate_model_id-IsComponent_example = validate_model_id-IsComponent (codes "qwen") valid_id

model_key_injective_example : (codes "a@b" ≡ codes "a@b") × (codes "d" ≡ codes "d")
unfolding has_rune
model_key_injective_example =
    model_key_injective (codes "a@b") (codes "d") (codes "a@b") (codes "d") refl refl refl

journal_name_collision_example :
    (journal_name (codes "a@b") (codes "d") ≡ journal_name (codes "a_b") (codes "d"))
    × (lock_name (model_key (codes "a@b") (codes "d"))
        ≡ lock_name (model_key (codes "a_b") (codes "d")))
    × (model_key (codes "a@b") (codes "d") ≢ model_key (codes "a_b") (codes "d"))
journal_name_collision_example = journal_name_collision (codes "a") (codes "b") (codes "d")

abbrev sha : Text → Option Text
sha d = some (codes "sha256")

parse_example : parse_digest_pinned_ref sha (codes "r@d") ≡ parsed (codes "r") (codes "d")
unfolding parse_digest_pinned_ref parse_parts check_parts split_at_sign text_eq trim_space trim_left
    trim_right is_space is_empty
parse_example = refl

parsed_ref_example :
    (codes "r" ≢ [])
    × (sha (codes "d") ≡ some (codes "sha256"))
    × (has_rune b'@' (codes "d") ≡ false)
parsed_ref_example = parsed_ref sha (codes "r@d") parse_example

parse_digest_pinned_ref_join_example :
    parse_digest_pinned_ref sha (codes "r@d") ≡ parsed (codes "r") (codes "d")
unfolding has_rune trim_space trim_left trim_right is_space
parse_digest_pinned_ref_join_example =
    parse_digest_pinned_ref_join sha (codes "r") (codes "d") (λ e. cc) (refl, refl) (refl, refl)
      refl

checked_path : ensure_under_root no_links (codes "/m") (codes "/m/a/../b") ≡ inside
unfolding ensure_under_root compare_resolved resolve_allow_missing ups rel goes_up abs_clean_rev
    clean_from clean_step split_slash rev rev_onto is_abs text_eq trim_space trim_left trim_right
    is_space is_empty
checked_path = refl

ensure_under_root-Contained_example : Contained no_links (codes "/m") (codes "/m/a/../b")
ensure_under_root-Contained_example =
    ensure_under_root-Contained no_links (codes "/m") (codes "/m/a/../b") tt checked_path

same_place : {a b : Components} → real a ≡ real b → a ≡ b
same_place h = cc

ensure_under_root_iff_example :
    (ensure_under_root no_links (codes "/m") (codes "/m/a/../b") ≡ inside)
    ↔ Contained no_links (codes "/m") (codes "/m/a/../b")
ensure_under_root_iff_example =
    ensure_under_root_iff no_links (codes "/m") (codes "/m/a/../b") tt
      (λ cs out d e. subst Down (same_place e) d)

lint_one : (lint_profile sha (some profile_one) (codes "d") []).valid ≡ true
unfolding lint_profile header_errors integrity_errors lint_shards shard_errors has_ordinal
    add_ordinal manifest_errors layer_errors lint_layers layer_warnings in_layers missing_shards
    header_warnings lower to_lower validate_shard_name check_component is_abs base
    drop_trailing_slashes after_last_slash has_rune text_eq trim_space trim_left trim_right is_space
    is_empty contains has_prefix lookup insert
lint_one = refl

lint_profile-ProfileSound_example : ProfileSound sha profile_one (codes "d") []
lint_profile-ProfileSound_example =
    lint_profile-ProfileSound sha profile_one (codes "d") [] lint_one

sum_shard_sizes_iff_example : (sum_shard_sizes (shard_one ∷ shard_one ∷ []) ≡ sum 6) ↔ (
    Sized (shard_one ∷ shard_one ∷ [])
    × (6 ≡ total_size (shard_one ∷ shard_one ∷ []))
    × (6 ≤ max_int64))
sum_shard_sizes_iff_example =
    sum_shard_sizes_iff (shard_one ∷ shard_one ∷ []) 6 (omega arith, (omega arith, tt))
