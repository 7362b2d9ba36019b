-- ===== src/Examples/Records.antt =====
-- Tests of the records of internal/store/store.go and of what internal/app/service.go does with
-- them.
use oci2gdsd.Prelude.{
  Pairwise, ◌≡◌, ◌≢◌, refl, sym, Bool-cases, inl, inr, true, false, Option, some, [], Text, codes,
  lookup, insert, pos, length, keep, text_eq, text_eq_iff, text_lt, trim_space, trim_left,
  trim_right, is_space, is_empty, has_rune, has_prefix, arith, values, sort_slice, insert_sorted,
  erase,
}
use mathlib.Core.Path.{subst}
use mathlib.Core.List.{Perm}
use oci2gdsd.Model.{ext_ready, external_status}
use oci2gdsd.Names.{
  model_key, validate_shard_name, validate_model_id, check_component, is_abs, base,
  drop_trailing_slashes, after_last_slash, journal_name, safe_name, safe_rune,
}
use oci2gdsd.Paths.{
  ensure_under_root, compare_resolved, resolve_allow_missing, ups, rel, goes_up, abs_clean_rev,
  clean_from, clean_step, split_slash, rev, rev_onto,
}
use oci2gdsd.Store
use oci2gdsd.Store.{ModelRecord, StateDb, has_lease, acquire_lease, release_lease}
use oci2gdsd.Store.Leases.{
  LeasesValid, has_lease-acquire_lease, acquire_lease-LeasesValid, has_lease-release_lease,
  release_lease-LeasesValid, release_lease-acquire_lease,
}
use oci2gdsd.Store.Laws.{DbValid, put-DbValid}
use oci2gdsd.Store.Listing.{Precedes, list-Ordered}
use oci2gdsd.Service.State.{
  ok, now, store_get, store_put, store_list, store_clear_allocations, journal_markers,
  journal_append, journal_delete,
}
use oci2gdsd.Service.Verify.{
  verify_published_path_quick, verify_with, with_shards, check_shard_quick, check_shards_quick,
}
use oci2gdsd.Service.Lookup.{at_or_below, model_id_ok, blank_text}
use oci2gdsd.Service.Release.{release, release_found, release_record, release_last, acquire}
use oci2gdsd.Service.Release.Effects.{Handed, release-Handed}
use oci2gdsd.Service.Gc.{gc}
use oci2gdsd.Service.Gc.Safety.{Kept, gc-Kept}
use oci2gdsd.Service.Recover.{
  recover, recover_records, recover_record, recheck, follow_journal, has_marker, mark_failed,
  mark_ready,
}
use oci2gdsd.Service.Recover.Consistent.{AllReady, recover-AllReady}
use oci2gdsd.Examples.{record_a, record_b, two_models, two_dirs, calm, dir_one}

valid_a : LeasesValid record_a
unfolding has_lease text_eq
valid_a = record { distinct = (refl, tt); named = refl; held = λ _. (refl, refl) }

valid_b : LeasesValid record_b
unfolding has_lease
valid_b = record { distinct = tt; named = refl; held = λ _. (refl, refl) }

valid_two : DbValid two_models
valid_two = record { entries = ((refl, valid_a), ((refl, valid_b), tt)) }

has_lease-acquire_lease_example :
    has_lease (codes "y") (acquire_lease 5 (codes "y") record_a).leases ≡ true
unfolding is_empty text_eq
has_lease-acquire_lease_example = has_lease-acquire_lease 5 (codes "y") record_a (codes "y")

acquire_lease-LeasesValid_example : LeasesValid (acquire_lease 5 (codes "y") record_a)
acquire_lease-LeasesValid_example = acquire_lease-LeasesValid 5 (codes "y") record_a valid_a

has_lease-release_lease_example :
    (has_lease (codes "x") (release_lease 5 (codes "x") record_a).0.leases ≡ false)
    × ((release_lease 5 (codes "x") record_a).1
        ≡ length (release_lease 5 (codes "x") record_a).0.leases)
unfolding text_eq
has_lease-release_lease_example =
    has_lease-release_lease 5 (codes "x") record_a (codes "x") (λ e. cc)

release_lease-LeasesValid_example : LeasesValid (release_lease 5 (codes "x") record_a).0
release_lease-LeasesValid_example = release_lease-LeasesValid 5 (codes "x") record_a valid_a

release_lease-acquire_lease_example :
    (release_lease 9 (codes "y") (acquire_lease 5 (codes "y") record_a)).0.leases ≡ record_a.leases
unfolding has_lease text_eq
release_lease-acquire_lease_example =
    release_lease-acquire_lease 5 (codes "y") record_a 9 (λ e. cc) refl

list-Ordered_example :
    Pairwise Precedes (Store.list two_models)
    × Perm (Store.list two_models) (values two_models.models)
list-Ordered_example = list-Ordered two_models

put-DbValid_example : DbValid (Store.put 7 record_b two_models)
put-DbValid_example = put-DbValid 7 record_b valid_b valid_two

same_record : {a b : ModelRecord} → ◌≡◌ {A = Option ModelRecord} (some a) (some b) → a ≡ b
same_record h = cc

b_apart : at_or_below record_b.path record_a.path ≡ false
unfolding at_or_below text_eq has_prefix
b_apart = refl

apart_two :
    (j : Text) (s : ModelRecord)
    → Store.get j two_models ≡ some s
    → j ≢ codes "a@d"
    → is_empty s.path ≡ false
    → at_or_below s.path record_a.path ≡ false
unfolding Store.get lookup
apart_two j s g n e = elim (Bool-cases (text_eq (codes "a@d") j)) [
  | inl same ↦ absurd (n (sym ((text_eq_iff (codes "a@d") j).0 same)))
  | inr not_a ↦ elim (Bool-cases (text_eq (codes "b@d") j)) [
    | inl same ↦
        subst (λ (r : ModelRecord). at_or_below r.path record_a.path ≡ false)
          (same_record (rw (not_a, same) at g)) b_apart
    | inr not_b ↦ absurd (ground (arith, rw (not_a, not_b) at g))
  ]
]

a_stays : Kept (codes "a@d") record_a (some dir_one) two_dirs.db two_dirs.dirs
unfolding Store.get lookup text_eq
a_stays = record { valid = valid_two; there = refl; apart = apart_two; kept_dir = refl }

gc-Kept_example :
    let w' = (gc (calm (pos 0)) [] (pos 100) false two_dirs).1 in
    Kept (codes "a@d") record_a (some dir_one) w'.db w'.dirs
gc-Kept_example =
    gc-Kept (calm (pos 0)) (codes "a@d") record_a (some dir_one) (λ e. cc) [] (pos 100) false
      two_dirs a_stays

release_b : release (calm (pos 0)) (codes "b") (codes "d") (codes "x") false two_dirs ≡ (
  ok (record { status = ext_ready; remaining_leases = 0 }),
  (release (calm (pos 0)) (codes "b") (codes "d") (codes "x") false two_dirs).1,
)
unfolding release release_found release_record release_last acquire release_lease model_id_ok
    blank_text store_get store_put now Store.get Store.put Store.stamp lookup insert keep model_key
    external_status ensure_under_root compare_resolved resolve_allow_missing ups rel goes_up
    abs_clean_rev clean_from clean_step split_slash rev rev_onto validate_model_id check_component
    is_abs base drop_trailing_slashes after_last_slash has_rune text_eq trim_space trim_left
    trim_right is_space is_empty
release_b = refl

-- The failed model `b` is ready after the release.
release-Handed_example :
    Handed
      (model_key (codes "b") (codes "d"))
      (codes "x")
      (record { status = ext_ready; remaining_leases = 0 })
      (release (calm (pos 0)) (codes "b") (codes "d") (codes "x") false two_dirs).1.db
      (release (calm (pos 0)) (codes "b") (codes "d") (codes "x") false two_dirs).1.dirs
unfolding model_key Store.get lookup text_eq
release-Handed_example =
    release-Handed (calm (pos 0)) (codes "b") (codes "d") (codes "x") record_b
      (record { status = ext_ready; remaining_leases = 0 }) two_dirs _ valid_two refl release_b

recover_two : recover (calm (pos 0)) two_dirs ≡ (ok tt, (recover (calm (pos 0)) two_dirs).1)
unfolding recover recover_records recover_record recheck follow_journal has_marker mark_failed
    mark_ready store_clear_allocations store_list store_put journal_markers journal_append
    journal_delete Store.list Store.record_less Store.clear_allocations Store.put Store.stamp
    sort_slice insert_sorted values lookup insert erase verify_published_path_quick verify_with
    with_shards check_shard_quick check_shards_quick validate_shard_name ensure_under_root
    compare_resolved resolve_allow_missing ups rel goes_up abs_clean_rev clean_from clean_step
    split_slash rev rev_onto check_component is_abs base drop_trailing_slashes after_last_slash
    has_rune journal_name safe_name safe_rune model_key text_eq text_lt trim_space trim_left
    trim_right is_space is_empty
recover_two = refl

recover-AllReady_example :
    AllReady (recover (calm (pos 0)) two_dirs).1.db (recover (calm (pos 0)) two_dirs).1.dirs
recover-AllReady_example = recover-AllReady (calm (pos 0)) two_dirs _ valid_two recover_two
