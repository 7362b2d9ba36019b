-- ===== src/Examples/Transactions.antt =====
-- Tests of `Ensure` of internal/app/service.go on an empty disk.
use oci2gdsd.Prelude.{
  ℕ, ◌≡◌, refl, true, false, Option, none, some, [], Text, codes, pos, lookup, insert, erase,
  text_eq, trim_space, trim_left, trim_right, is_space, is_empty, has_rune, contains, has_prefix,
  lower, to_lower, sort_slice, insert_sorted,
}
use mathlib.Core.Path.{subst}
use oci2gdsd.Names.{
  is_abs, drop_trailing_slashes, after_last_slash, base, check_component, validate_shard_name,
  validate_model_id, model_key, digest_to_path_component, safe_rune, safe_name, journal_name,
}
use oci2gdsd.Ref.{split_at_sign, check_parts, parse_parts, parse_digest_pinned_ref}
use oci2gdsd.Paths.{
  split_slash, clean_step, clean_from, rev_onto, rev, abs_clean_rev, resolve_parents,
  resolve_allow_missing, ups, rel, goes_up, compare_resolved, ensure_under_root, join_slash,
  path_text, join_clean, safe_join_under_root,
}
use oci2gdsd.Profile.{sum_shard_sizes, sum_from, sort_shards_by_ordinal}
use oci2gdsd.Profile.Lint.{
  integrity_errors, header_errors, has_ordinal, add_ordinal, shard_errors, lint_shards,
  layer_errors, lint_layers, layer_warnings, in_layers, missing_shards, manifest_errors,
  header_warnings, lint_profile,
}
use oci2gdsd.AppErr.{filesystem_error}
use oci2gdsd.Service.Verify.{
  rejected, verify_published_path, verify_with, with_shards, check_shards, check_shard,
}
use oci2gdsd.Service.State.{now, io, store_get, store_put, journal_append, journal_delete}
use oci2gdsd.Service.Download.{
  check_delivered, read_stream, accept, download_blob, enqueue, queue_blobs, run_workers,
  worker_count, download_blobs, bytes_downloaded,
}
use oci2gdsd.Service.Ensure.{
  admit_space, admit, fail, or_fail, or_fail_as, advance, fetch_model, measure_free, take_admission,
  prepare_staging, rename, fsync_parent, keep_existing, move_into_place, publish, commit,
  stage_and_publish, run_transaction, new_record, ensure_new, reuse, ensure_found, ensure_locked,
  ensure_pinned, ensure,
}
use oci2gdsd.Service.Lookup.{blank_text, model_id_ok}
use oci2gdsd.Service.Release.{acquire, dir_exists}
use oci2gdsd.Model.{transition_state, allowed}
use oci2gdsd.Store.{acquire_lease, has_lease}
use oci2gdsd.Store
use oci2gdsd.Service.State.{World, Env, FetchedModel, FetchAnswer, fetched, ok}
use oci2gdsd.Service.Hoare.{Meets}
use oci2gdsd.Service.Ensure.{EnsureRequest, present}
use oci2gdsd.Service.Ensure.Invariant.{AllVerified}
use oci2gdsd.Service.Ensure.Transaction.{Faithful, Honest, Served}
use oci2gdsd.Service.Ensure.Safe.{ensure-Served}
use oci2gdsd.Examples.{calm, model_one}

abbrev pub empty_disk : World
empty_disk = record {
  db = record { version = 1; models = []; allocations = [] };
  journals = [];
  dirs = [];
  calls = 0;
}

abbrev pub request_a : EnsureRequest
request_a = record {
  ref = codes "r@d";
  model_id = codes "a";
  lease_holder = codes "x";
  strict_integrity = true;
  strict_direct_path = false;
  wait = true;
}

same_model : {f g : FetchedModel} → ◌≡◌ {A = FetchAnswer} (fetched f) (fetched g) → f ≡ g
same_model h = cc

model_one_ok : Faithful model_one
unfolding lookup sort_shards_by_ordinal sort_slice insert_sorted
model_one_ok = ((refl, refl, refl, tt), (refl, λ c. tt))

Honest-calm :
    (n : ℕ) (ref : Text) (f : FetchedModel)
    → (calm (pos 100)).fetch n ref ≡ fetched f
    → Honest (calm (pos 100)) f
Honest-calm n ref f e d l = subst Faithful (same_model e) model_one_ok

pub none_verified : (env : Env) → AllVerified env empty_disk.db empty_disk.dirs
unfolding Store.get lookup
none_verified env = record {
  valid = record { entries = tt };
  ready_ok = λ k r g t. absurd (nothing_there g);
}
  where
    nothing_there : {r : Store.ModelRecord} → ◌≡◌ {A = Option Store.ModelRecord} none (some r) → ⊥
    nothing_there h = cc

ensure-Served_example :
    Meets
      (Served (calm (pos 100)))
      (AllVerified (calm (pos 100)))
      (ensure (calm (pos 100)) request_a empty_disk)
ensure-Served_example =
    ensure-Served (calm (pos 100)) request_a empty_disk (λ n. refl) Honest-calm
      (none_verified (calm (pos 100)))

-- The model is fetched, and published at its path.
ensure_a :
    (ensure (calm (pos 100)) request_a empty_disk).0 ≡ ok (present (codes "/m/a/d") (pos 3) (pos 0))
unfolding is_abs drop_trailing_slashes after_last_slash base check_component validate_shard_name
    validate_model_id model_key digest_to_path_component safe_rune safe_name journal_name
    split_at_sign check_parts parse_parts parse_digest_pinned_ref split_slash clean_step clean_from
    rev_onto rev abs_clean_rev resolve_parents resolve_allow_missing ups rel goes_up
    compare_resolved ensure_under_root join_slash path_text join_clean safe_join_under_root
    sum_shard_sizes sum_from integrity_errors header_errors has_ordinal add_ordinal shard_errors
    lint_shards layer_errors lint_layers layer_warnings in_layers missing_shards manifest_errors
    header_warnings lint_profile now io store_get store_put journal_append journal_delete
    check_delivered read_stream accept download_blob enqueue queue_blobs run_workers worker_count
    download_blobs bytes_downloaded admit_space admit fail or_fail or_fail_as advance fetch_model
    measure_free take_admission prepare_staging rename fsync_parent keep_existing move_into_place
    publish commit stage_and_publish run_transaction new_record ensure_new reuse ensure_found
    ensure_locked ensure_pinned ensure blank_text model_id_ok acquire dir_exists transition_state
    allowed acquire_lease has_lease Store.get Store.put Store.stamp lookup insert erase text_eq
    trim_space trim_left trim_right is_space is_empty has_rune contains has_prefix lower to_lower
ensure_a = refl

-- The deadline passes once the queue is filled: the model is published without its shard, and its
-- path does not verify.
ensure_cut :
    let (r, w) =
      ensure (record (calm (pos 100)) { worker_done = λ n. true }) request_a empty_disk in
    (r ≡ ok (present (codes "/m/a/d") (pos 3) (pos 0)))
    × (verify_published_path (calm (pos 100)) (codes "/m/a/d") w.dirs ≡ rejected filesystem_error)
unfolding is_abs drop_trailing_slashes after_last_slash base check_component validate_shard_name
    validate_model_id model_key digest_to_path_component safe_rune safe_name journal_name
    split_at_sign check_parts parse_parts parse_digest_pinned_ref split_slash clean_step clean_from
    rev_onto rev abs_clean_rev resolve_parents resolve_allow_missing ups rel goes_up
    compare_resolved ensure_under_root join_slash path_text join_clean safe_join_under_root
    sum_shard_sizes sum_from integrity_errors header_errors has_ordinal add_ordinal shard_errors
    lint_shards layer_errors lint_layers layer_warnings in_layers missing_shards manifest_errors
    header_warnings lint_profile now io store_get store_put journal_append journal_delete
    check_delivered read_stream accept download_blob enqueue queue_blobs run_workers worker_count
    download_blobs bytes_downloaded admit_space admit fail or_fail or_fail_as advance fetch_model
    measure_free take_admission prepare_staging rename fsync_parent keep_existing move_into_place
    publish commit stage_and_publish run_transaction new_record ensure_new reuse ensure_found
    ensure_locked ensure_pinned ensure blank_text model_id_ok acquire dir_exists transition_state
    allowed acquire_lease has_lease Store.get Store.put Store.stamp lookup insert erase text_eq
    trim_space trim_left trim_right is_space is_empty has_rune contains has_prefix lower to_lower
    verify_published_path verify_with with_shards check_shards check_shard
ensure_cut = (refl, refl)
