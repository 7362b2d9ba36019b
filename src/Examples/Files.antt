-- ===== src/Examples/Files.antt =====
-- Tests of the files of a model in internal/app/service.go.
use oci2gdsd.Prelude.{
  ◌≤◌, ◌≡◌, ◌↔◌, refl, true, false, some, [], ◌∷◌, codes, lookup, insert, pos, ◌<◌, ◌≤ℤ◌, arith,
  text_eq, trim_space, trim_left, trim_right, is_space, is_empty, has_rune, contains, has_prefix,
  lower, to_lower,
}
use oci2gdsd.Names.{
  validate_shard_name, check_component, is_abs, base, drop_trailing_slashes, after_last_slash,
}
use oci2gdsd.Profile.{sum_shard_sizes, sum_from}
use oci2gdsd.Profile.Lint.{
  lint_profile, header_errors, integrity_errors, lint_shards, shard_errors, has_ordinal,
  add_ordinal, manifest_errors, layer_errors, lint_layers, layer_warnings, in_layers,
  missing_shards, header_warnings,
}
use oci2gdsd.Service.State.{ok, io}
use oci2gdsd.Service.Verify.{
  check_shard, check_shards, with_shards, verify_with, verified, verify_published_path,
  verify_published_path_quick,
}
use oci2gdsd.Service.Verify.Exact.{
  Published, verify_published_path_iff, verify_published_path_quick_of,
}
use oci2gdsd.Service.Download.{
  worker_count, buffer_bytes, download_blobs, queue_blobs, enqueue, run_workers, download_blob,
  accept, read_stream, check_delivered, file_of,
}
use oci2gdsd.Service.Download.Exact.{Downloaded, download_blobs-Downloaded}
use oci2gdsd.Service.Download.Bounds.{worker_count_bounds, buffer_bytes_bounds}
use oci2gdsd.Service.Ensure.{EnsureRequest, admitted, admit, admit_space}
use oci2gdsd.Service.Ensure.Space.{Admitted, admit-Admitted}
use oci2gdsd.Examples.{calm, blob_one, model_one, two_dirs}

verify_a : verify_published_path (calm (pos 0)) (codes "/m/a") two_dirs.dirs ≡ verified
unfolding verify_published_path verify_with with_shards check_shards check_shard validate_shard_name
    check_component is_abs base drop_trailing_slashes after_last_slash has_rune text_eq trim_space
    trim_left trim_right is_space is_empty lookup
verify_a = refl

verify_published_path_quick_of_example :
    verify_published_path_quick (codes "/m/a") two_dirs.dirs ≡ verified
verify_published_path_quick_of_example =
    verify_published_path_quick_of (calm (pos 0)) (codes "/m/a") two_dirs.dirs verify_a

verify_published_path_iff_example :
    (verify_published_path (calm (pos 0)) (codes "/m/a") two_dirs.dirs ≡ verified)
    ↔ Published (calm (pos 0)).sha256 (codes "/m/a") two_dirs.dirs
verify_published_path_iff_example =
    verify_published_path_iff (calm (pos 0)) (codes "/m/a") two_dirs.dirs

worker_count_bounds_example :
    let n = worker_count (pos 8) (pos 4) (pos 16) (pos 0) 5 in
    (1 ≤ n) × (0 < 5 → n ≤ 5) × (0 < 16 → n ≤ 16) × (0 < 0 → n ≤ 0)
worker_count_bounds_example = worker_count_bounds (pos 8) (pos 4) (pos 16) (pos 0) 5

buffer_bytes_bounds_example :
    (pos 65536 ≤ℤ buffer_bytes (pos 1000) (pos 0))
    × (buffer_bytes (pos 1000) (pos 0) ≤ℤ pos 268435456)
    × (pos 65536 ≤ℤ pos 1000
        → pos 1000 ≤ℤ pos 268435456
        → buffer_bytes (pos 1000) (pos 0) ≡ pos 1000)
buffer_bytes_bounds_example = buffer_bytes_bounds (pos 1000) (pos 0)

download_one :
    download_blobs (calm (pos 0)) (blob_one ∷ []) two_dirs
    ≡ (ok ((codes "one.bin", file_of (codes "abc")) ∷ []), record two_dirs { calls = 5 })
unfolding download_blobs queue_blobs enqueue run_workers worker_count download_blob accept
    read_stream check_delivered io validate_shard_name check_component is_abs base
    drop_trailing_slashes after_last_slash has_rune text_eq trim_space trim_left trim_right is_space
    is_empty lookup insert
download_one = refl

download_blobs-Downloaded_example :
    Downloaded
      (calm (pos 0)).sha256
      []
      (blob_one ∷ [])
      ((codes "one.bin", file_of (codes "abc")) ∷ [])
    × (two_dirs.db ≡ two_dirs.db)
    × (two_dirs.dirs ≡ two_dirs.dirs)
unfolding lookup
download_blobs-Downloaded_example =
    download_blobs-Downloaded (calm (pos 0)) (blob_one ∷ [])
      ((codes "one.bin", file_of (codes "abc")) ∷ []) two_dirs (record two_dirs { calls = 5 })
      (λ n. refl) (refl, λ c. tt) download_one

-- A deadline that passes once the queue is filled leaves nothing, and no error.
download_none :
    download_blobs (record (calm (pos 0)) { worker_done = λ n. true }) (blob_one ∷ []) two_dirs
    ≡ (ok [], record two_dirs { calls = 2 })
unfolding download_blobs queue_blobs enqueue run_workers worker_count validate_shard_name
    check_component is_abs base drop_trailing_slashes after_last_slash has_rune text_eq trim_space
    trim_left trim_right is_space is_empty
download_none = refl

abbrev request_a : EnsureRequest
request_a = record {
  ref = codes "r@d";
  model_id = codes "a";
  lease_holder = codes "x";
  strict_integrity = true;
  strict_direct_path = false;
  wait = true;
}

admit_a : admit (calm (pos 100)) request_a (codes "d") model_one (some (pos 100)) ≡ admitted 3
unfolding admit admit_space lint_profile header_errors integrity_errors lint_shards shard_errors
    has_ordinal add_ordinal manifest_errors layer_errors lint_layers layer_warnings in_layers
    missing_shards header_warnings sum_shard_sizes sum_from lower to_lower validate_shard_name
    check_component is_abs base drop_trailing_slashes after_last_slash has_rune text_eq trim_space
    trim_left trim_right is_space is_empty contains has_prefix lookup insert
admit_a = refl

admit-Admitted_example :
    Admitted (calm (pos 100)) request_a (codes "d") model_one (some (pos 100)) 3
admit-Admitted_example =
    admit-Admitted (calm (pos 100)) request_a (codes "d") model_one (some (pos 100)) 3
      (omega arith, tt) admit_a
