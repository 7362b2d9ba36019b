-- ===== src/Service/Ensure.antt =====
-- `Ensure` of internal/app/service.go, in the order of the source: the request, the record, what is
-- fetched, the staging directory and its publication. The status of the record runs through the
-- states of Model; a failure after the record is written marks it failed. The staging directory is
-- seen by nobody else until it is renamed, and is the value `staged` here.
pub mod Invariant
pub mod Steps
pub mod Publish
pub mod Transaction
pub mod Safe
pub mod Space
use oci2gdsd.Prelude.{
  ℕ, suc, ◌+◌, ◌-◌, Bool, true, false, not, ◌&&◌, ◌||◌, Option, none, some, List, [], ◌∷◌, ◌++◌,
  Text, codes, text_eq, is_empty, has_prefix, contains, Map, lookup, insert, ltb, ℤ, pos, negsuc,
  max_int64, ltb_ℤ, ◌+ℤ◌, if◌then◌else◌,
}
use oci2gdsd.AppErr.{
  Reason, reason_none, AppError, GoError, as_app_error, new_app_error, exit_policy,
  map_reason_to_exit_code, direct_path_ineligible, state_db_corrupt, profile_lint_failed,
  filesystem_error, disk_space_insufficient, validation_failed, publish_rename_failed,
}
use oci2gdsd.Model.{
  ModelState, resolving, downloading, verifying, publishing, ready, failed, Transition, done,
  invalid_current, invalid_transition, transition_state,
}
use oci2gdsd.Names.{model_key, digest_to_path_component}
use oci2gdsd.Ref.{ParsedRef, parsed, refused, parse_digest_pinned_ref}
use oci2gdsd.Paths.{passes, ensure_under_root, safe_join_under_root}
use oci2gdsd.Store.{ModelRecord, Lease, acquire_lease}
use oci2gdsd.Profile.{
  ModelProfile, sum, negative_size, overflow, SumResult, sum_shard_sizes, media_type_model_artifact,
}
use oci2gdsd.Profile.Lint.{lint_profile}
use oci2gdsd.Service.State.{
  txn_started, blobs_written, blobs_verified, metadata_written, ready_written, committed, ShardFile,
  entries, LocalMetadata, ModelDir, RemoteBlob, FetchedModel, FetchAnswer, fetched, fetch_error,
  World, Env, Result, ok, err, M, ◌>>=◌, ◌>>◌, pure, raise, try, if_dirs, tick, settle, corrupt,
  io_error, io, now, store_get, store_put, journal_append, journal_delete, within_root,
}
use oci2gdsd.Service.Verify.{Verdict, verified, rejected, verify_published_path}
use oci2gdsd.Service.Lookup.{invalid, model_id_ok, blank_text}
use oci2gdsd.Service.Release.{acquire, dir_exists}
use oci2gdsd.Service.Recover.{is_ready, is_verified}
use oci2gdsd.Service.Download.{download_blobs, bytes_downloaded}

pub record EnsureRequest : Type 0 where
  pub ref : Text
  pub model_id : Text
  pub lease_holder : Text
  pub strict_integrity : Bool
  pub strict_direct_path : Bool
  pub wait : Bool

-- The result of an `Ensure` without an error; beside an error it says only that it failed.
pub data EnsureResult : Type 0 where
  pending : EnsureResult
  present : (path : Text) (bytes_downloaded bytes_reused : ℤ) → EnsureResult

-- What is tested of the fetched model against the request and the disk: `none` where it is admitted,
-- with the sum of the sizes.
pub data Admission : Type 0 where
  admitted : ℕ → Admission
  denied : Reason → Admission

unfoldable pub admit_space : ℤ → Option ℤ → SumResult → Admission
admit_space min_free free (negative_size _) = denied profile_lint_failed
admit_space min_free free (overflow _) = denied profile_lint_failed
admit_space min_free none (sum total) = denied filesystem_error
admit_space min_free (some free) (sum total) =
    if ltb_ℤ (pos (max_int64 - total)) min_free
    then denied disk_space_insufficient
    else if ltb_ℤ free (min_free +ℤ pos total)
    then denied disk_space_insufficient
    else admitted total

unfoldable pub admit : Env → EnsureRequest → Text → FetchedModel → Option ℤ → Admission
admit env req digest f free =
    if not (lint_profile env.algorithm (some f.profile) digest f.layers).valid
    then denied profile_lint_failed
    else if req.strict_integrity
        && not (is_empty f.artifact_type)
        && not (text_eq f.artifact_type media_type_model_artifact)
    then denied profile_lint_failed
    else if not (is_empty f.profile.model_id) && not (text_eq f.profile.model_id req.model_id)
    then denied profile_lint_failed
    else admit_space env.min_free_bytes free (sum_shard_sizes f.profile.shards)

module _ (env : Env) where
  -- The closure `fail`: the record is marked failed, and an error of `Put` is ignored.
  unfoldable pub fail : {A : Type 0} → ModelRecord → Reason → M A
  fail r reason = do
    try (store_put env (record r { status = failed; last_error = reason }))
    raise (new_app_error (map_reason_to_exit_code reason) reason)

  -- A step whose error is reported by `fail`.
  unfoldable pub or_fail : {A : Type 0} → ModelRecord → Reason → M A → M A
  or_fail r reason m w =
      let (o, w') = m w in elim o [ ok a ↦ (ok a, w') | err _ ↦ fail r reason w' ]

  -- A step whose error keeps its own reason.
  unfoldable pub or_fail_as : {A : Type 0} → ModelRecord → M A → M A
  or_fail_as r m w = let (o, w') = m w in elim o [ ok a ↦ (ok a, w') | err e ↦ fail r e.reason w' ]

  -- `transitionState`, then the new status is written; an error of `Put` is returned as it is.
  unfoldable pub advance : ModelRecord → ModelState → M ModelRecord
  advance r next = elim (transition_state r.status next) [
    | done ↦ store_put env (record r { status = next })
    | invalid_current ↦ fail r state_db_corrupt
    | invalid_transition ↦ fail r state_db_corrupt
  ]

  -- `s.fetcher.Fetch` within the request's time.
  unfoldable pub fetch_model : ModelRecord → Text → M FetchedModel
  fetch_model r ref w = elim (env.fetch w.calls ref) [
    | fetched f ↦ pure f (tick w)
    | fetch_error e ↦ fail r (as_app_error e).reason (tick w)
  ]

  -- `diskFreeBytes`
  unfoldable pub measure_free : M (Option ℤ)
  measure_free w = pure (env.free_bytes w.calls) (tick w)

  unfoldable pub take_admission : ModelRecord → Admission → M ℕ
  take_admission r (admitted total) = pure total
  take_admission r (denied reason) = fail r reason

  -- The paths of the transaction and its empty directories.
  unfoldable pub prepare_staging : ModelRecord → M Text
  prepare_staging r w =
      elim (safe_join_under_root env.links env.tmp_root
        (r.model_id ∷ digest_to_path_component r.manifest_digest ∷ env.token w.calls ∷ [])) [
          | none ↦ fail r validation_failed (tick w)
          | some txn ↦
              (or_fail r filesystem_error (io env)
                  >> or_fail r filesystem_error (io env)
                  >> pure txn)
                (tick w)
        ]

  -- `os.Rename(stagingRoot, finalPath)`; it is refused where the path is there.
  unfoldable pub rename : Text → ModelDir → M Unit
  rename path dir w =
      settle (env.outcome w.calls) io_error tt (tick w)
        (record w { dirs = insert path dir w.dirs; calls = suc w.calls })

  unfoldable pub fsync_parent : M Unit
  fsync_parent = if env.fsync_directory then io env else pure tt

  -- The final path is there already: it must hold the model, and what is staged is dropped.
  unfoldable pub keep_existing : ModelRecord → M Unit
  keep_existing r w = elim (verify_published_path env r.path w.dirs) [
    | verified ↦ pure tt w
    | rejected reason ↦ fail r reason w
  ]

  unfoldable pub move_into_place : ModelRecord → Text → ModelDir → M Unit
  move_into_place r staging dir = do
    or_fail r filesystem_error (io env)
    if passes (ensure_under_root env.links env.tmp_root staging) && within_root env r.path
        then (do
          or_fail r publish_rename_failed (rename r.path dir)
          or_fail r filesystem_error fsync_parent)
        else fail r validation_failed

  unfoldable pub publish : ModelRecord → Text → ModelDir → M Unit
  publish r txn dir =
      if_dirs (dir_exists r.path) (keep_existing r)
        (move_into_place r (txn ++ codes "/publish") dir)

  -- The record is written as ready; the journal is dropped, and an error of that is ignored.
  unfoldable pub commit : ModelRecord → ℕ → M ModelRecord
  commit r total = do
    journal_append env r.model_id r.manifest_digest committed
    at ← now env
    r' ← store_put env (record r {
      status = ready;
      bytes = pos total;
      last_error = reason_none;
      releasable = false;
      releasable_at = none;
      last_accessed_at = at;
    })
    try (journal_delete env r.model_id r.manifest_digest)
    pure r'

  -- From the empty staging directory to the published model.
  unfoldable pub stage_and_publish : ModelRecord → FetchedModel → ℕ → M ModelRecord
  stage_and_publish r f total = do
    txn ← prepare_staging r
    files ← or_fail_as r (download_blobs env f.blobs)
    journal_append env r.model_id r.manifest_digest blobs_written
    journal_append env r.model_id r.manifest_digest blobs_verified
    r₁ ← advance r verifying
    r₂ ← advance r₁ publishing
    or_fail r₂ filesystem_error (io env)
    journal_append env r.model_id r.manifest_digest metadata_written
    or_fail r₂ filesystem_error (io env)
    journal_append env r.model_id r.manifest_digest ready_written
    publish r₂ txn (record {
      ready_marker = true;
      metadata = some (record {
        model_id = r.model_id;
        manifest_digest = r.manifest_digest;
        reference = f.reference;
        artifact_type = f.artifact_type;
        bytes = total;
        profile = f.profile;
      });
      shards = entries files;
    })
    commit r₂ total

  -- From the record on: the transaction that brings the model here.
  unfoldable pub run_transaction : EnsureRequest → Text → ModelRecord → M EnsureResult
  run_transaction req digest r = do
    journal_append env r.model_id r.manifest_digest txn_started
    f ← fetch_model r req.ref
    free ← measure_free
    total ← take_admission r (admit env req digest f free)
    r₁ ← advance r downloading
    r₂ ← stage_and_publish r₁ f total
    pure (present r₂.path (bytes_downloaded (pos 0) f.blobs) (pos 0))

  abbrev leases_of : Option ModelRecord → List Lease
  leases_of none = []
  leases_of (some r) = r.leases

  abbrev may_resolve : Option ModelRecord → Bool
  may_resolve none = true
  may_resolve (some r) = elim r.status [
    | failed ↦ (elim (transition_state failed resolving) [ done ↦ true | _ ↦ false ])
    | _ ↦ true
  ]

  -- The record of a new transaction, with the leases of the one before.
  unfoldable pub new_record : EnsureRequest → Text → Text → List Lease → ℕ → ModelRecord
  new_record req digest path leases at = acquire_lease at req.lease_holder (record {
    key = model_key req.model_id digest;
    model_id = req.model_id;
    manifest_digest = digest;
    status = resolving;
    path = path;
    bytes = pos 0;
    leases = leases;
    releasable = false;
    releasable_at = none;
    last_error = reason_none;
    created_at = at;
    updated_at = at;
    last_accessed_at = at;
  })

  unfoldable pub ensure_new : EnsureRequest → Text → Option ModelRecord → M EnsureResult
  ensure_new req digest existing =
      elim (safe_join_under_root env.links env.model_root
        (req.model_id ∷ digest_to_path_component digest ∷ [])) [
          | none ↦ raise invalid
          | some path ↦
              if may_resolve existing
              then (do
                at ← now env
                r ← store_put env (new_record req digest path (leases_of existing) at)
                run_transaction req digest r)
              else raise corrupt
        ]

  -- The model is here: the holder gets its lease.
  unfoldable pub reuse : EnsureRequest → ModelRecord → M EnsureResult
  reuse req r = do
    at ← now env
    r' ← store_put env (record (acquire_lease at req.lease_holder r) { last_error = reason_none })
    pure (present r'.path (pos 0) r'.bytes)

  unfoldable pub ensure_found : EnsureRequest → Text → Option ModelRecord → M EnsureResult
  ensure_found req digest none = ensure_new req digest none
  ensure_found req digest (some r) =
      if not (is_empty r.path) && not (within_root env r.path)
      then raise corrupt
      else if is_ready r.status
      then if_dirs (λ ds. is_verified (verify_published_path env r.path ds)) (reuse req r)
          (ensure_new req digest (some r))
      else ensure_new req digest (some r)

  unfoldable pub ensure_locked : EnsureRequest → Text → Bool → M EnsureResult
  ensure_locked req digest false = pure pending
  ensure_locked req digest true = do
    existing ← store_get env (model_key req.model_id digest)
    ensure_found req digest existing

  -- `model_root appears transient`
  abbrev transient_root : Bool
  transient_root =
      has_prefix env.model_root (codes "/dev/shm") || contains env.model_root (codes "tmpfs")

  unfoldable pub ensure_pinned : EnsureRequest → Text → M EnsureResult
  ensure_pinned req digest =
      if blank_text req.model_id || not (model_id_ok env req.model_id)
      then raise invalid
      else if req.strict_direct_path && transient_root
      then raise (new_app_error exit_policy direct_path_ineligible)
      else do got ← acquire env req.wait; ensure_locked req digest got

  unfoldable pub ensure : EnsureRequest → M EnsureResult
  ensure req = elim (parse_digest_pinned_ref env.algorithm req.ref) [
    | refused _ ↦ raise invalid
    | parsed _ digest ↦ ensure_pinned req digest
  ]
