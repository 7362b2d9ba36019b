-- ===== src/Service/Recover.antt =====
-- `Recover` of internal/app/service.go: what it does to the state database and the journals. The
-- tables of one process (tokens, attachments, caches, slots) start empty, and the removal of stale
-- temporary directories touches nothing that is modelled here.
pub mod Consistent
use oci2gdsd.Prelude.{
  Bool, true, false, not, ◌&&◌, Option, none, some, List, [], ◌∷◌, Text, Map, is_empty,
  if◌then◌else◌,
}
use oci2gdsd.AppErr.{Reason, reason_none, state_db_corrupt}
use oci2gdsd.Model.{ModelState, ready, failed}
use oci2gdsd.Store.{ModelRecord}
use oci2gdsd.Service.State.{
  Marker, committed, ready_written, World, Env, ModelDir, Result, ok, err, M, ◌>>=◌, ◌>>◌, pure,
  if_dirs, try, store_list, store_put, store_clear_allocations, journal_append, journal_markers,
  journal_delete, within_root,
}
use oci2gdsd.Service.Verify.{Verdict, verified, rejected, verify_published_path_quick}

abbrev pub is_ready : ModelState → Bool
is_ready ready = true
is_ready _ = false

abbrev pub is_committed : Marker → Bool
is_committed committed = true
is_committed _ = false

abbrev pub is_ready_written : Marker → Bool
is_ready_written ready_written = true
is_ready_written _ = false

unfoldable pub has_marker : (Marker → Bool) → List Marker → Bool
has_marker p [] = false
has_marker p (m ∷ ms) = if p m then true else has_marker p ms

abbrev pub is_verified : Verdict → Bool
is_verified verified = true
is_verified (rejected _) = false

-- `ready, _, verifyErr := s.verifyPublishedPathQuick(rec.Path); verifyErr == nil && ready`
abbrev pub quick_ok : ModelRecord → Map ModelDir → Bool
quick_ok r ds = is_verified (verify_published_path_quick r.path ds)

-- The record as recovery marks it failed, and as it marks it ready.
abbrev pub as_failed : ModelRecord → ModelRecord
as_failed r = record r { status = failed; last_error = state_db_corrupt }

abbrev pub as_ready : ModelRecord → ModelRecord
as_ready r = record r { status = ready; last_error = reason_none }

module _ (env : Env) where
  -- Marks the record failed and drops its journal, whose error is ignored.
  unfoldable pub mark_failed : ModelRecord → M Unit
  mark_failed r = do
    store_put env (as_failed r)
    try (journal_delete env r.model_id r.manifest_digest)
    pure tt

  unfoldable pub mark_ready : ModelRecord → M Unit
  mark_ready r = do
    store_put env (as_ready r)
    try (journal_append env r.model_id r.manifest_digest committed)
    try (journal_delete env r.model_id r.manifest_digest)
    pure tt

  -- The end of a round: a record that claims to be ready is looked at.
  unfoldable pub recheck : ModelRecord → M Unit
  recheck r =
      if is_ready r.status
      then if_dirs (quick_ok r) (pure tt) (store_put env (as_failed r) >> pure tt)
      else pure tt

  -- What the markers of the journal ask for.
  unfoldable pub follow_journal : ModelRecord → List Marker → M Unit
  follow_journal r [] = recheck r
  follow_journal r (m ∷ ms) =
      if has_marker is_committed (m ∷ ms)
      then (try (journal_delete env r.model_id r.manifest_digest) >> recheck r)
      else if has_marker is_ready_written (m ∷ ms)
      then if_dirs (quick_ok r) (mark_ready r) (mark_failed r)
      else mark_failed r

  -- One round of the loop over the records.
  unfoldable pub recover_record : ModelRecord → M Unit
  recover_record r =
      if not (is_empty r.path) && not (within_root env r.path)
      then mark_failed r
      else do ms ← journal_markers env r.model_id r.manifest_digest; follow_journal r ms

  unfoldable pub recover_records : List ModelRecord → M Unit
  recover_records [] = pure tt
  recover_records (r ∷ rs) = recover_record r >> recover_records rs

  unfoldable pub recover : M Unit
  recover = do store_clear_allocations env; records ← store_list env; recover_records records
