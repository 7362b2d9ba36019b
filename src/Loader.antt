-- ===== src/Loader.antt =====
-- internal/gpu/gds_linux.go: the table of what is loaded in GPU memory. `Bridge` is the C side
-- (CUDA, cuFile, the file system), which answers each numbered call; `memory` are the pointers that
-- it has given out and not taken back.
mod Table
pub mod Entries
pub mod Refs
pub mod Memory
pub mod Traces
unfoldable pub use Table.*
use oci2gdsd.Prelude.{
  ℕ, suc, ◌+◌, ◌-◌, ◌==◌, ltb, Bool, true, false, not, ◌&&◌, Option, none, some, List, [], ◌∷◌,
  ◌++◌, length, is_empty, Text, codes, Map, lookup, insert, erase, if◌then◌else◌,
}
use oci2gdsd.AppErr.{
  AppError, new_app_error, exit_registry, registry_timeout, exit_policy, direct_path_ineligible,
  lease_conflict, exit_validation, validation_failed, exit_integrity, blob_size_mismatch,
  exit_filesystem, filesystem_error, Result, ok, err,
}

module _ (b : Bridge) where
  -- `allocKey`
  unfoldable pub alloc_key : FileRequest → Text
  alloc_key req = b.decimal req.device ++ b'|' ∷ req.path

  unfoldable pub begin_session : ℕ → ℕ → LoaderState → Result (Unit {0}) × LoaderState
  unfolding session_count set_session settle_driver
  begin_session n device st =
      let count = session_count device st.sessions in
      if ltb 0 count
      then (ok tt, record st { sessions = set_session device (count + 1) st.sessions })
      else if not (b.starts n)
      then (err ineligible, st)
      else let up : LoaderState = record st { driver_up = true } in
        if b.activates n device
        then (ok tt, record up { sessions = set_session device 1 st.sessions })
        else (err ineligible, settle_driver up)

  -- `releaseFn`; each session is ended once.
  unfoldable pub end_session : ℕ → LoaderState → LoaderState
  unfolding session_count set_session drop_session settle_driver
  end_session device st =
      let count = session_count device st.sessions in
      settle_driver (record st {
        sessions =
            if ltb 1 count
            then set_session device (count - 1) st.sessions
            else drop_session device st.sessions;
      })

  -- `gds_free_persistent`
  unfoldable pub free : ℕ → ℕ → LoaderState → Bool × LoaderState
  unfolding remove_ptr
  free n ptr st =
      if b.frees n ptr then (true, record st { memory = remove_ptr ptr st.memory }) else (false, st)

  -- The shard is in memory already: one more load reference.
  unfoldable pub load_again :
      FileRequest → Persistent → LoaderState → Result FileResult × LoaderState
  unfolding alloc_key
  load_again req a st =
      let a' : Persistent = record a { load_refs = a.load_refs + 1 } in
      (
        ok (result_of req.path a.bytes false a'),
        record st { allocations = insert (alloc_key req) a' st.allocations },
      )

  -- The second look at the table, after the shard has been read: another load may have come first.
  unfoldable pub load_store :
      ℕ → FileRequest → Region → LoaderState → Result FileResult × LoaderState
  unfolding alloc_key load_again free
  load_store n req region st = elim (lookup (alloc_key req) st.allocations) [
    | some a ↦ let (res, st') = load_again req a st in (res, (free n region.ptr st').1)
    | none ↦
        let a : Persistent = record {
          device = req.device;
          ptr = region.ptr;
          bytes = region.bytes;
          load_refs = 1;
          importer_refs = 0;
          importers = [];
          direct = region.direct;
        } in
        (
          ok (result_of req.path region.bytes true a),
          record st { allocations = insert (alloc_key req) a st.allocations },
        )
  ]

  -- What was read is stored if its size is that of the file.
  unfoldable pub load_checked :
      ℕ → FileRequest → ℕ → Region → LoaderState → Result FileResult × LoaderState
  unfolding free load_store
  load_checked n req size region st =
      if region.bytes == size
      then load_store n req region st
      else (err (new_app_error exit_integrity blob_size_mismatch), (free n region.ptr st).1)

  -- `gds_load_persistent` within a session.
  unfoldable pub load_read : ℕ → FileRequest → ℕ → LoaderState → Result FileResult × LoaderState
  unfolding load_checked
  load_read n req size st = elim (b.reads n req.path) [
    | none ↦ (err ineligible, st)
    | some region ↦ load_checked n req size region (record st { memory = region.ptr ∷ st.memory })
  ]

  unfoldable pub load_session : ℕ → FileRequest → ℕ → LoaderState → Result FileResult × LoaderState
  unfolding begin_session end_session load_read
  load_session n req size st =
      let (began, st₁) = begin_session n req.device st in
      elim began [
        | err e ↦ (err e, st₁)
        | ok _ ↦ let (res, st₂) = load_read n req size st₁ in (res, end_session req.device st₂)
      ]

  -- `LoadPersistent`, where nothing else comes between its two looks at the table.
  unfoldable pub load_persistent : ℕ → FileRequest → LoaderState → Result FileResult × LoaderState
  unfolding alloc_key load_again load_session
  load_persistent n req st =
      if b.cancelled n then (err cancelled_error, st) else elim (b.file_size n req.path) [
        | none ↦ (err (new_app_error exit_filesystem filesystem_error), st)
        | some size ↦ elim (lookup (alloc_key req) st.allocations) [
          | some a ↦ load_again req a st
          | none ↦ load_session n req size st
        ]
      ]

  unfoldable pub export_persistent : ℕ → FileRequest → LoaderState → Result FileResult × LoaderState
  unfolding alloc_key
  export_persistent n req st =
      if b.cancelled n
      then (err cancelled_error, st)
      else elim (lookup (alloc_key req) st.allocations) [
        | none ↦ (err not_loaded, st)
        | some a ↦
            if b.exports n a.ptr
            then (ok (result_of req.path a.bytes true a), st)
            else (err ineligible, st)
      ]

  unfoldable pub attach_persistent : ℕ → FileRequest → LoaderState → Result FileResult × LoaderState
  unfolding alloc_key attach_entry
  attach_persistent n req st =
      if b.cancelled n
      then (err cancelled_error, st)
      else if is_empty req.client_id
      then (err (new_app_error exit_validation validation_failed), st)
      else elim (lookup (alloc_key req) st.allocations) [
        | none ↦ (err not_loaded, st)
        | some a ↦
            let a' = attach_entry req.client_id a in
            (
              ok (result_of req.path a.bytes true a'),
              record st { allocations = insert (alloc_key req) a' st.allocations },
            )
      ]

  unfoldable pub detach_persistent : ℕ → FileRequest → LoaderState → Result FileResult × LoaderState
  unfolding alloc_key detach_entry
  detach_persistent n req st =
      if b.cancelled n
      then (err cancelled_error, st)
      else if is_empty req.client_id
      then (err (new_app_error exit_validation validation_failed), st)
      else elim (lookup (alloc_key req) st.allocations) [
        | none ↦ (
          ok (record { path = req.path; bytes = 0; direct = false; loaded = false; ref_count = 0 }),
          st,
        )
        | some a ↦
            let a' = detach_entry req.client_id a in
            (
              ok (result_of req.path a.bytes true a'),
              record st { allocations = insert (alloc_key req) a' st.allocations },
            )
      ]

  -- The last load reference goes: the memory is freed, unless clients have it imported.
  unfoldable pub unload_last :
      ℕ → FileRequest → Persistent → LoaderState → Result FileResult × LoaderState
  unfolding alloc_key free settle_driver
  unload_last n req a st =
      if ltb 0 a.importer_refs
      then (err (new_app_error exit_policy lease_conflict), st)
      else let (freed, st') = free n a.ptr st in
        if freed
        then (
          ok (record {
            path = req.path;
            bytes = a.bytes;
            direct = a.direct;
            loaded = false;
            ref_count = 0;
          }),
          settle_driver (record st' { allocations = erase (alloc_key req) st'.allocations }),
        )
        else (
          err ineligible,
          record st {
            allocations = insert (alloc_key req) (record a { load_refs = 1 }) st.allocations;
          },
        )

  unfoldable pub unload_persistent : ℕ → FileRequest → LoaderState → Result FileResult × LoaderState
  unfolding alloc_key unload_last
  unload_persistent n req st =
      if b.cancelled n
      then (err cancelled_error, st)
      else elim (lookup (alloc_key req) st.allocations) [
        | none ↦ (err not_loaded, st)
        | some a ↦
            if ltb 1 a.load_refs
            then (let a' : Persistent = record a { load_refs = a.load_refs - 1 } in
                (
                  ok (result_of req.path 0 false a'),
                  record st { allocations = insert (alloc_key req) a' st.allocations },
                ))
            else unload_last n req a st
      ]

-- What is asked of the loader.
pub data LoaderCall : Type 0 where
  loads exports attaches detaches unloads : LoaderCall

unfoldable pub run_call :
    Bridge → ℕ → LoaderCall → FileRequest → LoaderState → Result FileResult × LoaderState
run_call b n loads = load_persistent b n
run_call b n exports = export_persistent b n
run_call b n attaches = attach_persistent b n
run_call b n detaches = detach_persistent b n
run_call b n unloads = unload_persistent b n
