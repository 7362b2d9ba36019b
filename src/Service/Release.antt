-- ===== src/Service/Release.antt =====
-- `Release` of internal/app/service.go.
pub mod Effects
use oci2gdsd.Prelude.{
  ℕ, suc, ◌==◌, Bool, true, false, not, ◌&&◌, ◌||◌, Option, none, some, List, [], ◌∷◌, Text,
  is_empty, Map, lookup, ℤ, pos, if◌then◌else◌,
}
use oci2gdsd.AppErr.{AppError, new_app_error}
use oci2gdsd.Model.{
  ModelState, ready, releasing, released, ExternalStatus, ext_released, external_status,
}
use oci2gdsd.Names.{model_key}
use oci2gdsd.Store.{ModelRecord, release_lease}
use oci2gdsd.Service.State.{
  World, Env, ModelDir, LockAnswer, locked, busy, lock_error, M, ◌>>=◌, ◌>>◌, pure, raise, if_dirs,
  tick, corrupt, now, store_get, store_put, within_root,
}
use oci2gdsd.Service.Lookup.{invalid, model_id_ok, blank_text, safe_remove_all}

pub record ReleaseResult : Type 0 where
  pub status : ExternalStatus
  pub remaining_leases : ℕ

-- The directory of the record is there.
unfoldable pub dir_exists : Text → Map ModelDir → Bool
dir_exists path ds = elim (lookup path ds) [ none ↦ false | some _ ↦ true ]

module _ (env : Env) where
  -- Removes the directory of a record that is cleaned up, if it has one.
  unfoldable pub cleanup_dir : ModelRecord → M Unit
  cleanup_dir r =
      if is_empty r.path
      then pure tt
      else if_dirs (dir_exists r.path) (safe_remove_all env env.model_root r.path) (pure tt)

  -- The record after its last lease is gone.
  unfoldable pub release_last : Bool → ℕ → ModelRecord → M ModelRecord
  release_last cleanup at r =
      let r' = record r { releasable = true; releasable_at = some at } in
      if cleanup
      then (do cleanup_dir r'; pure (record r' { status = released; path = []; bytes = pos 0 }))
      else pure (record r' { status = ready })

  -- What `Release` does to a record that it finds.
  unfoldable pub release_record : Text → Bool → ModelRecord → M ReleaseResult
  release_record holder cleanup found =
      if not (is_empty found.path) && not (within_root env found.path) then raise corrupt else do
        read ← now env
        let (rec, remaining) = release_lease read holder (record found { status = releasing })
        at ← now env
        rec' ←
            (if remaining == 0
              then release_last cleanup at rec
              else pure (record rec { status = ready; releasable = false; releasable_at = none }))
        store_put env rec'
        pure (record { status = external_status rec'.status; remaining_leases = remaining })

  unfoldable pub release_found : Text → Bool → Option ModelRecord → M ReleaseResult
  release_found holder cleanup none = pure (record { status = ext_released; remaining_leases = 0 })
  release_found holder cleanup (some r) = release_record holder cleanup r

  -- `s.locks.Acquire`; `busy` is `pending`.
  unfoldable pub acquire : Bool → M Bool
  acquire wait w = elim (env.lock w.calls wait) [
    | locked ↦ pure true (tick w)
    | busy ↦ pure false (tick w)
    | lock_error e ↦ raise e (tick w)
  ]

  unfoldable pub release : Text → Text → Text → Bool → M ReleaseResult
  release id digest holder cleanup =
      if blank_text id || blank_text digest
      then raise invalid
      else if not (model_id_ok env id)
      then raise invalid
      else if blank_text holder
      then raise invalid
      else do
        acquire true
        found ← store_get env (model_key id digest)
        release_found holder cleanup found
