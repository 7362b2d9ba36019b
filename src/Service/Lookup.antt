-- ===== src/Service/Lookup.antt =====
-- `validateModelID`, `Status`, `List` and `safeRemoveAll` of internal/app/service.go.
use oci2gdsd.Prelude.{
  suc, Bool, true, false, ◌||◌, Option, none, some, List, [], ◌∷◌, ◌++◌, map, Text, text_eq,
  text_lt, is_empty, has_prefix, trim_space, Map, ℤ, pos, sort_slice, if◌then◌else◌,
}
use oci2gdsd.AppErr.{
  Reason, AppError, new_app_error, exit_validation, validation_failed, reason_none,
}
use oci2gdsd.Model.{ExternalStatus, ext_released, external_status}
use oci2gdsd.Names.{validate_model_id, model_key, slash}
use oci2gdsd.Store.{ModelRecord, Lease}
use oci2gdsd.Paths.{ensure_under_root, passes}
use oci2gdsd.Service.State.{
  Env, ModelDir, M, ◌>>=◌, pure, raise, tick, settle, io_error, store_get, store_list,
}

abbrev pub invalid : AppError
invalid = new_app_error exit_validation validation_failed

-- `s.validateModelID(id) == nil`
unfoldable pub model_id_ok : Env → Text → Bool
model_id_ok env id = elim (validate_model_id id) [
  | some _ ↦ false
  | none ↦ elim env.allowlist [ none ↦ true | some matches ↦ matches id ]
]

pub record StatusResult : Type 0 where
  pub model_id : Text
  pub manifest_digest : Text
  pub status : ExternalStatus
  pub path : Text
  pub active_leases : List Lease
  pub last_error : Reason
  pub bytes : ℤ

unfoldable pub status_of : ModelRecord → StatusResult
status_of r = record {
  model_id = r.model_id;
  manifest_digest = r.manifest_digest;
  status = external_status r.status;
  path = r.path;
  active_leases = r.leases;
  last_error = r.last_error;
  bytes = r.bytes;
}

unfoldable pub status_found : Text → Text → Option ModelRecord → StatusResult
unfolding status_of
status_found id digest none = record {
  model_id = id;
  manifest_digest = digest;
  status = ext_released;
  path = [];
  active_leases = [];
  last_error = reason_none;
  bytes = pos 0;
}
status_found id digest (some r) = status_of r

unfoldable pub blank_text : Text → Bool
blank_text s = is_empty (trim_space s)

module _ (env : Env) where
  unfoldable pub status : Text → Text → M StatusResult
  status id digest =
      if blank_text id || blank_text digest
      then raise invalid
      else if model_id_ok env id
      then (do rec ← store_get env (model_key id digest); pure (status_found id digest rec))
      else raise invalid

unfoldable pub status_less : StatusResult → StatusResult → Bool
status_less a b =
    if text_eq a.model_id b.model_id
    then text_lt a.manifest_digest b.manifest_digest
    else text_lt a.model_id b.model_id

module _ (env : Env) where
  unfoldable pub list : M (List StatusResult)
  list = do records ← store_list env; pure (sort_slice status_less (map status_of records))

-- `os.RemoveAll(path)` takes the directory and all that lies below it.
unfoldable pub at_or_below : Text → Text → Bool
at_or_below path p = text_eq p path || has_prefix p (path ++ slash ∷ [])

unfoldable pub without_dir : Text → Map ModelDir → Map ModelDir
unfolding at_or_below
without_dir path [] = []
without_dir path ((p, d) ∷ dirs) =
    let rest = without_dir path dirs in if at_or_below path p then rest else (p, d) ∷ rest

module _ (env : Env) where
  unfoldable pub remove_all : Text → M Unit
  remove_all path w =
      settle (env.outcome w.calls) io_error tt (tick w)
        (record w { dirs = without_dir path w.dirs; calls = suc w.calls })

  -- `safeRemoveAll`
  unfoldable pub safe_remove_all : Text → Text → M Unit
  safe_remove_all root path =
      if passes (ensure_under_root env.links root path) then remove_all path else raise io_error
