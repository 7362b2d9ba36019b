-- ===== src/AppErr.antt =====
-- internal/apperr/errors.go and the aliases of internal/app/types.go: reason codes, exit codes and
-- `AppError`. Messages and wrapped errors are text for a person and are left out; the reason
-- strings are the constructors, in the order of the constants.
use oci2gdsd.Prelude.{ℕ}

pub data Reason : Type 0 where
  reason_none : Reason
  registry_auth_failed registry_unreachable registry_timeout manifest_not_found : Reason
  blob_not_found blob_size_mismatch blob_digest_mismatch signature_policy_failed : Reason
  disk_space_insufficient publish_rename_failed lease_conflict state_db_corrupt : Reason
  direct_path_ineligible validation_failed profile_lint_failed filesystem_error : Reason
  internal_error policy_rejected registry_download_failure : Reason

pub data ExitCode : Type 0 where
  exit_success exit_validation exit_auth exit_registry exit_integrity : ExitCode
  exit_filesystem exit_policy exit_state_corrupt : ExitCode

-- The number that the process exits with.
unfoldable pub exit_number : ExitCode → ℕ
exit_number exit_success = 0
exit_number exit_validation = 2
exit_number exit_auth = 3
exit_number exit_registry = 4
exit_number exit_integrity = 5
exit_number exit_filesystem = 6
exit_number exit_policy = 7
exit_number exit_state_corrupt = 8

pub record AppError : Type 0 where
  pub exit_code : ExitCode
  pub reason : Reason

abbrev pub new_app_error : ExitCode → Reason → AppError
new_app_error c r = record { exit_code = c; reason = r }

-- A Go error: one of the program's, with the `AppError` that `errors.As` finds in it, or another.
pub data GoError : Type 0 where
  app : AppError → GoError
  plain : GoError

unfoldable pub as_app_error : GoError → AppError
as_app_error (app e) = e
as_app_error plain = new_app_error exit_state_corrupt internal_error

unfoldable pub map_reason_to_exit_code : Reason → ExitCode
map_reason_to_exit_code registry_auth_failed = exit_auth
map_reason_to_exit_code registry_unreachable = exit_registry
map_reason_to_exit_code registry_timeout = exit_registry
map_reason_to_exit_code manifest_not_found = exit_registry
map_reason_to_exit_code blob_not_found = exit_registry
map_reason_to_exit_code registry_download_failure = exit_registry
map_reason_to_exit_code blob_digest_mismatch = exit_integrity
map_reason_to_exit_code blob_size_mismatch = exit_integrity
map_reason_to_exit_code signature_policy_failed = exit_integrity
map_reason_to_exit_code disk_space_insufficient = exit_filesystem
map_reason_to_exit_code publish_rename_failed = exit_filesystem
map_reason_to_exit_code filesystem_error = exit_filesystem
map_reason_to_exit_code policy_rejected = exit_policy
map_reason_to_exit_code direct_path_ineligible = exit_policy
map_reason_to_exit_code state_db_corrupt = exit_state_corrupt
map_reason_to_exit_code validation_failed = exit_validation
map_reason_to_exit_code profile_lint_failed = exit_validation
map_reason_to_exit_code _ = exit_state_corrupt

-- What a call returns: a value, or an error of the program.
pub data Result {ℓ} (A : Type ℓ) : Type ℓ where
  ok : A → Result A
  err : AppError → Result A
