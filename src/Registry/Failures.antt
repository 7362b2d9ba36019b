-- ===== src/Registry/Failures.antt =====
-- The data of internal/registry/oras.go, the classes of its errors and the limit of what it reads.
use oci2gdsd.Prelude.{
  ℕ, ◌==◌, ltb, Bool, false, ◌||◌, Option, none, some, List, [], ◌∷◌, length, Text, codes, lower,
  contains, ℤ, if◌then◌else◌,
}
use oci2gdsd.AppErr.{
  AppError, new_app_error, exit_auth, registry_auth_failed, exit_registry, registry_timeout,
  registry_unreachable, manifest_not_found, blob_not_found,
}
use oci2gdsd.Profile.{ModelProfile}

-- The codes of a registry's error response that the program tells apart.
pub data ResponseCode : Type 0 where
  code_unauthorized code_denied code_manifest_unknown code_name_unknown : ResponseCode
  code_blob_unknown code_manifest_blob_unknown code_other : ResponseCode

pub record ErrorResponse : Type 0 where
  pub status : ℕ
  pub errors : List ResponseCode

-- An error of the registry's client: what `errors.As` and `errors.Is` find in it, and its text.
pub record Failure : Type 0 where
  pub response : Option ErrorResponse
  pub deadline_exceeded : Bool
  pub net_timeout : Bool
  pub text : Text

-- `ocispec.Descriptor`; `title` is the title among the annotations, empty where there is none.
pub record Descriptor : Type 0 where
  pub media_type : Text
  pub digest : Text
  pub size : ℤ
  pub title : Text

pub record Manifest : Type 0 where
  pub artifact_type : Text
  pub config : Descriptor
  pub layers : List Descriptor

-- A fetch of content: not opened, or the bytes that are there before the end or an error.
pub data Content : Type 0 where
  unopened : Failure → Content
  opened : Text → Option Failure → Content

pub data Resolution : Type 0 where
  resolved : Text → Resolution
  unresolved : Failure → Resolution

pub data ReadResult : Type 0 where
  whole : Text → ReadResult
  over_limit : ReadResult
  read_failed : Failure → ReadResult

-- The answers to one `Fetch`; `four_digits` is `%04d`.
pub record Registry : Type 0 where
  pub algorithm : Text → Option Text
  pub repository_ok : Text → Bool
  pub resolve : Text → Text → Resolution
  pub content : Text → Text → Content
  pub from_bytes : Text → Text
  pub parse_manifest : Text → Option Manifest
  pub parse_profile : Text → Option ModelProfile
  pub four_digits : ℤ → Text

abbrev pub max_manifest_bytes : ℕ
max_manifest_bytes = 16777216

abbrev pub max_config_bytes : ℕ
max_config_bytes = 104857600

-- The loop over the codes of a response: the first that is told apart decides.
unfoldable pub classify_codes : List ResponseCode → AppError
classify_codes [] = new_app_error exit_registry registry_unreachable
classify_codes (code_unauthorized ∷ _) = new_app_error exit_auth registry_auth_failed
classify_codes (code_denied ∷ _) = new_app_error exit_auth registry_auth_failed
classify_codes (code_manifest_unknown ∷ _) = new_app_error exit_registry manifest_not_found
classify_codes (code_name_unknown ∷ _) = new_app_error exit_registry manifest_not_found
classify_codes (code_blob_unknown ∷ _) = new_app_error exit_registry blob_not_found
classify_codes (code_manifest_blob_unknown ∷ _) = new_app_error exit_registry blob_not_found
classify_codes (code_other ∷ cs) = classify_codes cs

-- `classifyORASError` of an error that has a response.
unfoldable pub classify_oras_error : ErrorResponse → AppError
unfolding classify_codes
classify_oras_error r =
    if r.status == 401 || r.status == 403
    then new_app_error exit_auth registry_auth_failed
    else if r.status == 408 || r.status == 504
    then new_app_error exit_registry registry_timeout
    else classify_codes r.errors

-- The words of the error's text.
unfoldable pub classify_text : Text → AppError
classify_text t =
    if contains t (codes "unauthorized")
      || contains t (codes "authentication")
      || contains t (codes "denied")
    then new_app_error exit_auth registry_auth_failed
    else if contains t (codes "timeout") || contains t (codes "deadline exceeded")
    then new_app_error exit_registry registry_timeout
    else if contains t (codes "not found") || contains t (codes "manifest unknown")
    then new_app_error exit_registry manifest_not_found
    else if contains t (codes "blob unknown")
    then new_app_error exit_registry blob_not_found
    else new_app_error exit_registry registry_unreachable

unfoldable pub wrap_registry_error : Failure → AppError
unfolding classify_oras_error classify_text
wrap_registry_error f = elim f.response [
  | some r ↦ classify_oras_error r
  | none ↦
      if f.deadline_exceeded || f.net_timeout
      then new_app_error exit_registry registry_timeout
      else classify_text (lower f.text)
]

abbrev pub invalid_limit : Failure
invalid_limit = record {
  response = none;
  deadline_exceeded = false;
  net_timeout = false;
  text = codes "invalid read limit";
}

-- `io.LimitReader` ends the content after one byte more than the limit, before an error that is later.
unfoldable pub read_all_with_limit : Text → Option Failure → ℕ → ReadResult
read_all_with_limit t failure limit =
    if limit == 0
    then read_failed invalid_limit
    else if ltb limit (length t)
    then over_limit
    else elim failure [ none ↦ whole t | some f ↦ read_failed f ]
