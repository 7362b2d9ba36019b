-- ===== src/Loader/Table.antt =====
-- The table of internal/gpu/gds_linux.go, and what is done to an entry, to the sessions and the driver.
-- Reference counts stay far below the range of `int`. `active`, which is written and never read, and
-- texts for people are left out.
use oci2gdsd.Prelude.{
  ℕ, ◌+◌, ◌-◌, ◌==◌, ltb, Bool, false, ◌&&◌, Option, none, some, List, [], ◌∷◌, is_empty, Text, Map,
  lookup, insert, erase, if◌then◌else◌,
}
use oci2gdsd.AppErr.{
  AppError, new_app_error, exit_registry, registry_timeout, exit_policy, direct_path_ineligible,
  exit_validation, validation_failed,
}

pub record Persistent : Type 0 where
  pub device : ℕ
  pub ptr : ℕ
  pub bytes : ℕ
  pub load_refs : ℕ
  pub importer_refs : ℕ
  pub importers : Map ℕ
  pub direct : Bool

-- `refs` of the sessions, by device.
abbrev pub Sessions : Type 0
Sessions = List (ℕ × ℕ)

pub record LoaderState : Type 0 where
  pub sessions : Sessions
  pub allocations : Map Persistent
  pub memory : List ℕ
  pub driver_up : Bool

pub record FileRequest : Type 0 where
  pub path : Text
  pub device : ℕ
  pub client_id : Text

pub record FileResult : Type 0 where
  pub path : Text
  pub bytes : ℕ
  pub direct : Bool
  pub loaded : Bool
  pub ref_count : ℕ

-- What `gds_load_persistent` gives where it succeeds.
pub record Region : Type 0 where
  pub ptr : ℕ
  pub bytes : ℕ
  pub direct : Bool

-- The answers of the C side to each numbered call; `decimal` is `%d`.
pub record Bridge : Type 0 where
  pub decimal : ℕ → Text
  pub cancelled : ℕ → Bool
  pub file_size : ℕ → Text → Option ℕ
  pub starts : ℕ → Bool
  pub activates : ℕ → ℕ → Bool
  pub reads : ℕ → Text → Option Region
  pub frees : ℕ → ℕ → Bool
  pub exports : ℕ → ℕ → Bool

abbrev pub ineligible : AppError
ineligible = new_app_error exit_policy direct_path_ineligible

abbrev pub cancelled_error : AppError
cancelled_error = new_app_error exit_registry registry_timeout

abbrev pub not_loaded : AppError
not_loaded = new_app_error exit_validation validation_failed

-- `l.refs[device]`, which is 0 where the key is missing.
unfoldable pub session_count : ℕ → Sessions → ℕ
session_count d [] = 0
session_count d ((e, n) ∷ ss) = if e == d then n else session_count d ss

unfoldable pub set_session : ℕ → ℕ → Sessions → Sessions
set_session d n [] = (d, n) ∷ []
set_session d n ((e, m) ∷ ss) = if e == d then (e, n) ∷ ss else (e, m) ∷ set_session d n ss

unfoldable pub drop_session : ℕ → Sessions → Sessions
drop_session d [] = []
drop_session d ((e, m) ∷ ss) =
    let rest = drop_session d ss in if e == d then rest else (e, m) ∷ rest

-- `totalRefsLocked`
unfoldable pub total_refs : Sessions → ℕ
total_refs [] = 0
total_refs ((_, n) ∷ ss) = n + total_refs ss

-- The end of a call that may have been the last user: `gds_shutdown`.
unfoldable pub settle_driver : LoaderState → LoaderState
unfolding total_refs
settle_driver st =
    if total_refs st.sessions == 0 && is_empty st.allocations
    then record st { driver_up = false }
    else st

unfoldable pub remove_ptr : ℕ → List ℕ → List ℕ
remove_ptr p [] = []
remove_ptr p (q ∷ qs) = if q == p then qs else q ∷ remove_ptr p qs

-- The references of an allocation, as the results count them.
abbrev pub ref_total : Persistent → ℕ
ref_total a = a.load_refs + a.importer_refs

abbrev pub result_of : Text → ℕ → Bool → Persistent → FileResult
result_of path bytes loaded a = record {
  path = path;
  bytes = bytes;
  direct = a.direct;
  loaded = loaded;
  ref_count = ref_total a;
}

-- `alloc.importers[clientID]`
abbrev pub import_count : Text → Map ℕ → ℕ
import_count c m = elim (lookup c m) [ none ↦ 0 | some n ↦ n ]

unfoldable pub attach_entry : Text → Persistent → Persistent
attach_entry c a = record a {
  importers = insert c (import_count c a.importers + 1) a.importers;
  importer_refs = a.importer_refs + 1;
}

unfoldable pub detach_entry : Text → Persistent → Persistent
detach_entry c a =
    let count = import_count c a.importers in
    if ltb 1 count
    then record a {
      importers = insert c (count - 1) a.importers;
      importer_refs = a.importer_refs - 1;
    }
    else if count == 1
    then record a { importers = erase c a.importers; importer_refs = a.importer_refs - 1 }
    else a
