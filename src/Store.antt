-- ===== src/Store.antt =====
-- internal/store/store.go: the records of the state database and its operations. A transaction
-- under the file lock is one function of the database; the file's reading and writing, which can
-- fail, are in Service.State. A pointer that may be nil is an `Option`. Times are nanoseconds since
-- Go's zero time, which is 0.
pub mod Leases
pub mod Laws
pub mod Listing
use oci2gdsd.Prelude.{
  ℕ, Bool, true, false, ◌==◌, Option, none, some, List, [], ◌∷◌, ◌++◌, length, Text, text_eq,
  text_lt, is_empty, keep, leb, Map, lookup, insert, erase, values, sort_slice, ℤ, if◌then◌else◌,
  not,
}
use oci2gdsd.AppErr.{Reason}
use oci2gdsd.Model.{ModelState}

pub record Lease : Type 0 where
  pub holder : Text
  pub acquired_at : ℕ

pub record ModelRecord : Type 0 where
  pub key : Text
  pub model_id : Text
  pub manifest_digest : Text
  pub status : ModelState
  pub path : Text
  pub bytes : ℤ
  pub leases : List Lease
  pub releasable : Bool
  pub releasable_at : Option ℕ
  pub last_error : Reason
  pub created_at : ℕ
  pub updated_at : ℕ
  pub last_accessed_at : ℕ

pub record AllocationRecord : Type 0 where
  pub allocation_id : Text
  pub model_key : Text
  pub model_id : Text
  pub manifest_digest : Text
  pub path : Text
  pub lease_holder : Text
  pub device_uuid : Text
  pub device_index : ℤ
  pub status : Text
  pub created_at : ℕ
  pub updated_at : ℕ

pub record StateDb : Type 0 where
  pub version : ℕ
  pub models : Map ModelRecord
  pub allocations : Map AllocationRecord

-- What `Init` writes where there is no file, and `load` returns for an empty one.
unfoldable pub seed : StateDb
seed = record { version = 2; models = []; allocations = [] }

-- The end of `load`: the version of what was parsed is brought up to 2.
unfoldable pub upgrade : StateDb → StateDb
upgrade db =
    let v = if db.version == 0 then 1 else db.version in
    record db { version = if leb v 1 then 2 else v }

unfoldable pub get : Text → StateDb → Option ModelRecord
get key db = lookup key db.models

-- The record as `Put` leaves it for its caller, who goes on with it.
unfoldable pub stamp : ℕ → ModelRecord → ModelRecord
stamp now rec = record rec {
  created_at = if rec.created_at == 0 then now else rec.created_at;
  updated_at = now;
  last_accessed_at = if rec.last_accessed_at == 0 then now else rec.last_accessed_at;
}

unfoldable pub put : ℕ → ModelRecord → StateDb → StateDb
unfolding stamp
put now rec db = record db { models = insert rec.key (stamp now rec) db.models }

unfoldable pub delete : Text → StateDb → StateDb
delete key db = record db { models = erase key db.models }

-- The `less` of `List`: by model id, then by digest.
unfoldable pub record_less : ModelRecord → ModelRecord → Bool
record_less a b =
    if text_eq a.model_id b.model_id
    then text_lt a.manifest_digest b.manifest_digest
    else text_lt a.model_id b.model_id

unfoldable pub list : StateDb → List ModelRecord
list db = sort_slice record_less (values db.models)

unfoldable pub get_allocation : Text → StateDb → Option AllocationRecord
get_allocation id db = lookup id db.allocations

unfoldable pub put_allocation : ℕ → AllocationRecord → StateDb → StateDb
put_allocation now rec db =
    let rec' = record rec {
      created_at = if rec.created_at == 0 then now else rec.created_at;
      updated_at = now;
    } in
    record db { allocations = insert rec.allocation_id rec' db.allocations }

unfoldable pub delete_allocation : Text → StateDb → StateDb
delete_allocation id db = record db { allocations = erase id db.allocations }

unfoldable pub allocation_less : AllocationRecord → AllocationRecord → Bool
allocation_less a b =
    if text_eq a.model_id b.model_id
    then text_lt a.allocation_id b.allocation_id
    else text_lt a.model_id b.model_id

unfoldable pub list_allocations : StateDb → List AllocationRecord
list_allocations db = sort_slice allocation_less (values db.allocations)

unfoldable pub clear_allocations : StateDb → StateDb
clear_allocations db = record db { allocations = [] }

-- `UpsertWithLock`: `none` where the key is missing or `fn` returns an error, and nothing is saved.
unfoldable pub upsert_with_lock :
    ℕ → Text → (ModelRecord → Option ModelRecord) → StateDb → Option StateDb
upsert_with_lock now key fn db = elim (lookup key db.models) [
  | none ↦ none
  | some rec ↦ elim (fn rec) [
    | none ↦ none
    | some rec' ↦
        some (record db { models = insert key (record rec' { updated_at = now }) db.models })
  ]
]

-- Is there a lease of this holder?
unfoldable pub has_lease : Text → List Lease → Bool
has_lease holder [] = false
has_lease holder (l ∷ ls) = if text_eq l.holder holder then true else has_lease holder ls

-- `AcquireLease`; the clock is read once in the model, for the lease and the access time.
unfoldable pub acquire_lease : ℕ → Text → ModelRecord → ModelRecord
unfolding has_lease
acquire_lease now holder r =
    if is_empty holder
    then r
    else if has_lease holder r.leases
    then record r { last_accessed_at = now }
    else record r {
      leases = r.leases ++ (record { holder = holder; acquired_at = now } ∷ []);
      releasable = false;
      releasable_at = none;
      last_accessed_at = now;
    }

-- `ReleaseLease`: the record, and the number of leases that remain.
unfoldable pub release_lease : ℕ → Text → ModelRecord → ModelRecord × ℕ
release_lease now holder r =
    if is_empty holder
    then (r, length r.leases)
    else let next = keep (λ l. not (text_eq l.holder holder)) r.leases in
      (record r { leases = next; last_accessed_at = now }, length next)
