-- ===== src/Service/State.antt =====
-- The world that internal/app/service.go works on, and its effects: the state database of
-- internal/store/store.go with the file's reading and writing, the journals of
-- internal/app/journal.go, the model directories, the clock, the locks and the free space.
-- Every effect is one call of the operating system, numbered by `calls`; `Env` says how each ends.
use oci2gdsd.Prelude.{
  ℕ, suc, Bool, true, false, Option, none, some, List, [], ◌∷◌, ◌++◌, Text, Map, lookup, insert,
  erase, ℤ, if◌then◌else◌,
}
pub use oci2gdsd.AppErr.{Result, ok, err}
use oci2gdsd.AppErr.{
  GoError, AppError, new_app_error, exit_state_corrupt, exit_filesystem, state_db_corrupt,
  filesystem_error,
}
use oci2gdsd.Store
use oci2gdsd.Store.{ModelRecord, StateDb}
use oci2gdsd.Names.{journal_name}
use oci2gdsd.Paths.{Links, ensure_under_root, passes}
use oci2gdsd.Profile.{ModelProfile, ManifestLayer}

pub data Marker : Type 0 where
  txn_started blobs_written blobs_verified metadata_written ready_written committed : Marker

-- A shard file: its size by `Stat`, and what reading it returns, unless that fails.
pub record ShardFile : Type 0 where
  pub size : ℕ
  pub content : Option Text

pub data ShardsDir : Type 0 where
  absent not_a_directory : ShardsDir
  entries : Map ShardFile → ShardsDir

pub record LocalMetadata : Type 0 where
  pub model_id : Text
  pub manifest_digest : Text
  pub reference : Text
  pub artifact_type : Text
  pub bytes : ℕ
  pub profile : ModelProfile

-- A model directory: its READY marker, metadata/model.json (`none` where it cannot be read or
-- parsed) and shards/.
pub record ModelDir : Type 0 where
  pub ready_marker : Bool
  pub metadata : Option LocalMetadata
  pub shards : ShardsDir

pub record World : Type 0 where
  pub db : StateDb
  pub journals : Map (List Marker)
  pub dirs : Map ModelDir
  pub calls : ℕ

-- How a call ends: well; before it did anything, while it read or while it wrote; or with an error
-- after it did all it was to do, as when the last fsync fails.
pub data Outcome : Type 0 where
  fine load_failed write_failed failed_late : Outcome

-- How a request for a model's lock ends.
pub data LockAnswer : Type 0 where
  locked busy : LockAnswer
  lock_error : AppError → LockAnswer

-- internal/app/fetcher.go; `Open` is `stream` of the environment.
pub record RemoteBlob : Type 0 where
  pub name : Text
  pub digest : Text
  pub size : ℤ

pub record FetchedModel : Type 0 where
  pub reference : Text
  pub artifact_type : Text
  pub profile : ModelProfile
  pub layers : List ManifestLayer
  pub blobs : List RemoteBlob

-- What the registry answers to a fetch, within the time that there is.
pub data FetchAnswer : Type 0 where
  fetched : FetchedModel → FetchAnswer
  fetch_error : GoError → FetchAnswer

-- What a blob's stream delivers.
pub data Stream : Type 0 where
  delivered : Text → Stream
  open_error : GoError → Stream
  read_error : Stream

-- `queue_done` and `worker_done` are what `downloadBlobs` finds when it asks whether its context is
-- done: while it fills the queue, and before a worker starts on a blob.
pub record Env : Type 0 where
  pub links : Links
  pub model_root : Text
  pub tmp_root : Text
  pub min_free_bytes : ℤ
  pub policy : Text
  pub algorithm : Text → Option Text
  pub sha256 : Text → Text
  pub allowlist : Option (Text → Bool)
  pub outcome : ℕ → Outcome
  pub clock : ℕ → ℕ
  pub lock : ℕ → Bool → LockAnswer
  pub free_bytes : ℕ → Option ℤ
  pub fetch : ℕ → Text → FetchAnswer
  pub stream : ℕ → RemoteBlob → Stream
  pub token : ℕ → Text
  pub shards_per_model : ℤ
  pub chunks_per_blob : ℤ
  pub requests_per_model : ℤ
  pub requests_global : ℤ
  pub queue_done : ℕ → Bool
  pub worker_done : ℕ → Bool
  pub fsync_directory : Bool

abbrev pub M : Type 0 → Type 0
M A = World → Result A × World

abbrev pub after : {A B : Type 0} → Result A → (A → M B) → M B
after (ok a) f w = f a w
after (err e) f w = (err e, w)

infixl 5 ◌>>=◌ ◌>>◌
abbrev pub ◌>>=◌ : {A B : Type 0} → M A → (A → M B) → M B
◌>>=◌ m f w = let (r, w') = m w in after r f w'

abbrev pub ◌>>◌ : {A B : Type 0} → M A → M B → M B
m >> n = m >>= λ _. n

abbrev pub pure : {A : Type 0} → A → M A
pure a w = (ok a, w)

abbrev pub raise : {A : Type 0} → AppError → M A
raise e w = (err e, w)

-- `x, err := …` where the caller looks at the error.
abbrev pub try : {A : Type 0} → M A → M (Result A)
try m w = let (r, w') = m w in (ok r, w')

-- A test of the model directories.
abbrev pub if_dirs : {A : Type 0} → (Map ModelDir → Bool) → M A → M A → M A
if_dirs p m n w = if p w.dirs then m w else n w

-- The world one call later.
abbrev pub tick : World → World
tick w = record w { calls = suc w.calls }

abbrev pub corrupt : AppError
corrupt = new_app_error exit_state_corrupt state_db_corrupt

abbrev pub io_error : AppError
io_error = new_app_error exit_filesystem filesystem_error

abbrev pub is_fine : Outcome → Bool
is_fine fine = true
is_fine _ = false

-- The error of `withLockedRead`: `load` fails, or the lock's file cannot be opened or locked.
abbrev pub read_failure : Outcome → AppError
read_failure load_failed = corrupt
read_failure _ = io_error

-- What a call that writes leaves and returns: the old or the new world.
abbrev pub settle : {A : Type 0} → Outcome → AppError → A → World → World → Result A × World
settle fine e a old new = (ok a, new)
settle load_failed e a old new = (err e, old)
settle write_failed e a old new = (err e, old)
settle failed_late e a old new = (err e, new)

-- How a transaction under the write lock ends: `load`, the change, `save`.
abbrev pub finish_write :
    {A : Type 0} → Outcome → A → (StateDb → StateDb) → World → Result A × World
finish_write fine a change w = (ok a, record w { db = change w.db; calls = suc w.calls })
finish_write load_failed a change w = (err corrupt, tick w)
finish_write write_failed a change w = (err io_error, tick w)
finish_write failed_late a change w =
    (err io_error, record w { db = change w.db; calls = suc w.calls })

module _ (env : Env) where
  -- `time.Now()`
  unfoldable pub now : M ℕ
  now w = (ok (env.clock w.calls), tick w)

  -- A call that has no other effect on what is modelled.
  unfoldable pub io : M Unit
  io w = if is_fine (env.outcome w.calls) then (ok tt, tick w) else (err io_error, tick w)

  -- `s.store.Get`
  unfoldable pub store_get : Text → M (Option ModelRecord)
  store_get key w =
      if is_fine (env.outcome w.calls)
      then (ok (Store.get key w.db), tick w)
      else (err (read_failure (env.outcome w.calls)), tick w)

  -- `s.store.List`
  unfoldable pub store_list : M (List ModelRecord)
  store_list w =
      if is_fine (env.outcome w.calls)
      then (ok (Store.list w.db), tick w)
      else (err (read_failure (env.outcome w.calls)), tick w)

  -- `s.store.Put`; the caller goes on with the record as it is stamped.
  unfoldable pub store_put : ModelRecord → M ModelRecord
  store_put rec w =
      let at = env.clock w.calls in
      finish_write (env.outcome w.calls) (Store.stamp at rec) (Store.put at rec) w

  unfoldable pub store_clear_allocations : M Unit
  store_clear_allocations w = finish_write (env.outcome w.calls) tt Store.clear_allocations w

  -- `Journal.Append`, `Markers` and `Delete`
  unfoldable pub journal_append : Text → Text → Marker → M Unit
  journal_append model_id digest marker w =
      let name = journal_name model_id digest in
      let old : List Marker = elim (lookup name w.journals) [ none ↦ [] | some ms ↦ ms ] in
      settle (env.outcome w.calls) io_error tt (tick w)
        (record w { journals = insert name (old ++ marker ∷ []) w.journals; calls = suc w.calls })

  unfoldable pub journal_markers : Text → Text → M (List Marker)
  journal_markers model_id digest w = elim (lookup (journal_name model_id digest) w.journals) [
    | none ↦ (ok [], tick w)
    | some ms ↦ if is_fine (env.outcome w.calls) then (ok ms, tick w) else (err io_error, tick w)
  ]

  unfoldable pub journal_delete : Text → Text → M Unit
  journal_delete model_id digest w =
      let name = journal_name model_id digest in
      settle (env.outcome w.calls) io_error tt (tick w)
        (record w { journals = erase name w.journals; calls = suc w.calls })

  -- `ensurePathWithinRoot(s.cfg.ModelRoot, path) == nil`
  abbrev pub within_root : Text → Bool
  within_root path = passes (ensure_under_root env.links env.model_root path)
