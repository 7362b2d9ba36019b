-- ===== src/Lib.antt =====
-- oci2gdsd keeps OCI model artifacts as verified directories on a node: `ensure` brings a model here
-- in a transaction, leases say who uses it, `release` drops a lease, `gc` deletes models without one,
-- and `recover` puts the records right after a crash. This library models that core and proves what
-- makes it correct.
--
-- The parts, and the files that model them:
--   Prelude      shared helpers: Boolean tests, lists, texts as lists of code points, association
--                lists, `sort.Slice`, the integers that an `int64` stands for.
--   AppErr       internal/apperr/errors.go: reasons, exit codes, NewAppError, AsAppError,
--                MapReasonToExitCode.
--   Model        internal/model/model.go and `transitionState` of internal/app/lock.go: the states of
--                a record and the table of transitions.
--   Store        internal/store/store.go: records, leases, allocations; Get, Put, Delete, List,
--                UpsertWithLock, AcquireLease, ReleaseLease and the operations on allocations, each as
--                a function of the database.
--   Names        internal/app/util.go, internal/app/journal.go, internal/app/lock.go: the names of
--                shards and model ids, the keys, the file names of journals and locks.
--   Ref          ParseDigestPinnedRef of internal/app/util.go; the digest library is `algorithm`.
--   Paths        EnsureUnderRoot and SafeJoinUnderRoot of internal/app/util.go; `filepath.EvalSymlinks`
--                and the working directory are the parameter `Links`.
--   Profile      internal/app/profile.go and `sumShardSizes` of internal/app/service.go: LintProfile,
--                the summary, the order of shards.
--   Service      internal/app/service.go. State has the world (database, journals, model directories)
--                and the effects; Verify, Lookup, Release, Gc, Recover, Download and Ensure have one
--                definition for each method, with helpers for its pieces; Hoare has the rules by which
--                the proofs go through them.
--   Registry     internal/registry/oras.go: Fetch, its limits and digests, the blobs of the shards, and
--                the classes of its errors. A `Registry` has the answers to one fetch.
--   Loader       internal/gpu/gds_linux.go: the table of what is in GPU memory, the sessions and the
--                driver; `Bridge` is the C side. Loader.Traces has the loads that overlap.
--   Attachments  GPUAttach, GPUHeartbeat, GPUDetach and the expiry of internal/app/gpu.go, over Loader.
--   Tokens       internal/app/runtime_bundle_token.go: tokens for runtime bundles, in their two tables.
--   Config       internal/config/config.go: Validate, ApplyGlobalOverrides, TimeoutOrDefault.
--   Examples     concrete data and tests.
--
-- How the code is read:
--   - Every call of the operating system, the clock, the locks and the registry has a number, and
--     `Env` says how each ends: well, before or during its work, or with an error after all of it. So
--     a theorem about all `Env` is about all failures of these calls.
--   - An operation is a function from a world to a result or an error with a world. A Go error beside
--     a result is `err`; GC returns its counts beside the error, as the source does.
--   - A deadline or a cancelled context shows as an answer of the lock or of the registry, and in
--     `downloadBlobs` as what the context answers while the queue is filled and before each blob.
--   - SHA-256, the digest parser, the allowlist's patterns, EvalSymlinks and the free space are
--     parameters; what holds of them is proved for every value.
--   - For Ensure the registry's models are arbitrary answers; where a theorem asks that their blobs are
--     those of the shards of the profile, with distinct names, it says so. Registry.Complete says for
--     which profiles the fetcher of internal/registry gives such models.
--   - In internal/gpu a step is what one caller does under one hold of the lock, and a load reads its
--     shard between two steps; the C side gives out no pointer that is still out. The calls of
--     Attachments run one after another.
--   - Loops are structural recursion on the list of the source; there is no fuel. The walk to an
--     existing parent in resolvePathWithSymlinksAllowMissing recurses on the components.
--   - `sort.Slice` is insertion sort; the order of equal elements, which Go leaves open, is one of
--     those that Go allows.
--
-- What is not modelled: the texts of messages; a removal that stops half way; an error of ReadDir in
-- the verification; Stat errors other than absence; the removal of stale staging directories; the
-- interleaving of the download workers, which write different files, with each other and with the
-- filling of their queue; concurrent processes, which
-- the locks of the models and of the state file keep apart; single flights of Ensure; Verify and
-- ProfileFromRef (reading files and the registry); the archives of runtime bundles, tensor maps, and the
-- allocation, load and unload of internal/app/gpu.go (internal/app/runtime_bundle.go,
-- internal/app/gpu_tensor_map.go); LoadFile, ListPersistent, Probe and the device list of internal/gpu; the ORAS
-- library, JSON, the client's credentials and retries; the defaults of the configuration and its file;
-- daemon and command line; the
-- operating system's side of internal/fsutil; scripts and charts.
pub mod Prelude
pub mod AppErr
pub mod Model
pub mod Store
pub mod Names
pub mod Ref
pub mod Paths
pub mod Profile
pub mod Config
pub mod Loader
pub mod Attachments
pub mod Registry
pub mod Service
pub mod Tokens
pub mod Examples
