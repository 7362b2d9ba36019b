-- ===== src/Attachments.antt =====
-- The attachments of internal/app/gpu.go: clients of what is loaded in GPU memory, over the loader of
-- internal/gpu/gds_linux.go. What resolveAllocationTarget, acquireDeviceAttachSlot and
-- resolveWeightShardPaths answer is part of a request. A time is in nanoseconds, 0 the zero time.
pub mod Rollback
use oci2gdsd.Prelude.{
  ℕ, ◌+◌, ◌*◌, ◌==◌, ltb, leb, Bool, true, false, not, ◌&&◌, ◌||◌, Option, none, some, List, [],
  ◌∷◌, ◌++◌, is_empty, Text, trim_space, Map, lookup, insert, erase, ℤ, pos, pos_part, ltb_ℤ, leb_ℤ,
  wrap_int64, if◌then◌else◌,
}
use oci2gdsd.AppErr.{AppError, new_app_error, exit_validation, validation_failed, Result, ok, err}
use oci2gdsd.Loader.{
  LoaderState, FileRequest, FileResult, Bridge, cancelled_error, attach_persistent,
  detach_persistent,
}

-- `gpuClientAttachment`, with the fields that are read.
pub record Attachment : Type 0 where
  pub device_index : ℕ
  pub client_id : Text
  pub shard_paths : List Text
  pub expires_at : ℕ

pub record Target : Type 0 where
  pub model_key : Text
  pub device_uuid : Text
  pub device_index : ℕ

pub record GpuAttachRequest : Type 0 where
  pub target : Result Target
  pub client_id : Text
  pub ttl_seconds : ℤ
  pub slot : Option AppError
  pub shard_paths : Result (List Text)

pub record Attached : Type 0 where
  pub loader : LoaderState
  pub attachments : Map Attachment

abbrev pub invalid_request : AppError
invalid_request = new_app_error exit_validation validation_failed

-- `attachTTL`, `minAttachTTL` and `maxAttachTTL`.
abbrev pub attach_ttl : ℕ
attach_ttl = 300000000000

abbrev pub min_attach_ttl : ℕ
min_attach_ttl = 15000000000

abbrev pub max_attach_ttl : ℕ
max_attach_ttl = 3600000000000

-- `normalizeAttachTTL`; the seconds are multiplied as an `int64`.
unfoldable pub normalize_attach_ttl : ℤ → ℕ
normalize_attach_ttl seconds =
    if leb_ℤ seconds (pos 0)
    then attach_ttl
    else let ttl = wrap_int64 (pos (pos_part seconds * 1000000000)) in
      if ltb_ℤ ttl (pos min_attach_ttl)
      then min_attach_ttl
      else if ltb_ℤ (pos max_attach_ttl) ttl
      then max_attach_ttl
      else pos_part ttl

-- `gpuAttachKey`
unfoldable pub gpu_attach_key : Target → Text → Text
gpu_attach_key t client = t.model_key ++ b'|' ∷ t.device_uuid ++ b'|' ∷ client

abbrev pub file_request : ℕ → Text → Text → FileRequest
file_request device client path = record { path = path; device = device; client_id = client }

abbrev pub lapsed : ℕ → Attachment → Bool
lapsed now a = not (a.expires_at == 0 || ltb now a.expires_at)

unfoldable pub lapsed_of : ℕ → Map Attachment → List Attachment
lapsed_of now [] = []
lapsed_of now ((_, a) ∷ m) = let rest = lapsed_of now m in if lapsed now a then a ∷ rest else rest

unfoldable pub without_lapsed : ℕ → Map Attachment → Map Attachment
without_lapsed now [] = []
without_lapsed now ((k, a) ∷ m) =
    let rest = without_lapsed now m in if lapsed now a then rest else (k, a) ∷ rest

module _ (b : Bridge) where
  -- `context.Background()`, which is never cancelled.
  abbrev pub background : Bridge
  background = record b { cancelled = λ n. false }

  -- Detaches whose errors are ignored.
  unfoldable pub detach_quietly : ℕ → Text → List Text → LoaderState → LoaderState
  detach_quietly device client [] st = st
  detach_quietly device client (path ∷ paths) st =
      detach_quietly device client paths
        (detach_persistent background 0 (file_request device client path) st).1

  unfoldable pub detach_lapsed : List Attachment → LoaderState → LoaderState
  unfolding detach_quietly
  detach_lapsed [] st = st
  detach_lapsed (a ∷ rest) st =
      detach_lapsed rest (detach_quietly a.device_index a.client_id a.shard_paths st)

  -- `pruneExpiredAttachments`
  unfoldable pub prune_expired : ℕ → Attached → Attached
  unfolding lapsed_of without_lapsed detach_lapsed
  prune_expired now s = record {
    loader = detach_lapsed (lapsed_of now s.attachments) s.loader;
    attachments = without_lapsed now s.attachments;
  }

  -- The loop over the shards; `done` are those attached so far, the last first.
  unfoldable pub attach_files :
      ℕ → ℕ → Text → List Text → List Text → LoaderState → Result (Unit {0}) × LoaderState
  unfolding detach_quietly
  attach_files n device client done [] st = (ok tt, st)
  attach_files n device client done (path ∷ paths) st =
      let (res, st') = attach_persistent b n (file_request device client path) st in
      elim res [
        | err e ↦ (err e, detach_quietly device client done st')
        | ok r ↦ attach_files (n + 1) device client (r.path ∷ done) paths st'
      ]

  -- All shards are attached, or none; then the client has a session.
  unfoldable pub attach_all :
      ℕ → ℕ → Target → Text → ℕ → List Text → Attached → Result (Unit {0}) × Attached
  unfolding attach_files gpu_attach_key
  attach_all n now t client ttl paths s =
      let (res, st) = attach_files n t.device_index client [] paths s.loader in
      elim res [
        | err e ↦ (err e, record s { loader = st })
        | ok _ ↦ (
          ok tt,
          record {
            loader = st;
            attachments =
                insert (gpu_attach_key t client)
                  (record {
                    device_index = t.device_index;
                    client_id = client;
                    shard_paths = paths;
                    expires_at = now + ttl;
                  })
                  s.attachments;
          },
        )
      ]

  -- `GPUAttach`
  unfoldable pub gpu_attach : ℕ → ℕ → GpuAttachRequest → Attached → Result (Unit {0}) × Attached
  unfolding prune_expired attach_all normalize_attach_ttl
  gpu_attach n now req s = elim req.target [
    | err e ↦ (err e, s)
    | ok t ↦
        let client = trim_space req.client_id in
        if is_empty client then (err invalid_request, s) else elim req.slot [
          | some e ↦ (err e, s)
          | none ↦
              let s₁ = prune_expired now s in
              elim req.shard_paths [
                | err e ↦ (err e, s₁)
                | ok paths ↦
                    attach_all n now t client (normalize_attach_ttl req.ttl_seconds) paths s₁
              ]
        ]
  ]

  -- The session of a client gets its new end, also where the call is then cancelled.
  unfoldable pub heartbeat_session :
      ℕ → ℕ → Target → Text → ℕ → Attached → Result (Unit {0}) × Attached
  unfolding gpu_attach_key
  heartbeat_session n now t client ttl s = elim (lookup (gpu_attach_key t client) s.attachments) [
    | none ↦ (err invalid_request, s)
    | some a ↦
        let s' : Attached = record s {
          attachments =
              insert (gpu_attach_key t client) (record a { expires_at = now + ttl }) s.attachments;
        } in
        if b.cancelled n then (err cancelled_error, s') else (ok tt, s')
  ]

  -- `GPUHeartbeat`
  unfoldable pub gpu_heartbeat : ℕ → ℕ → GpuAttachRequest → Attached → Result (Unit {0}) × Attached
  unfolding prune_expired heartbeat_session normalize_attach_ttl
  gpu_heartbeat n now req s = elim req.target [
    | err e ↦ (err e, s)
    | ok t ↦
        let client = trim_space req.client_id in
        if is_empty client
        then (err invalid_request, s)
        else heartbeat_session n now t client (normalize_attach_ttl req.ttl_seconds)
            (prune_expired now s)
  ]

  -- The loop of a detach: it ends with the first error.
  unfoldable pub detach_files :
      ℕ → ℕ → Text → List Text → LoaderState → Result (Unit {0}) × LoaderState
  detach_files n device client [] st = (ok tt, st)
  detach_files n device client (path ∷ paths) st =
      let (res, st') = detach_persistent b n (file_request device client path) st in
      elim res [ err e ↦ (err e, st') | ok _ ↦ detach_files (n + 1) device client paths st' ]

  -- The session goes first, then its shards are detached.
  unfoldable pub detach_session : ℕ → Target → Text → Attached → Result (Unit {0}) × Attached
  unfolding detach_files gpu_attach_key
  detach_session n t client s = elim (lookup (gpu_attach_key t client) s.attachments) [
    | none ↦ (ok tt, s)
    | some a ↦
        let (res, st) = detach_files n t.device_index client a.shard_paths s.loader in
        (res, record { loader = st; attachments = erase (gpu_attach_key t client) s.attachments })
  ]

  -- `GPUDetach`
  unfoldable pub gpu_detach : ℕ → ℕ → GpuAttachRequest → Attached → Result (Unit {0}) × Attached
  unfolding prune_expired detach_session
  gpu_detach n now req s = elim req.target [
    | err e ↦ (err e, s)
    | ok t ↦
        let client = trim_space req.client_id in
        if is_empty client
        then (err invalid_request, s)
        else detach_session n t client (prune_expired now s)
  ]
