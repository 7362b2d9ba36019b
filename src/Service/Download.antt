-- ===== src/Service/Download.antt =====
-- `downloadBlob`, `downloadBlobs` and the sizing of the download of internal/app/service.go. The
-- queue is filled before a worker starts, and the blobs are taken in their order, each written to a
-- file of its own in the staging directory. A worker that finds the context done is gone with the
-- blob that it took. Which of several errors is returned is the first.
pub mod Bounds
pub mod Exact
pub mod Partial
use oci2gdsd.Prelude.{
  ℕ, zero, suc, ◌+◌, ◌*◌, ◌/◌, ◌-◌, ◌≤◌, ◌==◌, Bool, true, false, not, Option, none, some, List, [],
  ◌∷◌, length, Text, text_eq, Map, insert, ltb, leb, ℤ, pos, negsuc, eq_ℤ, max_int64, ltb_ℤ, leb_ℤ,
  ◌+ℤ◌, wrap_int64, if◌then◌else◌,
}
use oci2gdsd.AppErr.{
  AppError, GoError, app, plain, as_app_error, new_app_error, exit_registry, exit_integrity,
  exit_validation, registry_download_failure, blob_size_mismatch, blob_digest_mismatch,
  profile_lint_failed, registry_timeout,
}
use oci2gdsd.Names.{validate_shard_name}
use oci2gdsd.Service.State.{
  RemoteBlob, Stream, delivered, open_error, read_error, ShardFile, World, Env, Result, ok, err, M,
  ◌>>=◌, ◌>>◌, pure, raise, tick, io,
}

-- `ensureDownloadWorkerCount`: the settings are Go ints, `max_int` the largest.
abbrev positive_or : ℕ → ℤ → ℕ
positive_or d (pos n) = if n == 0 then d else n
positive_or d (negsuc _) = d

-- `if max > 0 && workers > max { workers = max }`
abbrev cap_by : ℤ → ℕ → ℕ
cap_by (pos n) workers = if n == 0 then workers else if ltb n workers then n else workers
cap_by (negsuc _) workers = workers

unfoldable pub worker_count : ℤ → ℤ → ℤ → ℤ → ℕ → ℕ
worker_count shards_per_model chunks_per_blob max_per_model max_global blobs =
    if blobs == 0
    then 1
    else let workers = positive_or 1 shards_per_model in
      let chunks = positive_or 1 chunks_per_blob in
      let spread =
        if ltb 1 chunks
        then (if ltb (max_int64 / chunks) workers then max_int64 else workers * chunks)
        else workers in
      let capped = cap_by max_global (cap_by max_per_model spread) in
      let fitted = if ltb blobs capped then blobs else capped in if fitted == 0 then 1 else fitted

-- `ensureDownloadBufferBytes`
unfoldable pub buffer_bytes : ℤ → ℤ → ℤ
buffer_bytes chunk_size stream_buffer =
    let size = if leb_ℤ chunk_size (pos 0) then stream_buffer else chunk_size in
    let at_least = if ltb_ℤ size (pos 65536) then pos 65536 else size in
    if ltb_ℤ (pos 268435456) at_least then pos 268435456 else at_least

-- What is tested of the bytes that a blob's stream delivers.
unfoldable pub check_delivered : (Text → Text) → RemoteBlob → Text → Option AppError
check_delivered sha256 blob content =
    if eq_ℤ (pos (length content)) blob.size
    then (if text_eq (sha256 content) blob.digest
        then none
        else some (new_app_error exit_integrity blob_digest_mismatch))
    else some (new_app_error exit_integrity blob_size_mismatch)

abbrev pub file_of : Text → ShardFile
file_of content = record { size = length content; content = some content }

module _ (env : Env) where
  -- The bytes of the blob's stream.
  unfoldable pub read_stream : RemoteBlob → M Text
  read_stream blob w = elim (env.stream w.calls blob) [
    | open_error e ↦ raise (as_app_error e) (tick w)
    | read_error ↦ raise (new_app_error exit_registry registry_download_failure) (tick w)
    | delivered content ↦ pure content (tick w)
  ]

  unfoldable pub accept : RemoteBlob → Text → M Text
  accept blob content = elim (check_delivered env.sha256 blob content) [
    | some e ↦ raise e
    | none ↦ do io env; pure content
  ]

  -- `downloadBlob`: the file that is created holds what the stream delivered.
  unfoldable pub download_blob : RemoteBlob → M Text
  download_blob blob = do io env; content ← read_stream blob; accept blob content

  -- `select { case <-downloadCtx.Done(): … case jobs <- blob: }`
  unfoldable pub enqueue : M Unit
  enqueue w =
      if env.queue_done w.calls
      then (err (new_app_error exit_registry registry_timeout), tick w)
      else (ok tt, tick w)

  -- The loop that fills the queue.
  unfoldable pub queue_blobs : List RemoteBlob → M Unit
  queue_blobs [] = pure tt
  queue_blobs (b ∷ bs) = elim (validate_shard_name b.name) [
    | some _ ↦ raise (new_app_error exit_validation profile_lint_failed)
    | none ↦ enqueue >> queue_blobs bs
  ]

  -- The workers that are left take the blobs that are left, over the files that are there. One that
  -- finds the context done returns without an error, and its blob is not downloaded.
  unfoldable pub run_workers : ℕ → Map ShardFile → List RemoteBlob → M (Map ShardFile)
  run_workers n files [] w = pure files w
  run_workers zero files (b ∷ bs) w = pure files w
  run_workers (suc n) files (b ∷ bs) w = elim (env.worker_done w.calls) [
    | true ↦ run_workers n files bs (tick w)
    | false ↦
        (download_blob b >>= λ content.
        run_workers (suc n) (insert b.name (file_of content) files) bs)
          (tick w)
  ]

  -- `downloadBlobs`, into an empty directory.
  unfoldable pub download_blobs : List RemoteBlob → M (Map ShardFile)
  download_blobs [] = pure []
  download_blobs (b ∷ bs) = do
    queue_blobs (b ∷ bs)
    run_workers
        (worker_count env.shards_per_model env.chunks_per_blob env.requests_per_model
          env.requests_global (length (b ∷ bs)))
        [] (b ∷ bs)

-- `for … { bytesDownloaded += blob.Size }`
unfoldable pub bytes_downloaded : ℤ → List RemoteBlob → ℤ
bytes_downloaded n [] = n
bytes_downloaded n (b ∷ bs) = bytes_downloaded (wrap_int64 (n +ℤ b.size)) bs
