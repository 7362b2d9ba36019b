-- ===== src/Service/Download/Bounds.antt =====
-- The sizing of the download of internal/app/service.go.
use oci2gdsd.Prelude.{ℕ, ◌≤◌, ◌<◌, ◌≡◌, ℤ, pos, ◌≤ℤ◌, pos_part, arith}
use oci2gdsd.Service.Download.{worker_count, buffer_bytes}

-- There is at least one worker, never more than blobs (or one), nor more than a positive limit of
-- the configuration.
pub worker_count_bounds :
    (shards chunks per_model global : ℤ) (blobs : ℕ)
    → let n = worker_count shards chunks per_model global blobs in
      (1 ≤ n)
      × (0 < blobs → n ≤ blobs)
      × (0 < pos_part per_model → n ≤ pos_part per_model)
      × (0 < pos_part global → n ≤ pos_part global)
unfolding worker_count
worker_count_bounds shards chunks per_model global blobs = ground arith

-- The buffer has between 64 KiB and 256 MiB, and is the configured chunk size where that is between.
pub buffer_bytes_bounds :
    (chunk stream : ℤ)
    → (pos 65536 ≤ℤ buffer_bytes chunk stream)
      × (buffer_bytes chunk stream ≤ℤ pos 268435456)
      × (pos 65536 ≤ℤ chunk → chunk ≤ℤ pos 268435456 → buffer_bytes chunk stream ≡ chunk)
unfolding buffer_bytes
buffer_bytes_bounds chunk stream = ground arith
