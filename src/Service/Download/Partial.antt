-- ===== src/Service/Download/Partial.antt =====
-- `downloadBlobs` of internal/app/service.go where its context ends before the last blob.
use oci2gdsd.Prelude.{
  ℕ, zero, suc, ◌≡◌, refl, ◌⊎◌, true, false, some, List, [], ◌∷◌, length, Text, Map, lookup, pos,
  Has,
}
use oci2gdsd.Service.State.{RemoteBlob, ShardFile, World, Env, Result, ok, M, after, tick}
use oci2gdsd.Service.Download.{file_of, enqueue, queue_blobs, run_workers, download_blobs}
use oci2gdsd.Service.Download.Exact.{NamesValid}

-- The file is one blob's, with the content that its size and digest ask for.
pub record FileOf (sha256 : Text → Text) (bs : List RemoteBlob) (k : Text) (v : ShardFile)
    : Type 0 where
  pub blob : RemoteBlob
  pub listed : Has blob bs
  pub named : blob.name ≡ k
  pub content : Text
  pub file : v ≡ file_of content
  pub size_right : blob.size ≡ pos (length content)
  pub digest_right : sha256 content ≡ blob.digest

-- Every file that was not there before is a blob's.
abbrev Grown : (Text → Text) → Map ShardFile → List RemoteBlob → Map ShardFile → Type 0
Grown sha256 files bs out =
    (k : Text) (v : ShardFile)
    → lookup k out ≡ some v
    → (lookup k files ≡ some v) ⊎ FileOf sha256 bs k v

module _ (env : Env) where
  given_up :
      ((n : ℕ) → env.worker_done n ≡ true)
      → (n : ℕ) (files : Map ShardFile) (bs : List RemoteBlob) (w : World)
      → (run_workers env n files bs w).0 ≡ ok files
  unfolding run_workers
  given_up gone n files [] w = refl
  given_up gone zero files (b ∷ bs) w = refl
  given_up gone (suc n) files (b ∷ bs) w =
      rw (run_workers, gone w.calls) (given_up gone n files bs (tick w))

  queued :
      ((n : ℕ) → env.queue_done n ≡ false)
      → (bs : List RemoteBlob) (w : World) → NamesValid bs
      → (queue_blobs env bs w).0 ≡ ok tt
  unfolding queue_blobs enqueue
  queued filled [] w v = refl
  queued filled (b ∷ bs) w v = rw (queue_blobs, v.0, filled w.calls) (queued filled bs (tick w) v.1)

after_ok :
    {A B : Type 0} (r : Result A × World) (a : A) (f : A → M B)
    → r.0 ≡ ok a
    → (after r.0 f r.1) ≡ f a r.1
after_ok r a f e = rw e refl

-- When the queue is filled and the context is done before a worker takes its first blob, the download
-- of whatever blobs returns no error and no file.
pub download_blobs_interrupted :
    (env : Env) (bs : List RemoteBlob) (w : World)
    → ((n : ℕ) → env.queue_done n ≡ false)
    → ((n : ℕ) → env.worker_done n ≡ true)
    → NamesValid bs
    → (download_blobs env bs w).0 ≡ ok []
unfolding download_blobs
download_blobs_interrupted env [] w filled gone v = refl
download_blobs_interrupted env (b ∷ bs) w filled gone v =
    rw (after_ok (queue_blobs env (b ∷ bs) w) tt _ (queued env filled (b ∷ bs) w v))
      (given_up env gone _ [] (b ∷ bs) _)
