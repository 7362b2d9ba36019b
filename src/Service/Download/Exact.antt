-- ===== src/Service/Download/Exact.antt =====
-- What `downloadBlobs` of internal/app/service.go leaves in the staging directory.
use mathlib.Core.Path.{subst}
use oci2gdsd.Prelude.{
  ℕ, zero, ◌≤◌, false, suc, ◌+◌, ◌≡◌, refl, Option, none, some, List, [], ◌∷◌, length, Text,
  text_eq_iff, text_eq_refl, Map, lookup, insert, lookup-insert, pos, All, arith, Bool-cases, inl,
  inr,
}
use oci2gdsd.AppErr.{
  AppError, as_app_error, new_app_error, exit_registry, registry_download_failure, exit_validation,
  profile_lint_failed,
}
use oci2gdsd.Names.{NameError, validate_shard_name}
use oci2gdsd.Service.State.{
  RemoteBlob, Stream, delivered, open_error, read_error, ShardFile, World, Env, Result, ok, M, io,
  ◌>>=◌, ◌>>◌, pure, raise, is_fine, tick,
}
use oci2gdsd.Service.Hoare.{
  Cond, Meets, Triple, always, bind, pure_lem, raise_lem, strengthen, known, weaken,
}
use oci2gdsd.Service.Download.Bounds.{worker_count_bounds}
use oci2gdsd.Service.Download.{
  check_delivered, file_of, read_stream, accept, download_blob, enqueue, queue_blobs, run_workers,
  download_blobs,
}

-- The blob's file is among the files, with the content that its size and digest ask for.
pub record BlobIn (sha256 : Text → Text) (files : Map ShardFile) (b : RemoteBlob) : Type 0 where
  pub name_valid : validate_shard_name b.name ≡ none
  pub content : Text
  pub found : lookup b.name files ≡ some (file_of content)
  pub size_right : b.size ≡ pos (length content)
  pub digest_right : sha256 content ≡ b.digest

-- No file and no other blob has the name.
abbrev pub FreshNames : Map ShardFile → List RemoteBlob → Type 0
FreshNames files [] = Unit
FreshNames files (b ∷ bs) =
    (lookup b.name files ≡ none) × ((c : Text) → FreshNames (insert b.name (file_of c) files) bs)

length-insert_new :
    (k : Text) (v : ShardFile) (m : Map ShardFile)
    → lookup k m ≡ none
    → length (insert k v m) ≡ suc (length m)
unfolding lookup insert
length-insert_new k v [] h = refl
length-insert_new k v ((j, w) ∷ m) h = ground (arith, length-insert_new k v m)

check_delivered-none :
    (sha256 : Text → Text) (b : RemoteBlob) (c : Text)
    → check_delivered sha256 b c ≡ none
    → (b.size ≡ pos (length c)) × (sha256 c ≡ b.digest)
unfolding check_delivered
check_delivered-none sha256 b c h = ground (arith, text_eq_iff (sha256 c) b.digest)

module _ (env : Env) {P : Cond} where
  pub io_lem : Triple P (io env) (always P) P
  unfolding io
  io_lem = record {
    at = λ w p. elim (Bool-cases (is_fine (env.outcome w.calls))) [
      | inl e ↦ rw e p
      | inr e ↦ rw e p
    ];
  }

  read_stream_lem : (b : RemoteBlob) → Triple P (read_stream env b) (always P) P
  unfolding read_stream
  read_stream_lem b = record { at = λ w p. answered (env.stream w.calls b) w p }
    where
      answered :
          (s : Stream) (w : World)
          → P w.db w.dirs
          → Meets (always P) P (elim s as (λ _. Result Text × World) [
            | open_error e ↦ raise (as_app_error e) (tick w)
            | read_error ↦ raise (new_app_error exit_registry registry_download_failure) (tick w)
            | delivered content ↦ pure content (tick w)
          ])
      answered (delivered c) w p = p
      answered (open_error e) w p = p
      answered read_error w p = p

  accept_lem :
      (b : RemoteBlob) (c : Text)
      → Triple P
          (accept env b c)
          (λ c' db ds. P db ds × (b.size ≡ pos (length c')) × (env.sha256 c' ≡ b.digest))
          P
  unfolding accept
  accept_lem b c = checked (check_delivered env.sha256 b c) refl
    where
      checked :
          (o : Option AppError)
          → check_delivered env.sha256 b c ≡ o
          → Triple P
              (let m : M Text = elim o [ some e ↦ raise e | none ↦ (io env >> pure c) ] in m)
              (λ c' db ds. P db ds × (b.size ≡ pos (length c')) × (env.sha256 c' ≡ b.digest))
              P
      checked (some e) h = raise_lem e (λ db ds p. p)
      checked none h = bind _ _ io_lem λ _.
          pure_lem c (λ db ds p. let q = check_delivered-none env.sha256 b c h in (p, q.0, q.1))

  pub download_blob_lem :
      (b : RemoteBlob)
      → Triple P
          (download_blob env b)
          (λ c db ds. P db ds × (b.size ≡ pos (length c)) × (env.sha256 c ≡ b.digest))
          P
  unfolding download_blob
  download_blob_lem b = bind _ _ io_lem λ _. bind _ _ (read_stream_lem b) λ c. accept_lem b c

-- What a download adds to the files that are there.
pub record Downloaded (sha256 : Text → Text) (files : Map ShardFile) (bs : List RemoteBlob)
    (out : Map ShardFile) : Type 0 where
  pub kept : (k : Text) (v : ShardFile) → lookup k files ≡ some v → lookup k out ≡ some v
  pub blobs_in : All (BlobIn sha256 out) bs
  pub count : length out ≡ length files + length bs

Downloaded-step :
    (sha256 : Text → Text) (files : Map ShardFile) (b : RemoteBlob) (bs : List RemoteBlob)
    (c : Text) (out : Map ShardFile)
    → validate_shard_name b.name ≡ none
    → lookup b.name files ≡ none
    → (b.size ≡ pos (length c)) × (sha256 c ≡ b.digest)
    → Downloaded sha256 (insert b.name (file_of c) files) bs out
    → Downloaded sha256 files (b ∷ bs) out
Downloaded-step sha256 files b bs c out v n d h = record {
  kept = λ k f g.
      h.kept k f
        (ground (arith, lookup-insert b.name k (file_of c) files, text_eq_iff b.name k, n, g));
  blobs_in = (
    record {
      name_valid = v;
      content = c;
      found = h.kept b.name (file_of c) (rw (lookup-insert, text_eq_refl));
      size_right = d.0;
      digest_right = d.1;
    },
    h.blobs_in,
  );
  count = omega (arith, h.count, length-insert_new b.name (file_of c) files n);
}

-- The names that `downloadBlobs` puts in its queue.
abbrev pub NamesValid : List RemoteBlob → Type 0
NamesValid bs = All (λ (b : RemoteBlob). validate_shard_name b.name ≡ none) bs

-- No worker finds the context of the download done.
abbrev pub Uninterrupted : Env → Type 0
Uninterrupted env = (n : ℕ) → env.worker_done n ≡ false

module _ (env : Env) {P : Cond} where
  enqueue_lem : Triple P (enqueue env) (always P) P
  unfolding enqueue
  enqueue_lem = record {
    at = λ w p. elim (Bool-cases (env.queue_done w.calls)) [ inl e ↦ rw e p | inr e ↦ rw e p ];
  }

  pub queue_blobs_lem :
      (bs : List RemoteBlob) → Triple P (queue_blobs env bs) (λ u db ds. P db ds × NamesValid bs) P
  unfolding queue_blobs
  queue_blobs_lem [] = pure_lem tt (λ db ds p. (p, tt))
  queue_blobs_lem (b ∷ bs) = named (validate_shard_name b.name) refl (queue_blobs_lem bs)
    where
      named :
          (o : Option NameError)
          → validate_shard_name b.name ≡ o
          → Triple P (queue_blobs env bs) (λ u db ds. P db ds × NamesValid bs) P
          → Triple P
              (let m : M Unit = elim o [
                | some _ ↦ raise (new_app_error exit_validation profile_lint_failed)
                | none ↦ enqueue env >> queue_blobs env bs
              ] in
                m)
              (λ u db ds. P db ds × NamesValid (b ∷ bs))
              P
      named (some e) v rest = raise_lem _ (λ db ds p. p)
      named none v rest = bind _ _ enqueue_lem λ u. weaken _ (λ u db ds q. (q.0, (v, q.1))) rest

  run_workers_lem :
      Uninterrupted env
      → (n : ℕ) (files : Map ShardFile) (bs : List RemoteBlob) → FreshNames files bs
      → NamesValid bs
      → Triple P
          (run_workers env (suc n) files bs)
          (λ out db ds. P db ds × Downloaded env.sha256 files bs out)
          P
  unfolding run_workers
  run_workers_lem alive n files [] fresh v =
      pure_lem files
        (λ db ds p. (p, record { kept = λ k v g. g; blobs_in = tt; count = omega arith }))
  run_workers_lem alive n files (b ∷ bs) fresh v =
      let next : (c : Text)
          → Triple (λ db ds. P db ds × (b.size ≡ pos (length c)) × (env.sha256 c ≡ b.digest))
              (run_workers env (suc n) (insert b.name (file_of c) files) bs)
              (λ out db ds. P db ds × Downloaded env.sha256 files (b ∷ bs) out) P =
        λ c.
          strengthen _ (λ db ds p. (p.0, (p.1, p.2)))
            (known _ λ d.
              weaken _
                (λ out db ds q.
                  (q.0, Downloaded-step env.sha256 files b bs c out v.0 fresh.0 d q.1))
                (run_workers_lem alive n (insert b.name (file_of c) files) bs (fresh.1 c) v.1)) in
      let both : Triple P
          (download_blob env b >>= λ c.
            run_workers env (suc n) (insert b.name (file_of c) files) bs)
          (λ out db ds. P db ds × Downloaded env.sha256 files (b ∷ bs) out) P =
        bind (download_blob env b) _ (download_blob_lem env b) next in
      record { at = λ w p. rw (run_workers, alive w.calls) (both.at (tick w) p) }

  some_worker :
      (n : ℕ)
      → 1 ≤ n
      → (files : Map ShardFile) (bs : List RemoteBlob) → Uninterrupted env
      → FreshNames files bs
      → NamesValid bs
      → Triple P
          (run_workers env n files bs)
          (λ out db ds. P db ds × Downloaded env.sha256 files bs out)
          P
  some_worker zero h files bs alive fresh v = absurd (omega (arith, h))
  some_worker (suc n) h files bs alive fresh v = run_workers_lem alive n files bs fresh v

  -- When the names of the blobs are distinct and no worker finds the context done, a download that
  -- returns leaves exactly one file for each blob, of its size and with its digest; whatever it
  -- returns, the state database and the model directories are as they were.
  pub download_blobs_lem :
      (bs : List RemoteBlob)
      → Uninterrupted env
      → FreshNames [] bs
      → Triple P (download_blobs env bs) (λ out db ds. P db ds × Downloaded env.sha256 [] bs out) P
  unfolding download_blobs
  download_blobs_lem [] alive fresh =
      pure_lem [] (λ db ds p. (p, record { kept = λ k v g. g; blobs_in = tt; count = omega arith }))
  download_blobs_lem (b ∷ bs) alive fresh = bind _ _ (queue_blobs_lem (b ∷ bs)) λ u. known _ λ v.
      some_worker _
        (worker_count_bounds env.shards_per_model env.chunks_per_blob env.requests_per_model
          env.requests_global (length (b ∷ bs))).0
        [] (b ∷ bs) alive fresh v

-- When the names of the blobs are distinct and no worker finds the context done, a download that
-- returns leaves exactly one file for each blob, of its size and with its digest, and the state
-- database and the model directories as they were.
pub download_blobs-Downloaded :
    (env : Env) (bs : List RemoteBlob) (out : Map ShardFile) (w w' : World)
    → Uninterrupted env
    → FreshNames [] bs
    → download_blobs env bs w ≡ (ok out, w')
    → Downloaded env.sha256 [] bs out × (w'.db ≡ w.db) × (w'.dirs ≡ w.dirs)
download_blobs-Downloaded env bs out w w' alive fresh e =
    let p =
      subst
        (λ (o : Result (Map ShardFile) × World).
          Meets (λ out db ds. ((db ≡ w.db) × (ds ≡ w.dirs)) × Downloaded env.sha256 [] bs out)
            (λ db ds. (db ≡ w.db) × (ds ≡ w.dirs)) o)
        e
        ((download_blobs_lem env {P = λ db ds. (db ≡ w.db) × (ds ≡ w.dirs)} bs alive fresh).at w
          (refl, refl)) in
    (p.1, p.0.0, p.0.1)
