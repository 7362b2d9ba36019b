-- ===== src/Service/Verify/Exact.antt =====
-- What `verifyPublishedPath` and `verifyPublishedPathQuick` of internal/app/service.go establish.
use oci2gdsd.Prelude.{
  ℕ, ◌+◌, ◌≡◌, ◌↔◌, refl, true, false, none, some, List, [], ◌∷◌, length, Text, text_eq_iff,
  is_empty, trim_space, Map, lookup, pos, All, arith, Option-cases, inl, inr,
}
use oci2gdsd.Names.{validate_shard_name}
use oci2gdsd.Profile.{ModelShard}
use oci2gdsd.Service.State.{
  ShardFile, ShardsDir, absent, not_a_directory, entries, LocalMetadata, ModelDir, Env,
}
use oci2gdsd.Service.Verify.Files.{NamesDiffer, ShardNamed, Stored, no_other_file}
use oci2gdsd.Service.Verify.{
  Verdict, verified, check_shard, check_shards, check_shard_quick, check_shards_quick, with_shards,
  verify_with, verify_published_path, verify_published_path_quick,
}

-- The shard's file is there, of its size, and hashes to its digest.
pub record ShardIntact (sha256 : Text → Text) (files : Map ShardFile) (s : ModelShard)
    : Type 0 where
  pub name_valid : validate_shard_name s.name ≡ none
  pub file : ShardFile
  pub content : Text
  pub found : lookup s.name files ≡ some file
  pub size_right : s.size ≡ pos file.size
  pub readable : file.content ≡ some content
  pub digest_right : sha256 content ≡ s.digest

-- The file is there and of its size.
pub record ShardPresent (files : Map ShardFile) (s : ModelShard) : Type 0 where
  pub name_valid : validate_shard_name s.name ≡ none
  pub file : ShardFile
  pub found : lookup s.name files ≡ some file
  pub size_right : s.size ≡ pos file.size

check_shard_intact :
    (sha256 : Text → Text) (files : Map ShardFile) (s : ModelShard)
    → check_shard sha256 files s ≡ none
    → ShardIntact sha256 files s
unfolding check_shard
check_shard_intact sha256 files s h = elim (Option-cases (lookup s.name files)) [
  | inl e ↦ absurd (ground (arith, e))
  | inr (f, e) ↦ elim (Option-cases f.content) [
    | inl c ↦ absurd (ground (arith, e, c))
    | inr (t, c) ↦ record {
      name_valid = ground arith;
      file = f;
      content = t;
      found = e;
      size_right = ground (arith, e);
      readable = c;
      digest_right = ground (arith, e, c, text_eq_iff (sha256 t) s.digest);
    }
  ]
]

intact_passes :
    (sha256 : Text → Text) (files : Map ShardFile) (s : ModelShard)
    → ShardIntact sha256 files s
    → check_shard sha256 files s ≡ none
unfolding check_shard
intact_passes sha256 files s i = ground (
  arith,
  i.name_valid,
  i.found,
  i.size_right,
  i.readable,
  text_eq_iff (sha256 i.content) s.digest,
  i.digest_right,
)

check_shards_verified :
    (sha256 : Text → Text) (files : Map ShardFile) (seen : ℕ) (shards : List ModelShard)
    → check_shards sha256 files seen shards ≡ verified
    → All (ShardIntact sha256 files) shards × (length files ≡ seen + length shards)
unfolding check_shards
check_shards_verified sha256 files seen [] h = (tt, ground arith)
check_shards_verified sha256 files seen (s ∷ shards) h =
    elim (Option-cases (check_shard sha256 files s)) [
      | inl e ↦
          let (intact, n) =
            check_shards_verified sha256 files (seen + 1) shards (rw (e, check_shards) at h) in
          ((check_shard_intact sha256 files s e, intact), omega (arith, n))
      | inr (r, e) ↦ absurd (ground (arith, e))
    ]

verified_check_shards :
    (sha256 : Text → Text) (files : Map ShardFile) (seen : ℕ) (shards : List ModelShard)
    → All (ShardIntact sha256 files) shards
    → length files ≡ seen + length shards
    → check_shards sha256 files seen shards ≡ verified
unfolding check_shards
verified_check_shards sha256 files seen [] h n = ground arith
verified_check_shards sha256 files seen (s ∷ shards) h n =
    rw (check_shards, intact_passes sha256 files s h.0)
      (verified_check_shards sha256 files (seen + 1) shards h.1 (omega arith))

-- What a verified path is: a directory with the marker, metadata and shards, each shard intact, and
-- as many files as shards.
pub record Published (sha256 : Text → Text) (path : Text) (ds : Map ModelDir) : Type 0 where
  pub path_given : is_empty (trim_space path) ≡ false
  pub dir : ModelDir
  pub exists : lookup path ds ≡ some dir
  pub marked : dir.ready_marker ≡ true
  pub metadata : LocalMetadata
  pub metadata_read : dir.metadata ≡ some metadata
  pub files : Map ShardFile
  pub shards_read : dir.shards ≡ entries files
  pub intact : All (ShardIntact sha256 files) metadata.profile.shards
  pub count : length files ≡ length metadata.profile.shards
  pub no_other :
      NamesDiffer metadata.profile.shards
      → (k : Text) (v : ShardFile) → lookup k files ≡ some v
      → ShardNamed k metadata.profile.shards

-- The tests before the loop, turned round.
record Opened (check : Map ShardFile → List ModelShard → Verdict) (path : Text) (ds : Map ModelDir)
    : Type 0 where
  path_given : is_empty (trim_space path) ≡ false
  dir : ModelDir
  exists : lookup path ds ≡ some dir
  marked : dir.ready_marker ≡ true
  metadata : LocalMetadata
  metadata_read : dir.metadata ≡ some metadata
  files : Map ShardFile
  shards_read : dir.shards ≡ entries files
  checked : check files metadata.profile.shards ≡ verified

entries_of :
    (d : ShardsDir) (check : Map ShardFile → Verdict)
    → with_shards d check ≡ verified
    → (files : Map ShardFile) × (d ≡ entries files) × (check files ≡ verified)
unfolding with_shards
entries_of absent check h = cc
entries_of not_a_directory check h = cc
entries_of (entries files) check h = (files, refl, h)

verify_with-Opened :
    (check : Map ShardFile → List ModelShard → Verdict) (path : Text) (ds : Map ModelDir)
    → verify_with check path ds ≡ verified
    → Opened check path ds
unfolding verify_with
verify_with-Opened check path ds h = elim (Option-cases (lookup path ds)) [
  | inl e ↦ absurd (ground (arith, e))
  | inr (dir, e) ↦ elim (Option-cases dir.metadata) [
    | inl m ↦ absurd (ground (arith, e, m))
    | inr (md, m) ↦
        let (files, d, c) =
          entries_of dir.shards (λ files. check files md.profile.shards) (ground (arith, e, m)) in
        record {
          path_given = ground arith;
          dir = dir;
          exists = e;
          marked = ground (arith, e);
          metadata = md;
          metadata_read = m;
          files = files;
          shards_read = d;
          checked = c;
        }
  ]
]

Opened-verify_with :
    (check : Map ShardFile → List ModelShard → Verdict) (path : Text) (ds : Map ModelDir)
    → Opened check path ds
    → verify_with check path ds ≡ verified
unfolding verify_with with_shards
Opened-verify_with check path ds o =
    ground (arith, o.path_given, o.exists, o.marked, o.metadata_read, o.shards_read, o.checked)

All-Stored :
    (sha256 : Text → Text) (files : Map ShardFile) (ss : List ModelShard)
    → All (ShardIntact sha256 files) ss
    → All (Stored files) ss
All-Stored sha256 files [] h = tt
All-Stored sha256 files (s ∷ ss) h = ((h.0.file, h.0.found), All-Stored sha256 files ss h.1)

pub others :
    (sha256 : Text → Text) (files : Map ShardFile) (ss : List ModelShard)
    → All (ShardIntact sha256 files) ss
    → length files ≡ length ss
    → NamesDiffer ss
    → (k : Text) (v : ShardFile) → lookup k files ≡ some v
    → ShardNamed k ss
others sha256 files ss h n =
    no_other_file ss files (All-Stored sha256 files ss h) (omega (arith, n))

-- `verifyPublishedPath` accepts a path just if its READY marker, metadata and shards are there, every
-- shard has its size and digest, and there are as many files as shards; where no two shards have one
-- name, no other file is there.
pub verify_published_path_iff :
    (env : Env) (path : Text) (ds : Map ModelDir)
    → (verify_published_path env path ds ≡ verified) ↔ Published env.sha256 path ds
unfolding verify_published_path
verify_published_path_iff env path ds = (
  λ h.
      let o =
        verify_with-Opened (λ files shards. check_shards env.sha256 files 0 shards) path ds h in
      let c = check_shards_verified env.sha256 o.files 0 o.metadata.profile.shards o.checked in
      record {
        path_given = o.path_given;
        dir = o.dir;
        exists = o.exists;
        marked = o.marked;
        metadata = o.metadata;
        metadata_read = o.metadata_read;
        files = o.files;
        shards_read = o.shards_read;
        intact = c.0;
        count = omega (arith, c.1);
        no_other = others env.sha256 o.files o.metadata.profile.shards c.0 (omega (arith, c.1));
      },
  λ p.
      Opened-verify_with (λ files shards. check_shards env.sha256 files 0 shards) path ds
        (record {
          path_given = p.path_given;
          dir = p.dir;
          exists = p.exists;
          marked = p.marked;
          metadata = p.metadata;
          metadata_read = p.metadata_read;
          files = p.files;
          shards_read = p.shards_read;
          checked =
              verified_check_shards env.sha256 p.files 0 p.metadata.profile.shards p.intact
                (omega (arith, p.count));
        }),
)

check_shard_quick_of :
    (sha256 : Text → Text) (files : Map ShardFile) (s : ModelShard)
    → check_shard sha256 files s ≡ none
    → check_shard_quick files s ≡ none
unfolding check_shard check_shard_quick
check_shard_quick_of sha256 files s h = ground arith

check_shards_quick_of :
    (sha256 : Text → Text) (files : Map ShardFile) (seen : ℕ) (shards : List ModelShard)
    → All (ShardIntact sha256 files) shards
    → length files ≡ seen + length shards
    → check_shards_quick files seen shards ≡ verified
unfolding check_shards_quick
check_shards_quick_of sha256 files seen [] h n = ground arith
check_shards_quick_of sha256 files seen (s ∷ shards) h n =
    rw (check_shards_quick, check_shard_quick_of sha256 files s (intact_passes sha256 files s h.0))
      (check_shards_quick_of sha256 files (seen + 1) shards h.1 (omega arith))

-- A published path passes the quick test of recovery too.
pub verify_published_path_quick_of :
    (env : Env) (path : Text) (ds : Map ModelDir)
    → verify_published_path env path ds ≡ verified
    → verify_published_path_quick path ds ≡ verified
unfolding verify_published_path_quick
verify_published_path_quick_of env path ds h =
    let p = (verify_published_path_iff env path ds).0 h in
    Opened-verify_with (λ files shards. check_shards_quick files 0 shards) path ds
      (record {
        path_given = p.path_given;
        dir = p.dir;
        exists = p.exists;
        marked = p.marked;
        metadata = p.metadata;
        metadata_read = p.metadata_read;
        files = p.files;
        shards_read = p.shards_read;
        checked =
            check_shards_quick_of env.sha256 p.files 0 p.metadata.profile.shards p.intact
              (omega (arith, p.count));
      })
