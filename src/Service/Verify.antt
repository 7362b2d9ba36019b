-- ===== src/Service/Verify.antt =====
-- `verifyPublishedPath` and `verifyPublishedPathQuick` of internal/app/service.go, over the model
-- directories of the world. A file that cannot be opened or read has no content.
pub mod Exact
pub mod Files
use oci2gdsd.Prelude.{
  ℕ, suc, ◌+◌, ◌==◌, Bool, true, false, not, Option, none, some, List, [], ◌∷◌, length, Text,
  text_eq, is_empty, trim_space, Map, lookup, ℤ, pos, eq_ℤ, if◌then◌else◌,
}
use oci2gdsd.AppErr.{
  Reason, validation_failed, filesystem_error, state_db_corrupt, blob_size_mismatch,
  blob_digest_mismatch,
}
use oci2gdsd.Names.{validate_shard_name}
use oci2gdsd.Profile.{ModelShard}
use oci2gdsd.Service.State.{
  ShardFile, ShardsDir, absent, not_a_directory, entries, LocalMetadata, ModelDir, Env,
}

-- `(true, ReasonNone, nil)`, or `(false, reason, err)`.
pub data Verdict : Type 0 where
  verified : Verdict
  rejected : Reason → Verdict

module _ (sha256 : Text → Text) where
  -- One round of the loop over the shards of the metadata: `none` where it goes on.
  unfoldable pub check_shard : Map ShardFile → ModelShard → Option Reason
  check_shard files s = elim (validate_shard_name s.name) [
    | some _ ↦ some validation_failed
    | none ↦ elim (lookup s.name files) [
      | none ↦ some filesystem_error
      | some f ↦
          if eq_ℤ (pos f.size) s.size
          then (elim f.content [
            | none ↦ some filesystem_error
            | some c ↦ if text_eq (sha256 c) s.digest then none else some blob_digest_mismatch
          ])
          else some blob_size_mismatch
    ]
  ]

  -- The loop, with the count `seen`.
  unfoldable pub check_shards : Map ShardFile → ℕ → List ModelShard → Verdict
  unfolding check_shard
  check_shards files seen [] = if length files == seen then verified else rejected state_db_corrupt
  check_shards files seen (s ∷ shards) =
      let rest = check_shards files (seen + 1) shards in
      elim (check_shard files s) [ some r ↦ rejected r | none ↦ rest ]

unfoldable pub check_shard_quick : Map ShardFile → ModelShard → Option Reason
check_shard_quick files s = elim (validate_shard_name s.name) [
  | some _ ↦ some validation_failed
  | none ↦ elim (lookup s.name files) [
    | none ↦ some filesystem_error
    | some f ↦ if eq_ℤ (pos f.size) s.size then none else some blob_size_mismatch
  ]
]

unfoldable pub check_shards_quick : Map ShardFile → ℕ → List ModelShard → Verdict
unfolding check_shard_quick
check_shards_quick files seen [] =
    if length files == seen then verified else rejected state_db_corrupt
check_shards_quick files seen (s ∷ shards) =
    let rest = check_shards_quick files (seen + 1) shards in
    elim (check_shard_quick files s) [ some r ↦ rejected r | none ↦ rest ]

-- `os.Stat` of the shards directory.
unfoldable pub with_shards : ShardsDir → (Map ShardFile → Verdict) → Verdict
with_shards absent check = rejected filesystem_error
with_shards not_a_directory check = rejected filesystem_error
with_shards (entries files) check = check files

-- The tests before the loop.
unfoldable pub verify_with :
    (Map ShardFile → List ModelShard → Verdict) → Text → Map ModelDir → Verdict
unfolding with_shards
verify_with check path ds =
    if is_empty (trim_space path) then rejected validation_failed else elim (lookup path ds) [
      | none ↦ rejected filesystem_error
      | some dir ↦
          if dir.ready_marker
          then (elim dir.metadata [
            | none ↦ rejected state_db_corrupt
            | some md ↦ with_shards dir.shards (λ files. check files md.profile.shards)
          ])
          else rejected state_db_corrupt
    ]

unfoldable pub verify_published_path : Env → Text → Map ModelDir → Verdict
unfolding verify_with check_shards
verify_published_path env = verify_with (λ files shards. check_shards env.sha256 files 0 shards)

unfoldable pub verify_published_path_quick : Text → Map ModelDir → Verdict
unfolding verify_with check_shards_quick
verify_published_path_quick = verify_with (λ files shards. check_shards_quick files 0 shards)
