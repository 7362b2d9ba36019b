-- ===== src/Service/Ensure/Publish.antt =====
-- The publication in `Ensure` of internal/app/service.go: the staging directory at its place.
use oci2gdsd.Prelude.{
  ◌≡◌, refl, sym, ◌∙◌, Bool, true, false, ◌&&◌, List, [], ◌∷◌, ◌++◌, length, Text, codes, is_empty,
  trim_space, Map, insert, lookup-insert, text_eq_refl, All, arith, sort_slice, sort_slice-All,
  length-sort_slice, Bool-cases, inl, inr, some,
}
use oci2gdsd.AppErr.{filesystem_error, validation_failed, publish_rename_failed}
use oci2gdsd.Store.{ModelRecord}
use oci2gdsd.Store.Leases.{LeasesValid}
use oci2gdsd.Paths.{Links, ensure_under_root, passes}
use oci2gdsd.Profile.{ModelShard, ordinal_less, sort_shards_by_ordinal}
use oci2gdsd.Service.State.{
  ShardFile, entries, LocalMetadata, ModelDir, Env, io, within_root, RemoteBlob, pure,
}
use oci2gdsd.Service.Hoare.{
  Cond, Triple, always, bind, relax, strengthen, if_lem, if_dirs_lem, pure_lem,
}
use oci2gdsd.Service.Verify.{verified, verify_published_path}
use oci2gdsd.Service.Verify.Exact.{ShardIntact, others, verify_published_path_iff}
use oci2gdsd.Service.Download.{file_of}
use oci2gdsd.Service.Download.Exact.{io_lem, BlobIn, Downloaded}
use oci2gdsd.Service.Release.{dir_exists}
use oci2gdsd.Service.Ensure.{fsync_parent, keep_existing, move_into_place, publish, fail}
use oci2gdsd.Service.Ensure.Invariant.{AllVerified}
use oci2gdsd.Service.Ensure.Steps.{fail_lem, or_fail_lem, keep_existing_lem, rename_lem}

-- The blobs are those of the shards, in their order.
abbrev pub Matches : List ModelShard → List RemoteBlob → Type 0
Matches [] [] = Unit
Matches [] (b ∷ bs) = ⊥
Matches (s ∷ ss) [] = ⊥
Matches (s ∷ ss) (b ∷ bs) =
    (s.name ≡ b.name) × (s.digest ≡ b.digest) × (s.size ≡ b.size) × Matches ss bs

matched_intact :
    (sha256 : Text → Text) (files : Map ShardFile) (ss : List ModelShard) (bs : List RemoteBlob)
    → Matches ss bs
    → All (BlobIn sha256 files) bs
    → All (ShardIntact sha256 files) ss × (length ss ≡ length bs)
matched_intact sha256 files [] [] m a = (tt, refl)
matched_intact sha256 files [] (b ∷ bs) m a = absurd m
matched_intact sha256 files (s ∷ ss) [] m a = absurd m
matched_intact sha256 files (s ∷ ss) (b ∷ bs) m a =
    let rest = matched_intact sha256 files ss bs m.3 a.1 in
    (
      (
        record {
          name_valid = rw m.0 a.0.name_valid;
          file = file_of a.0.content;
          content = a.0.content;
          found = rw m.0 a.0.found;
          size_right = m.2 ∙ a.0.size_right;
          readable = refl;
          digest_right = a.0.digest_right ∙ sym m.1;
        },
        rest.0,
      ),
      omega (arith, rest.1),
    )

sorted_intact :
    (sha256 : Text → Text) (files : Map ShardFile) (ss : List ModelShard) (bs : List RemoteBlob)
    → Matches (sort_shards_by_ordinal ss) bs
    → All (BlobIn sha256 files) bs
    → All (ShardIntact sha256 files) ss × (length ss ≡ length bs)
unfolding sort_shards_by_ordinal
sorted_intact sha256 files ss bs m a =
    let q = matched_intact sha256 files (sort_slice ordinal_less ss) bs m a in
    (
      sort_slice-All ordinal_less (ShardIntact sha256 files) ss q.0,
      omega (arith, q.1, length-sort_slice ordinal_less ss),
    )

-- What is staged of a download is verified wherever it is put.
pub staged_verified :
    (env : Env) (path : Text) (meta : LocalMetadata) (bs : List RemoteBlob) (files : Map ShardFile)
    → is_empty (trim_space path) ≡ false
    → Matches (sort_shards_by_ordinal meta.profile.shards) bs
    → Downloaded env.sha256 [] bs files
    → (ds : Map ModelDir)
    → verify_published_path env path (
        insert path
          (record { ready_marker = true; metadata = some meta; shards = entries files })
          ds)
      ≡ verified
staged_verified env path meta bs files given m d ds =
    let q = sorted_intact env.sha256 files meta.profile.shards bs m d.blobs_in in
    let dir : ModelDir = record {
      ready_marker = true;
      metadata = some meta;
      shards = entries files;
    } in
    (verify_published_path_iff env path (insert path dir ds)).1 (record {
      path_given = given;
      dir = dir;
      exists = rw (lookup-insert path path dir ds, text_eq_refl path) refl;
      marked = refl;
      metadata = meta;
      metadata_read = refl;
      files = files;
      shards_read = refl;
      intact = q.0;
      count = omega (arith, d.count, q.1);
      no_other = others env.sha256 files meta.profile.shards q.0 (omega (arith, d.count, q.1));
    })

passed_given :
    (l : Links) (root path : Text)
    → passes (ensure_under_root l root path) ≡ true
    → is_empty (trim_space path) ≡ false
unfolding ensure_under_root
passed_given l root path h = elim (Bool-cases (is_empty (trim_space root))) [
  | inl e ↦ absurd (ground (arith, rw e at h))
  | inr e ↦ elim (Bool-cases (is_empty (trim_space path))) [
    | inl f ↦ absurd (ground (arith, rw (e, f) at h))
    | inr f ↦ f
  ]
]

and_right : (a b : Bool) → (a && b) ≡ true → b ≡ true
and_right true b h = h
and_right false b h = cc

module _ (env : Env) where
  -- The path of the record holds a model that verifies.
  abbrev pub InPlace : Text → Cond
  InPlace path db ds = AllVerified env db ds × (verify_published_path env path ds ≡ verified)

  fsync_parent_lem : {P : Cond} → Triple P (fsync_parent env) (always P) P
  unfolding fsync_parent
  fsync_parent_lem =
      if_lem env.fsync_directory (io env) (pure tt) (λ _. io_lem env)
        (λ _. pure_lem tt (λ db ds p. p))

  pub publish_lem :
      (r : ModelRecord) (txn : Text) (dir : ModelDir)
      → LeasesValid r
      → (is_empty (trim_space r.path) ≡ false
          → (ds : Map ModelDir)
          → verify_published_path env r.path (insert r.path dir ds) ≡ verified)
      → Triple (AllVerified env) (publish env r txn dir) (λ u. InPlace r.path) (AllVerified env)
  unfolding publish move_into_place
  publish_lem r txn dir v h =
      if_dirs_lem (dir_exists r.path) (keep_existing env r) _
        (strengthen _ (λ db ds p. p.0) (keep_existing_lem env r v))
        (strengthen _ (λ db ds p. p.0)
          (bind _ _ (or_fail_lem env r filesystem_error _ v (io_lem env)) λ u.
            if_lem
              (passes (ensure_under_root env.links env.tmp_root (txn ++ codes "/publish"))
                && within_root env r.path)
              _ (fail env r validation_failed)
              (λ e.
                bind _ _
                  (or_fail_lem env r publish_rename_failed _ v (
                    rename_lem env r.path dir
                      (h (passed_given env.links env.model_root r.path (and_right _ _ e)))))
                  λ u'.
                    or_fail_lem env r filesystem_error _ v
                      (relax _ (λ db ds p. p.0) (fsync_parent_lem)))
              (λ _. fail_lem env r validation_failed v)))
