-- ===== src/Service/Ensure/Transaction.antt =====
-- The transaction of `Ensure` of internal/app/service.go, from the record to the published model.
use oci2gdsd.Prelude.{ℕ, ◌≡◌, refl, Option, none, some, [], ◌∷◌, Text, true}
use oci2gdsd.AppErr.{filesystem_error, validation_failed, as_app_error}
use oci2gdsd.Model.{verifying, publishing, downloading}
use oci2gdsd.Names.{digest_to_path_component}
use oci2gdsd.Paths.{safe_join_under_root}
use oci2gdsd.Store.{ModelRecord}
use oci2gdsd.Store.Leases.{LeasesValid}
use oci2gdsd.Profile.{sort_shards_by_ordinal}
use oci2gdsd.Service.State.{
  txn_started, blobs_written, blobs_verified, metadata_written, ready_written, World, Env, Result,
  io, FetchedModel, FetchAnswer, fetched, fetch_error, ◌>>◌, pure, tick,
}
use oci2gdsd.Service.Hoare.{known, Cond, Meets, Triple, bind, pure_lem, journal_append_lem}
use oci2gdsd.Service.Download.Exact.{io_lem, FreshNames, Uninterrupted, download_blobs_lem}
use oci2gdsd.Service.Ensure.{
  EnsureRequest, EnsureResult, pending, present, Admission, admitted, denied, fail, or_fail,
  fetch_model, measure_free, take_admission, prepare_staging, stage_and_publish, run_transaction,
  admit,
}
use oci2gdsd.Profile.Lint.{lint_profile}
use oci2gdsd.Service.Ensure.Space.{admit_linted}
use oci2gdsd.Service.Ensure.Invariant.{AllVerified}
use oci2gdsd.Service.Ensure.Steps.{fail_lem, or_fail_lem, or_fail_as_lem, advance_lem, commit_lem}
use oci2gdsd.Service.Ensure.Publish.{Matches, staged_verified, InPlace, publish_lem}

-- The registry's answers are models whose blobs are those of the shards, by their ordinals, with
-- distinct names.
abbrev pub Faithful : FetchedModel → Type 0
Faithful f = Matches (sort_shards_by_ordinal f.profile.shards) f.blobs × FreshNames [] f.blobs

-- ... where the lint finds their profile valid.
abbrev pub Honest : Env → FetchedModel → Type 0
Honest env f =
    (digest : Text)
    → (lint_profile env.algorithm (some f.profile) digest f.layers).valid ≡ true
    → Faithful f

module _ (env : Env) where
  prepare_staging_lem :
      (r : ModelRecord)
      → LeasesValid r
      → Triple (AllVerified env) (prepare_staging env r) (λ txn. AllVerified env) (AllVerified env)
  unfolding prepare_staging
  prepare_staging_lem r v = record {
    at = λ w p. joined w p (
        safe_join_under_root env.links env.tmp_root
          (r.model_id ∷ digest_to_path_component r.manifest_digest ∷ env.token w.calls ∷ []));
  }
    where
      joined :
          (w : World)
          → AllVerified env w.db w.dirs
          → (o : Option Text)
          → Meets
              (λ (txn : Text). AllVerified env)
              (AllVerified env)
              (elim o as (λ _. Result Text × World) [
                | none ↦ fail env r validation_failed (tick w)
                | some txn ↦
                    (or_fail env r filesystem_error (io env)
                        >> or_fail env r filesystem_error (io env)
                        >> pure txn)
                      (tick w)
              ])
      joined w p none = (fail_lem env r validation_failed v).at (tick w) p
      joined w p (some txn) =
          (bind _ _
              (bind _ _ (or_fail_lem env r filesystem_error (io env) v (io_lem env))
                λ u. or_fail_lem env r filesystem_error (io env) v (io_lem env))
              λ u. pure_lem {Q = λ t. AllVerified env} txn (λ db ds q. q)).at
            (tick w) p

  stage_and_publish_lem :
      (r : ModelRecord) (f : FetchedModel) (total : ℕ)
      → Uninterrupted env
      → LeasesValid r
      → Faithful f
      → Triple
          (AllVerified env)
          (stage_and_publish env r f total)
          (λ r'. InPlace env r'.path)
          (AllVerified env)
  unfolding stage_and_publish
  stage_and_publish_lem r f total alive v faithful = bind _ _ (prepare_staging_lem r v) λ txn.
      bind _ _ (or_fail_as_lem env r _ v (download_blobs_lem env f.blobs alive faithful.1)) λ files.
        known _ λ down.
          bind _ _ (journal_append_lem env r.model_id r.manifest_digest blobs_written) λ _.
            bind _ _ (journal_append_lem env r.model_id r.manifest_digest blobs_verified) λ _.
              bind _ _ (advance_lem env r verifying v refl) λ r₁. known _ λ c₁.
                bind _ _ (advance_lem env r₁ publishing c₁.0 refl) λ r₂. known _ λ c₂.
                  bind _ _ (or_fail_lem env r₂ filesystem_error (io env) c₂.0 (io_lem env)) λ _.
                    bind _ _ (journal_append_lem env r.model_id r.manifest_digest metadata_written)
                      λ _.
                        bind _ _ (or_fail_lem env r₂ filesystem_error (io env) c₂.0 (io_lem env))
                          λ _.
                            bind _ _
                              (journal_append_lem env r.model_id r.manifest_digest ready_written)
                              λ _.
                                bind _ _
                                  (publish_lem env r₂ txn _ c₂.0 (λ given.
                                    staged_verified env r₂.path _ f.blobs files given faithful.0
                                      down))
                                  λ _. commit_lem env r₂ total c₂.0

  -- A result names a directory that verifies, unless the call is pending.
  abbrev pub Served : EnsureResult → Cond
  Served pending db ds = AllVerified env db ds
  Served (present path fresh reused) db ds = InPlace env path db ds

  module _ (alive : Uninterrupted env)
      (honest : (n : ℕ) (ref : Text) (f : FetchedModel)
        → env.fetch n ref ≡ fetched f
        → Honest env f) where
    fetch_model_lem :
        (r : ModelRecord) (ref : Text)
        → LeasesValid r
        → Triple
            (AllVerified env)
            (fetch_model env r ref)
            (λ f db ds. AllVerified env db ds × Honest env f)
            (AllVerified env)
    unfolding fetch_model
    fetch_model_lem r ref v = record { at = λ w p. answered w p (env.fetch w.calls ref) refl }
      where
        answered :
            (w : World)
            → AllVerified env w.db w.dirs
            → (a : FetchAnswer) → env.fetch w.calls ref ≡ a
            → Meets
                (λ (f : FetchedModel) db ds. AllVerified env db ds × Honest env f)
                (AllVerified env)
                (elim a as (λ _. Result FetchedModel × World) [
                  | fetched f ↦ pure f (tick w)
                  | fetch_error e ↦ fail env r (as_app_error e).reason (tick w)
                ])
        answered w p (fetched f) e = (p, honest w.calls ref f e)
        answered w p (fetch_error g) e = (fail_lem env r (as_app_error g).reason v).at (tick w) p

    measure_free_lem : {P : Cond} → Triple P (measure_free env) (λ o. P) P
    unfolding measure_free
    measure_free_lem = record { at = λ w p. p }

    take_admission_lem :
        {F : Type 0} (r : ModelRecord) (a : Admission)
        → LeasesValid r
        → ((n : ℕ) → a ≡ admitted n → F)
        → Triple
            (AllVerified env)
            (take_admission env r a)
            (λ n db ds. AllVerified env db ds × F)
            (AllVerified env)
    unfolding take_admission
    take_admission_lem r (admitted n) v h = pure_lem n (λ db ds p. (p, h n refl))
    take_admission_lem r (denied reason) v h = fail_lem env r reason v

    pub run_transaction_lem :
        (req : EnsureRequest) (digest : Text) (r : ModelRecord)
        → LeasesValid r
        → Triple (AllVerified env) (run_transaction env req digest r) Served (AllVerified env)
    unfolding run_transaction
    run_transaction_lem req digest r v =
        bind _ _ (journal_append_lem env r.model_id r.manifest_digest txn_started) λ _.
          bind _ _ (fetch_model_lem r req.ref v) λ f. known _ λ honest.
            bind _ _ measure_free_lem λ free.
              bind _ _
                (take_admission_lem r (admit env req digest f free) v
                  (admit_linted env req digest f free))
                λ total. known _ λ linted. bind _ _ (advance_lem env r downloading v refl) λ r₁.
                  known _ λ c.
                    bind _ _ (stage_and_publish_lem r₁ f total alive c.0 (honest digest linted))
                      λ r₂. pure_lem _ (λ db ds p. p)
