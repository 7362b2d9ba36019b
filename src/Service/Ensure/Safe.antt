-- ===== src/Service/Ensure/Safe.antt =====
-- Ready records and their files through the whole of `Ensure` of internal/app/service.go.
use oci2gdsd.Prelude.{
  ℕ, ◌≡◌, refl, sym, ap, Bool, true, false, not, ◌&&◌, ◌||◌, Option, none, some, [], ◌∷◌, Map, Text,
  is_empty, arith, if◌then◌else◌,
}
use oci2gdsd.AppErr.{reason_none, new_app_error, exit_policy, direct_path_ineligible}
use oci2gdsd.Names.{model_key, digest_to_path_component}
use oci2gdsd.Paths.{safe_join_under_root}
use oci2gdsd.Ref.{ParsedRef, parsed, refused, parse_digest_pinned_ref}
use oci2gdsd.Store
use oci2gdsd.Store.{Lease, ModelRecord, StateDb, has_lease, acquire_lease}
use oci2gdsd.Store.Leases.{LeasesValid, acquire_lease-LeasesValid}
use oci2gdsd.Store.Laws.{get-valid}
use oci2gdsd.Service.State.{
  corrupt, ModelDir, World, Env, M, now, store_put, within_root, FetchedModel, fetched, ◌>>=◌,
  raise,
}
use oci2gdsd.Service.Hoare.{
  known, Meets, Triple, bind, relax, strengthen, if_lem, if_dirs_lem, pure_lem, raise_lem, now_lem,
  store_get_lem,
}
use oci2gdsd.Service.Verify.{Verdict, rejected, verified, verify_published_path}
use oci2gdsd.Service.Lookup.{invalid, blank_text, model_id_ok}
use oci2gdsd.Service.Effects.{acquire_lem}
use oci2gdsd.Service.Recover.{is_ready, is_verified}
use oci2gdsd.Service.Ensure.{
  EnsureRequest, EnsureResult, pending, run_transaction, new_record, ensure_new, reuse,
  ensure_found, ensure_locked, ensure_pinned, ensure, leases_of, may_resolve, transient_root,
}
use oci2gdsd.Service.Download.Exact.{Uninterrupted}
use oci2gdsd.Service.Ensure.Invariant.{AllVerified}
use oci2gdsd.Service.Ensure.Steps.{put_unready, put_ready_lem}
use oci2gdsd.Service.Ensure.Publish.{InPlace}
use oci2gdsd.Service.Ensure.Transaction.{Honest, Served, run_transaction_lem}

-- The record that was there, if any, has valid leases.
abbrev pub LeasesKnown : Option ModelRecord → Type 0
LeasesKnown none = Unit
LeasesKnown (some r) = LeasesValid r

acquired_keeps :
    (at : ℕ) (h : Text) (r : ModelRecord)
    → ((acquire_lease at h r).status ≡ r.status) × ((acquire_lease at h r).path ≡ r.path)
unfolding acquire_lease
acquired_keeps at h r = ground arith

verified_of : (o : Verdict) → is_verified o ≡ true → o ≡ verified
verified_of verified e = refl
verified_of (rejected reason) e = cc

module _ (env : Env) where
  module _ (alive : Uninterrupted env)
      (honest : (n : ℕ) (ref : Text) (f : FetchedModel)
        → env.fetch n ref ≡ fetched f
        → Honest env f) where
    new_record_lem :
        (req : EnsureRequest) (digest path : Text) (leases : Option ModelRecord) (at : ℕ)
        → LeasesKnown leases
        → LeasesValid (new_record env req digest path (leases_of env leases) at)
          × (is_ready (new_record env req digest path (leases_of env leases) at).status ≡ false)
    unfolding new_record
    new_record_lem req digest path none at l = (
      acquire_lease-LeasesValid at req.lease_holder _
          (record { distinct = tt; named = unfold has_lease in refl; held = λ n. (refl, refl) }),
      ap is_ready (acquired_keeps at req.lease_holder _).0,
    )
    new_record_lem req digest path (some r) at l = (
      acquire_lease-LeasesValid at req.lease_holder _
          (record { distinct = l.distinct; named = l.named; held = λ n. (refl, refl) }),
      ap is_ready (acquired_keeps at req.lease_holder _).0,
    )

    ensure_new_lem :
        (req : EnsureRequest) (digest : Text) (existing : Option ModelRecord)
        → LeasesKnown existing
        → Triple
            (AllVerified env)
            (ensure_new env req digest existing)
            (Served env)
            (AllVerified env)
    unfolding ensure_new
    ensure_new_lem req digest existing l = placed (
        safe_join_under_root env.links env.model_root
          (req.model_id ∷ digest_to_path_component digest ∷ []))
      where
        placed :
            (o : Option Text)
            → Triple
                (AllVerified env)
                (elim o as (λ _. M EnsureResult) [
                  | none ↦ raise invalid
                  | some path ↦
                      if may_resolve env existing
                      then (do
                        at ← now env
                        r ←
                            store_put env
                              (new_record env req digest path (leases_of env existing) at)
                        run_transaction env req digest r)
                      else raise corrupt
                ])
                (Served env)
                (AllVerified env)
        placed none = raise_lem invalid (λ db ds p. p)
        placed (some path) =
            if_lem (may_resolve env existing) _ (raise corrupt)
              (λ _. bind _ _ (now_lem env) λ at.
                let n = new_record_lem req digest path existing at l in
                bind _ _
                  (put_unready env (new_record env req digest path (leases_of env existing) at) n.0
                    n.1 (λ db ds p. p))
                  λ r. known _ λ c. run_transaction_lem env alive honest req digest r c.0)
              (λ _. raise_lem corrupt (λ db ds p. p))

    reuse_lem :
        (req : EnsureRequest) (r : ModelRecord)
        → LeasesValid r
        → Triple (InPlace env r.path) (reuse env req r) (Served env) (AllVerified env)
    unfolding reuse
    reuse_lem req r v = bind _ _ (relax _ (λ db ds p. p.0) (now_lem env)) λ at.
        bind {Q = λ r'. InPlace env r'.path} _ _ (put_leased at) λ r'. pure_lem _ (λ db ds p. p)
      where
        put_leased :
            (at : ℕ)
            → Triple
                (InPlace env r.path)
                (store_put env
                  (record (acquire_lease at req.lease_holder r) { last_error = reason_none }))
                (λ r'. InPlace env r'.path)
                (AllVerified env)
        put_leased at =
            let r' : ModelRecord = record (acquire_lease at req.lease_holder r) {
              last_error = reason_none;
            } in
            let a = acquire_lease-LeasesValid at req.lease_holder r v in
            let valid : LeasesValid r' = record {
              distinct = a.distinct;
              named = a.named;
              held = a.held;
            } in
            put_ready_lem env r r' valid (acquired_keeps at req.lease_holder r).1

    ensure_found_lem :
        (req : EnsureRequest) (digest : Text) (existing : Option ModelRecord)
        → LeasesKnown existing
        → Triple
            (AllVerified env)
            (ensure_found env req digest existing)
            (Served env)
            (AllVerified env)
    unfolding ensure_found
    ensure_found_lem req digest none l = ensure_new_lem req digest none l
    ensure_found_lem req digest (some r) l =
        if_lem (not (is_empty r.path) && not (within_root env r.path)) (raise corrupt) _
          (λ _. raise_lem corrupt (λ db ds p. p))
          λ _.
            if_lem (is_ready r.status) _ (ensure_new env req digest (some r))
              (λ _.
                if_dirs_lem (λ ds. is_verified (verify_published_path env r.path ds))
                  (reuse env req r) _
                  (strengthen _
                    (λ db ds p. (p.0, verified_of (verify_published_path env r.path ds) p.1))
                    (reuse_lem req r l))
                  (strengthen _ (λ db ds p. p.0) (ensure_new_lem req digest (some r) l)))
              (λ _. ensure_new_lem req digest (some r) l)

    known_leases :
        (k : Text) (o : Option ModelRecord) (db : StateDb) (ds : Map ModelDir)
        → AllVerified env db ds
        → o ≡ Store.get k db
        → LeasesKnown o
    known_leases k none db ds p e = tt
    known_leases k (some r) db ds p e = (get-valid k p.valid (sym e)).1

    ensure_lem :
        (req : EnsureRequest)
        → Triple (AllVerified env) (ensure env req) (Served env) (AllVerified env)
    unfolding ensure ensure_pinned ensure_locked
    ensure_lem req = pinned (parse_digest_pinned_ref env.algorithm req.ref)
      where
        got_lock :
            (digest : Text) (got : Bool)
            → Triple
                (AllVerified env)
                (ensure_locked env req digest got)
                (Served env)
                (AllVerified env)
        got_lock digest false = pure_lem pending (λ db ds p. p)
        got_lock digest true =
            bind _ _ (store_get_lem env (model_key req.model_id digest)) λ existing.
              strengthen _
                (λ db ds p.
                  (p.0, known_leases (model_key req.model_id digest) existing db ds p.0 p.1))
                (known _ (ensure_found_lem req digest existing))

        pinned :
            (p : ParsedRef)
            → Triple
                (AllVerified env)
                (elim p as (λ _. M EnsureResult) [
                  | refused _ ↦ raise invalid
                  | parsed _ digest ↦ ensure_pinned env req digest
                ])
                (Served env)
                (AllVerified env)
        pinned (refused e) = raise_lem invalid (λ db ds p. p)
        pinned (parsed repository digest) =
            if_lem (blank_text req.model_id || not (model_id_ok env req.model_id)) (raise invalid) _
              (λ _. raise_lem invalid (λ db ds p. p))
              λ _.
                if_lem (req.strict_direct_path && transient_root env)
                  (raise (new_app_error exit_policy direct_path_ineligible)) _
                  (λ _. raise_lem (new_app_error exit_policy direct_path_ineligible) (λ db ds p. p))
                  λ _. bind _ _ (acquire_lem env req.wait) (got_lock digest)

-- Whatever becomes of an `Ensure` whose download workers never find the context done, with a registry
-- whose models have, if the lint finds their profile valid, the blobs of their shards under distinct
-- names: a database in which every ready record has a path that verifies stays so, and where a path
-- is returned, it verifies.
pub ensure-Served :
    (env : Env) (req : EnsureRequest) (w : World)
    → Uninterrupted env
    → ((n : ℕ) (ref : Text) (f : FetchedModel) → env.fetch n ref ≡ fetched f → Honest env f)
    → AllVerified env w.db w.dirs
    → Meets (Served env) (AllVerified env) (ensure env req w)
ensure-Served env req w alive honest p = (ensure_lem env alive honest req).at w p
