-- ===== src/Service/Ensure/Steps.antt =====
-- The invariant of ready records through the steps of `Ensure` of internal/app/service.go.
use oci2gdsd.Prelude.{ℕ, ◌≡◌, refl, ◌∙◌, false, Map, Text, insert, pos, none}
use oci2gdsd.AppErr.{
  AppError, Reason, reason_none, state_db_corrupt, new_app_error, map_reason_to_exit_code,
}
use oci2gdsd.Model.{
  ModelState, ready, failed, Transition, done, invalid_current, invalid_transition,
  transition_state,
}
use oci2gdsd.Store
use oci2gdsd.Store.{ModelRecord, StateDb}
use oci2gdsd.Store.Leases.{LeasesValid}
use oci2gdsd.Service.State.{
  ModelDir, World, Env, Result, ok, err, M, pure, settle, io_error, Outcome, fine, load_failed,
  write_failed, failed_late, store_put, committed,
}
use oci2gdsd.Service.Verify.{Verdict, verified, rejected, verify_published_path}
use oci2gdsd.Service.Hoare.{
  Cond, Meets, Triple, always, relax, pure_lem, now_lem, journal_append_lem, journal_delete_lem,
  bind, raise_lem, try_lem, store_put_lem, store_put_stamped,
}
use oci2gdsd.Service.Recover.{is_ready}
use oci2gdsd.Service.Ensure.Invariant.{
  AllVerified, insert-AllVerified, put-AllVerified, stamp_keeps, true_and_false,
}
use oci2gdsd.Service.Ensure.{fail, or_fail, or_fail_as, advance, keep_existing, rename, commit}

-- What is known of the record that a step returns, for the record that it was given.
abbrev pub Continues : ModelRecord → ModelRecord → Type 0
Continues r r' = LeasesValid r' × (r'.path ≡ r.path) × (r'.key ≡ r.key) × (r'.leases ≡ r.leases)

restatus :
    (r : ModelRecord) (r' : ModelRecord)
    → r'.leases ≡ r.leases
    → r'.releasable ≡ r.releasable
    → r'.releasable_at ≡ r.releasable_at
    → LeasesValid r
    → LeasesValid r'
restatus r r' l a b v = record {
  distinct = rw l v.distinct;
  named = rw l v.named;
  held = λ n. let p = v.held (λ e. n (l ∙ e)) in (a ∙ p.0, b ∙ p.1);
}

stamp_valid : (at : ℕ) (r : ModelRecord) → LeasesValid r → LeasesValid (Store.stamp at r)
unfolding Store.stamp
stamp_valid at r v = restatus r (Store.stamp at r) refl refl refl v

settled_apart :
    {A : Type 0} (Q : A → Cond) (E : Cond) (o : Outcome) (e : AppError) (a : A) (old new : World)
    → E old.db old.dirs
    → E new.db new.dirs
    → Q a new.db new.dirs
    → Meets Q E (settle o e a old new)
settled_apart Q E fine e a old new p f q = q
settled_apart Q E load_failed e a old new p f q = p
settled_apart Q E write_failed e a old new p f q = p
settled_apart Q E failed_late e a old new p f q = f

module _ (env : Env) where
  pub put_unready :
      {P : Cond} (r : ModelRecord)
      → LeasesValid r
      → is_ready r.status ≡ false
      → ((db : StateDb) (ds : Map ModelDir) → P db ds → AllVerified env db ds)
      → Triple P
          (store_put env r)
          (λ r' db ds.
            AllVerified env db ds
            × (LeasesValid r' × (r'.path ≡ r.path) × (r'.key ≡ r.key) × (r'.leases ≡ r.leases)))
          (AllVerified env)
  put_unready r v u h =
      store_put_stamped env r h
        (λ db ds at p. put-AllVerified env at r v (λ t. absurd (true_and_false u t)) (h db ds p))
        (λ db ds at p.
          let kept = stamp_keeps at r in
          (
            put-AllVerified env at r v (λ t. absurd (true_and_false u t)) (h db ds p),
            (stamp_valid at r v, kept.1, kept.3, kept.2),
          ))

  pub fail_lem :
      {A : Type 0} {Q : A → Cond} (r : ModelRecord) (reason : Reason)
      → LeasesValid r
      → Triple (AllVerified env) (fail env {A = A} r reason) Q (AllVerified env)
  unfolding fail
  fail_lem r reason v =
      let r' : ModelRecord = record r { status = failed; last_error = reason } in
      bind {Q = always (AllVerified env)} _ _
        (try_lem {Q = AllVerified env} _ (
          store_put_lem env r' (λ db ds p. p)
            (λ db ds at p.
              put-AllVerified env at r' (restatus r r' refl refl refl v)
                (λ t. absurd (true_and_false refl t)) p)))
        λ _. raise_lem (new_app_error (map_reason_to_exit_code reason) reason) (λ db ds p. p)

  module _ {A : Type 0} {P : Cond} {Q : A → Cond} where
    -- A step whose error is reported keeps the invariant if the step does.
    pub or_fail_lem :
        (r : ModelRecord) (reason : Reason) (m : M A)
        → LeasesValid r
        → Triple P m Q (AllVerified env)
        → Triple P (or_fail env r reason m) Q (AllVerified env)
    unfolding or_fail
    or_fail_lem r reason m v t = record { at = λ w p. reported (m w) (t.at w p) }
      where
        reported :
            (o : Result A × World)
            → Meets Q (AllVerified env) o
            → Meets Q (AllVerified env) (elim o.0 as (λ _. Result A × World) [
              | ok a ↦ (ok a, o.1)
              | err _ ↦ fail env r reason o.1
            ])
        reported (ok a, w) q = q
        reported (err e, w) q = (fail_lem r reason v).at w q

    pub or_fail_as_lem :
        (r : ModelRecord) (m : M A)
        → LeasesValid r
        → Triple P m Q (AllVerified env)
        → Triple P (or_fail_as env r m) Q (AllVerified env)
    unfolding or_fail_as
    or_fail_as_lem r m v t = record { at = λ w p. reported (m w) (t.at w p) }
      where
        reported :
            (o : Result A × World)
            → Meets Q (AllVerified env) o
            → Meets Q (AllVerified env) (elim o.0 as (λ _. Result A × World) [
              | ok a ↦ (ok a, o.1)
              | err e ↦ fail env r e.reason o.1
            ])
        reported (ok a, w) q = q
        reported (err e, w) q = (fail_lem r e.reason v).at w q

  -- A move of the record to a state that is not ready.
  pub advance_lem :
      (r : ModelRecord) (state : ModelState)
      → LeasesValid r
      → is_ready state ≡ false
      → Triple
          (AllVerified env)
          (advance env r state)
          (λ r' db ds. AllVerified env db ds × Continues r r')
          (AllVerified env)
  unfolding advance
  advance_lem r state v u = moved (transition_state r.status state)
    where
      moved :
          (t : Transition)
          → Triple
              (AllVerified env)
              (elim t as (λ _. M ModelRecord) [
                | done ↦ store_put env (record r { status = state })
                | invalid_current ↦ fail env r state_db_corrupt
                | invalid_transition ↦ fail env r state_db_corrupt
              ])
              (λ r' db ds. AllVerified env db ds × Continues r r')
              (AllVerified env)
      moved done =
          put_unready (record r { status = state })
            (restatus r (record r { status = state }) refl refl refl v) u (λ db ds p. p)
      moved invalid_current = fail_lem r state_db_corrupt v
      moved invalid_transition = fail_lem r state_db_corrupt v

  -- The final path is there already: it is verified again.
  pub keep_existing_lem :
      (r : ModelRecord)
      → LeasesValid r
      → Triple
          (AllVerified env)
          (keep_existing env r)
          (λ u db ds. AllVerified env db ds × (verify_published_path env r.path ds ≡ verified))
          (AllVerified env)
  unfolding keep_existing
  keep_existing_lem r v = record {
    at = λ w p. looked w p (verify_published_path env r.path w.dirs) refl;
  }
    where
      looked :
          (w : World)
          → AllVerified env w.db w.dirs
          → (o : Verdict) → verify_published_path env r.path w.dirs ≡ o
          → Meets
              (λ (u : Unit {0}) db ds.
                AllVerified env db ds × (verify_published_path env r.path ds ≡ verified))
              (AllVerified env)
              (elim o as (λ _. Result Unit × World) [
                | verified ↦ pure tt w
                | rejected reason ↦ fail env r reason w
              ])
      looked w p verified e = (p, e)
      looked w p (rejected reason) e = (fail_lem r reason v).at w p

  -- What is renamed into place verifies there.
  pub rename_lem :
      (path : Text) (dir : ModelDir)
      → ((ds : Map ModelDir) → verify_published_path env path (insert path dir ds) ≡ verified)
      → Triple
          (AllVerified env)
          (rename env path dir)
          (λ u db ds. AllVerified env db ds × (verify_published_path env path ds ≡ verified))
          (AllVerified env)
  unfolding rename
  rename_lem path dir h = record {
    at = λ w p.
        let kept = insert-AllVerified env path dir (h w.dirs) p in
        settled_apart
          (λ u db ds. AllVerified env db ds × (verify_published_path env path ds ≡ verified))
          (AllVerified env) (env.outcome w.calls) io_error tt _ _ p kept (kept, h w.dirs);
  }

  -- `Put` of a record with the path of one that verifies.
  pub put_ready_lem :
      (r r' : ModelRecord)
      → LeasesValid r'
      → r'.path ≡ r.path
      → Triple
          (λ db ds. AllVerified env db ds × (verify_published_path env r.path ds ≡ verified))
          (store_put env r')
          (λ r'' db ds. AllVerified env db ds × (verify_published_path env r''.path ds ≡ verified))
          (AllVerified env)
  unfolding Store.stamp
  put_ready_lem r r' v same =
      store_put_stamped env r' (λ db ds p. p.0)
        (λ db ds at p. put-AllVerified env at r' v (λ t. rw same p.1) p.0)
        (λ db ds at p. (put-AllVerified env at r' v (λ t. rw same p.1) p.0, rw same p.1))

  -- The record that is committed is ready, with a directory that verifies.
  pub commit_lem :
      (r : ModelRecord) (total : ℕ)
      → LeasesValid r
      → Triple
          (λ db ds. AllVerified env db ds × (verify_published_path env r.path ds ≡ verified))
          (commit env r total)
          (λ r' db ds. AllVerified env db ds × (verify_published_path env r'.path ds ≡ verified))
          (AllVerified env)
  unfolding commit
  commit_lem r total v =
      bind _ _
        (relax _ (λ db ds p. p.0) (journal_append_lem env r.model_id r.manifest_digest committed))
        λ u. bind _ _ (relax _ (λ db ds p. p.0) (now_lem env)) λ at.
          bind _ _
            (put_ready_lem r
              (record r {
                status = ready;
                bytes = pos total;
                last_error = reason_none;
                releasable = false;
                releasable_at = none;
                last_accessed_at = at;
              })
              (record { distinct = v.distinct; named = v.named; held = λ n. (refl, refl) }) refl)
            λ r'.
              bind _ _ (try_lem _ (journal_delete_lem env r.model_id r.manifest_digest))
                λ o. pure_lem r' (λ db ds p. p)
