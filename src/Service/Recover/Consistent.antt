-- ===== src/Service/Recover/Consistent.antt =====
-- Ready records and their files through `Recover` of internal/app/service.go.
use oci2gdsd.Prelude.{
  ℕ, ◌≡◌, refl, ◌∙◌, ap, Bool, true, false, Option, some, List, [], ◌∷◌, Text, text_eq, text_eq_iff,
  Map, All, Has, ◌⊎◌, inl, inr, Bool-cases,
}
use mathlib.Core.Path.{subst}
use oci2gdsd.Store
use oci2gdsd.Store.{ModelRecord, StateDb}
use oci2gdsd.Store.Leases.{LeasesValid}
use oci2gdsd.Store.Laws.{
  DbValid, put-DbValid, get-valid, get-put, list-Has, list-valid, clear_allocations-DbValid,
}
use oci2gdsd.Service.State.{Marker, ModelDir, World, Env, Result, ok, err, committed}
use oci2gdsd.Service.Hoare.{
  Cond, Meets, Triple, always, anything, bind, relax, if_lem, if_dirs_lem, pure_lem, strengthen,
  try_lem, store_list_lem, journal_markers_lem, journal_delete_lem, journal_append_lem,
  store_put_returns, store_clear_allocations_returns,
}
use oci2gdsd.Service.Recover.{
  is_ready, quick_ok, as_failed, as_ready, mark_failed, mark_ready, recheck, follow_journal,
  recover_record, recover_records, recover, has_marker, is_committed, is_ready_written,
}

-- The records that claim to be ready pass the quick test, but for those still to be looked at.
pub record Pending (rs : List ModelRecord) (db : StateDb) (ds : Map ModelDir) : Type 0 where
  pub valid : DbValid db
  pub listed_valid : All LeasesValid rs
  pub covered :
      (k : Text) (s : ModelRecord)
      → Store.get k db ≡ some s
      → is_ready s.status ≡ true
      → (quick_ok s ds ≡ true) ⊎ Has s rs

same_value : {a b : ModelRecord} → ◌≡◌ {A = Option ModelRecord} (some a) (some b) → a ≡ b
same_value h = cc

true_and_false : {b : Bool} → b ≡ false → b ≡ true → ⊥
true_and_false f t = cc

-- Once the record at the head needs no look any more, the rest is pending.
settle_head :
    (r : ModelRecord) (rs : List ModelRecord) {db : StateDb} {ds : Map ModelDir}
    → (is_ready r.status ≡ true → quick_ok r ds ≡ true)
    → Pending (r ∷ rs) db ds
    → Pending rs db ds
settle_head r rs h p = record {
  valid = p.valid;
  listed_valid = p.listed_valid.1;
  covered = λ k s g t. elim (p.covered k s g t) [
    | inl q ↦ inl q
    | inr (inl e) ↦ inl (rw (← e) (h (rw e t)))
    | inr (inr m) ↦ inr m
  ];
}

-- Writing a record that needs no look under the key of the head.
put_head :
    (at : ℕ) (r r' : ModelRecord) (rs : List ModelRecord) {db : StateDb} {ds : Map ModelDir}
    → r'.key ≡ r.key
    → LeasesValid r'
    → (is_ready (Store.stamp at r').status ≡ true → quick_ok (Store.stamp at r') ds ≡ true)
    → Pending (r ∷ rs) db ds
    → Pending rs (Store.put at r' db) ds
put_head at r r' rs {db} same v h p = record {
  valid = put-DbValid at r' v p.valid;
  listed_valid = p.listed_valid.1;
  covered = λ k s g t. elim (Bool-cases (text_eq r'.key k)) [
    | inl e ↦ let q = same_value (rw (get-put at r' db k, e) at g) in inl (rw (← q) (h (rw q t)))
    | inr n ↦ elim (p.covered k s (rw (get-put at r' db k, n) at g) t) [
      | inl q ↦ inl q
      | inr (inl e) ↦ absurd (
          true_and_false n (
            (text_eq_iff r'.key k).1 (
              same
              ∙ ap (λ (x : ModelRecord). x.key) e
              ∙ (get-valid k p.valid (rw (get-put at r' db k, n) at g)).0)))
      | inr (inr m) ↦ inr m
    ]
  ];
}

stamp_ready_ok :
    (at : ℕ) (r : ModelRecord) (ds : Map ModelDir)
    → quick_ok r ds ≡ true
    → quick_ok (Store.stamp at (as_ready r)) ds ≡ true
unfolding Store.stamp
stamp_ready_ok at r ds h = h

stamp_failed_not_ready :
    (at : ℕ) (r : ModelRecord) → is_ready (Store.stamp at (as_failed r)).status ≡ false
unfolding Store.stamp
stamp_failed_not_ready at r = refl

failed_valid : {r : ModelRecord} → LeasesValid r → LeasesValid (as_failed r)
failed_valid v = record { distinct = v.distinct; named = v.named; held = v.held }

ready_valid : {r : ModelRecord} → LeasesValid r → LeasesValid (as_ready r)
ready_valid v = record { distinct = v.distinct; named = v.named; held = v.held }

module _ (env : Env) (r : ModelRecord) (rs : List ModelRecord) where
  abbrev done : Unit {0} → Cond
  done _ = Pending rs

  put_failed :
      (at : ℕ) {db : StateDb} {ds : Map ModelDir}
      → Pending (r ∷ rs) db ds
      → Pending rs (Store.put at (as_failed r) db) ds
  put_failed at p =
      put_head at r (as_failed r) rs refl (failed_valid p.listed_valid.0)
        (λ t. absurd (true_and_false (stamp_failed_not_ready at r) t)) p

  mark_failed_lem : Triple (Pending (r ∷ rs)) (mark_failed env r) done anything
  unfolding mark_failed
  mark_failed_lem =
      bind _ _ (store_put_returns env (as_failed r) (λ db ds at p. put_failed at p)) λ _.
        bind _ _ (try_lem _ (journal_delete_lem env r.model_id r.manifest_digest))
          λ _. pure_lem tt (λ db ds p. p)

  mark_ready_lem :
      Triple
        (λ db ds. Pending (r ∷ rs) db ds × (quick_ok r ds ≡ true))
        (mark_ready env r)
        done
        anything
  unfolding mark_ready
  mark_ready_lem =
      bind _ _
        (store_put_returns env (as_ready r) (λ db ds at p.
          put_head at r (as_ready r) rs refl (ready_valid p.0.listed_valid.0)
            (λ _. stamp_ready_ok at r ds p.1) p.0))
        λ _.
          bind _ _ (try_lem _ (journal_append_lem env r.model_id r.manifest_digest committed)) λ _.
            bind _ _ (try_lem _ (journal_delete_lem env r.model_id r.manifest_digest))
              λ _. pure_lem tt (λ db ds p. p)

  recheck_lem : Triple (Pending (r ∷ rs)) (recheck env r) done anything
  unfolding recheck
  recheck_lem =
      if_lem (is_ready r.status) _ _
        (λ _.
          if_dirs_lem (quick_ok r) _ _ (pure_lem tt (λ db ds p. settle_head r rs (λ _. p.1) p.0)) (
            bind _ _ (store_put_returns env (as_failed r) (λ db ds at p. put_failed at p.0))
              λ _. pure_lem tt (λ db ds p. p)))
        (λ e. pure_lem tt (λ db ds p. settle_head r rs (λ t. absurd (true_and_false e t)) p))

  follow_journal_lem :
      (ms : List Marker) → Triple (Pending (r ∷ rs)) (follow_journal env r ms) done anything
  unfolding follow_journal
  follow_journal_lem [] = recheck_lem
  follow_journal_lem (m ∷ ms) =
      if_lem (has_marker is_committed (m ∷ ms)) _ _
        (λ _.
          bind _ _ (try_lem _ (journal_delete_lem env r.model_id r.manifest_digest))
            λ _. recheck_lem)
        (λ _.
          if_lem (has_marker is_ready_written (m ∷ ms)) _ _
            (λ _.
              if_dirs_lem (quick_ok r) _ _ mark_ready_lem
                (strengthen _ (λ db ds p. p.0) mark_failed_lem))
            (λ _. mark_failed_lem))

  recover_record_lem : Triple (Pending (r ∷ rs)) (recover_record env r) done anything
  unfolding recover_record
  recover_record_lem =
      if_lem _ _ _ (λ _. mark_failed_lem)
        (λ _.
          bind _ _ (relax _ (λ db ds p. tt) (journal_markers_lem env r.model_id r.manifest_digest))
            follow_journal_lem)

recover_records_lem :
    (env : Env) (rs : List ModelRecord)
    → Triple (Pending rs) (recover_records env rs) (always (Pending [])) anything
unfolding recover_records
recover_records_lem env [] = pure_lem tt (λ db ds p. p)
recover_records_lem env (r ∷ rs) =
    bind _ _ (recover_record_lem env r rs) λ _. recover_records_lem env rs

-- Every record that claims to be ready passes the quick test.
pub record AllReady (db : StateDb) (ds : Map ModelDir) : Type 0 where
  pub valid : DbValid db
  pub ready_ok :
      (k : Text) (r : ModelRecord)
      → Store.get k db ≡ some r
      → is_ready r.status ≡ true
      → quick_ok r ds ≡ true

recover_lem : (env : Env) → Triple (λ db ds. DbValid db) (recover env) (always AllReady) anything
unfolding recover
recover_lem env =
    bind _ _
      (store_clear_allocations_returns env {Q = λ db ds. DbValid db}
        (λ db ds d. clear_allocations-DbValid d))
      λ _. bind _ _ (relax _ (λ db ds p. tt) (store_list_lem env)) λ rs.
        strengthen _
          (λ db ds p. record {
            valid = p.0;
            listed_valid = rw p.1 (list-valid db p.0);
            covered = λ k s g t. inr (rw p.1 (list-Has k db g));
          })
          (finish rs)
  where
    finish :
        (rs : List ModelRecord)
        → Triple (Pending rs) (recover_records env rs) (always AllReady) anything
    finish rs = record {
      at = λ w p. finished (recover_records env rs w) ((recover_records_lem env rs).at w p);
    }
      where
        finished :
            (o : Result (Unit {0}) × World)
            → Meets (always (Pending [])) anything o
            → Meets (always AllReady) anything o
        finished (ok a, w) p = record {
          valid = p.valid;
          ready_ok = λ k r g t. elim (p.covered k r g t) [ inl q ↦ q | inr m ↦ absurd m ];
        }
        finished (err e, w) p = tt

-- When `Recover` returns without an error on a database of valid records, every record that is
-- ready passes the quick test of its directory, whatever the journals were before.
pub recover-AllReady :
    (env : Env) (w w' : World) → DbValid w.db → recover env w ≡ (ok tt, w') → AllReady w'.db w'.dirs
recover-AllReady env w w' d e =
    subst (λ (o : Result (Unit {0}) × World). Meets (always AllReady) anything o) e
      ((recover_lem env).at w d)
