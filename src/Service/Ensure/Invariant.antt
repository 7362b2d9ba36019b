-- ===== src/Service/Ensure/Invariant.antt =====
-- What `Ensure` of internal/app/service.go is to keep of ready records and their files.
use oci2gdsd.Prelude.{
  ℕ, ◌≡◌, refl, ◌∙◌, Bool, true, false, Option, some, Text, text_eq, text_eq_iff, Map, lookup,
  insert, lookup-insert, Bool-cases, inl, inr,
}
use oci2gdsd.Store
use oci2gdsd.Store.{ModelRecord, StateDb}
use oci2gdsd.Store.Leases.{LeasesValid}
use oci2gdsd.Store.Laws.{DbValid, put-DbValid, get-put}
use oci2gdsd.Service.State.{ModelDir, Env}
use oci2gdsd.Service.Verify.{verified, verify_with, verify_published_path}
use oci2gdsd.Service.Recover.{is_ready}

-- Every record that is ready has a path that verifies.
pub record AllVerified (env : Env) (db : StateDb) (ds : Map ModelDir) : Type 0 where
  pub valid : DbValid db
  pub ready_ok :
      (k : Text) (r : ModelRecord)
      → Store.get k db ≡ some r
      → is_ready r.status ≡ true
      → verify_published_path env r.path ds ≡ verified

same_value : {a b : ModelRecord} → ◌≡◌ {A = Option ModelRecord} (some a) (some b) → a ≡ b
same_value h = cc

pub true_and_false : {b : Bool} → b ≡ false → b ≡ true → ⊥
true_and_false f t = cc

pub stamp_keeps :
    (at : ℕ) (r : ModelRecord)
    → ((Store.stamp at r).status ≡ r.status)
      × ((Store.stamp at r).path ≡ r.path)
      × ((Store.stamp at r).leases ≡ r.leases)
      × ((Store.stamp at r).key ≡ r.key)
unfolding Store.stamp
stamp_keeps at r = (refl, refl, refl, refl)

-- A directory is verified by what stands at its path.
verify_same :
    (env : Env) (path : Text) (ds ds' : Map ModelDir)
    → lookup path ds ≡ lookup path ds'
    → verify_published_path env path ds ≡ verify_published_path env path ds'
unfolding verify_published_path verify_with
verify_same env path ds ds' h = rw h

module _ (env : Env) where
  pub put-AllVerified :
      (at : ℕ) (r : ModelRecord) {db : StateDb} {ds : Map ModelDir}
      → LeasesValid r
      → (is_ready r.status ≡ true → verify_published_path env r.path ds ≡ verified)
      → AllVerified env db ds
      → AllVerified env (Store.put at r db) ds
  put-AllVerified at r {db} v h p = record {
    valid = put-DbValid at r v p.valid;
    ready_ok = λ k s g t. elim (Bool-cases (text_eq r.key k)) [
      | inl e ↦
          let q = same_value (rw (get-put at r db k, e) at g) in
          let kept = stamp_keeps at r in rw (← q) (rw kept.1 (h (rw (← kept.0) (rw q t))))
      | inr n ↦ p.ready_ok k s (rw (get-put at r db k, n) at g) t
    ];
  }

  pub insert-AllVerified :
      (path : Text) (dir : ModelDir) {db : StateDb} {ds : Map ModelDir}
      → verify_published_path env path (insert path dir ds) ≡ verified
      → AllVerified env db ds
      → AllVerified env db (insert path dir ds)
  insert-AllVerified path dir {ds = ds} v p = record {
    valid = p.valid;
    ready_ok = λ k s g t. elim (Bool-cases (text_eq path s.path)) [
      | inl e ↦ rw (← (text_eq_iff path s.path).0 e) v
      | inr n ↦
          verify_same env s.path (insert path dir ds) ds (rw (lookup-insert path s.path dir ds, n))
          ∙ p.ready_ok k s g t
    ];
  }
