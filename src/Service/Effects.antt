-- ===== src/Service/Effects.antt =====
-- The rules for locking and for removing a model directory (internal/app/service.go and lock.go).
use oci2gdsd.Prelude.{
  ◌≡◌, Bool, true, false, none, [], ◌∷◌, Text, text_eq, text_eq_iff, Map, lookup, arith,
  if◌then◌else◌, Bool-cases, inl, inr,
}
use oci2gdsd.Store.{StateDb}
use oci2gdsd.Paths.{ensure_under_root, passes}
use oci2gdsd.Service.State.{
  ModelDir, World, Env, LockAnswer, locked, busy, lock_error, Result, pure, raise, tick, io_error,
}
use oci2gdsd.Service.Hoare.{Cond, Meets, Triple, always, settled}
use oci2gdsd.Service.Lookup.{at_or_below, without_dir, remove_all, safe_remove_all}
use oci2gdsd.Service.Release.{acquire}

pub lookup-without_dir :
    (path p : Text) (ds : Map ModelDir)
    → lookup p (without_dir path ds) ≡ (if at_or_below path p then none else lookup p ds)
unfolding lookup without_dir
lookup-without_dir path p [] = ground arith
lookup-without_dir path p ((q, d) ∷ ds) = elim (Bool-cases (text_eq q p)) [
  | inl e ↦
      rw ((text_eq_iff q p).0 e) (ground (arith, lookup-without_dir path p ds, text_eq_iff p p))
  | inr n ↦ ground (arith, lookup-without_dir path p ds)
]

answered :
    (P : Cond) (a : LockAnswer) (w : World)
    → P w.db w.dirs
    → Meets (always P) P (elim a as (λ _. Result Bool × World) [
      | locked ↦ pure true (tick w)
      | busy ↦ pure false (tick w)
      | lock_error e ↦ raise e (tick w)
    ])
answered P locked w p = p
answered P busy w p = p
answered P (lock_error e) w p = p

module _ (env : Env) {P : Cond} where
  pub acquire_lem : (wait : Bool) → Triple P (acquire env wait) (always P) P
  unfolding acquire
  acquire_lem wait = record { at = λ w p. answered P (env.lock w.calls wait) w p }

module _ (env : Env) {P Q : Cond} where
  -- Either nothing is removed, or the directory and all below it.
  pub safe_remove_all_lem :
      (root path : Text)
      → ((db : StateDb) (ds : Map ModelDir) → P db ds → Q db ds)
      → ((db : StateDb) (ds : Map ModelDir) → P db ds → Q db (without_dir path ds))
      → Triple P (safe_remove_all env root path) (always Q) Q
  unfolding safe_remove_all remove_all
  safe_remove_all_lem root path u h = record {
    at = λ w p. elim (Bool-cases (passes (ensure_under_root env.links root path))) [
      | inl e ↦
          rw e (settled Q (env.outcome w.calls) io_error tt _ _ (u w.db w.dirs p) (h w.db w.dirs p))
      | inr e ↦ rw e (u w.db w.dirs p)
    ];
  }
