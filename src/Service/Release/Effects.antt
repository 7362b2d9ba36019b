-- ===== src/Service/Release/Effects.antt =====
-- `Release` of internal/app/service.go, the record that it writes.
use mathlib.Core.Path.{subst}
use oci2gdsd.Prelude.{
  ℕ, ◌==◌, ◌≡◌, ◌≢◌, refl, ◌∙◌, ap, Bool, true, false, not, ◌&&◌, ◌||◌, Option, none, some, [], ◌∷◌,
  length, Text, is_empty, trim_space, trim_left, trim_right, text_eq_refl, text_eq_iff, Map,
  if◌then◌else◌, arith,
}
use oci2gdsd.Model.{ready, releasing, external_status, ext_ready}
use oci2gdsd.Names.{model_key}
use oci2gdsd.Store
use oci2gdsd.Store.{ModelRecord, Lease, StateDb, has_lease, release_lease}
use oci2gdsd.Store.Leases.{has_lease-release_lease}
use oci2gdsd.Store.Laws.{DbValid, get-put, get-valid}
use oci2gdsd.Service.State.{
  ModelDir, World, Env, Result, ok, ◌>>=◌, ◌>>◌, pure, raise, within_root, corrupt, store_put,
}
use oci2gdsd.Service.Hoare.{
  Cond, Meets, Triple, anything, bind, if_lem, pure_lem, raise_lem, relax, strengthen, now_lem,
  store_get_lem, store_put_returns,
}
use oci2gdsd.Service.Lookup.{invalid, model_id_ok, blank_text}
use oci2gdsd.Service.Effects.{acquire_lem}
use oci2gdsd.Service.Release.{ReleaseResult, release_last, release_record, release_found, release}

same_record : {a b : ModelRecord} → ◌≡◌ {A = Option ModelRecord} (some a) (some b) → a ≡ b
same_record h = cc

-- The record of a key is ready, without a lease of the holder, with so many leases.
pub record Handed (key holder : Text) (res : ReleaseResult) (db : StateDb) (ds : Map ModelDir)
    : Type 0 where
  pub found : ModelRecord
  pub there : Store.get key db ≡ some found
  pub ready_again : found.status ≡ ready
  pub dropped : has_lease holder found.leases ≡ false
  pub counted : res.remaining_leases ≡ length found.leases
  pub told : res.status ≡ ext_ready

module _ (env : Env) (k holder : Text) where
  put_ready :
      (s : ModelRecord) (n : ℕ)
      → s.key ≡ k
      → s.status ≡ ready
      → has_lease holder s.leases ≡ false
      → n ≡ length s.leases
      → Triple anything
          (store_put env s
            >> pure (record { status = external_status s.status; remaining_leases = n }))
          (Handed k holder)
          anything
  unfolding Store.stamp external_status
  put_ready s n same is_so gone count =
      bind _ _
        (store_put_returns env
          {Q = Handed k holder (record { status = external_status s.status; remaining_leases = n })}
          s
          (λ db ds at p. record {
            found = Store.stamp at s;
            there = rw (get-put at s db k, (text_eq_iff s.key k).1 same) refl;
            ready_again = is_so;
            dropped = gone;
            counted = count;
            told = rw is_so refl;
          }))
        λ s'. pure_lem _ (λ db ds p. p)

  -- What is written after the lease is dropped, with or without others.
  put_dropped :
      {P : Cond} (at : ℕ) (rec : ModelRecord) (n : ℕ) (last : Bool)
      → rec.key ≡ k
      → has_lease holder rec.leases ≡ false
      → n ≡ length rec.leases
      → Triple P
          (do
            rec' ←
                (if last
                  then release_last env false at rec
                  else pure
                      (record rec { status = ready; releasable = false; releasable_at = none }))
            store_put env rec'
            pure (record { status = external_status rec'.status; remaining_leases = n }))
          (Handed k holder)
          anything
  unfolding release_last
  put_dropped at rec n true same gone count =
      strengthen _ (λ db ds p. tt)
        (put_ready (record rec { releasable = true; releasable_at = some at; status = ready }) n
          same refl gone count)
  put_dropped at rec n false same gone count =
      strengthen _ (λ db ds p. tt)
        (put_ready (record rec { status = ready; releasable = false; releasable_at = none }) n same
          refl gone count)

  dropped_key : (at : ℕ) (r : ModelRecord) → (release_lease at holder r).0.key ≡ r.key
  unfolding release_lease
  dropped_key at r = ground arith

  release_record_lem :
      {P : Cond} (r : ModelRecord)
      → r.key ≡ k
      → holder ≢ []
      → Triple P (release_record env holder false r) (Handed k holder) anything
  unfolding release_record
  release_record_lem r same n =
      if_lem (not (is_empty r.path) && not (within_root env r.path)) (raise corrupt) _
        (λ _. raise_lem corrupt (λ db ds p. tt))
        λ _. bind _ _ (relax _ (λ db ds p. tt) (now_lem env)) λ read.
          let r' : ModelRecord = record r { status = releasing } in
          let rec = release_lease read holder r' in
          let left = has_lease-release_lease read holder r' holder n in
          let gone = rw (text_eq_refl holder) at left.0 in
          bind _ _ (relax _ (λ db ds p. tt) (now_lem env))
            λ at. put_dropped at rec.0 rec.1 (rec.1 == 0) (dropped_key read r' ∙ same) gone left.1

unnamed : blank_text [] ≡ false → ⊥
unfolding blank_text is_empty trim_space trim_left trim_right
unnamed h = cc

named_holder : (holder : Text) → blank_text holder ≡ false → holder ≢ []
named_holder [] b = absurd (unnamed b)
named_holder (c ∷ cs) b = λ e. cc

release_found_lem :
    (env : Env) (k holder : Text) (r : ModelRecord) (found : Option ModelRecord)
    → r.key ≡ k
    → holder ≢ []
    → Triple
        (λ db ds. (Store.get k db ≡ some r) × (found ≡ Store.get k db))
        (release_found env holder false found)
        (Handed k holder)
        anything
unfolding release_found
release_found_lem env k holder r none same n = record { at = λ w p. absurd (ground arith) }
release_found_lem env k holder r (some s) same n = record {
  at = λ w p.
      (release_record_lem env k holder {P = anything} s
          (ap (λ (m : ModelRecord). m.key) (same_record (p.1 ∙ p.0)) ∙ same) n).at
        w tt;
}

release_lem :
    (env : Env) (id digest holder : Text) (r : ModelRecord)
    → r.key ≡ model_key id digest
    → Triple
        (λ db ds. Store.get (model_key id digest) db ≡ some r)
        (release env id digest holder false)
        (Handed (model_key id digest) holder)
        anything
unfolding release
release_lem env id digest holder r same =
    if_lem (blank_text id || blank_text digest) (raise invalid) _
      (λ _. raise_lem invalid (λ db ds p. tt))
      λ _.
        if_lem (not (model_id_ok env id)) (raise invalid) _ (λ _. raise_lem invalid (λ db ds p. tt))
          λ _.
            if_lem (blank_text holder) (raise invalid) _ (λ _. raise_lem invalid (λ db ds p. tt))
              λ b. bind _ _ (relax _ (λ db ds p. tt) (acquire_lem env true)) λ got.
                bind _ _ (relax _ (λ db ds p. tt) (store_get_lem env (model_key id digest)))
                  λ found.
                    release_found_lem env (model_key id digest) holder r found same
                      (named_holder holder b)

-- When `Release` without cleanup returns for a record of a valid database, the record is ready,
-- whatever its status was, and holds no lease of the holder; the result is the external status and
-- the number of the leases that are left.
pub release-Handed :
    (env : Env) (id digest holder : Text) (r : ModelRecord) (res : ReleaseResult) (w w' : World)
    → DbValid w.db
    → Store.get (model_key id digest) w.db ≡ some r
    → release env id digest holder false w ≡ (ok res, w')
    → Handed (model_key id digest) holder res w'.db w'.dirs
release-Handed env id digest holder r res w w' d g e =
    subst
      (λ (o : Result ReleaseResult × World). Meets (Handed (model_key id digest) holder) anything o)
      e ((release_lem env id digest holder r (get-valid (model_key id digest) d g).0).at w g)
