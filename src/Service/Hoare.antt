-- ===== src/Service/Hoare.antt =====
-- Conditions before and after the operations of internal/app/service.go, with a rule for each way
-- to build one and for each effect. A condition speaks of the state database and the directories.
use oci2gdsd.Prelude.{
  ℕ, ◌≡◌, refl, Bool, true, false, none, some, List, [], Text, Map, lookup, if◌then◌else◌,
  Bool-cases, inl, inr,
}
use oci2gdsd.AppErr.{AppError}
use oci2gdsd.Names.{journal_name}
use oci2gdsd.Store
use oci2gdsd.Store.{ModelRecord, StateDb}
use oci2gdsd.Service.State.{
  Marker, ModelDir, World, Env, Result, ok, err, M, after, ◌>>=◌, pure, raise, if_dirs, try, tick,
  settle, finish_write, io_error, Outcome, is_fine, fine, load_failed, write_failed, failed_late,
  now, store_get, store_list, store_put, journal_append, journal_markers, journal_delete,
  store_clear_allocations,
}

abbrev pub Cond : Type 1
Cond = StateDb → Map ModelDir → Type 0

-- What is asked of a result and of the world beside it.
abbrev pub Meets : {A : Type 0} → (A → Cond) → Cond → Result A × World → Type 0
Meets Q E (ok a, w) = Q a w.db w.dirs
Meets Q E (err e, w) = E w.db w.dirs

-- From `P`, a result satisfies `Q` and an error leaves `E`.
pub record Triple {A : Type 0} (P : Cond) (m : M A) (Q : A → Cond) (E : Cond) : Type 0 where
  pub at : (w : World) → P w.db w.dirs → Meets Q E (m w)

abbrev pub always : {A : Type 0} → Cond → A → Cond
always P _ = P

module _ {A B : Type 0} {Q : A → Cond} {R : B → Cond} {E : Cond} where
  after-bind :
      (f : A → M B) (r : Result A × World)
      → ((a : A) → Triple (Q a) (f a) R E)
      → Meets Q E r
      → Meets R E (after r.0 f r.1)
  after-bind f (ok a, w) k h = (k a).at w h
  after-bind f (err e, w) k h = h

  pub bind :
      {P : Cond} (m : M A) (f : A → M B)
      → Triple P m Q E
      → ((a : A) → Triple (Q a) (f a) R E)
      → Triple P (m >>= f) R E
  bind m f t k = record { at = λ w p. after-bind f (m w) k (t.at w p) }

module _ {A : Type 0} {P : Cond} {Q : A → Cond} {E : Cond} where
  pub pure_lem :
      (a : A) → ((db : StateDb) (ds : Map ModelDir) → P db ds → Q a db ds) → Triple P (pure a) Q E
  pure_lem a h = record { at = λ w. h w.db w.dirs }

  pub raise_lem :
      (e : AppError)
      → ((db : StateDb) (ds : Map ModelDir) → P db ds → E db ds)
      → Triple P (raise {A = A} e) Q E
  raise_lem e h = record { at = λ w. h w.db w.dirs }

  -- A precondition that serves in place of a stronger one.
  pub strengthen :
      {P' : Cond} (m : M A)
      → ((db : StateDb) (ds : Map ModelDir) → P' db ds → P db ds)
      → Triple P m Q E
      → Triple P' m Q E
  strengthen m h t = record { at = λ w p. t.at w (h w.db w.dirs p) }

caught : {A : Type 0} (Q : Cond) (r : Result A × World) → Meets (always Q) Q r → Q r.1.db r.1.dirs
caught Q (ok a, w) x = x
caught Q (err e, w) x = x

module _ {A : Type 0} {P Q E : Cond} where
  -- Where the error is caught, both ends lead on.
  pub try_lem : (m : M A) → Triple P m (always Q) Q → Triple P (try m) (always Q) E
  try_lem m t = record { at = λ w p. caught Q (m w) (t.at w p) }

module _ {A : Type 0} (Q : Cond) where
  -- However a writing call ends, it leaves the old or the new world.
  pub settled :
      (o : Outcome) (e : AppError) (a : A) (old new : World)
      → Q old.db old.dirs
      → Q new.db new.dirs
      → Meets (always Q) Q (settle o e a old new)
  settled fine e a old new p q = q
  settled load_failed e a old new p q = p
  settled write_failed e a old new p q = p
  settled failed_late e a old new p q = q

  pub written :
      (o : Outcome) (a : A) (change : StateDb → StateDb) (w : World)
      → Q w.db w.dirs
      → Q (change w.db) w.dirs
      → Meets (always Q) Q (finish_write o a change w)
  written fine a change w p q = q
  written load_failed a change w p q = p
  written write_failed a change w p q = p
  written failed_late a change w p q = q

module _ {A : Type 0} (Q : A → Cond) {E : Cond} where
  relaxed :
      {E' : Cond} (r : Result A × World)
      → ((db : StateDb) (ds : Map ModelDir) → E db ds → E' db ds)
      → Meets Q E r
      → Meets Q E' r
  relaxed (ok a, w) h q = q
  relaxed (err e, w) h q = h w.db w.dirs q

module _ {A : Type 0} {P : Cond} {Q : A → Cond} {E : Cond} where
  -- A weaker condition on errors.
  pub relax :
      {E' : Cond} (m : M A)
      → ((db : StateDb) (ds : Map ModelDir) → E db ds → E' db ds)
      → Triple P m Q E
      → Triple P m Q E'
  relax m h t = record { at = λ w p. relaxed Q {E = E} (m w) h (t.at w p) }

-- What is known beside the invariant is a hypothesis of what follows.
pub known :
    {A : Type 0} {P : Cond} {Q : A → Cond} {E : Cond} {F : Type 0} (m : M A)
    → (F → Triple P m Q E)
    → Triple (λ db ds. P db ds × F) m Q E
known m t = record { at = λ w p. (t p.1).at w p.0 }

module _ {A : Type 0} {Q Q' : A → Cond} where
  Meets-weaken :
      (E : Cond) (r : Result A × World)
      → ((a : A) (db : StateDb) (ds : Map ModelDir) → Q a db ds → Q' a db ds)
      → Meets Q E r
      → Meets Q' E r
  Meets-weaken E (ok a, w) h q = h a w.db w.dirs q
  Meets-weaken E (err e, w) h q = q

  -- A weaker condition on results.
  pub weaken :
      {P E : Cond} (m : M A)
      → ((a : A) (db : StateDb) (ds : Map ModelDir) → Q a db ds → Q' a db ds)
      → Triple P m Q E
      → Triple P m Q' E
  weaken m h t = record { at = λ w p. Meets-weaken _ (m w) h (t.at w p) }

module _ {A : Type 0} {P : Cond} {Q : A → Cond} {E : Cond} where
  pub if_lem :
      (b : Bool) (m n : M A)
      → (b ≡ true → Triple P m Q E)
      → (b ≡ false → Triple P n Q E)
      → Triple P (if b then m else n) Q E
  if_lem true m n t f = t refl
  if_lem false m n t f = f refl

  pub if_dirs_lem :
      (p : Map ModelDir → Bool) (m n : M A)
      → Triple (λ db ds. P db ds × (p ds ≡ true)) m Q E
      → Triple (λ db ds. P db ds × (p ds ≡ false)) n Q E
      → Triple P (if_dirs p m n) Q E
  if_dirs_lem p m n t f = record {
    at = λ w h. elim (Bool-cases (p w.dirs)) [
      | inl e ↦ rw e (t.at w (h, e))
      | inr e ↦ rw e (f.at w (h, e))
    ];
  }

module _ (env : Env) {P : Cond} where
  pub now_lem : Triple P (now env) (always P) P
  unfolding now
  now_lem = record { at = λ w p. p }

  -- `Get` changes nothing, and returns what is in the database.
  pub store_get_lem :
      (key : Text) → Triple P (store_get env key) (λ o db ds. P db ds × (o ≡ Store.get key db)) P
  unfolding store_get
  store_get_lem key = record {
    at = λ w p. elim (Bool-cases (is_fine (env.outcome w.calls))) [
      | inl e ↦ rw e (p, refl)
      | inr e ↦ rw e p
    ];
  }

  pub store_list_lem : Triple P (store_list env) (λ rs db ds. P db ds × (rs ≡ Store.list db)) P
  unfolding store_list
  store_list_lem = record {
    at = λ w p. elim (Bool-cases (is_fine (env.outcome w.calls))) [
      | inl e ↦ rw e (p, refl)
      | inr e ↦ rw e p
    ];
  }

  pub journal_markers_lem :
      (id digest : Text) → Triple P (journal_markers env id digest) (always P) P
  unfolding journal_markers
  journal_markers_lem id digest = record {
    at = λ w p.
        elim (lookup (journal_name id digest) w.journals)
          as (λ o. Meets (always P) P (elim o as (λ _. Result (List Marker) × World) [
            | none ↦ (ok [], tick w)
            | some ms ↦
                if is_fine (env.outcome w.calls) then (ok ms, tick w) else (err io_error, tick w)
          ])) [
            | none ↦ p
            | some ms ↦
                elim (is_fine (env.outcome w.calls))
                  as (λ b.
                    Meets (always P) P (if b then (ok ms, tick w) else (err io_error, tick w))) [
                      | true ↦ p
                      | false ↦ p
                    ]
          ];
  }

  pub journal_delete_lem : (id digest : Text) → Triple P (journal_delete env id digest) (always P) P
  unfolding journal_delete
  journal_delete_lem id digest = record {
    at = λ w p. settled P (env.outcome w.calls) io_error tt _ _ p p;
  }

  pub journal_append_lem :
      (id digest : Text) (m : Marker) → Triple P (journal_append env id digest m) (always P) P
  unfolding journal_append
  journal_append_lem id digest m = record {
    at = λ w p. settled P (env.outcome w.calls) io_error tt _ _ p p;
  }

module _ (env : Env) {P Q : Cond} where
  -- `Put` fails with the database as it was or with the record written; it returns only then.
  pub store_put_lem :
      (r : ModelRecord)
      → ((db : StateDb) (ds : Map ModelDir) → P db ds → Q db ds)
      → ((db : StateDb) (ds : Map ModelDir) (at : ℕ) → P db ds → Q (Store.put at r db) ds)
      → Triple P (store_put env r) (always Q) Q
  unfolding store_put
  store_put_lem r u h = record {
    at = λ w p.
        written Q (env.outcome w.calls) _ (Store.put (env.clock w.calls) r) w (u w.db w.dirs p)
          (h w.db w.dirs (env.clock w.calls) p);
  }

-- Nothing is asked of an error.
abbrev pub anything : Cond
anything db ds = Unit

written_ok :
    {A : Type 0} (Q : Cond) (o : Outcome) (a : A) (change : StateDb → StateDb) (w : World)
    → Q (change w.db) w.dirs
    → Meets (always Q) anything (finish_write o a change w)
written_ok Q fine a change w q = q
written_ok Q load_failed a change w q = tt
written_ok Q write_failed a change w q = tt
written_ok Q failed_late a change w q = tt

module _ (env : Env) {P Q : Cond} where
  -- Where `Put` returns, the record is written.
  pub store_put_returns :
      (r : ModelRecord)
      → ((db : StateDb) (ds : Map ModelDir) (at : ℕ) → P db ds → Q (Store.put at r db) ds)
      → Triple P (store_put env r) (always Q) anything
  unfolding store_put
  store_put_returns r h = record {
    at = λ w p.
        written_ok Q (env.outcome w.calls) _ (Store.put (env.clock w.calls) r) w
          (h w.db w.dirs (env.clock w.calls) p);
  }

  pub store_clear_allocations_returns :
      ((db : StateDb) (ds : Map ModelDir) → P db ds → Q (Store.clear_allocations db) ds)
      → Triple P (store_clear_allocations env) (always Q) anything
  unfolding store_clear_allocations
  store_clear_allocations_returns h = record {
    at = λ w p. written_ok Q (env.outcome w.calls) tt Store.clear_allocations w (h w.db w.dirs p);
  }

put_finished :
    (Q : ModelRecord → Cond) (E : Cond) (r : ModelRecord) (o : Outcome) (at : ℕ) (w : World)
    → E w.db w.dirs
    → E (Store.put at r w.db) w.dirs
    → Q (Store.stamp at r) (Store.put at r w.db) w.dirs
    → Meets Q E (finish_write o (Store.stamp at r) (Store.put at r) w)
put_finished Q E r fine at w e f q = q
put_finished Q E r load_failed at w e f q = e
put_finished Q E r write_failed at w e f q = e
put_finished Q E r failed_late at w e f q = f

module _ (env : Env) {P : Cond} {Q : ModelRecord → Cond} {E : Cond} where
  -- `Put` with what is known of the record that it returns.
  pub store_put_stamped :
      (r : ModelRecord)
      → ((db : StateDb) (ds : Map ModelDir) → P db ds → E db ds)
      → ((db : StateDb) (ds : Map ModelDir) (at : ℕ) → P db ds → E (Store.put at r db) ds)
      → ((db : StateDb) (ds : Map ModelDir) (at : ℕ)
          → P db ds
          → Q (Store.stamp at r) (Store.put at r db) ds)
      → Triple P (store_put env r) Q E
  unfolding store_put
  store_put_stamped r u f h = record {
    at = λ w p.
        put_finished Q E r (env.outcome w.calls) (env.clock w.calls) w (u w.db w.dirs p)
          (f w.db w.dirs (env.clock w.calls) p) (h w.db w.dirs (env.clock w.calls) p);
  }
