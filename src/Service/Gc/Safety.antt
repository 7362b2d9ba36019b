-- ===== src/Service/Gc/Safety.antt =====
-- What `GC` of internal/app/service.go does to a record that is leased, and to its directory.
use oci2gdsd.Prelude.{
  ℕ, ◌≡◌, ◌≢◌, refl, sym, ◌∙◌, Bool, true, false, Option, none, some, List, [], ◌∷◌, Text, text_eq,
  text_eq_iff, is_empty, Map, lookup, ◌++◌, ℤ, ◌+ℤ◌, wrap_int64, leb_ℤ, sort_slice, arith,
  Bool-cases, inl, inr,
}
use oci2gdsd.AppErr.{AppError}
use oci2gdsd.Names.{model_key}
use oci2gdsd.Store
use oci2gdsd.Store.{ModelRecord, StateDb, Lease}
use oci2gdsd.Store.Leases.{LeasesValid}
use oci2gdsd.Store.Laws.{DbValid, put-DbValid, get-valid, get-put}
use oci2gdsd.Service.State.{
  ModelDir, World, Env, Result, ok, err, within_root, corrupt, io_error, tick, is_fine, store_list,
}
use oci2gdsd.Service.Hoare.{
  Meets, Triple, always, bind, if_lem, if_dirs_lem, pure_lem, raise_lem, try_lem, now_lem,
  store_get_lem, store_list_lem, store_put_lem, journal_delete_lem,
}
use oci2gdsd.Service.Lookup.{at_or_below, without_dir}
use oci2gdsd.Service.Effects.{lookup-without_dir, acquire_lem, safe_remove_all_lem}
use oci2gdsd.Service.Gc.{
  eligible, collected, collect, collect_found, collect_locked, gc_one, gc_loop, gc_counted,
  gc_finish, gc_run, gc_listed, gc, GcResult, gc_empty, gc_less, candidates, effective_policy,
  lru_no_lease,
}

-- The record of a key is there with its directory, and no other record has a path above it.
pub record Kept (k : Text) (r : ModelRecord) (dir : Option ModelDir) (db : StateDb)
    (ds : Map ModelDir) : Type 0 where
  pub valid : DbValid db
  pub there : Store.get k db ≡ some r
  pub apart :
      (j : Text) (s : ModelRecord)
      → Store.get j db ≡ some s
      → j ≢ k
      → is_empty s.path ≡ false
      → at_or_below s.path r.path ≡ false
  pub kept_dir : lookup r.path ds ≡ dir

stamped_path :
    (at : ℕ) (s t : ModelRecord)
    → is_empty s.path ≡ true
    → ◌≡◌ {A = Option ModelRecord} (some (Store.stamp at s)) (some t)
    → is_empty t.path ≡ false
    → ⊥
unfolding Store.stamp
stamped_path at s t e h p = ground arith

module _ (k : Text) (r : ModelRecord) (dir : Option ModelDir) where
  put-Kept :
      (at : ℕ) (s : ModelRecord) {db : StateDb} {ds : Map ModelDir}
      → s.key ≢ k
      → LeasesValid s
      → is_empty s.path ≡ true
      → Kept k r dir db ds
      → Kept k r dir (Store.put at s db) ds
  put-Kept at s {db} n v e h = record {
    valid = put-DbValid at s v h.valid;
    there = ground (arith, get-put at s db k, text_eq_iff s.key k, h.there);
    apart = λ j t g m p. elim (Bool-cases (text_eq s.key j)) [
      | inl same ↦ absurd (stamped_path at s t e (rw (get-put at s db j, same) at g) p)
      | inr other ↦ h.apart j t (rw (get-put at s db j, other) at g) m p
    ];
    kept_dir = h.kept_dir;
  }

  without_dir-Kept :
      (path : Text) {db : StateDb} {ds : Map ModelDir}
      → at_or_below path r.path ≡ false
      → Kept k r dir db ds
      → Kept k r dir db (without_dir path ds)
  without_dir-Kept path {ds = ds} a h = record {
    valid = h.valid;
    there = h.there;
    apart = h.apart;
    kept_dir = rw (lookup-without_dir path r.path ds, a) h.kept_dir;
  }

empty_list : (ls : List Lease) → is_empty ls ≡ true → ls ≡ []
unfolding is_empty
empty_list [] h = refl
empty_list (l ∷ ls) h = cc

-- What is known of a record that GC has found eligible, beside a leased one.
record Collectable (k : Text) (r rec : ModelRecord) : Type 0 where
  other : rec.key ≢ k
  leases_valid : LeasesValid rec
  no_leases : is_empty rec.leases ≡ true
  below : at_or_below rec.path r.path ≡ false

collected-LeasesValid :
    (at : ℕ) (rec : ModelRecord)
    → is_empty rec.leases ≡ true
    → LeasesValid rec
    → LeasesValid (collected at rec)
collected-LeasesValid at rec e v = record {
  distinct = v.distinct;
  named = v.named;
  held = λ n. absurd (n (empty_list rec.leases e));
}

module _ (env : Env) (k : Text) (r : ModelRecord) (dir : Option ModelDir) where
  collect-Kept :
      (rec : ModelRecord)
      → Collectable k r rec
      → Triple (Kept k r dir) (collect env rec) (always (Kept k r dir)) (Kept k r dir)
  unfolding collect is_empty
  collect-Kept rec c =
      bind _ _
        (safe_remove_all_lem env env.model_root rec.path (λ db ds h. h)
          (λ db ds h. without_dir-Kept k r dir rec.path c.below h))
        λ _. bind _ _ (now_lem env) λ at.
          bind _ _
            (store_put_lem env (collected at rec) (λ db ds h. h)
              (λ db ds t h.
                put-Kept k r dir t (collected at rec) c.other
                  (collected-LeasesValid at rec c.no_leases c.leases_valid) refl h))
            λ _.
              bind _ _ (try_lem _ (journal_delete_lem env rec.model_id rec.manifest_digest))
                λ _. pure_lem tt (λ db ds h. h)

leased_differs :
    (k key : Text) (r rec : ModelRecord) (db : StateDb)
    → r.leases ≢ []
    → is_empty rec.leases ≡ true
    → Store.get k db ≡ some r
    → Store.get key db ≡ some rec
    → key ≢ k
leased_differs k key r rec db leased e g g' same =
    let same_rec : rec ≡ r = cc (g, g', same) in leased (rw (← same_rec) (empty_list rec.leases e))

eligible_parts :
    (ds : Map ModelDir) (rec : ModelRecord)
    → eligible rec ds ≡ true
    → (is_empty rec.leases ≡ true) × (is_empty rec.path ≡ false)
unfolding eligible
eligible_parts ds rec h = ground arith

found-Collectable :
    (k key : Text) (r rec : ModelRecord) (dir : Option ModelDir) (db : StateDb) (ds : Map ModelDir)
    → r.leases ≢ []
    → eligible rec ds ≡ true
    → Kept k r dir db ds
    → Store.get key db ≡ some rec
    → Collectable k r rec
found-Collectable k key r rec dir db ds leased e h g =
    let parts = eligible_parts ds rec e in
    let own = get-valid key h.valid g in
    let differs = leased_differs k key r rec db leased parts.0 h.there g in
    record {
      other = λ same. differs (sym own.0 ∙ same);
      leases_valid = own.1;
      no_leases = parts.0;
      below = h.apart key rec g differs parts.1;
    }

module _ (env : Env) (k : Text) (r : ModelRecord) (dir : Option ModelDir)
    (leased : r.leases ≢ []) where
  collect_found-Kept :
      (dry : Bool) (key : Text) (o : Option ModelRecord)
      → Triple
          (λ db ds. Kept k r dir db ds × (o ≡ Store.get key db))
          (collect_found env dry o)
          (always (Kept k r dir))
          (Kept k r dir)
  unfolding collect_found
  collect_found-Kept dry key none = pure_lem none (λ db ds p. p.0)
  collect_found-Kept dry key (some rec) =
      if_lem (within_root env rec.path) _ _
        (λ _.
          if_dirs_lem (eligible rec) _ _
            (if_lem dry _ _ (λ _. pure_lem _ (λ db ds p. p.0.0))
              (λ _.
                bind _ _
                  (record {
                    at = λ w p.
                        (collect-Kept env k r dir rec (
                            found-Collectable k key r rec dir w.db w.dirs leased p.1 p.0.0
                              (sym p.0.1))).at
                          w p.0.0;
                  })
                  (λ _. pure_lem _ (λ db ds p. p))))
            (pure_lem none (λ db ds p. p.0.0)))
        (λ _. raise_lem corrupt (λ db ds p. p.0))

  gc_one-Kept :
      (dry : Bool) (key : Text)
      → Triple (Kept k r dir) (gc_one env dry key) (always (Kept k r dir)) (Kept k r dir)
  unfolding gc_one collect_locked
  gc_one-Kept dry key = bind _ _ (acquire_lem env false) (elim [
    | true ↦ bind _ _ (store_get_lem env key) (λ o. collect_found-Kept dry key o)
    | false ↦ pure_lem none (λ db ds p. p)
  ])

  gc_loop-Kept :
      (dry : Bool) (target : ℤ) (res : GcResult) (free : ℤ) (cs : List ModelRecord) (w : World)
      → Kept k r dir w.db w.dirs
      → let w' = (gc_loop env dry target res free cs w).1 in Kept k r dir w'.db w'.dirs
  unfolding gc_loop
  gc_loop-Kept dry target res free [] w h = h
  gc_loop-Kept dry target res free (c ∷ cs) w h = elim (Bool-cases (leb_ℤ target free)) [
    | inl e ↦ rw e h
    | inr e ↦ rw e (
        next (gc_one env dry key w) ((gc_one-Kept dry key).at w h)
          (λ res' free' w'. gc_loop-Kept dry target res' free' cs w'))
  ]
    where
      key : Text
      key = model_key c.model_id c.manifest_digest

      next :
          (o : Result (Option ℤ) × World)
          → Meets (always (Kept k r dir)) (Kept k r dir) o
          → ((res' : GcResult) (free' : ℤ) (w' : World)
              → Kept k r dir w'.db w'.dirs
              → let w'' = (gc_loop env dry target res' free' cs w').1 in
                Kept k r dir w''.db w''.dirs)
          → let w'' =
              (let more = λ (bytes : ℤ).
                  gc_loop env dry target
                    (record res {
                      deleted_models = res.deleted_models ++ key ∷ [];
                      bytes_freed = wrap_int64 (res.bytes_freed +ℤ bytes);
                    })
                    (wrap_int64 (free +ℤ bytes))
                    cs
                    o.1 in
                let out : (GcResult × Option AppError) × World = elim o.0 [
                  | err e ↦ ((res, some e), o.1)
                  | ok none ↦ gc_loop env dry target res free cs o.1
                  | ok (some bytes) ↦ more bytes
                ] in
                out).1 in
            Kept k r dir w''.db w''.dirs
      next (err e, w') p ih = p
      next (ok none, w') p ih = ih _ _ w' p
      next (ok (some bytes), w') p ih = ih _ _ w' p

  gc_counted-Kept :
      (res : GcResult) (o : Result (List ModelRecord) × World)
      → Kept k r dir o.1.db o.1.dirs
      → let w' = (gc_counted env res o).1 in Kept k r dir w'.db w'.dirs
  unfolding gc_counted
  gc_counted-Kept res (err e, w) h = h
  gc_counted-Kept res (ok rs, w) h = h

  gc_finish-Kept :
      (o : (GcResult × Option AppError) × World)
      → Kept k r dir o.1.db o.1.dirs
      → let w' = (gc_finish env o).1 in Kept k r dir w'.db w'.dirs
  unfolding gc_finish
  gc_finish-Kept ((res, some e), w) h = h
  gc_finish-Kept ((res, none), w) h =
      gc_counted-Kept res (store_list env w)
        (listed (store_list env w) ((store_list_lem env {P = Kept k r dir}).at w h))
    where
      listed :
          (o : Result (List ModelRecord) × World)
          → Meets (λ rs db ds. Kept k r dir db ds × (rs ≡ Store.list db)) (Kept k r dir) o
          → Kept k r dir o.1.db o.1.dirs
      listed (ok rs, w) p = p.0
      listed (err e, w) p = p

  gc_run-Kept :
      (dry : Bool) (target : ℤ) (cs : List ModelRecord) (w : World)
      → Kept k r dir w.db w.dirs
      → let w' = (gc_run env dry target cs w).1 in Kept k r dir w'.db w'.dirs
  unfolding gc_run
  gc_run-Kept dry target cs w h = measured (env.free_bytes w.calls)
    where
      measured :
          (o : Option ℤ)
          → let w' =
              (let out : (GcResult × Option AppError) × World = elim o [
                | none ↦ ((gc_empty, some io_error), tick w)
                | some free ↦
                    gc_finish env
                      (gc_loop env dry target gc_empty free (sort_slice gc_less cs) (tick w))
              ] in
                out).1 in
            Kept k r dir w'.db w'.dirs
      measured none = h
      measured (some free) = gc_finish-Kept _ (gc_loop-Kept dry target gc_empty free _ (tick w) h)

  gc_listed-Kept :
      (dry : Bool) (target : ℤ) (o : Result (List ModelRecord)) (w : World)
      → Kept k r dir w.db w.dirs
      → let w' = (gc_listed env dry target o w).1 in Kept k r dir w'.db w'.dirs
  unfolding gc_listed
  gc_listed-Kept dry target (err e) w h = h
  gc_listed-Kept dry target (ok rs) w h = chosen (candidates env w.dirs rs)
    where
      chosen :
          (o : Option (List ModelRecord))
          → let w' =
              (let out : (GcResult × Option AppError) × World = elim o [
                | none ↦ ((gc_empty, some corrupt), w)
                | some cs ↦ gc_run env dry target cs w
              ] in
                out).1 in
            Kept k r dir w'.db w'.dirs
      chosen none = h
      chosen (some cs) = gc_run-Kept dry target cs w h

  -- However it ends, GC leaves a leased record as it was, with its directory, in a database of
  -- valid records where no other record has a path at or above the leased one's.
  pub gc-Kept :
      (asked : Text) (min_free : ℤ) (dry : Bool) (w : World)
      → Kept k r dir w.db w.dirs
      → let w' = (gc env asked min_free dry w).1 in Kept k r dir w'.db w'.dirs
  unfolding gc store_list
  gc-Kept asked min_free dry w h =
      elim (Bool-cases (text_eq (effective_policy asked env.policy) lru_no_lease)) [
        | inr e ↦ rw e h
        | inl e ↦ rw e (elim (Bool-cases (is_fine (env.outcome w.calls))) [
          | inl f ↦ rw f (gc_listed-Kept dry _ _ (tick w) h)
          | inr f ↦ rw f (gc_listed-Kept dry _ _ (tick w) h)
        ])
      ]
