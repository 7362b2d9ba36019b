-- ===== src/Loader/Refs.antt =====
-- The reference counts of internal/gpu/gds_linux.go.
use oci2gdsd.Prelude.{
  Text, [], ◌<◌, ℕ, ◌+◌, ◌-◌, ◌==◌, ltb, ◌≡◌, refl, Bool, true, false, none, some, ◌∷◌, is_empty,
  lookup, insert, erase, arith, Bool-cases, Option-cases, inl, inr, if◌then◌else◌,
}
use oci2gdsd.AppErr.{Result, ok, err}
use oci2gdsd.Loader.{
  ineligible, not_loaded, result_of, Persistent, LoaderState, FileRequest, FileResult, Region,
  Bridge, alloc_key, attach_entry, detach_entry, begin_session, end_session, settle_driver, free,
  load_again, load_store, load_checked, load_read, load_session, load_persistent, export_persistent,
  attach_persistent, detach_persistent, unload_last, unload_persistent, LoaderCall, loads, exports,
  attaches, detaches, unloads, run_call,
}
use oci2gdsd.Loader.Entries.{
  EntryValid, TableValid, insert-TableValid, erase-TableValid, attach_entry-EntryValid,
  detach_entry-EntryValid,
}

-- A call leaves a valid table.
abbrev LeavesValid : {A : Type 0} → Result A × LoaderState → Type 0
LeavesValid o = TableValid o.1.allocations

pub settle_driver_table : (st : LoaderState) → (settle_driver st).allocations ≡ st.allocations
unfolding settle_driver
settle_driver_table st = ground arith

pub end_session_table :
    (d : ℕ) (b : Bridge) (st : LoaderState) → (end_session b d st).allocations ≡ st.allocations
unfolding end_session
end_session_table d b st = settle_driver_table _

module _ (b : Bridge) (n : ℕ) where
  pub begin_session_table :
      (d : ℕ) (st : LoaderState) → (begin_session b n d st).1.allocations ≡ st.allocations
  unfolding begin_session
  begin_session_table d st = ground (arith, settle_driver_table (record st { driver_up = true }))

  pub free_table : (p : ℕ) (st : LoaderState) → (free b n p st).1.allocations ≡ st.allocations
  unfolding free
  free_table p st = ground arith

  load_again-Valid :
      (req : FileRequest) (a : Persistent) (st : LoaderState)
      → EntryValid a
      → TableValid st.allocations
      → LeavesValid (load_again b req a st)
  unfolding load_again
  load_again-Valid req a st v t =
      insert-TableValid (alloc_key b req) (record a { load_refs = a.load_refs + 1 }) st.allocations
        (record {
          loaded = omega arith;
          counted = v.counted;
          apart = v.apart;
          positive = v.positive;
        })
        t

  no_imports : (d : Text) (n : ℕ) → lookup {V = ℕ} d [] ≡ some n → 0 < n
  unfolding lookup
  no_imports d n h = absurd (ground (arith, h))

  load_store-Valid :
      (req : FileRequest) (g : Region) (st : LoaderState)
      → TableValid st.allocations
      → LeavesValid (load_store b n req g st)
  unfolding load_store
  load_store-Valid req g st t = elim (Option-cases (lookup (alloc_key b req) st.allocations)) [
    | inl e ↦
        rw (e, load_store)
          (insert-TableValid (alloc_key b req) _ st.allocations
            (record { loaded = omega arith; counted = refl; apart = tt; positive = no_imports }) t)
    | inr (a, e) ↦
        rw (e, load_store)
          (rw (free_table g.ptr (load_again b req a st).1)
            (load_again-Valid req a st (t.entries (alloc_key b req) a e) t))
  ]

  load_checked-Valid :
      (req : FileRequest) (size : ℕ) (g : Region) (st : LoaderState)
      → TableValid st.allocations
      → LeavesValid (load_checked b n req size g st)
  unfolding load_checked
  load_checked-Valid req size g st t = elim (Bool-cases (g.bytes == size)) [
    | inl e ↦ rw e (load_store-Valid req g st t)
    | inr e ↦ rw e (rw (free_table g.ptr st) t)
  ]

  load_read-Valid :
      (req : FileRequest) (size : ℕ) (st : LoaderState)
      → TableValid st.allocations
      → LeavesValid (load_read b n req size st)
  unfolding load_read
  load_read-Valid req size st t = elim (Option-cases (b.reads n req.path)) [
    | inl e ↦ rw (e, load_read) t
    | inr (g, e) ↦
        rw (e, load_read)
          (load_checked-Valid req size g (record st { memory = g.ptr ∷ st.memory }) t)
  ]

  load_session-Valid :
      (req : FileRequest) (size : ℕ) (st : LoaderState)
      → TableValid st.allocations
      → LeavesValid (load_session b n req size st)
  unfolding load_session
  load_session-Valid req size st t =
      opened (begin_session b n req.device st) (rw (begin_session_table req.device st) t)
    where
      opened :
          (o : Result (Unit {0}) × LoaderState)
          → TableValid o.1.allocations
          → LeavesValid (
              let (began, st₁) = o in
              elim began as (λ _. Result FileResult × LoaderState) [
                | err e ↦ (err e, st₁)
                | ok _ ↦
                    let (res, st₂) = load_read b n req size st₁ in
                    (res, end_session b req.device st₂)
              ])
      opened (err e, st₁) t = t
      opened (ok u, st₁) t =
          rw (end_session_table req.device b (load_read b n req size st₁).1)
            (load_read-Valid req size st₁ t)

  -- The entry that a call changes, where there is one.
  on_entry :
      (req : FileRequest) (st : LoaderState) (absent : Result FileResult × LoaderState)
      (present : Persistent → Result FileResult × LoaderState)
      → TableValid st.allocations
      → LeavesValid absent
      → ((a : Persistent) → EntryValid a → LeavesValid (present a))
      → LeavesValid
          (elim (lookup (alloc_key b req) st.allocations)
            as (λ _. Result FileResult × LoaderState) [ none ↦ absent | some a ↦ present a ])
  on_entry req st absent present t none_there there =
      elim (Option-cases (lookup (alloc_key b req) st.allocations)) [
        | inl e ↦ rw e none_there
        | inr (a, e) ↦ rw e (there a (t.entries (alloc_key b req) a e))
      ]

  unload_last-Valid :
      (req : FileRequest) (a : Persistent) (st : LoaderState)
      → EntryValid a
      → TableValid st.allocations
      → LeavesValid (unload_last b n req a st)
  unfolding unload_last
  unload_last-Valid req a st v t = elim (Bool-cases (ltb 0 a.importer_refs)) [
    | inl e ↦ rw e t
    | inr e ↦ rw e (freed (free b n a.ptr st) (rw (free_table a.ptr st) t))
  ]
    where
      freed :
          (o : Bool × LoaderState)
          → TableValid o.1.allocations
          → LeavesValid (
              let out : Result FileResult × LoaderState =
                (let (freed, st') = o in
                  if freed
                  then (
                    ok (record {
                      path = req.path;
                      bytes = a.bytes;
                      direct = a.direct;
                      loaded = false;
                      ref_count = 0;
                    }),
                    settle_driver
                        (record st' { allocations = erase (alloc_key b req) st'.allocations }),
                  )
                  else (
                    err ineligible,
                    record st {
                      allocations =
                          insert (alloc_key b req) (record a { load_refs = 1 }) st.allocations;
                    },
                  )) in
              out)
      freed (true, st') t' =
          rw
            (settle_driver_table
              (record st' { allocations = erase (alloc_key b req) st'.allocations }))
            (erase-TableValid (alloc_key b req) st'.allocations t')
      freed (false, st') t' =
          insert-TableValid (alloc_key b req) (record a { load_refs = 1 }) st.allocations
            (record {
              loaded = omega arith;
              counted = v.counted;
              apart = v.apart;
              positive = v.positive;
            })
            t

  -- Every call keeps each loaded shard with a load reference, and its importer references equal to
  -- the imports of its clients, each of which has at least one.
  pub run_call-TableValid :
      (c : LoaderCall) (req : FileRequest) (st : LoaderState)
      → TableValid st.allocations
      → TableValid (run_call b n c req st).1.allocations
  unfolding run_call load_persistent export_persistent attach_persistent detach_persistent
      unload_persistent
  run_call-TableValid loads req st t = elim (Bool-cases (b.cancelled n)) [
    | inl e ↦ rw e t
    | inr e ↦ elim (Option-cases (b.file_size n req.path)) [
      | inl f ↦ rw (e, f) t
      | inr (size, f) ↦
          rw (e, f)
            (on_entry req st (load_session b n req size st) (λ a. load_again b req a st) t
              (load_session-Valid req size st t) (λ a v. load_again-Valid req a st v t))
    ]
  ]
  run_call-TableValid exports req st t = elim (Bool-cases (b.cancelled n)) [
    | inl e ↦ rw e t
    | inr e ↦ rw e (
        on_entry req st (err not_loaded, st) _ t t
          (λ a v.
            elim (b.exports n a.ptr)
              as (λ x. LeavesValid (
                if x then (ok (result_of req.path a.bytes true a), st) else (err ineligible, st))) [
                  | true ↦ t
                  | false ↦ t
                ]))
  ]
  run_call-TableValid attaches req st t = elim (Bool-cases (b.cancelled n)) [
    | inl e ↦ rw e t
    | inr e ↦ elim (Bool-cases (is_empty req.client_id)) [
      | inl f ↦ rw (e, f) t
      | inr f ↦
          rw (e, f)
            (on_entry req st (err not_loaded, st) _ t t
              (λ a v.
                insert-TableValid (alloc_key b req) (attach_entry req.client_id a) st.allocations
                  (attach_entry-EntryValid req.client_id a v) t))
    ]
  ]
  run_call-TableValid detaches req st t = elim (Bool-cases (b.cancelled n)) [
    | inl e ↦ rw e t
    | inr e ↦ elim (Bool-cases (is_empty req.client_id)) [
      | inl f ↦ rw (e, f) t
      | inr f ↦
          rw (e, f)
            (on_entry req st _ _ t t (λ a v.
              insert-TableValid (alloc_key b req) (detach_entry req.client_id a) st.allocations
                (detach_entry-EntryValid req.client_id a v) t))
    ]
  ]
  run_call-TableValid unloads req st t = elim (Bool-cases (b.cancelled n)) [
    | inl e ↦ rw e t
    | inr e ↦ rw e (
        on_entry req st (err not_loaded, st) _ t t
          (λ a v. elim (Bool-cases (ltb 1 a.load_refs)) [
            | inl f ↦ rw f (
                insert-TableValid (alloc_key b req) (record a { load_refs = a.load_refs - 1 })
                  st.allocations
                  (record {
                    loaded = ground arith;
                    counted = v.counted;
                    apart = v.apart;
                    positive = v.positive;
                  })
                  t)
            | inr f ↦ rw f (unload_last-Valid req a st v t)
          ]))
  ]
