-- ===== src/Loader/Traces/Tame.antt =====
-- The calls of internal/gpu/gds_linux.go that hold the lock throughout, and what they do to the
-- device memory.
use oci2gdsd.Prelude.{
  ℕ, ◌+◌, ◌-◌, ◌≤◌, ◌==◌, ltb, ◌≡◌, refl, Bool, true, false, ◌&&◌, none, some, [], ◌∷◌, Text,
  is_empty, ◌⊎◌, inl, inr, Map, lookup, insert, erase, arith, Bool-cases, Option-cases,
  if◌then◌else◌,
}
use oci2gdsd.AppErr.{Result}
use oci2gdsd.Loader.{
  Persistent, LoaderState, FileRequest, FileResult, Bridge, alloc_key, attach_entry, detach_entry,
  settle_driver, total_refs, free, load_again, remove_ptr, export_persistent, attach_persistent,
  detach_persistent, unload_last, unload_persistent, LoaderCall, loads, exports, attaches, detaches,
  unloads, run_call,
}
use oci2gdsd.Loader.Memory.{
  count, in_table, count-remove_ptr, count-remove_ptr_le, in_table-insert_same, in_table-erase,
}
use oci2gdsd.Loader.Traces.{is_load}

-- A change that gives nothing out, and takes back no more than the table gives up.
pub record Tame (s t : LoaderState) : Type 0 where
  pub held :
      (p x : ℕ)
      → in_table p s.allocations + x ≤ count p s.memory
      → in_table p t.allocations + x ≤ count p t.memory
  pub shrinks : (p : ℕ) → count p t.memory ≤ count p s.memory
  pub same_sessions : t.sessions ≡ s.sessions
  pub driver :
      (t.driver_up ≡ s.driver_up) ⊎ ((total_refs t.sessions ≡ 0) × (is_empty t.allocations ≡ true))
  pub emptier : is_empty t.allocations ≡ false → is_empty s.allocations ≡ false

Tame-refl : (s : LoaderState) → Tame s s
Tame-refl s = record {
  held = λ p x h. h;
  shrinks = λ p. omega arith;
  same_sessions = refl;
  driver = inl refl;
  emptier = λ e. e;
}

found_some :
    (k : Text) (a : Persistent) (m : Map Persistent) → lookup k m ≡ some a → is_empty m ≡ false
unfolding lookup is_empty
found_some k a [] h = absurd (ground arith)
found_some k a (x ∷ m) h = refl

-- An entry is put in place of one with its pointer.
pub entry-Tame :
    (k : Text) (a a' : Persistent) (s : LoaderState)
    → lookup k s.allocations ≡ some a
    → a'.ptr ≡ a.ptr
    → Tame s (record s { allocations = insert k a' s.allocations })
entry-Tame k a a' s h e = record {
  held = λ p x g. omega (arith, in_table-insert_same p k a a' s.allocations h e);
  shrinks = λ p. omega arith;
  same_sessions = refl;
  driver = inl refl;
  emptier = λ _. found_some k a s.allocations h;
}

detach_entry_ptr : (c : Text) (a : Persistent) → (detach_entry c a).ptr ≡ a.ptr
unfolding detach_entry
detach_entry_ptr c a = ground arith

settle_freed : (s t : LoaderState) → Tame s t → Tame s (settle_driver t)
unfolding settle_driver
settle_freed s t h = elim (Bool-cases (total_refs t.sessions == 0 && is_empty t.allocations)) [
  | inl e ↦ rw e (record {
    held = h.held;
    shrinks = h.shrinks;
    same_sessions = h.same_sessions;
    driver = inr (ground (arith, e));
    emptier = h.emptier;
  })
  | inr e ↦ rw e h
]

module _ (b : Bridge) (n : ℕ) where
  unload_last-Tame :
      (req : FileRequest) (a : Persistent) (s : LoaderState)
      → lookup (alloc_key b req) s.allocations ≡ some a
      → Tame s (unload_last b n req a s).1
  unfolding unload_last free
  unload_last-Tame req a s h = elim (Bool-cases (ltb 0 a.importer_refs)) [
    | inl e ↦ rw e (Tame-refl s)
    | inr e ↦ elim (Bool-cases (b.frees n a.ptr)) [
      | inl f ↦
          rw (e, f)
            (settle_freed s
              (record s {
                memory = remove_ptr a.ptr s.memory;
                allocations = erase (alloc_key b req) s.allocations;
              })
              (record {
                held = λ p x g. omega (
                  arith,
                  in_table-erase p (alloc_key b req) a s.allocations h,
                  count-remove_ptr p a.ptr s.memory,
                );
                shrinks = λ p. count-remove_ptr_le p a.ptr s.memory;
                same_sessions = refl;
                driver = inl refl;
                emptier = λ _. found_some (alloc_key b req) a s.allocations h;
              }))
      | inr f ↦ rw (e, f) (entry-Tame (alloc_key b req) a (record a { load_refs = 1 }) s h refl)
    ]
  ]

  pub load_again-Tame :
      (req : FileRequest) (a : Persistent) (s : LoaderState)
      → lookup (alloc_key b req) s.allocations ≡ some a
      → Tame s (load_again b req a s).1
  unfolding load_again
  load_again-Tame req a s h =
      entry-Tame (alloc_key b req) a (record a { load_refs = a.load_refs + 1 }) s h refl

  on_entry :
      (req : FileRequest) (s : LoaderState) (absent : Result FileResult × LoaderState)
      (present : Persistent → Result FileResult × LoaderState)
      → Tame s absent.1
      → ((a : Persistent) → lookup (alloc_key b req) s.allocations ≡ some a → Tame s (present a).1)
      → Tame s
          (elim (lookup (alloc_key b req) s.allocations) as (λ _. Result FileResult × LoaderState) [
            | none ↦ absent
            | some a ↦ present a
          ]).1
  on_entry req s absent present m f = elim (Option-cases (lookup (alloc_key b req) s.allocations)) [
    | inl e ↦ rw e m
    | inr (a, e) ↦ rw e (f a e)
  ]

  refused :
      (t : Bool) (s : LoaderState) (early late : Result FileResult × LoaderState)
      → Tame s early.1
      → Tame s late.1
      → Tame s (if t then early else late).1
  refused true s early late h k = h
  refused false s early late h k = k

  pub run_call-Tame :
      (c : LoaderCall) (req : FileRequest) (s : LoaderState)
      → is_load c ≡ false
      → Tame s (run_call b n c req s).1
  unfolding run_call export_persistent attach_persistent detach_persistent unload_persistent
  run_call-Tame loads req s h = cc
  run_call-Tame exports req s h = refused (b.cancelled n) s _ _ (Tame-refl s) (
      on_entry req s _ _ (Tame-refl s)
        λ a e. refused (b.exports n a.ptr) s _ _ (Tame-refl s) (Tame-refl s))
  run_call-Tame attaches req s h = refused (b.cancelled n) s _ _ (Tame-refl s) (
      refused (is_empty req.client_id) s _ _ (Tame-refl s) (
        on_entry req s _ _ (Tame-refl s) λ a e.
          entry-Tame (alloc_key b req) a (attach_entry req.client_id a) s e
            (unfold attach_entry in refl)))
  run_call-Tame detaches req s h = refused (b.cancelled n) s _ _ (Tame-refl s) (
      refused (is_empty req.client_id) s _ _ (Tame-refl s) (
        on_entry req s _ _ (Tame-refl s) λ a e.
          entry-Tame (alloc_key b req) a (detach_entry req.client_id a) s e
            (detach_entry_ptr req.client_id a)))
  run_call-Tame unloads req s h = refused (b.cancelled n) s _ _ (Tame-refl s) (
      on_entry req s _ _ (Tame-refl s) λ a e.
        refused (ltb 1 a.load_refs) s _ _
          (entry-Tame (alloc_key b req) a (record a { load_refs = a.load_refs - 1 }) s e refl)
          (unload_last-Tame req a s e))
