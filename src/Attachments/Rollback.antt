-- ===== src/Attachments/Rollback.antt =====
-- An attachment of internal/app/gpu.go that fails leaves the loader as it was.
use mathlib.Core.Path.{subst}
use oci2gdsd.Prelude.{
  ℕ, ◌+◌, ◌-◌, ◌<◌, ◌==◌, ltb, ◌≡◌, refl, sym, ap, ◌∙◌, false, Option, none, some, List, [], ◌∷◌,
  is_empty, Text, text_eq, text_eq_refl, Map, lookup, insert, erase, lookup-insert, arith,
  Bool-cases, Option-cases, ◌⊎◌, inl, inr, trim_space, if◌then◌else◌,
}
use oci2gdsd.AppErr.{AppError, Result, ok, err}
use oci2gdsd.Loader.{
  Persistent, LoaderState, FileRequest, FileResult, Bridge, alloc_key, import_count, attach_entry,
  detach_entry, attach_persistent, detach_persistent, detaches, run_call,
}
use oci2gdsd.Loader.Entries.{EntryValid, TableValid, attach_entry-EntryValid, insert-TableValid}
use oci2gdsd.Loader.Refs.{run_call-TableValid}
use oci2gdsd.Attachments.{
  Attachment, Target, GpuAttachRequest, Attached, background, file_request, detach_quietly,
  attach_files, lapsed_of, detach_lapsed, prune_expired, attach_all, gpu_attach_key, gpu_attach,
  normalize_attach_ttl,
}

same_some : {A : Type 0} {a b : A} → ◌≡◌ {A = Option A} (some a) (some b) → a ≡ b
same_some h = cc

-- A value that is put back in the place of another.
insert-insert :
    {V : Type 0} (k : Text) (v w : V) (m : Map V)
    → lookup k m ≡ some v
    → insert k v (insert k w m) ≡ m
unfolding lookup insert
insert-insert k v w [] h = absurd (ground (arith, h))
insert-insert k v w ((j, x) ∷ m) h = elim (Bool-cases (text_eq j k)) [
  | inl e ↦ rw (e, insert) (rw (e, insert) (ap (λ y. (j, y) ∷ m) (sym (same_some (rw e at h)))))
  | inr e ↦
      rw (e, insert)
        (rw (e, insert) (ap (λ rest. (j, x) ∷ rest) (insert-insert k v w m (rw e at h))))
]

erase_absent : {V : Type 0} (k : Text) (m : Map V) → lookup k m ≡ none → erase k m ≡ m
unfolding lookup erase
erase_absent k [] h = refl
erase_absent k ((j, x) ∷ m) h = elim (Bool-cases (text_eq j k)) [
  | inl e ↦ absurd (ground (arith, rw e at h))
  | inr e ↦ rw (e, erase) (ap (λ rest. (j, x) ∷ rest) (erase_absent k m (rw e at h)))
]

erase-insert :
    {V : Type 0} (k : Text) (v : V) (m : Map V) → lookup k m ≡ none → erase k (insert k v m) ≡ m
unfolding lookup erase insert
erase-insert k v [] h = rw (text_eq_refl k) refl
erase-insert k v ((j, x) ∷ m) h = elim (Bool-cases (text_eq j k)) [
  | inl e ↦ absurd (ground (arith, rw e at h))
  | inr e ↦
      rw (e, insert) (rw (e, erase) (ap (λ rest. (j, x) ∷ rest) (erase-insert k v m (rw e at h))))
]

-- `detach_entry`, for a count.
abbrev end_import : ℕ → Text → Persistent → Persistent
end_import count c a =
    if ltb 1 count
    then record a {
      importers = insert c (count - 1) a.importers;
      importer_refs = a.importer_refs - 1;
    }
    else if count == 1
    then record a { importers = erase c a.importers; importer_refs = a.importer_refs - 1 }
    else a

restored :
    (a : Persistent) (imports : Map ℕ) (refs : ℕ)
    → imports ≡ a.importers
    → refs ≡ a.importer_refs
    → record a { importers = imports; importer_refs = refs } ≡ a
restored a imports refs p q = rw (p, q) refl

import_count-insert : (c : Text) (n : ℕ) (m : Map ℕ) → import_count c (insert c n m) ≡ n
import_count-insert c n m = ground (arith, lookup-insert c c n m, text_eq_refl c)

import_count-some : (c : Text) (n : ℕ) (m : Map ℕ) → lookup c m ≡ some n → import_count c m ≡ n
import_count-some c n m e = ground (arith, e)

import_count-none : (c : Text) (m : Map ℕ) → lookup c m ≡ none → import_count c m ≡ 0
import_count-none c m e = ground (arith, e)

-- An import and its end restore an entry.
detach_entry-attach_entry :
    (c : Text) (a : Persistent) → EntryValid a → detach_entry c (attach_entry c a) ≡ a
unfolding detach_entry attach_entry
detach_entry-attach_entry c a v =
    ap (λ n. end_import n c (attach_entry c a))
      (import_count-insert c (import_count c a.importers + 1) a.importers)
    ∙ elim (Option-cases (lookup c a.importers)) [
      | inl e ↦
          ap (λ n. end_import (n + 1) c (with_imports (n + 1))) (import_count-none c a.importers e)
          ∙ restored a _ _ (erase-insert c 1 a.importers e) (omega arith)
      | inr (n, e) ↦
          ap (λ k. end_import (k + 1) c (with_imports (k + 1)))
            (import_count-some c n a.importers e)
          ∙ ended n e (v.positive c n e)
    ]
  where
    with_imports : ℕ → Persistent
    with_imports n = record a {
      importers = insert c n a.importers;
      importer_refs = a.importer_refs + 1;
    }

    less_one : (n : ℕ) → n + 1 - 1 ≡ n
    less_one n = omega arith

    ended :
        (n : ℕ)
        → lookup c a.importers ≡ some n
        → 0 < n
        → end_import (n + 1) c (with_imports (n + 1)) ≡ a
    ended n e p = elim (Bool-cases (ltb 1 (n + 1))) [
      | inr f ↦ absurd (ground (arith, f, p))
      | inl f ↦
          rw f (
            restored a _ _ (rw (less_one n) (insert-insert c n (n + 1) a.importers e))
              (omega arith))
    ]

Result-cases : {A : Type 0} (o : Result A) → ((e : AppError) × (o ≡ err e)) ⊎ ((a : A) × (o ≡ ok a))
Result-cases (ok a) = inr (a, refl)
Result-cases (err e) = inl (e, refl)

no_error : {e : AppError} → ◌≡◌ {A = Result (Unit {0})} (ok tt) (err e) → ⊥
no_error k = cc

module _ (b : Bridge) where
  -- An attachment changes nothing that a detachment does not put back, or nothing at all.
  abbrev Undone : FileRequest → LoaderState → Result FileResult × LoaderState → Type 0
  Undone req st (ok r, st') =
      ((detach_persistent (background b) 0 req st').1 ≡ st)
      × (r.path ≡ req.path)
      × TableValid st'.allocations
  Undone req st (err e, st') = st' ≡ st

  background_key : (req : FileRequest) → alloc_key (background b) req ≡ alloc_key b req
  unfolding alloc_key
  background_key req = refl

  detach-attached :
      (req : FileRequest) (a : Persistent) (st : LoaderState)
      → is_empty req.client_id ≡ false
      → EntryValid a
      → lookup (alloc_key b req) st.allocations ≡ some a
      → (detach_persistent (background b) 0 req (record st {
        allocations = insert (alloc_key b req) (attach_entry req.client_id a) st.allocations;
      })).1
        ≡ st
  unfolding detach_persistent
  detach-attached req a st f v e =
      rw (f, background_key req, found)
        (ap (λ (m : Map Persistent). record st { allocations = m })
          (ap (λ x. insert (alloc_key b req) x (insert (alloc_key b req) attached st.allocations))
              (detach_entry-attach_entry req.client_id a v)
            ∙ insert-insert (alloc_key b req) a attached st.allocations e))
    where
      attached : Persistent
      attached = attach_entry req.client_id a

      found :
          lookup (alloc_key b req) (insert (alloc_key b req) attached st.allocations)
          ≡ some attached
      found =
          rw
            (
              lookup-insert (alloc_key b req) (alloc_key b req) attached st.allocations,
              text_eq_refl (alloc_key b req),
            )
            refl

  attach_persistent-Undone :
      (n : ℕ) (req : FileRequest) (st : LoaderState)
      → TableValid st.allocations
      → Undone req st (attach_persistent b n req st)
  unfolding attach_persistent
  attach_persistent-Undone n req st t = elim (Bool-cases (b.cancelled n)) [
    | inl e ↦ rw e refl
    | inr e ↦ elim (Bool-cases (is_empty req.client_id)) [
      | inl f ↦ rw (e, f) refl
      | inr f ↦ elim (Option-cases (lookup (alloc_key b req) st.allocations)) [
        | inl g ↦ rw (e, f, g) refl
        | inr (a, g) ↦
            rw (e, f, g)
              (
                detach-attached req a st f (t.entries _ a g) g,
                refl,
                insert-TableValid (alloc_key b req) (attach_entry req.client_id a) st.allocations
                    (attach_entry-EntryValid req.client_id a (t.entries _ a g)) t,
              )
      ]
    ]
  ]

  -- What the loop has attached so far is undone by its roll-back.
  attach_files_undone :
      (device : ℕ) (client : Text) (start : LoaderState) (n : ℕ) (done paths : List Text)
      (st : LoaderState)
      → TableValid st.allocations
      → detach_quietly b device client done st ≡ start
      → (e : AppError) (st' : LoaderState)
      → attach_files b n device client done paths st ≡ (err e, st')
      → st' ≡ start
  unfolding attach_files detach_quietly
  attach_files_undone device client start n done [] st t d e st' h =
      absurd (no_error (ap (λ o. o.0) h))
  attach_files_undone device client start n done (path ∷ paths) st t d e st' h =
      one_more (attach_persistent b n (file_request device client path) st)
        (λ done' s₁ t₁ d₁.
          attach_files_undone device client start (n + 1) done' paths s₁ t₁ d₁ e st')
        (attach_persistent-Undone n (file_request device client path) st t) h
    where
      one_more :
          (o : Result FileResult × LoaderState)
          → ((done' : List Text) (s₁ : LoaderState)
              → TableValid s₁.allocations
              → detach_quietly b device client done' s₁ ≡ start
              → attach_files b (n + 1) device client done' paths s₁ ≡ (err e, st')
              → st' ≡ start)
          → Undone (file_request device client path) st o
          → (let (res, s₁) = o in
              elim res as (λ _. Result (Unit {0}) × LoaderState) [
                | err e ↦ (err e, detach_quietly b device client done s₁)
                | ok r ↦ attach_files b (n + 1) device client (r.path ∷ done) paths s₁
              ])
            ≡ (err e, st')
          → st' ≡ start
      one_more (err x, s₁) next u k =
          sym (ap (λ o. o.1) k) ∙ ap (detach_quietly b device client done) u ∙ d
      one_more (ok r, s₁) next u k =
          next (r.path ∷ done) s₁ u.2 (rw u.1 (ap (detach_quietly b device client done) u.0 ∙ d)) k

  -- An attachment of several shards of which one fails leaves the loader as it was.
  attach_files_restores :
      (n device : ℕ) (client : Text) (paths : List Text) (st st' : LoaderState) (e : AppError)
      → TableValid st.allocations
      → attach_files b n device client [] paths st ≡ (err e, st')
      → st' ≡ st
  attach_files_restores n device client paths st st' e t h =
      attach_files_undone device client st n [] paths st t (unfold detach_quietly in refl) e st' h

  detach_quietly-TableValid :
      (device : ℕ) (client : Text) (paths : List Text) (st : LoaderState)
      → TableValid st.allocations
      → TableValid (detach_quietly b device client paths st).allocations
  unfolding detach_quietly
  detach_quietly-TableValid device client [] st t = t
  detach_quietly-TableValid device client (path ∷ paths) st t =
      detach_quietly-TableValid device client paths _ (
        unfold run_call in
        run_call-TableValid (background b) 0 detaches (file_request device client path) st t)

  detach_lapsed-TableValid :
      (as_of : List Attachment) (st : LoaderState)
      → TableValid st.allocations
      → TableValid (detach_lapsed b as_of st).allocations
  unfolding detach_lapsed
  detach_lapsed-TableValid [] st t = t
  detach_lapsed-TableValid (a ∷ rest) st t =
      detach_lapsed-TableValid rest _
        (detach_quietly-TableValid a.device_index a.client_id a.shard_paths st t)

  prune_expired-TableValid :
      (now : ℕ) (s : Attached)
      → TableValid s.loader.allocations
      → TableValid (prune_expired b now s).loader.allocations
  unfolding prune_expired
  prune_expired-TableValid now s t =
      detach_lapsed-TableValid (lapsed_of now s.attachments) s.loader t

  attach_all_undone :
      (n now : ℕ) (g : Target) (client : Text) (ttl : ℕ) (paths : List Text) (s s' : Attached)
      (e : AppError)
      → TableValid s.loader.allocations
      → attach_all b n now g client ttl paths s ≡ (err e, s')
      → s' ≡ s
  unfolding attach_all
  attach_all_undone n now g client ttl paths s s' e t h =
      ended (attach_files b n g.device_index client [] paths s.loader) refl h
    where
      session : LoaderState → Attached
      session st = record {
        loader = st;
        attachments =
            insert (gpu_attach_key g client)
              (record {
                device_index = g.device_index;
                client_id = client;
                shard_paths = paths;
                expires_at = now + ttl;
              })
              s.attachments;
      }

      ended :
          (o : Result (Unit {0}) × LoaderState)
          → attach_files b n g.device_index client [] paths s.loader ≡ o
          → (let (res, st) = o in
              elim res as (λ _. Result (Unit {0}) × Attached) [
                | err x ↦ (err x, record s { loader = st })
                | ok _ ↦ (ok tt, session st)
              ])
            ≡ (err e, s')
          → s' ≡ s
      ended (err x, st) f k =
          sym (ap (λ o. o.1) k)
          ∙ ap (λ (l : LoaderState). record s { loader = l })
              (attach_files_restores n g.device_index client paths s.loader st x t f)
      ended (ok u, st) f k = absurd (no_error (ap (λ o. o.0) k))

  -- What a call of `GPUAttach` leaves where it fails.
  abbrev Kept : ℕ → Attached → Result (Unit {0}) × Attached → Type 0
  Kept now s (ok u, s') = Unit
  Kept now s (err e, s') = (s' ≡ s) ⊎ (s' ≡ prune_expired b now s)

  attach_all-Kept :
      (n now : ℕ) (g : Target) (client : Text) (ttl : ℕ) (paths : List Text) (s : Attached)
      → TableValid s.loader.allocations
      → Kept now s (attach_all b n now g client ttl paths (prune_expired b now s))
  attach_all-Kept n now g client ttl paths s t =
      ended (attach_all b n now g client ttl paths (prune_expired b now s)) refl
    where
      ended :
          (o : Result (Unit {0}) × Attached)
          → attach_all b n now g client ttl paths (prune_expired b now s) ≡ o
          → Kept now s o
      ended (ok u, s') f = tt
      ended (err x, s') f = inr (
          attach_all_undone n now g client ttl paths (prune_expired b now s) s' x
            (prune_expired-TableValid now s t) f)

  gpu_attach-Kept :
      (n now : ℕ) (req : GpuAttachRequest) (s : Attached)
      → TableValid s.loader.allocations
      → Kept now s (gpu_attach b n now req s)
  unfolding gpu_attach
  gpu_attach-Kept n now req s t = elim (Result-cases req.target) [
    | inl (e, f) ↦ rw f (inl refl)
    | inr (g, f) ↦ elim (Bool-cases (is_empty (trim_space req.client_id))) [
      | inl h ↦ rw (f, h) (inl refl)
      | inr h ↦ elim (Option-cases req.slot) [
        | inr (e, k) ↦ rw (f, h, k) (inl refl)
        | inl k ↦ elim (Result-cases req.shard_paths) [
          | inl (e, l) ↦ rw (f, h, k, l) (inr refl)
          | inr (paths, l) ↦
              rw (f, h, k, l)
                (attach_all-Kept n now g (trim_space req.client_id)
                  (normalize_attach_ttl req.ttl_seconds) paths s t)
        ]
      ]
    ]
  ]

  -- `GPUAttach` that fails leaves the loader and the sessions as they were, or as the end of the sessions
  -- that had expired left them, where the table was valid.
  pub gpu_attach_undone :
      (n now : ℕ) (req : GpuAttachRequest) (s s' : Attached) (e : AppError)
      → TableValid s.loader.allocations
      → gpu_attach b n now req s ≡ (err e, s')
      → (s' ≡ s) ⊎ (s' ≡ prune_expired b now s)
  gpu_attach_undone n now req s s' e t h = subst (Kept now s) h (gpu_attach-Kept n now req s t)
