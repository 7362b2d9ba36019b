-- ===== src/Service/Gc.antt =====
-- `GC` of internal/app/service.go.
pub mod Safety
use oci2gdsd.Prelude.{
  ℕ, suc, ◌+◌, ◌==◌, Bool, true, false, not, ◌&&◌, ◌||◌, Option, none, some, List, [], ◌∷◌, ◌++◌,
  length, Text, codes, text_eq, is_empty, Map, lookup, ltb, ℤ, pos, ◌+ℤ◌, wrap_int64, leb_ℤ, ltb_ℤ,
  sort_slice, if◌then◌else◌,
}
use oci2gdsd.AppErr.{AppError, new_app_error}
use oci2gdsd.Model.{ModelState, ready, failed, released}
use oci2gdsd.Names.{model_key}
use oci2gdsd.Store.{ModelRecord}
use oci2gdsd.Service.State.{
  World, Env, ModelDir, Result, ok, err, M, ◌>>=◌, ◌>>◌, pure, raise, if_dirs, try, tick, corrupt,
  io_error, now, store_get, store_list, store_put, journal_delete, within_root,
}
use oci2gdsd.Service.Lookup.{invalid, safe_remove_all}
use oci2gdsd.Service.Release.{acquire}

pub record GcResult : Type 0 where
  pub deleted_models : List Text
  pub bytes_freed : ℤ
  pub remaining_models : ℕ

abbrev pub lru_no_lease : Text
lru_no_lease = codes "lru_no_lease"

-- The policy after its two defaults.
unfoldable pub effective_policy : Text → Text → Text
effective_policy asked configured =
    let p = if is_empty asked then configured else asked in if is_empty p then lru_no_lease else p

abbrev pub is_failed : ModelState → Bool
is_failed failed = true
is_failed _ = false

abbrev pub collectable : ModelState → Bool
collectable ready = true
collectable released = true
collectable failed = true
collectable _ = false

-- `fileExists(readyMarkerPath(path))`
unfoldable pub marker_exists : Text → Map ModelDir → Bool
marker_exists path ds = elim (lookup path ds) [ none ↦ false | some d ↦ d.ready_marker ]

-- The tests on a record that decide whether it may be deleted.
unfoldable pub eligible : ModelRecord → Map ModelDir → Bool
unfolding marker_exists
eligible r ds =
    is_empty r.leases
    && not (is_empty r.path)
    && collectable r.status
    && (is_failed r.status || marker_exists r.path ds)

-- The `less` of the candidates: releasable times first, the earlier first; then the time of the
-- last update, then the larger model.
unfoldable pub gc_tie : ModelRecord → ModelRecord → Bool
gc_tie a b =
    if a.updated_at == b.updated_at then ltb_ℤ b.bytes a.bytes else ltb a.updated_at b.updated_at

unfoldable pub gc_less : ModelRecord → ModelRecord → Bool
unfolding gc_tie
gc_less a b = elim a.releasable_at [
  | none ↦ elim b.releasable_at [ none ↦ gc_tie a b | some _ ↦ false ]
  | some s ↦ elim b.releasable_at [ none ↦ true | some t ↦ if s == t then gc_tie a b else ltb s t ]
]

-- What GC writes of a record whose directory it has deleted.
abbrev pub collected : ℕ → ModelRecord → ModelRecord
collected at r = record r {
  status = released;
  path = [];
  bytes = pos 0;
  releasable = true;
  releasable_at = some at;
}

module _ (env : Env) where
  -- The loop that collects the candidates; a path outside the root ends it.
  unfoldable pub candidates : Map ModelDir → List ModelRecord → Option (List ModelRecord)
  candidates ds [] = some []
  candidates ds (r ∷ rs) =
      let rest = candidates ds rs in
      if not (is_empty r.leases) || is_empty r.path
      then rest
      else if within_root env r.path
      then (if eligible r ds then (elim rest [ none ↦ none | some cs ↦ some (r ∷ cs) ]) else rest)
      else none

  -- Deletes the model of an eligible record.
  unfoldable pub collect : ModelRecord → M Unit
  collect rec = do
    safe_remove_all env env.model_root rec.path
    at ← now env
    store_put env (collected at rec)
    try (journal_delete env rec.model_id rec.manifest_digest)
    pure tt

  -- The second look at a candidate, under its lock: the bytes that it frees, or `none` for `continue`.
  unfoldable pub collect_found : Bool → Option ModelRecord → M (Option ℤ)
  collect_found dry none = pure none
  collect_found dry (some rec) =
      if within_root env rec.path
      then if_dirs (eligible rec)
          (if dry then pure (some rec.bytes) else collect rec >> pure (some rec.bytes)) (pure none)
      else raise corrupt

  unfoldable pub collect_locked : Bool → Text → Bool → M (Option ℤ)
  collect_locked dry key false = pure none
  collect_locked dry key true = do found ← store_get env key; collect_found dry found

  -- One round of the loop over the candidates.
  unfoldable pub gc_one : Bool → Text → M (Option ℤ)
  gc_one dry key = do got ← acquire env false; collect_locked dry key got

  -- The loop, with the free space so far; an error ends it with the result so far.
  unfoldable pub gc_loop :
      Bool → ℤ → GcResult → ℤ → List ModelRecord → World → (GcResult × Option AppError) × World
  gc_loop dry target res free [] w = ((res, none), w)
  gc_loop dry target res free (c ∷ cs) w =
      let key = model_key c.model_id c.manifest_digest in
      let (r, w') = gc_one dry key w in
      let skipped = gc_loop dry target res free cs w' in
      let more = λ (bytes : ℤ).
        gc_loop dry target
          (record res {
            deleted_models = res.deleted_models ++ key ∷ [];
            bytes_freed = wrap_int64 (res.bytes_freed +ℤ bytes);
          })
          (wrap_int64 (free +ℤ bytes)) cs w' in
      if leb_ℤ target free then ((res, none), w) else (elim r [
        | err e ↦ ((res, some e), w')
        | ok none ↦ skipped
        | ok (some bytes) ↦ more bytes
      ])

  unfoldable pub gc_counted :
      GcResult → Result (List ModelRecord) × World → (GcResult × Option AppError) × World
  gc_counted res (err e, w) = ((res, some e), w)
  gc_counted res (ok rs, w) = ((record res { remaining_models = length rs }, none), w)

  -- The last listing.
  unfoldable pub gc_finish :
      (GcResult × Option AppError) × World → (GcResult × Option AppError) × World
  gc_finish ((res, some e), w) = ((res, some e), w)
  gc_finish ((res, none), w) = gc_counted res (store_list env w)

abbrev pub gc_empty : GcResult
gc_empty = record { deleted_models = []; bytes_freed = pos 0; remaining_models = 0 }

module _ (env : Env) where
  -- After the candidates are known.
  unfoldable pub gc_run : Bool → ℤ → List ModelRecord → World → (GcResult × Option AppError) × World
  gc_run dry target cs w = elim (env.free_bytes w.calls) [
    | none ↦ ((gc_empty, some io_error), tick w)
    | some free ↦
        gc_finish env (gc_loop env dry target gc_empty free (sort_slice gc_less cs) (tick w))
  ]

  unfoldable pub gc_listed :
      Bool → ℤ → Result (List ModelRecord) → World → (GcResult × Option AppError) × World
  gc_listed dry target (err e) w = ((gc_empty, some e), w)
  gc_listed dry target (ok rs) w = elim (candidates env w.dirs rs) [
    | none ↦ ((gc_empty, some corrupt), w)
    | some cs ↦ gc_run dry target cs w
  ]

  unfoldable pub gc : Text → ℤ → Bool → World → (GcResult × Option AppError) × World
  gc asked min_free dry w =
      let target = if leb_ℤ min_free (pos 0) then env.min_free_bytes else min_free in
      let (r, w') = store_list env w in
      if text_eq (effective_policy asked env.policy) lru_no_lease
      then gc_listed dry target r w'
      else ((gc_empty, some invalid), w)
