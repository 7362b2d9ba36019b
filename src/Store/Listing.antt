-- ===== src/Store/Listing.antt =====
-- The order of `List` in internal/store/store.go.
use mathlib.Core.List.{Perm}
use oci2gdsd.Prelude.{
  ◌≡◌, ◌⊎◌, Pairwise-map, sym, true, false, text_eq, text_eq_iff, text_lt, text_lt_asym,
  text_lt-negtrans, text_lt-connex, values, sort_slice-perm, sort_slice-Ordered, Pairwise,
  Bool-cases, inl, inr, arith,
}
use oci2gdsd.Store.{ModelRecord, StateDb, record_less, list}

record_less_asym : (a b : ModelRecord) → record_less a b ≡ true → record_less b a ≡ false
unfolding record_less
record_less_asym a b h = ground (
  arith,
  text_eq_iff a.model_id b.model_id,
  text_eq_iff b.model_id a.model_id,
  text_lt_asym a.model_id b.model_id,
  text_lt_asym a.manifest_digest b.manifest_digest,
)

record_less-negtrans :
    (a b c : ModelRecord)
    → record_less b a ≡ false
    → record_less c b ≡ false
    → record_less c a ≡ false
unfolding record_less
record_less-negtrans a b c h k = ground (
  arith,
  text_eq_iff b.model_id a.model_id,
  text_eq_iff c.model_id b.model_id,
  text_eq_iff c.model_id a.model_id,
  text_lt-negtrans a.model_id b.model_id c.model_id,
  text_lt-negtrans a.manifest_digest b.manifest_digest c.manifest_digest,
  text_lt-connex a.model_id b.model_id,
)

-- By model id, and by digest among those of one model.
abbrev pub Precedes : ModelRecord → ModelRecord → Type 0
Precedes a b =
    (text_lt a.model_id b.model_id ≡ true)
    ⊎ ((a.model_id ≡ b.model_id) × (text_lt b.manifest_digest a.manifest_digest ≡ false))

not_less-Precedes : (a b : ModelRecord) → record_less b a ≡ false → Precedes a b
unfolding record_less
not_less-Precedes a b h = elim (Bool-cases (text_eq b.model_id a.model_id)) [
  | inl e ↦ inr (sym ((text_eq_iff b.model_id a.model_id).0 e), rw e at h)
  | inr n ↦ elim (Bool-cases (text_lt a.model_id b.model_id)) [
    | inl l ↦ inl l
    | inr g ↦
        ground (arith, text_lt-connex b.model_id a.model_id, text_eq_iff b.model_id a.model_id)
  ]
]

-- `List` returns each record as often as it is there, by model id and then by digest: each record
-- precedes every later one.
pub list-Ordered : (db : StateDb) → Pairwise Precedes (list db) × Perm (list db) (values db.models)
unfolding list
list-Ordered db = (
  Pairwise-map _ not_less-Precedes
      (sort_slice-Ordered record_less record_less_asym record_less-negtrans (values db.models)),
  sort_slice-perm record_less (values db.models),
)
