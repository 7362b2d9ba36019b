-- ===== src/Store/Laws.antt =====
-- The state database of internal/store/store.go as a map from keys to records.
use mathlib.Core.Path.{subst₂}
use oci2gdsd.Prelude.{
  ℕ, ◌≡◌, refl, true, false, none, some, [], ◌∷◌, Text, text_eq, text_eq_iff, Map, lookup, insert,
  values, lookup-insert, lookup-erase, Has, Has-sort_slice, All, All-sort_slice, arith, Bool-cases,
  inl, inr, if◌then◌else◌,
}
use oci2gdsd.Store.{
  ModelRecord, StateDb, get, put, stamp, delete, record_less, list, get_allocation,
  clear_allocations,
}
use oci2gdsd.Store.Leases.{LeasesValid}

module _ (now : ℕ) (r : ModelRecord) (db : StateDb) where
  pub get-put :
      (j : Text) → get j (put now r db) ≡ (if text_eq r.key j then some (stamp now r) else get j db)
  unfolding get put
  get-put j = lookup-insert r.key j (stamp now r) db.models

  pub get_allocation-put : (j : Text) → get_allocation j (put now r db) ≡ get_allocation j db
  unfolding get_allocation put
  get_allocation-put j = refl

pub get-delete :
    (k j : Text) (db : StateDb) → get j (delete k db) ≡ (if text_eq k j then none else get j db)
unfolding get delete
get-delete k j db = lookup-erase k j db.models

pub get-clear_allocations : (j : Text) (db : StateDb) → get j (clear_allocations db) ≡ get j db
unfolding get clear_allocations
get-clear_allocations j db = refl

-- What holds of every entry of the database, key and record.
abbrev pub Entries {κ} : (Text → ModelRecord → Type κ) → Map ModelRecord → Type κ
Entries P [] = Unit
Entries P ((k, r) ∷ m) = P k r × Entries P m

Entries-insert {κ} :
    (P : Text → ModelRecord → Type κ) (k : Text) (r : ModelRecord) (m : Map ModelRecord)
    → P k r
    → Entries P m
    → Entries P (insert k r m)
unfolding insert
Entries-insert P k r [] p e = (p, tt)
Entries-insert P k r ((j, s) ∷ m) p e =
    elim (text_eq j k)
        as (λ b. text_eq j k ≡ b → Entries P (if b then (j, r) ∷ m else (j, s) ∷ insert k r m)) [
          | true ↦ λ same. (rw ((text_eq_iff j k).0 same) p, e.1)
          | false ↦ λ _. (e.0, Entries-insert P k r m p e.1)
        ]
      refl

pub Entries-lookup {κ} :
    (P : Text → ModelRecord → Type κ) (k : Text) (m : Map ModelRecord) {r : ModelRecord}
    → lookup k m ≡ some r
    → Entries P m
    → P k r
unfolding lookup
Entries-lookup P k [] h e = cc
Entries-lookup P k ((j, s) ∷ m) {r} h e = elim (Bool-cases (text_eq j k)) [
  | inl same ↦ subst₂ P ((text_eq_iff j k).0 same) (ground arith) e.0
  | inr other ↦ Entries-lookup P k m (rw other at h) e.1
]

-- Each record stands under its own key, and its leases are valid.
pub record DbValid (db : StateDb) : Type 0 where
  pub entries : Entries (λ k r. (r.key ≡ k) × LeasesValid r) db.models

stamp-LeasesValid : (now : ℕ) {r : ModelRecord} → LeasesValid r → LeasesValid (stamp now r)
unfolding stamp
stamp-LeasesValid now v = record { distinct = v.distinct; named = v.named; held = v.held }

-- `Put` of a record with valid leases keeps the database valid.
pub put-DbValid :
    (now : ℕ) (r : ModelRecord) {db : StateDb} → LeasesValid r → DbValid db → DbValid (put now r db)
unfolding put
put-DbValid now r {db} v d = record {
  entries =
      Entries-insert (λ k r. (r.key ≡ k) × LeasesValid r) r.key (stamp now r) db.models
        (unfold stamp in refl, stamp-LeasesValid now v) d.entries;
}

-- What `Get` returns has the key it was asked for and valid leases.
pub get-valid :
    (k : Text) {db : StateDb} {r : ModelRecord}
    → DbValid db
    → get k db ≡ some r
    → (r.key ≡ k) × LeasesValid r
unfolding get
get-valid k {db} d h = Entries-lookup (λ k r. (r.key ≡ k) × LeasesValid r) k db.models h d.entries

lookup-Has :
    (k : Text) (m : Map ModelRecord) {r : ModelRecord} → lookup k m ≡ some r → Has r (values m)
unfolding lookup values
lookup-Has k [] h = cc
lookup-Has k ((j, s) ∷ m) h = elim (Bool-cases (text_eq j k)) [
  | inl e ↦ inl (ground arith)
  | inr n ↦ inr (lookup-Has k m (rw n at h))
]

-- A record that `Get` finds is listed.
pub list-Has : (k : Text) (db : StateDb) {r : ModelRecord} → get k db ≡ some r → Has r (list db)
unfolding get list
list-Has k db h = Has-sort_slice record_less _ (values db.models) (lookup-Has k db.models h)

Entries-values :
    (m : Map ModelRecord)
    → Entries (λ k r. (r.key ≡ k) × LeasesValid r) m
    → All LeasesValid (values m)
unfolding values
Entries-values [] e = tt
Entries-values ((k, r) ∷ m) e = (e.0.1, Entries-values m e.1)

pub list-valid : (db : StateDb) → DbValid db → All LeasesValid (list db)
unfolding list
list-valid db d =
    All-sort_slice record_less LeasesValid (values db.models) (Entries-values db.models d.entries)

pub clear_allocations-DbValid : {db : StateDb} → DbValid db → DbValid (clear_allocations db)
unfolding clear_allocations
clear_allocations-DbValid d = record { entries = d.entries }
