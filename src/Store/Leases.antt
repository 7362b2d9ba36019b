-- ===== src/Store/Leases.antt =====
-- The leases of a record under `AcquireLease` and `ReleaseLease` of internal/store/store.go.
use oci2gdsd.Prelude.{
  ℕ, ◌≡◌, refl, ◌≢◌, true, false, not, none, List, [], ◌∷◌, ◌++◌, length, Text, text_eq,
  text_eq_iff, text_eq_refl, Bool-cases, inl, inr, is_empty, keep, arith, if◌then◌else◌,
}
use oci2gdsd.Store.{Lease, ModelRecord, has_lease, acquire_lease, release_lease}

-- No holder has two leases.
abbrev pub Distinct : List Lease → Type 0
Distinct [] = Unit
Distinct (l ∷ ls) = (has_lease l.holder ls ≡ false) × Distinct ls

-- What holds of the leases of every record: no lease without a holder, none twice, and a record
-- with a lease is not releasable.
pub record LeasesValid (r : ModelRecord) : Type 0 where
  pub distinct : Distinct r.leases
  pub named : has_lease [] r.leases ≡ false
  pub held : r.leases ≢ [] → (r.releasable ≡ false) × (r.releasable_at ≡ none)

pub has_lease-append :
    (h : Text) (ls : List Lease) (l : Lease)
    → has_lease h (ls ++ l ∷ []) ≡ (if has_lease h ls then true else text_eq l.holder h)
unfolding has_lease
has_lease-append h [] l = ground arith
has_lease-append h (x ∷ ls) l = ground (arith, has_lease-append h ls l)

pub has_lease-keep :
    (h k : Text) (ls : List Lease)
    → has_lease h (keep (λ l. not (text_eq l.holder k)) ls)
      ≡ (if text_eq h k then false else has_lease h ls)
unfolding has_lease keep
has_lease-keep h k [] = ground arith
has_lease-keep h k (x ∷ ls) =
    ground (
      arith,
      has_lease-keep h k ls,
      text_eq_iff x.holder k,
      text_eq_iff x.holder h,
      text_eq_iff h k,
    )

Distinct-append :
    (ls : List Lease) (l : Lease)
    → Distinct ls
    → has_lease l.holder ls ≡ false
    → Distinct (ls ++ l ∷ [])
unfolding has_lease
Distinct-append [] l d h = (refl, tt)
Distinct-append (x ∷ ls) l d h = (
  ground (
    arith,
    has_lease-append x.holder ls l,
    text_eq_iff x.holder l.holder,
    text_eq_iff l.holder x.holder,
  ),
  Distinct-append ls l d.1 (ground arith),
)

Distinct-keep :
    (k : Text) (ls : List Lease) → Distinct ls → Distinct (keep (λ l. not (text_eq l.holder k)) ls)
unfolding keep
Distinct-keep k [] d = tt
Distinct-keep k (x ∷ ls) d =
    ground (arith, has_lease-keep x.holder k ls, Distinct-keep k ls d.1, d.0)

keep-append :
    (k : Text) (ls : List Lease) (l : Lease)
    → keep (λ l. not (text_eq l.holder k)) (ls ++ l ∷ [])
      ≡ (keep (λ l. not (text_eq l.holder k)) ls) ++ (if text_eq l.holder k then [] else l ∷ [])
unfolding keep
keep-append k [] l = ground arith
keep-append k (x ∷ ls) l = ground (arith, keep-append k ls l)

keep-all :
    (k : Text) (ls : List Lease)
    → has_lease k ls ≡ false
    → keep (λ l. not (text_eq l.holder k)) ls ++ [] ≡ ls
unfolding keep has_lease
keep-all k [] h = refl
keep-all k (x ∷ ls) h = ground (arith, keep-all k ls)

lease_added :
    (now : ℕ) (h : Text) (r : ModelRecord)
    → is_empty h ≡ false
    → has_lease h r.leases ≡ false
    → LeasesValid r
    → LeasesValid (record r {
      leases = r.leases ++ (record { holder = h; acquired_at = now } ∷ []);
      releasable = false;
      releasable_at = none;
      last_accessed_at = now;
    })
unfolding is_empty
lease_added now h r e f v = record {
  distinct = Distinct-append r.leases (record { holder = h; acquired_at = now }) v.distinct f;
  named = ground (
    arith,
    has_lease-append [] r.leases (record { holder = h; acquired_at = now }),
    text_eq_iff h [],
    v.named,
  );
  held = λ _. (refl, refl);
}

module _ (now : ℕ) (h : Text) (r : ModelRecord) where
  -- After `AcquireLease` the holder asked for has a lease, if its name is not empty, and every other
  -- holder has one just if it had one before.
  pub has_lease-acquire_lease :
      (k : Text)
      → has_lease k (acquire_lease now h r).leases ≡ (
          if is_empty h
          then has_lease k r.leases
          else if text_eq h k
          then true
          else has_lease k r.leases)
  unfolding acquire_lease
  has_lease-acquire_lease k = ground (
    arith,
    has_lease-append k r.leases (record { holder = h; acquired_at = now }),
    text_eq_iff h k,
  )

  -- `AcquireLease` keeps the leases valid.
  pub acquire_lease-LeasesValid : LeasesValid r → LeasesValid (acquire_lease now h r)
  unfolding acquire_lease
  acquire_lease-LeasesValid v = elim (Bool-cases (is_empty h)) [
    | inl e ↦ rw e v
    | inr e ↦ elim (Bool-cases (has_lease h r.leases)) [
      | inl f ↦ rw (e, f) (record { distinct = v.distinct; named = v.named; held = v.held })
      | inr f ↦ rw (e, f) (lease_added now h r e f v)
    ]
  ]

  -- `ReleaseLease` with a holder that is not empty removes its leases and no others, and returns how
  -- many remain.
  pub has_lease-release_lease :
      (k : Text)
      → h ≢ []
      → (has_lease k (release_lease now h r).0.leases
          ≡ (if text_eq k h then false else has_lease k r.leases))
        × ((release_lease now h r).1 ≡ length (release_lease now h r).0.leases)
  unfolding release_lease is_empty
  has_lease-release_lease k n = ground (arith, has_lease-keep k h r.leases)

  -- `ReleaseLease` keeps the leases valid.
  pub release_lease-LeasesValid : LeasesValid r → LeasesValid (release_lease now h r).0
  unfolding release_lease keep
  release_lease-LeasesValid v = elim (Bool-cases (is_empty h)) [
    | inl e ↦ rw e v
    | inr e ↦ rw e (record {
      distinct = Distinct-keep h r.leases v.distinct;
      named = ground (arith, has_lease-keep [] h r.leases, v.named);
      held = λ some_left. v.held (λ none_left. some_left (ground arith));
    })
  ]

  -- Releasing a lease just acquired by a holder who had none restores the leases.
  pub release_lease-acquire_lease :
      (later : ℕ)
      → h ≢ []
      → has_lease h r.leases ≡ false
      → (release_lease later h (acquire_lease now h r)).0.leases ≡ r.leases
  unfolding release_lease acquire_lease is_empty
  release_lease-acquire_lease later n f = ground (
    arith,
    keep-append h r.leases (record { holder = h; acquired_at = now }),
    keep-all h r.leases f,
    text_eq_refl h,
  )
