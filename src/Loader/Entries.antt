-- ===== src/Loader/Entries.antt =====
-- The reference counts of an entry of the table of internal/gpu/gds_linux.go.
use oci2gdsd.Prelude.{
  ℕ, ◌+◌, ◌-◌, ◌<◌, ◌==◌, ltb, ◌≡◌, Option, some, [], ◌∷◌, Text, text_eq, text_eq_iff, Map, lookup,
  insert, erase, lookup-insert, lookup-erase, Apart, insert-Apart, erase-Apart, arith, Bool-cases,
  inl, inr,
}
use oci2gdsd.Loader.{Persistent, import_count, attach_entry, detach_entry}

-- The imports of all clients.
abbrev pub total_imports : Map ℕ → ℕ
total_imports [] = 0
total_imports ((_, n) ∷ m) = n + total_imports m

total_imports-insert :
    (c : Text) (n : ℕ) (m : Map ℕ)
    → total_imports (insert c n m) + import_count c m ≡ total_imports m + n
unfolding insert lookup
total_imports-insert c n [] = omega arith
total_imports-insert c n ((j, k) ∷ m) = ground (arith, total_imports-insert c n m)

total_imports-erase :
    (c : Text) (m : Map ℕ)
    → Apart m
    → total_imports (erase c m) + import_count c m ≡ total_imports m
unfolding erase lookup
total_imports-erase c [] h = omega arith
total_imports-erase c ((j, k) ∷ m) h =
    ground (arith, total_imports-erase c m h.1, text_eq_iff j c, h.0)

-- An allocation is loaded, and its importer references are those of its clients, each at least one.
pub record EntryValid (a : Persistent) : Type 0 where
  pub loaded : 0 < a.load_refs
  pub counted : a.importer_refs ≡ total_imports a.importers
  pub apart : Apart a.importers
  pub positive : (d : Text) (n : ℕ) → lookup d a.importers ≡ some n → 0 < n

pub record TableValid (m : Map Persistent) : Type 0 where
  pub entries : (k : Text) (a : Persistent) → lookup k m ≡ some a → EntryValid a

same_entry : {a b : Persistent} → ◌≡◌ {A = Option Persistent} (some a) (some b) → a ≡ b
same_entry h = cc

pub insert-TableValid :
    (k : Text) (a : Persistent) (m : Map Persistent)
    → EntryValid a
    → TableValid m
    → TableValid (insert k a m)
insert-TableValid k a m v t = record {
  entries = λ j b h. elim (Bool-cases (text_eq k j)) [
    | inl e ↦ rw (← same_entry (rw (lookup-insert k j a m, e) at h)) v
    | inr e ↦ t.entries j b (rw (lookup-insert k j a m, e) at h)
  ];
}

pub erase-TableValid : (k : Text) (m : Map Persistent) → TableValid m → TableValid (erase k m)
erase-TableValid k m t = record {
  entries = λ j b h. elim (Bool-cases (text_eq k j)) [
    | inl e ↦ absurd (ground (arith, rw (lookup-erase k j m, e) at h))
    | inr e ↦ t.entries j b (rw (lookup-erase k j m, e) at h)
  ];
}

same_count : {a b : ℕ} → ◌≡◌ {A = Option ℕ} (some a) (some b) → a ≡ b
same_count h = cc

positive-insert :
    (c : Text) (k : ℕ) (m : Map ℕ)
    → 0 < k
    → ((d : Text) (n : ℕ) → lookup d m ≡ some n → 0 < n)
    → (d : Text) (n : ℕ) → lookup d (insert c k m) ≡ some n
    → 0 < n
positive-insert c k m p v d n h = elim (Bool-cases (text_eq c d)) [
  | inl e ↦ omega (arith, p, same_count (rw (lookup-insert c d k m, e) at h))
  | inr e ↦ v d n (rw (lookup-insert c d k m, e) at h)
]

pub attach_entry-EntryValid :
    (c : Text) (a : Persistent) → EntryValid a → EntryValid (attach_entry c a)
unfolding attach_entry
attach_entry-EntryValid c a v = record {
  loaded = v.loaded;
  counted =
      omega (arith, v.counted, total_imports-insert c (import_count c a.importers + 1) a.importers);
  apart = insert-Apart c (import_count c a.importers + 1) a.importers v.apart;
  positive =
      positive-insert c (import_count c a.importers + 1) a.importers (omega arith) v.positive;
}

pub detach_entry-EntryValid :
    (c : Text) (a : Persistent) → EntryValid a → EntryValid (detach_entry c a)
unfolding detach_entry
detach_entry-EntryValid c a v = elim (Bool-cases (ltb 1 (import_count c a.importers))) [
  | inl e ↦ rw e (record {
    loaded = v.loaded;
    counted =
        ground
          (arith, v.counted, total_imports-insert c (import_count c a.importers - 1) a.importers);
    apart = insert-Apart c (import_count c a.importers - 1) a.importers v.apart;
    positive =
        positive-insert c (import_count c a.importers - 1) a.importers (ground (arith, e))
          v.positive;
  })
  | inr e ↦ elim (Bool-cases (import_count c a.importers == 1)) [
    | inl f ↦
        rw (e, f)
          (record {
            loaded = v.loaded;
            counted = ground (arith, v.counted, total_imports-erase c a.importers v.apart);
            apart = erase-Apart c a.importers v.apart;
            positive = λ d n h. v.positive d n (ground (arith, lookup-erase c d a.importers, h));
          })
    | inr f ↦ rw (e, f) v
  ]
]
