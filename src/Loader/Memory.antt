-- ===== src/Loader/Memory.antt =====
-- The device memory behind the table of internal/gpu/gds_linux.go, by counting pointers.
use oci2gdsd.Prelude.{
  ℕ, ◌+◌, ◌≤◌, ◌==◌, ◌≡◌, some, List, [], ◌∷◌, Text, text_eq, Map, lookup, insert, erase, arith,
  Bool-cases, inl, inr, if◌then◌else◌,
}
use oci2gdsd.Loader.{
  Persistent, Sessions, session_count, set_session, drop_session, total_refs, remove_ptr,
}

abbrev pub one : ℕ → ℕ → ℕ
one p q = if q == p then 1 else 0

-- How often the pointer is in the list.
abbrev pub count : ℕ → List ℕ → ℕ
count p [] = 0
count p (q ∷ qs) = one p q + count p qs

-- How many entries of the table have the pointer.
abbrev pub in_table : ℕ → Map Persistent → ℕ
in_table p [] = 0
in_table p ((_, a) ∷ m) = one p a.ptr + in_table p m

pub count-remove_ptr : (p q : ℕ) (qs : List ℕ) → count p qs ≤ count p (remove_ptr q qs) + one p q
unfolding remove_ptr
count-remove_ptr p q [] = omega arith
count-remove_ptr p q (r ∷ qs) = ground (arith, count-remove_ptr p q qs)

pub count-remove_ptr_le : (p q : ℕ) (qs : List ℕ) → count p (remove_ptr q qs) ≤ count p qs
unfolding remove_ptr
count-remove_ptr_le p q [] = omega arith
count-remove_ptr_le p q (r ∷ qs) = ground (arith, count-remove_ptr_le p q qs)

pub in_table-insert :
    (p : ℕ) (k : Text) (a : Persistent) (m : Map Persistent)
    → in_table p (insert k a m) ≤ in_table p m + one p a.ptr
unfolding insert
in_table-insert p k a [] = omega arith
in_table-insert p k a ((j, c) ∷ m) = ground (arith, in_table-insert p k a m)

-- A new entry in place of one with the same pointer.
pub in_table-insert_same :
    (p : ℕ) (k : Text) (a a' : Persistent) (m : Map Persistent)
    → lookup k m ≡ some a
    → a'.ptr ≡ a.ptr
    → in_table p (insert k a' m) ≡ in_table p m
unfolding insert lookup
in_table-insert_same p k a a' [] h e = absurd (ground arith)
in_table-insert_same p k a a' ((j, c) ∷ m) h e = elim (Bool-cases (text_eq j k)) [
  | inl f ↦ rw f (ground (arith, rw f at h))
  | inr f ↦ rw f (omega (arith, in_table-insert_same p k a a' m (rw f at h) e))
]

pub in_table-erase_le :
    (p : ℕ) (k : Text) (m : Map Persistent) → in_table p (erase k m) ≤ in_table p m
unfolding erase
in_table-erase_le p k [] = omega arith
in_table-erase_le p k ((j, c) ∷ m) = ground (arith, in_table-erase_le p k m)

pub in_table-erase :
    (p : ℕ) (k : Text) (a : Persistent) (m : Map Persistent)
    → lookup k m ≡ some a
    → in_table p (erase k m) + one p a.ptr ≤ in_table p m
unfolding erase lookup
in_table-erase p k a [] h = absurd (ground arith)
in_table-erase p k a ((j, c) ∷ m) h = elim (Bool-cases (text_eq j k)) [
  | inl f ↦ rw f (ground (arith, rw f at h, in_table-erase_le p k m))
  | inr f ↦ rw f (omega (arith, in_table-erase p k a m (rw f at h)))
]

-- An entry is counted.
pub in_table-lookup :
    (k : Text) (a : Persistent) (m : Map Persistent) → lookup k m ≡ some a → 1 ≤ in_table a.ptr m
unfolding lookup
in_table-lookup k a [] h = absurd (ground arith)
in_table-lookup k a ((j, c) ∷ m) h = elim (Bool-cases (text_eq j k)) [
  | inl f ↦ ground (arith, rw f at h)
  | inr f ↦ omega (arith, in_table-lookup k a m (rw f at h))
]

pub session_count-set_session :
    (d e n : ℕ) (ss : Sessions)
    → session_count d (set_session e n ss) ≡ (if e == d then n else session_count d ss)
unfolding session_count set_session
session_count-set_session d e n [] = ground arith
session_count-set_session d e n ((f, m) ∷ ss) = ground (arith, session_count-set_session d e n ss)

pub session_count-drop_session :
    (d e : ℕ) (ss : Sessions)
    → session_count d (drop_session e ss) ≡ (if e == d then 0 else session_count d ss)
unfolding session_count drop_session
session_count-drop_session d e [] = ground arith
session_count-drop_session d e ((f, m) ∷ ss) = ground (arith, session_count-drop_session d e ss)

pub session_count-le : (d : ℕ) (ss : Sessions) → session_count d ss ≤ total_refs ss
unfolding session_count total_refs
session_count-le d [] = omega arith
session_count-le d ((f, m) ∷ ss) = ground (arith, session_count-le d ss)
