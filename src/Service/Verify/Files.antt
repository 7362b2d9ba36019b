-- ===== src/Service/Verify/Files.antt =====
-- The files of a shards directory against the shards that internal/app/service.go counts.
use oci2gdsd.Prelude.{
  ◌≡◌, ◌≢◌, ◌⊎◌, inl, inr, ◌≤◌, ◌<◌, Bool-cases, some, List, [], ◌∷◌, length, Text, text_eq,
  text_eq_iff, Map, lookup, erase, lookup-erase, All, Pairwise, arith,
}
use oci2gdsd.Profile.{ModelShard}
use oci2gdsd.Service.State.{ShardFile}

-- No two shards have one name.
abbrev pub NamesDiffer : List ModelShard → Type 0
NamesDiffer = Pairwise (λ s t. s.name ≢ t.name)

-- Some shard has the name.
abbrev pub ShardNamed : Text → List ModelShard → Type 0
ShardNamed k [] = ⊥
ShardNamed k (s ∷ ss) = (s.name ≡ k) ⊎ ShardNamed k ss

-- The shard's file is there.
abbrev pub Stored : Map ShardFile → ModelShard → Type 0
Stored files s = (v : ShardFile) × (lookup s.name files ≡ some v)

length-erase : (k : Text) (files : Map ShardFile) → length (erase k files) ≤ length files
unfolding erase
length-erase k [] = omega arith
length-erase k ((j, w) ∷ files) = ground (arith, length-erase k files)

length-erase_found :
    (k : Text) (files : Map ShardFile) {v : ShardFile}
    → lookup k files ≡ some v
    → length (erase k files) < length files
unfolding erase lookup
length-erase_found k [] h = cc
length-erase_found k ((j, w) ∷ files) h = elim (Bool-cases (text_eq j k)) [
  | inl e ↦ rw e (omega (arith, length-erase k files))
  | inr n ↦ rw n (omega (arith, length-erase_found k files (rw n at h)))
]

Stored-erase :
    (s : ModelShard) (files : Map ShardFile) (ss : List ModelShard)
    → All (λ (t : ModelShard). s.name ≢ t.name) ss
    → All (Stored files) ss
    → All (Stored (erase s.name files)) ss
Stored-erase s files [] n h = tt
Stored-erase s files (t ∷ ss) n h = (
  elim (Bool-cases (text_eq s.name t.name)) [
    | inl e ↦ absurd (n.0 ((text_eq_iff s.name t.name).0 e))
    | inr d ↦ (h.0.0, rw (lookup-erase s.name t.name files, d) h.0.1)
  ],
  Stored-erase s files ss n.1 h.1,
)

empty_lookup :
    (k : Text) (files : Map ShardFile) {v : ShardFile}
    → length files ≤ 0
    → lookup k files ≡ some v
    → ⊥
unfolding lookup
empty_lookup k [] l h = cc
empty_lookup k (f ∷ files) l h = omega (arith, l)

-- With no more files than shards, each of which has one under a name of its own, no file is without
-- a shard.
pub no_other_file :
    (ss : List ModelShard) (files : Map ShardFile)
    → All (Stored files) ss
    → length files ≤ length ss
    → NamesDiffer ss
    → (k : Text) (v : ShardFile) → lookup k files ≡ some v
    → ShardNamed k ss
no_other_file [] files a l p k v h = empty_lookup k files l h
no_other_file (s ∷ ss) files a l p k v h = elim (Bool-cases (text_eq s.name k)) [
  | inl e ↦ inl ((text_eq_iff s.name k).0 e)
  | inr d ↦ inr (
      no_other_file ss (erase s.name files) (Stored-erase s files ss p.0 a.1)
        (omega (arith, l, length-erase_found s.name files a.0.1)) p.1 k v
        (rw (lookup-erase s.name k files, d) h))
]
