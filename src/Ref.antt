-- ===== src/Ref.antt =====
-- `ParseDigestPinnedRef` of internal/app/util.go. The parser of digests is a library's, and is the
-- parameter `algorithm`: the algorithm of a well-formed digest.
pub mod Laws
use oci2gdsd.Prelude.{
  ℕ, ◌≡◌, refl, Bool, true, false, ◌==◌, Option, none, some, List, [], ◌∷◌, ◌++◌, Text, codes,
  text_eq, is_empty, trim_space, has_rune, if◌then◌else◌, arith, trim_left, trim_right, is_space,
}

pub data RefError : Type 0 where
  not_pinned empty_repository bad_digest unsupported_algorithm : RefError

pub data ParsedRef : Type 0 where
  parsed : Text → Text → ParsedRef
  refused : RefError → ParsedRef

-- `strings.Split(ref, "@")`: the first piece, and the others.
unfoldable pub split_at_sign : Text → Text × List Text
split_at_sign [] = ([], [])
split_at_sign (c ∷ s) =
    let (piece, rest) = split_at_sign s in
    if c == b'@' then ([], piece ∷ rest) else (c ∷ piece, rest)

module _ (algorithm : Text → Option Text) where
  unfoldable pub check_parts : Text → Text → ParsedRef
  check_parts repository manifest_digest =
      if is_empty repository then refused empty_repository else elim (algorithm manifest_digest) [
        | none ↦ refused bad_digest
        | some a ↦
            if text_eq a (codes "sha256")
            then parsed repository manifest_digest
            else refused unsupported_algorithm
      ]

  unfoldable pub parse_parts : Text × List Text → ParsedRef
  unfolding check_parts
  parse_parts (first, second ∷ []) = check_parts (trim_space first) (trim_space second)
  parse_parts (first, _) = refused not_pinned

  unfoldable pub parse_digest_pinned_ref : Text → ParsedRef
  unfolding parse_parts split_at_sign
  parse_digest_pinned_ref ref = parse_parts (split_at_sign ref)
