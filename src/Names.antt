-- ===== src/Names.antt =====
-- The names of internal/app/util.go: model ids, shard names, keys and what is made of them; and the
-- file names that internal/app/lock.go and journal.go make of a key.
pub mod Safety
pub mod Keys
use oci2gdsd.Prelude.{
  ℕ, Bool, true, false, ◌==◌, ◌||◌, Option, none, some, List, [], ◌∷◌, ◌++◌, map, Text, codes,
  text_eq, is_empty, trim_space, has_rune, if◌then◌else◌,
}

-- Why a name is refused.
pub data NameError : Type 0 where
  name_empty name_not_allowed name_absolute name_not_single name_has_separator : NameError

abbrev pub slash : ℕ
slash = b'/'

abbrev pub backslash : ℕ
backslash = 92

-- `filepath.IsAbs`
unfoldable pub is_abs : Text → Bool
is_abs [] = false
is_abs (c ∷ _) = c == slash

-- `filepath.Base`, of a name that is not empty: what stands behind the last slash once the trailing
-- slashes are gone, and a slash if nothing is left.
unfoldable pub drop_trailing_slashes : Text → Text
drop_trailing_slashes [] = []
drop_trailing_slashes (c ∷ s) = elim (drop_trailing_slashes s) [
  | [] ↦ if c == slash then [] else c ∷ []
  | d ∷ t ↦ c ∷ d ∷ t
]

unfoldable pub after_last_slash : Text → Text
after_last_slash [] = []
after_last_slash (c ∷ s) =
    let rest = after_last_slash s in
    if has_rune slash (c ∷ s) then (if has_rune slash s then rest else s) else c ∷ s

unfoldable pub base : Text → Text
unfolding drop_trailing_slashes after_last_slash
base s = elim (drop_trailing_slashes s) [ [] ↦ slash ∷ [] | c ∷ t ↦ after_last_slash (c ∷ t) ]

-- The tests that `ValidateShardName` and `ValidateModelID` make of the trimmed name.
unfoldable pub check_component : Text → Option NameError
unfolding is_abs base
check_component n =
    if is_empty n
    then some name_empty
    else if text_eq n (codes ".") || text_eq n (codes "..")
    then some name_not_allowed
    else if is_abs n
    then some name_absolute
    else if text_eq (base n) n
    then (if has_rune slash n || has_rune backslash n then some name_has_separator else none)
    else some name_not_single

unfoldable pub validate_shard_name : Text → Option NameError
unfolding check_component
validate_shard_name name = check_component (trim_space name)

unfoldable pub validate_model_id : Text → Option NameError
unfolding check_component
validate_model_id model_id = check_component (trim_space model_id)

unfoldable pub model_key : Text → Text → Text
model_key model_id manifest_digest = model_id ++ b'@' ∷ manifest_digest

unfoldable pub digest_to_path_component : Text → Text
digest_to_path_component = map (λ c. if c == b':' then b'-' else c)

-- `strings.NewReplacer("/", "_", "@", "_", ":", "_").Replace`
unfoldable pub safe_rune : ℕ → ℕ
safe_rune c = if c == slash || c == b'@' || c == b':' then b'_' else c

unfoldable pub safe_name : Text → Text
unfolding safe_rune
safe_name = map safe_rune

-- The name of the journal file, and that of the lock file.
unfoldable pub journal_name : Text → Text → Text
unfolding safe_name model_key
journal_name model_id manifest_digest =
    safe_name (model_key model_id manifest_digest) ++ codes ".journal"

unfoldable pub lock_name : Text → Text
unfolding safe_name
lock_name key = safe_name key ++ codes ".lock"
