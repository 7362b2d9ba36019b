-- ===== src/Config.antt =====
-- internal/config/config.go: the validation of a configuration, and the overrides of the command
-- line. The nested structs are flat here, with the fields that these use; whether a regular
-- expression compiles is `compiles`.
pub mod Accepted
use oci2gdsd.Prelude.{
  ℕ, ◌*◌, Bool, true, false, not, ◌&&◌, ◌||◌, Option, none, some, List, [], ◌∷◌, ◌++◌, any, map,
  is_empty, Text, codes, text_eq, ℤ, pos, pos_part, leb_ℤ, ltb_ℤ, if◌then◌else◌,
}
use oci2gdsd.AppErr.{AppError, new_app_error, exit_validation, validation_failed}
use oci2gdsd.Names.{slash, is_abs}
use oci2gdsd.Paths.{Components, split_slash, clean_step, rev}

pub record Config : Type 0 where
  pub root : Text
  pub model_root : Text
  pub tmp_root : Text
  pub locks_root : Text
  pub journal_dir : Text
  pub state_db : Text
  pub log_level : Text
  pub timeout_seconds : ℤ
  pub request_timeout_seconds : ℤ
  pub docker_config_path : Text
  pub max_shards_concurrent_per_model : ℤ
  pub stream_buffer_bytes : ℤ
  pub max_concurrent_requests_global : ℤ
  pub max_concurrent_requests_per_model : ℤ
  pub max_concurrent_chunks_per_blob : ℤ
  pub chunk_size_bytes : ℤ
  pub strict_signature : Bool
  pub allow_unsigned_in_dev : Bool
  pub min_free_bytes : ℤ
  pub max_concurrent_persistent_loads_per_device : ℤ
  pub max_concurrent_attachments_per_device : ℤ
  pub max_runtime_bundle_tokens : ℤ
  pub max_tensor_map_cache_entries : ℤ
  pub model_id_allowlist_regex : Text

-- A piece of a path in `filepath.Clean`: an absolute path stops at the root, where a relative one
-- keeps its `..`.
unfoldable pub clean_piece : Bool → Components → Text → Components
unfolding clean_step
clean_piece true up piece = clean_step up piece
clean_piece false up piece =
    if text_eq piece (codes "..")
    then elim up [
      | [] ↦ piece ∷ []
      | last ∷ rest ↦ if text_eq last (codes "..") then piece ∷ last ∷ rest else rest
    ]
    else clean_step up piece

unfoldable pub clean_pieces : Bool → Components → List Text → Components
unfolding clean_piece
clean_pieces rooted up [] = up
clean_pieces rooted up (piece ∷ rest) = clean_pieces rooted (clean_piece rooted up piece) rest

-- The components with slashes between them.
unfoldable pub with_slashes : Components → Text
with_slashes [] = []
with_slashes (c ∷ cs) =
    let rest = with_slashes cs in c ++ (if is_empty rest then [] else slash ∷ rest)

-- `filepath.Join(root, name)`, for a root that is not empty and a name without slashes.
unfoldable pub join : Text → Text → Text
unfolding split_slash clean_pieces with_slashes rev
join root name =
    let (piece, rest) = split_slash root in
    let rooted = is_abs root in
    let out = with_slashes (rev (clean_pieces rooted [] ((piece ∷ rest) ++ name ∷ []))) in
    if rooted then slash ∷ out else if is_empty out then codes "." else out

-- `if dir == "" { dir = filepath.Join(root, name) }`
unfoldable pub or_below : Text → Text → Text → Text
unfolding join
or_below root dir name = if is_empty dir then join root name else dir

abbrev pub not_positive : ℤ → Bool
not_positive n = leb_ℤ n (pos 0)

-- What `Validate` refuses, in its order.
unfoldable pub violations : (Text → Bool) → Config → List Bool
unfolding or_below
violations compiles c =
    is_empty c.root
    ∷ not (is_abs c.root)
    ∷ not (is_abs (or_below c.root c.model_root (codes "models")))
    ∷ not (is_abs (or_below c.root c.tmp_root (codes "tmp")))
    ∷ not (is_abs (or_below c.root c.locks_root (codes "locks")))
    ∷ not (is_abs (or_below c.root c.journal_dir (codes "journal")))
    ∷ not (is_abs (or_below c.root c.state_db (codes "state.db")))
    ∷ not_positive c.max_shards_concurrent_per_model
    ∷ not_positive c.stream_buffer_bytes
    ∷ not_positive c.max_concurrent_requests_global
    ∷ not_positive c.max_concurrent_requests_per_model
    ∷ not_positive c.max_concurrent_chunks_per_blob
    ∷ not_positive c.chunk_size_bytes
    ∷ ltb_ℤ c.min_free_bytes (pos 0)
    ∷ not_positive c.max_concurrent_persistent_loads_per_device
    ∷ not_positive c.max_concurrent_attachments_per_device
    ∷ not_positive c.max_runtime_bundle_tokens
    ∷ not_positive c.max_tensor_map_cache_entries
    ∷ (c.strict_signature && c.allow_unsigned_in_dev)
    ∷ (not (is_empty c.docker_config_path) && not (is_abs c.docker_config_path))
    ∷ (not (is_empty c.model_id_allowlist_regex) && not (compiles c.model_id_allowlist_regex))
    ∷ []

-- `Validate`: the first violation is returned; all have one code and one reason.
unfoldable pub validate : (Text → Bool) → Config → Option AppError
unfolding violations
validate compiles c =
    if any (λ b. b) (violations compiles c)
    then some (new_app_error exit_validation validation_failed)
    else none

-- A directory that is empty or the default is put below the new root.
unfoldable pub moved : Text → Text → Text → Text
unfolding join
moved root dir name =
    if is_empty dir || text_eq dir (codes "/var/lib/oci2gdsd/" ++ name) then join root name else dir

abbrev pub move_root : Text → Config → Config
move_root root c = record c {
  root = root;
  model_root = moved root c.model_root (codes "models");
  tmp_root = moved root c.tmp_root (codes "tmp");
  locks_root = moved root c.locks_root (codes "locks");
  journal_dir = moved root c.journal_dir (codes "journal");
  state_db = moved root c.state_db (codes "state.db");
}

-- `ApplyGlobalOverrides`
unfoldable pub apply_global_overrides : Text → Text → Text → Config → Config
unfolding moved
apply_global_overrides root target_root log_level c =
    let c₁ = if is_empty root then c else move_root root c in
    let c₂ : Config = record c₁ {
      model_root = if is_empty target_root then c₁.model_root else target_root;
    } in
    record c₂ { log_level = if is_empty log_level then c₂.log_level else log_level }

-- `TimeoutOrDefault`, in seconds.
unfoldable pub timeout_or_default : ℤ → Config → ℤ
timeout_or_default d c =
    if ltb_ℤ (pos 0) d
    then d
    else if ltb_ℤ (pos 0) c.request_timeout_seconds
    then c.request_timeout_seconds
    else if ltb_ℤ (pos 0) c.timeout_seconds
    then c.timeout_seconds
    else pos 30
