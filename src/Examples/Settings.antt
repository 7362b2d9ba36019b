-- ===== src/Examples/Settings.antt =====
-- Tests of internal/config/config.go: the defaults, with a directory left empty.
use oci2gdsd.Prelude.{◌≡◌, ◌↔◌, refl, true, false, none, [], codes, text_eq, is_empty, any, pos}
use oci2gdsd.Names.{is_abs}
use oci2gdsd.Config.{
  Config, validate, violations, or_below, join, apply_global_overrides, moved, timeout_or_default,
}
use oci2gdsd.Config.Accepted.{ConfigSound, validate_iff}

abbrev no_model_root : Config
no_model_root = record {
  root = codes "/var/lib/oci2gdsd";
  model_root = [];
  tmp_root = codes "/var/lib/oci2gdsd/tmp";
  locks_root = codes "/var/lib/oci2gdsd/locks";
  journal_dir = codes "/var/lib/oci2gdsd/journal";
  state_db = codes "/var/lib/oci2gdsd/state.db";
  log_level = codes "info";
  timeout_seconds = pos 30;
  request_timeout_seconds = pos 30;
  docker_config_path = [];
  max_shards_concurrent_per_model = pos 4;
  stream_buffer_bytes = pos 4194304;
  max_concurrent_requests_global = pos 64;
  max_concurrent_requests_per_model = pos 12;
  max_concurrent_chunks_per_blob = pos 6;
  chunk_size_bytes = pos 16777216;
  strict_signature = true;
  allow_unsigned_in_dev = false;
  min_free_bytes = pos 214748364800;
  max_concurrent_persistent_loads_per_device = pos 1;
  max_concurrent_attachments_per_device = pos 8;
  max_runtime_bundle_tokens = pos 1024;
  max_tensor_map_cache_entries = pos 128;
  model_id_allowlist_regex = [];
}

-- The empty directory is accepted, and stays empty.
validate_iff_example :
    (validate (λ t. true) no_model_root ≡ none) ↔ ConfigSound (λ t. true) no_model_root
validate_iff_example = validate_iff (λ t. true) no_model_root

empty_accepted : validate (λ t. true) no_model_root ≡ none
unfolding validate violations or_below join is_abs is_empty any
empty_accepted = refl

-- A new root moves what is empty or the default.
moved_root :
    (apply_global_overrides (codes "/srv/./x/") [] [] no_model_root).model_root
    ≡ codes "/srv/x/models"
unfolding apply_global_overrides moved join is_empty is_abs text_eq
moved_root = refl

default_timeout : timeout_or_default (pos 0) no_model_root ≡ pos 30
unfolding timeout_or_default
default_timeout = refl
