-- ===== src/Config/Accepted.antt =====
-- What `Validate` of internal/config/config.go accepts.
use oci2gdsd.Prelude.{
  ◌<◌, ◌≡◌, ◌↔◌, refl, Bool, true, false, not, ◌&&◌, ◌||◌, none, some, List, [], ◌∷◌, any, is_empty,
  Text, codes, ℤ, pos, negsuc, pos_part, neg_part, ltb_ℤ, All, arith, Bool-cases, inl, inr,
  if◌then◌else◌,
}
use oci2gdsd.AppErr.{AppError, new_app_error, exit_validation, validation_failed}
use oci2gdsd.Names.{is_abs}
use oci2gdsd.Config.{Config, join, or_below, not_positive, violations, validate}

-- A directory that is absolute, or left empty.
abbrev pub AbsOrEmpty : Text → Type 0
AbsOrEmpty dir = (is_empty dir || is_abs dir) ≡ true

pub record ConfigSound (compiles : Text → Bool) (c : Config) : Type 0 where
  pub root : is_abs c.root ≡ true
  pub dirs : All AbsOrEmpty (
      c.model_root ∷ c.tmp_root ∷ c.locks_root ∷ c.journal_dir ∷ c.state_db ∷ c.docker_config_path
      ∷ [])
  pub limits :
      All
        (λ n. 0 < pos_part n)
        (c.max_shards_concurrent_per_model ∷ c.stream_buffer_bytes
          ∷ c.max_concurrent_requests_global ∷ c.max_concurrent_requests_per_model
          ∷ c.max_concurrent_chunks_per_blob ∷ c.chunk_size_bytes
          ∷ c.max_concurrent_persistent_loads_per_device ∷ c.max_concurrent_attachments_per_device
          ∷ c.max_runtime_bundle_tokens ∷ c.max_tensor_map_cache_entries ∷ [])
  pub min_free : neg_part c.min_free_bytes ≡ 0
  pub signature : (c.strict_signature && c.allow_unsigned_in_dev) ≡ false
  pub regex : (is_empty c.model_id_allowlist_regex || compiles c.model_id_allowlist_regex) ≡ true

-- No test of the list is true.
abbrev AllFalse : List Bool → Type 0
AllFalse = All (λ b. b ≡ false)

any-AllFalse : (bs : List Bool) → any (λ b. b) bs ≡ false → AllFalse bs
unfolding any
any-AllFalse [] h = tt
any-AllFalse (true ∷ bs) h = cc
any-AllFalse (false ∷ bs) h = (refl, any-AllFalse bs h)

AllFalse-any : (bs : List Bool) → AllFalse bs → any (λ b. b) bs ≡ false
unfolding any
AllFalse-any [] h = refl
AllFalse-any (b ∷ bs) h = rw h.0 (AllFalse-any bs h.1)

join_abs : (root name : Text) → is_abs root ≡ true → is_abs (join root name) ≡ true
unfolding join is_abs
join_abs root name h = rw (h, join) refl

dir_iff :
    (root dir name : Text)
    → is_abs root ≡ true
    → (not (is_abs (or_below root dir name)) ≡ false) ↔ AbsOrEmpty dir
unfolding or_below
dir_iff root dir name h = elim (Bool-cases (is_empty dir)) [
  | inl e ↦ rw (e, or_below, join_abs root name h) (λ _. refl, λ _. refl)
  | inr e ↦ rw (e, or_below) (not_false (is_abs dir))
]
  where
    not_false : (b : Bool) → (not b ≡ false) ↔ ((false || b) ≡ true)
    not_false true = (λ _. refl, λ _. refl)
    not_false false = (λ e. cc, λ e. cc)

positive_iff : (n : ℤ) → (not_positive n ≡ false) ↔ (0 < pos_part n)
positive_iff n = (λ h. ground (arith, h), λ h. ground (arith, h))

given_root : (root : Text) → is_abs root ≡ true → is_empty root ≡ false
unfolding is_abs is_empty
given_root [] h = cc
given_root (c ∷ root) h = refl

accepted : (o : Bool) (e : AppError) → (if o then some e else none) ≡ none → o ≡ false
accepted true e h = cc
accepted false e h = refl

either_iff : (a b : Bool) → ((not a && not b) ≡ false) ↔ ((a || b) ≡ true)
either_iff true b = (λ _. refl, λ _. refl)
either_iff false true = (λ _. refl, λ _. refl)
either_iff false false = (λ e. cc, λ e. cc)

abs_root : (b : Bool) → not b ≡ false → b ≡ true
abs_root true h = refl
abs_root false h = cc

not_negative_iff : (n : ℤ) → (ltb_ℤ n (pos 0) ≡ false) ↔ (neg_part n ≡ 0)
not_negative_iff (pos n) = (λ h. refl, λ h. ground arith)
not_negative_iff (negsuc n) = (λ h. absurd (ground (arith, h)), λ h. absurd (omega (arith, h)))

tests_ConfigSound :
    (compiles : Text → Bool) (c : Config)
    → AllFalse (violations compiles c)
    → ConfigSound compiles c
unfolding violations
tests_ConfigSound compiles c v =
    let root : is_abs c.root ≡ true = abs_root (is_abs c.root) v.1.0 in
    record {
      root = root;
      dirs = (
        (dir_iff c.root c.model_root (codes "models") root).0 v.1.1.0,
        (
          (dir_iff c.root c.tmp_root (codes "tmp") root).0 v.1.1.1.0,
          (
            (dir_iff c.root c.locks_root (codes "locks") root).0 v.1.1.1.1.0,
            (
              (dir_iff c.root c.journal_dir (codes "journal") root).0 v.1.1.1.1.1.0,
              (
                (dir_iff c.root c.state_db (codes "state.db") root).0 v.1.1.1.1.1.1.0,
                (
                  (either_iff (is_empty c.docker_config_path) (is_abs c.docker_config_path)).0
                      v.1.1.1.1.1.1.1.1.1.1.1.1.1.1.1.1.1.1.1.0,
                  tt,
                ),
              ),
            ),
          ),
        ),
      );
      limits = (
        (positive_iff c.max_shards_concurrent_per_model).0 v.1.1.1.1.1.1.1.0,
        (
          (positive_iff c.stream_buffer_bytes).0 v.1.1.1.1.1.1.1.1.0,
          (
            (positive_iff c.max_concurrent_requests_global).0 v.1.1.1.1.1.1.1.1.1.0,
            (
              (positive_iff c.max_concurrent_requests_per_model).0 v.1.1.1.1.1.1.1.1.1.1.0,
              (
                (positive_iff c.max_concurrent_chunks_per_blob).0 v.1.1.1.1.1.1.1.1.1.1.1.0,
                (
                  (positive_iff c.chunk_size_bytes).0 v.1.1.1.1.1.1.1.1.1.1.1.1.0,
                  (
                    (positive_iff c.max_concurrent_persistent_loads_per_device).0
                        v.1.1.1.1.1.1.1.1.1.1.1.1.1.1.0,
                    (
                      (positive_iff c.max_concurrent_attachments_per_device).0
                          v.1.1.1.1.1.1.1.1.1.1.1.1.1.1.1.0,
                      (
                        (positive_iff c.max_runtime_bundle_tokens).0
                            v.1.1.1.1.1.1.1.1.1.1.1.1.1.1.1.1.0,
                        (
                          (positive_iff c.max_tensor_map_cache_entries).0
                              v.1.1.1.1.1.1.1.1.1.1.1.1.1.1.1.1.1.0,
                          tt,
                        ),
                      ),
                    ),
                  ),
                ),
              ),
            ),
          ),
        ),
      );
      min_free = (not_negative_iff c.min_free_bytes).0 v.1.1.1.1.1.1.1.1.1.1.1.1.1.0;
      signature = v.1.1.1.1.1.1.1.1.1.1.1.1.1.1.1.1.1.1.0;
      regex =
          (either_iff (is_empty c.model_id_allowlist_regex) (compiles c.model_id_allowlist_regex)).0
            v.1.1.1.1.1.1.1.1.1.1.1.1.1.1.1.1.1.1.1.1.0;
    }

ConfigSound-tests :
    (compiles : Text → Bool) (c : Config)
    → ConfigSound compiles c
    → AllFalse (violations compiles c)
unfolding violations
ConfigSound-tests compiles c h = (
  given_root c.root h.root,
  (
    rw h.root refl,
    (
      (dir_iff c.root c.model_root (codes "models") h.root).1 h.dirs.0,
      (
        (dir_iff c.root c.tmp_root (codes "tmp") h.root).1 h.dirs.1.0,
        (
          (dir_iff c.root c.locks_root (codes "locks") h.root).1 h.dirs.1.1.0,
          (
            (dir_iff c.root c.journal_dir (codes "journal") h.root).1 h.dirs.1.1.1.0,
            (
              (dir_iff c.root c.state_db (codes "state.db") h.root).1 h.dirs.1.1.1.1.0,
              (
                (positive_iff c.max_shards_concurrent_per_model).1 h.limits.0,
                (
                  (positive_iff c.stream_buffer_bytes).1 h.limits.1.0,
                  (
                    (positive_iff c.max_concurrent_requests_global).1 h.limits.1.1.0,
                    (
                      (positive_iff c.max_concurrent_requests_per_model).1 h.limits.1.1.1.0,
                      (
                        (positive_iff c.max_concurrent_chunks_per_blob).1 h.limits.1.1.1.1.0,
                        (
                          (positive_iff c.chunk_size_bytes).1 h.limits.1.1.1.1.1.0,
                          (
                            (not_negative_iff c.min_free_bytes).1 h.min_free,
                            (
                              (positive_iff c.max_concurrent_persistent_loads_per_device).1
                                  h.limits.1.1.1.1.1.1.0,
                              (
                                (positive_iff c.max_concurrent_attachments_per_device).1
                                    h.limits.1.1.1.1.1.1.1.0,
                                (
                                  (positive_iff c.max_runtime_bundle_tokens).1
                                      h.limits.1.1.1.1.1.1.1.1.0,
                                  (
                                    (positive_iff c.max_tensor_map_cache_entries).1
                                        h.limits.1.1.1.1.1.1.1.1.1.0,
                                    (
                                      h.signature,
                                      (
                                        (either_iff (is_empty c.docker_config_path)
                                              (is_abs c.docker_config_path)).1
                                            h.dirs.1.1.1.1.1.0,
                                        (
                                          (either_iff (is_empty c.model_id_allowlist_regex)
                                                (compiles c.model_id_allowlist_regex)).1
                                              h.regex,
                                          tt,
                                        ),
                                      ),
                                    ),
                                  ),
                                ),
                              ),
                            ),
                          ),
                        ),
                      ),
                    ),
                  ),
                ),
              ),
            ),
          ),
        ),
      ),
    ),
  ),
)

-- `Validate` accepts a configuration just if its root is absolute, each directory and the docker
-- configuration are absolute or left empty, the limits are positive, the free space that is to stay is
-- not negative, signatures are not both strict and optional, and the allowlist is empty or compiles.
pub validate_iff :
    (compiles : Text → Bool) (c : Config) → (validate compiles c ≡ none) ↔ ConfigSound compiles c
unfolding validate
validate_iff compiles c = (
  λ h. tests_ConfigSound compiles c (
      any-AllFalse (violations compiles c) (
        accepted (any (λ b. b) (violations compiles c))
          (new_app_error exit_validation validation_failed) h)),
  λ s. (rw (AllFalse-any (violations compiles c) (ConfigSound-tests compiles c s)) refl),
)
