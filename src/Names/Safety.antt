-- ===== src/Names/Safety.antt =====
-- What the names that pass validation in internal/app/util.go are.
use oci2gdsd.Prelude.{
  ℕ, ◌≡◌, ◌≢◌, refl, sym, ◌∙◌, ◌↔◌, false, none, [], ◌∷◌, Text, codes, text_eq_iff, trim_left,
  trim_right, trim_space, is_space, has_rune, is_empty, arith,
}
use oci2gdsd.Names.{
  slash, backslash, drop_trailing_slashes, after_last_slash, is_abs, base, check_component,
  validate_shard_name, validate_model_id,
}

module _ (c : ℕ) (visible : is_space c ≡ false) where
  has_rune-trim_left : (s : Text) → has_rune c (trim_left s) ≡ has_rune c s
  unfolding has_rune trim_left
  has_rune-trim_left [] = refl
  has_rune-trim_left (d ∷ s) = ground (arith, has_rune-trim_left s)

  has_rune-trim_right : (s : Text) → has_rune c (trim_right s) ≡ has_rune c s
  unfolding has_rune trim_right
  has_rune-trim_right [] = refl
  has_rune-trim_right (d ∷ s) = ground (arith, has_rune-trim_right s)

  pub has_rune-trim_space : (s : Text) → has_rune c (trim_space s) ≡ has_rune c s
  unfolding trim_space
  has_rune-trim_space s = has_rune-trim_right (trim_left s) ∙ has_rune-trim_left s

drop_trailing_slashes_lem : (s : Text) → has_rune slash s ≡ false → drop_trailing_slashes s ≡ s
unfolding drop_trailing_slashes has_rune
drop_trailing_slashes_lem [] h = refl
drop_trailing_slashes_lem (c ∷ s) h = ground (arith, drop_trailing_slashes_lem s)

after_last_slash_lem : (s : Text) → has_rune slash s ≡ false → after_last_slash s ≡ s
unfolding after_last_slash
after_last_slash_lem [] h = refl
after_last_slash_lem (c ∷ s) h = ground arith

base_lem : (s : Text) → s ≢ [] → has_rune slash s ≡ false → base s ≡ s
unfolding base
base_lem [] n h = absurd (n refl)
base_lem (c ∷ s) n h =
    ground (arith, drop_trailing_slashes_lem (c ∷ s), after_last_slash_lem (c ∷ s))

is_abs_lem : (c : ℕ) (s : Text) → has_rune slash (c ∷ s) ≡ false → is_abs (c ∷ s) ≡ false
unfolding has_rune is_abs
is_abs_lem c s h = ground arith

-- A name for one entry of a directory, other than the directory and its parent.
pub record IsComponent (name : Text) : Type 0 where
  pub some_text : name ≢ []
  pub no_slash : has_rune slash name ≡ false
  pub no_backslash : has_rune backslash name ≡ false
  pub not_here : name ≢ codes "."
  pub not_up : name ≢ codes ".."

-- The tests accept exactly the names for one entry.
pub check_component_iff : (n : Text) → (check_component n ≡ none) ↔ IsComponent n
unfolding check_component is_empty
check_component_iff [] = (λ e. cc, λ h. absurd (h.some_text refl))
check_component_iff (c ∷ s) = (
  λ e. record {
    some_text = λ x. cc;
    no_slash = ground arith;
    no_backslash = ground arith;
    not_here = λ x. ground (arith, text_eq_iff (c ∷ s) (codes "."));
    not_up = λ x. ground (arith, text_eq_iff (c ∷ s) (codes ".."));
  },
  λ h. ground (
    arith,
    base_lem (c ∷ s) h.some_text h.no_slash,
    text_eq_iff (c ∷ s) (codes "."),
    text_eq_iff (c ∷ s) (codes ".."),
    text_eq_iff (base (c ∷ s)) (c ∷ s),
    h.not_here,
    h.not_up,
    is_abs_lem c s,
  ),
)

-- `ValidateShardName` accepts exactly the names that are the name of one directory entry once the
-- spaces around them are dropped.
pub validate_shard_name_iff :
    (name : Text) → (validate_shard_name name ≡ none) ↔ IsComponent (trim_space name)
unfolding validate_shard_name
validate_shard_name_iff name = check_component_iff (trim_space name)

validated : (name : Text) → IsComponent (trim_space name) → IsComponent name
validated name t = record {
  some_text = λ e. t.some_text (rw e (unfold trim_space trim_left trim_right in refl));
  no_slash = sym (has_rune-trim_space slash (unfold is_space in refl) name) ∙ t.no_slash;
  no_backslash =
      sym (has_rune-trim_space backslash (unfold is_space in refl) name) ∙ t.no_backslash;
  not_here = λ e. t.not_here (rw e (unfold trim_space trim_left trim_right is_space in refl));
  not_up = λ e. t.not_up (rw e (unfold trim_space trim_left trim_right is_space in refl));
}

-- A shard name that is accepted is, as it is used with its spaces, the name of one directory entry.
pub validate_shard_name-IsComponent :
    (name : Text) → validate_shard_name name ≡ none → IsComponent name
validate_shard_name-IsComponent name h = validated name ((validate_shard_name_iff name).0 h)

-- A model id that is accepted is, as it is used with its spaces, the name of one directory entry.
pub validate_model_id-IsComponent :
    (model_id : Text) → validate_model_id model_id ≡ none → IsComponent model_id
unfolding validate_model_id
validate_model_id-IsComponent model_id h =
    validated model_id ((check_component_iff (trim_space model_id)).0 h)
