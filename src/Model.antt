-- ===== src/Model.antt =====
-- internal/model/model.go, and `transitionState` of internal/app/lock.go: the life of a model.
pub mod Transitions
use oci2gdsd.Prelude.{Bool, true, false, Text, if◌then◌else◌}

-- The nine constants; `unknown` is any other string that a state file holds.
pub data ModelState : Type 0 where
  new resolving downloading verifying publishing ready failed releasing released : ModelState
  unknown : Text → ModelState

pub data ExternalStatus : Type 0 where
  ext_ready ext_failed ext_releasing ext_released ext_pending : ExternalStatus

unfoldable pub external_status : ModelState → ExternalStatus
external_status ready = ext_ready
external_status failed = ext_failed
external_status releasing = ext_releasing
external_status released = ext_released
external_status _ = ext_pending

-- The row of the table `valid` for `current`, as a test on `next`; no row for `released`.
unfoldable pub allowed : ModelState → ModelState → Bool
allowed new resolving = true
allowed resolving downloading = true
allowed resolving failed = true
allowed downloading verifying = true
allowed downloading failed = true
allowed verifying publishing = true
allowed verifying failed = true
allowed publishing ready = true
allowed publishing failed = true
allowed ready releasing = true
allowed releasing ready = true
allowed releasing released = true
allowed failed resolving = true
allowed failed released = true
allowed _ _ = false

pub data Transition : Type 0 where
  done : Transition
  invalid_current invalid_transition : Transition

unfoldable pub transition_state : ModelState → ModelState → Transition
unfolding allowed
transition_state released next = invalid_current
transition_state (unknown t) next = invalid_current
transition_state current next = if allowed current next then done else invalid_transition
