-- ===== src/Model/Transitions.antt =====
-- The transition table of internal/app/lock.go as a graph: what can be reached by it.
use oci2gdsd.Prelude.{◌≡◌, ◌⊎◌, inl, inr, arith}
use oci2gdsd.Model.{
  ModelState, publishing, ready, releasing, released, new, resolving, downloading, verifying,
  failed, transition_state, done,
}

-- Chains of accepted transitions.
pub data Reaches (s : ModelState) : ModelState → Type 0 where
  here : Reaches s s
  next : {t u : ModelState} → Reaches s t → transition_state t u ≡ done → Reaches s u

-- The states in which the content of the model has not been published.
abbrev pub Unpublished : ModelState → Type 0
Unpublished new = Unit
Unpublished resolving = Unit
Unpublished downloading = Unit
Unpublished verifying = Unit
Unpublished publishing = Unit
Unpublished failed = Unit
Unpublished _ = ⊥

-- One accepted transition out of an unpublished state.
leave-Unpublished :
    (t u : ModelState)
    → Unpublished t
    → transition_state t u ≡ done
    → Unpublished u ⊎ (u ≡ released) ⊎ (t ≡ publishing)
unfolding transition_state
leave-Unpublished t u p e = ground arith

released_stays : (u : ModelState) → transition_state released u ≡ done → ⊥
unfolding transition_state
released_stays u e = cc

-- Where a chain from an unpublished state can be.
abbrev Stage : ModelState → ModelState → Type 0
Stage s t = Unpublished t ⊎ (t ≡ released) ⊎ (Reaches s publishing × Reaches publishing t)

Stage-step :
    {s t u : ModelState} → Reaches s t → transition_state t u ≡ done → Stage s t → Stage s u
Stage-step {s} {t} {u} r e (inl p) = elim (leave-Unpublished t u p e) [
  | inl q ↦ inl q
  | inr (inl q) ↦ inr (inl q)
  | inr (inr q) ↦ inr (inr (rw q at r, next (rw (← q) here) e))
]
Stage-step {s} {t} {u} r e (inr (inl p)) = absurd (released_stays u (rw p at e))
Stage-step r e (inr (inr p)) = inr (inr (p.0, next p.1 e))

Reaches-Stage : {s t : ModelState} → Unpublished s → Reaches s t → Stage s t
Reaches-Stage p here = inl p
Reaches-Stage p (next r e) = Stage-step r e (Reaches-Stage p r)

-- Every chain of accepted transitions from an unpublished state to `ready` or `releasing` comes
-- through `publishing`.
pub ready_needs_publishing :
    (s t : ModelState)
    → Unpublished s
    → (t ≡ ready) ⊎ (t ≡ releasing)
    → Reaches s t
    → Reaches s publishing × Reaches publishing t
ready_needs_publishing s t p (inl e) r = elim (Reaches-Stage p r) [
  | inl q ↦ absurd (rw e at q)
  | inr (inl q) ↦ cc
  | inr (inr q) ↦ q
]
ready_needs_publishing s t p (inr e) r = elim (Reaches-Stage p r) [
  | inl q ↦ absurd (rw e at q)
  | inr (inl q) ↦ cc
  | inr (inr q) ↦ q
]
