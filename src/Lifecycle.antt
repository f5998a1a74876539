-- ===== src/Lifecycle.antt =====
-- packages/room-state/src/lifecycle.ts: what a gesture makes of a talk.
pub mod Reach
use conference_operator.Common.{ℕ, Bool, true, Option, none, some, leb, is_some}

pub data SessionStatus : Type 0 where
  scheduled running ended : SessionStatus

pub data SessionAction : Type 0 where
  start end reset : SessionAction

-- The table `TRANSITIONS`, and `statusAfter` which reads it.
unfoldable pub status_after : SessionStatus → SessionAction → Option SessionStatus
status_after scheduled start = some running
status_after scheduled end = none
status_after scheduled reset = some scheduled
status_after running start = none
status_after running end = some ended
status_after running reset = some scheduled
status_after ended start = some running
status_after ended end = none
status_after ended reset = some scheduled

unfoldable pub is_transition_allowed : SessionStatus → SessionAction → Bool
unfolding status_after
is_transition_allowed from action = is_some (status_after from action)

-- The sentences of `transitionRefusal`.
pub data Refusal : Type 0 where
  already_started already_ended never_started : Refusal

-- The refusal's words once the gesture is known to be refused.
abbrev refusal_of : SessionAction → SessionStatus → Refusal
refusal_of start from = already_started
refusal_of _ ended = already_ended
refusal_of _ _ = never_started

unfoldable pub transition_refusal : SessionStatus → SessionAction → Option Refusal
unfolding is_transition_allowed
transition_refusal from action = elim (is_transition_allowed from action) [
  | true ↦ none
  | _ ↦ some (refusal_of action from)
]

-- A date that is missing or unreadable is `none`.
unfoldable pub is_decision_applicable : Option ℕ → ℕ → Bool
is_decision_applicable none now_ms = true
is_decision_applicable (some decided_at_ms) now_ms = leb decided_at_ms now_ms

-- A null test on the status of a slot: `statuses[slot.id] === 'running'`.
abbrev pub is_running : Option SessionStatus → Bool
is_running (some running) = true
is_running _ = Bool.false

abbrev pub is_ended : Option SessionStatus → Bool
is_ended (some ended) = true
is_ended _ = Bool.false
