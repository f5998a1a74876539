-- ===== src/Schedule.antt =====
-- packages/program/src/selectors.ts: where an instant falls in a sorted sequence of slots.
-- A slot is read with its place in the list: two references are the same object exactly when
-- their places are equal, which is what `===` and `indexOf` ask of the elements of one array.
pub mod Timeline
pub mod Search
use conference_operator.Common.{
  ℕ, suc, ◌+◌, ◌*◌, String, Bool, true, Option, none, some, List, [], ◌∷◌, ltb, get_elem?,
  if◌then◌else◌,
}
use mathlib.Core.Option

pub data SessionKind : Type 0 where
  talk break : SessionKind

-- `ScheduledSession` with the `id` and `kind` that the state machine reads. Instants are
-- milliseconds since the epoch.
pub record Slot : Type 0 where
  pub id : String
  pub kind : SessionKind
  pub starts_at_ms : ℕ
  pub ends_at_ms : Option ℕ
  pub duration_minutes : Option ℕ

-- A reference to an element of a list of slots.
pub record Placed : Type 0 where
  pub place : ℕ
  pub slot : Slot

abbrev pub placed : ℕ → Slot → Placed
placed i s = record { place = i; slot = s }

pub record TimelinePosition : Type 0 where
  pub current : Option Placed
  pub next : Option Placed
  pub previous : Option Placed

unfoldable pub effective_end_ms : Slot → Option Slot → Option ℕ
effective_end_ms session next = elim session.ends_at_ms [
  | some end ↦ some end
  | none ↦ elim session.duration_minutes [
    | some minutes ↦ some (session.starts_at_ms + minutes * 60000)
    | none ↦ Option.map (λ (s : Slot). s.starts_at_ms) next
  ]
]

-- `end == null || nowMs < end`
abbrev pub is_open : Option ℕ → ℕ → Bool
is_open none now_ms = true
is_open (some end) now_ms = ltb now_ms end

-- The loop of `timelinePosition`, from the place `i` on.
unfoldable pub timeline_from : ℕ → Option Placed → List Slot → ℕ → TimelinePosition
timeline_from i previous [] now_ms = record { current = none; next = none; previous = previous }
timeline_from i previous (session ∷ rest) now_ms =
    let later = timeline_from (suc i) (some (placed i session)) rest now_ms in
    if ltb now_ms session.starts_at_ms
    then record { current = none; next = some (placed i session); previous = previous }
    else if is_open (effective_end_ms session (get_elem? rest 0)) now_ms
    then record {
      current = some (placed i session);
      next = Option.map (placed (suc i)) (get_elem? rest 0);
      previous = previous;
    }
    else later

unfoldable pub timeline_position : List Slot → ℕ → TimelinePosition
unfolding timeline_from effective_end_ms
timeline_position sessions now_ms = timeline_from 0 none sessions now_ms

-- `effectiveEndAt` of packages/room-state/src/state.ts.
unfoldable pub effective_end_at : List Slot → ℕ → Option ℕ
effective_end_at slots index = elim (get_elem? slots index) [
  | none ↦ none
  | some slot ↦ effective_end_ms slot (get_elem? slots (suc index))
]
