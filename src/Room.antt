-- ===== src/Room.antt =====
-- packages/room-state/src/state.ts: where a room stands, which talk it drives, what comes next,
-- and which talks the scheduling rule closes. Differences of instants are compared with the
-- smaller term moved to the other side, so that no subtraction is cut at 0.
pub mod Pin
pub mod Overrun
pub mod Target
pub mod Position
pub mod Clock
use conference_operator.Common.{
  ℕ, ◌+◌, ◌*◌, String, Bool, true, false, not, ◌&&◌, ◌||◌, Option, none, some, List, str_eq, ltb,
  leb, ◌==◌, or_else, if◌then◌else◌, [], ◌∷◌,
}
use conference_operator.Schedule.{
  SessionKind, talk, break, Slot, Placed, timeline_position, effective_end_at,
}
use conference_operator.Schedule.Search.{find_from, find_last_from, some_from, filter_from}
use conference_operator.Lifecycle.{SessionStatus, scheduled, running, ended, is_running, is_ended}

pub data RoomConferenceState : Type 0 where
  aucune pause pas_commencee retard en_cours fin_proche terminee depassement : RoomConferenceState

abbrev pub ending_soon_ms : ℕ
ending_soon_ms = 300000

abbrev pub late_ms : ℕ
late_ms = 300000

abbrev pub break_soon_ms : ℕ
break_soon_ms = 900000

-- `Record<string, SessionStatus>`; a missing key is `none`.
abbrev pub SessionStatuses : Type 0
SessionStatuses = String → Option SessionStatus

abbrev pub is_talk : SessionKind → Bool
is_talk talk = true
is_talk break = false

abbrev pub is_break : SessionKind → Bool
is_break talk = false
is_break break = true

-- `slot === other`, where `other` may be null.
abbrev pub same_slot : Placed → Option Placed → Bool
same_slot p none = false
same_slot p (some q) = p.place == q.place

-- `end != null && end <= limit`
abbrev pub ends_by : Option ℕ → ℕ → Bool
ends_by none limit = false
ends_by (some end) limit = leb end limit

-- The checks that `pinnedSlot` makes of the slot it has found.
abbrev pub held_pin : SessionStatuses → Option Placed → Option Placed
held_pin statuses none = none
held_pin statuses (some p) =
    if not (is_talk p.slot.kind)
    then none
    else if is_ended (statuses p.slot.id)
    then none
    else some p

unfoldable pub pinned_slot : List Slot → SessionStatuses → Option String → Option Placed
pinned_slot slots statuses none = none
pinned_slot slots statuses (some pinned_id) =
    held_pin statuses (find_from 0 (λ p. str_eq p.slot.id pinned_id) slots)

-- The test of `overrunning`.
unfoldable pub overruns : List Slot → ℕ → SessionStatuses → Option Placed → Placed → Bool
overruns slots now_ms statuses pinned p =
    if not (is_running (statuses p.slot.id))
    then false
    else if is_break p.slot.kind
    then false
    else if same_slot p pinned
    then false
    else ends_by (effective_end_at slots p.place) now_ms

-- The state of a room on the clock's slot `current`, a talk or a break.
unfoldable pub clock_state : List Slot → ℕ → SessionStatuses → Placed → RoomConferenceState
clock_state slots now_ms statuses current =
    if is_break current.slot.kind
    then pause
    else elim (or_else (statuses current.slot.id) scheduled) [
      | ended ↦ terminee
      | running ↦
          if ends_by (effective_end_at slots current.place) (now_ms + ending_soon_ms)
          then fin_proche
          else en_cours
      | scheduled ↦
          if ltb (current.slot.starts_at_ms + late_ms) now_ms then retard else pas_commencee
    ]

unfoldable pub state_of_slots :
    List Slot → ℕ → SessionStatuses → Option String → RoomConferenceState
unfolding clock_state
state_of_slots slots now_ms statuses pinned_id =
    let pinned = pinned_slot slots statuses pinned_id in
    if some_from 0 (overruns slots now_ms statuses pinned) slots then depassement else elim pinned [
      | some p ↦ if is_running (statuses p.slot.id) then en_cours else pas_commencee
      | none ↦ elim (timeline_position slots now_ms).current [
        | none ↦ aucune
        | some current ↦ clock_state slots now_ms statuses current
      ]
    ]

unfoldable pub state_from_program : List Slot → ℕ → RoomConferenceState
state_from_program slots now_ms = elim (timeline_position slots now_ms).current [
  | none ↦ aucune
  | some current ↦
      if is_break current.slot.kind
      then pause
      else if ends_by (effective_end_at slots current.place) (now_ms + ending_soon_ms)
      then fin_proche
      else en_cours
]

pub data BreakState : Type 0 where
  break_en_cours break_a_venir : BreakState

pub record Break : Type 0 where
  pub state : BreakState
  pub session : Placed
  pub ends_at_ms : Option ℕ

-- The break that comes next, when it is near.
abbrev upcoming_break : List Slot → ℕ → Option Placed → Option Break
upcoming_break slots now_ms none = none
upcoming_break slots now_ms (some next) =
    if is_break next.slot.kind && leb next.slot.starts_at_ms (now_ms + break_soon_ms)
    then some (record {
      state = break_a_venir;
      session = next;
      ends_at_ms = effective_end_at slots next.place;
    })
    else none

unfoldable pub break_of_slots : List Slot → ℕ → Option Break
break_of_slots slots now_ms =
    let position = timeline_position slots now_ms in
    let upcoming = upcoming_break slots now_ms position.next in
    elim position.current [
      | some current ↦
          if is_break current.slot.kind
          then some (record {
            state = break_en_cours;
            session = current;
            ends_at_ms = effective_end_at slots current.place;
          })
          else upcoming
      | none ↦ upcoming
    ]

unfoldable pub next_talk : List Slot → ℕ → SessionStatuses → Option Placed
next_talk slots now_ms statuses =
    find_from 0
      (λ p.
        is_talk p.slot.kind
        && ltb now_ms p.slot.starts_at_ms
        && not (is_ended (statuses p.slot.id)))
      slots

-- The test of the loops of `talkToControl` and `talkOnAir`.
abbrev pub runs : SessionStatuses → Placed → Bool
runs statuses p = is_talk p.slot.kind && is_running (statuses p.slot.id)

unfoldable pub talk_on_air : List Slot → SessionStatuses → Option Placed
talk_on_air slots statuses = find_last_from 0 (runs statuses) slots

-- `talkToControl` once no pin holds and the current slot is no talk.
unfoldable pub open_or_next : List Slot → ℕ → SessionStatuses → Option Placed
unfolding next_talk
open_or_next slots now_ms statuses = elim (find_last_from 0 (runs statuses) slots) [
  | some p ↦ some p
  | none ↦ next_talk slots now_ms statuses
]

unfoldable pub talk_to_control : List Slot → ℕ → SessionStatuses → Option String → Option Placed
unfolding open_or_next
talk_to_control slots now_ms statuses pinned_id = elim (pinned_slot slots statuses pinned_id) [
  | some pinned ↦ some pinned
  | none ↦ elim (timeline_position slots now_ms).current [
    | none ↦ open_or_next slots now_ms statuses
    | some current ↦
        if is_talk current.slot.kind then some current else open_or_next slots now_ms statuses
  ]
]

pub record RoomPosition : Type 0 where
  pub current : Option Placed
  pub next : Option Placed
  pub target : Option Placed
  pub pinned : Option Placed

-- `talks[talks.indexOf(pinned) - 1] ?? null`, walking down the talks with the one before.
unfoldable pub jumped_over : Option Placed → List Placed → Placed → Option Placed
jumped_over before [] pinned = none
jumped_over before (t ∷ talks) pinned =
    let later = jumped_over (some t) talks pinned in
    if t.place == pinned.place then before else later

-- The test of `next` in `roomPosition`.
unfoldable pub still_to_give :
    List Slot → ℕ → SessionStatuses → Placed → Option Placed → Placed → Bool
still_to_give slots now_ms statuses pinned jumped p =
    if p.place == pinned.place || not (is_talk p.slot.kind)
    then false
    else elim (or_else (statuses p.slot.id) scheduled) [
      | scheduled ↦
          if same_slot p jumped
          then true
          else elim (effective_end_at slots p.place) [ none ↦ true | some end ↦ ltb now_ms end ]
      | _ ↦ false
    ]

unfoldable pub room_position : List Slot → ℕ → SessionStatuses → Option String → RoomPosition
unfolding still_to_give jumped_over
room_position slots now_ms statuses pinned_id = elim (pinned_slot slots statuses pinned_id) [
  | none ↦
      let position = timeline_position slots now_ms in
      record {
        current = position.current;
        next = position.next;
        target = talk_to_control slots now_ms statuses none;
        pinned = none;
      }
  | some pinned ↦
      let talks = filter_from 0 (λ p. is_talk p.slot.kind) slots in
      let jumped = jumped_over none talks pinned in
      record {
        current = some pinned;
        next = find_from 0 (still_to_give slots now_ms statuses pinned jumped) slots;
        target = some pinned;
        pinned = some pinned;
      }
]

pub record AutoEndSetting : Type 0 where
  pub enabled : Bool
  pub grace_minutes : ℕ

abbrev pub default_auto_end : AutoEndSetting
default_auto_end = record { enabled = true; grace_minutes = 5 }

unfoldable pub should_auto_end : Option ℕ → SessionStatus → ℕ → AutoEndSetting → Bool
should_auto_end end status now_ms setting =
    if not setting.enabled
    then false
    else if not (is_running (some status))
    then false
    else elim end [ none ↦ false | some e ↦ leb (e + setting.grace_minutes * 60000) now_ms ]

unfoldable pub to_auto_end : List Slot → ℕ → SessionStatuses → AutoEndSetting → List Placed
unfolding should_auto_end
to_auto_end slots now_ms statuses setting =
    filter_from 0
      (λ p.
        should_auto_end (effective_end_at slots p.place) (or_else (statuses p.slot.id) scheduled)
          now_ms setting)
      slots
