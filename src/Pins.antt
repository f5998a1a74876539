-- ===== src/Pins.antt =====
-- apps/hub-server/src/services/pins.ts: the talk forced in a room, and the talks whose slots are
-- swapped, over the tables `room_pin` and `session_slot` of packages/db/src/hub/schema.ts. The
-- programme as it is served and the statuses of the talks come from other services, as arguments.
pub mod Swaps
pub mod Forced
use conference_operator.Common.{
  ℕ, String, Bool, true, false, not, ◌&&◌, ◌||◌, Option, none, some, List, [], ◌∷◌, ◌++◌, str_eq,
  ltb, filter, find?, map, or_else, is_some, ◌⊎◌, inl, inr, if◌then◌else◌,
}
use conference_operator.Common.Maps.{get, set, delete}
use conference_operator.Schedule.{SessionKind}
use conference_operator.Room.{is_talk, SessionStatuses}
use conference_operator.Lifecycle.{SessionStatus, scheduled, running, ended, is_ended, is_running}
use mathlib.Core.Option

-- A row of `room_pin`, without its key, the room.
pub record Pin : Type 0 where
  pub session_id : String
  pub pinned_by : String
  pub pinned_at : ℕ

-- What the service tells the others.
pub data PinNotice : Type 0 where
  room_changed : String → PinNotice
  pins_announced : PinNotice
  program_announced : PinNotice

pub record Pins : Type 0 where
  pub pins : List (String × Pin)
  pub slots : List (String × String)
  pub notices : List PinNotice

-- What the checks read of a session of the served programme.
pub record ServedSession : Type 0 where
  pub id : String
  pub kind : SessionKind
  pub room_id : Option String
  pub room_span : ℕ
  pub shared_from : Option String

pub data PinError : Type 0 where
  same_talk no_program : PinError
  unknown_talk not_a_talk spans_rooms other_room already_given already_ended : String → PinError

abbrev tell : PinNotice → Pins → Pins
tell n p = record p { notices = p.notices ++ (n ∷ []) }

unfoldable pub get_pin : String → Pins → Option String
get_pin room_id p = Option.map (λ (x : Pin). x.session_id) (get room_id p.pins)

unfoldable pub set_pin : String → String → String → ℕ → Pins → Pins
set_pin room_id session_id pinned_by now_ms p = tell (room_changed room_id) (record p {
  pins =
      set room_id (record { session_id = session_id; pinned_by = pinned_by; pinned_at = now_ms })
        p.pins;
})

-- Returns whether there was something to lift.
unfoldable pub clear_pin : String → Pins → Pins × Bool
clear_pin room_id p =
    if is_some (get room_id p.pins)
    then (tell (room_changed room_id) (record p { pins = delete room_id p.pins }), true)
    else (record p { pins = delete room_id p.pins }, false)

abbrev clear_rooms : List String → Pins → Pins
clear_rooms [] p = p
clear_rooms (r ∷ rooms) p = clear_rooms rooms (clear_pin r p).0

abbrev is_one_of : List String → String → Bool
is_one_of [] id = false
is_one_of (i ∷ ids) id = str_eq i id || is_one_of ids id

-- Returns the rooms that lost their pin.
unfoldable pub clear_sessions : List String → Pins → Pins × List String
unfolding clear_pin
clear_sessions session_ids p =
    let rooms = map (λ e. e.0) (filter (λ e. is_one_of session_ids e.1.session_id) p.pins) in
    (clear_rooms rooms p, rooms)

abbrev pub slot_of : String → List (String × String) → String
slot_of session_id slots = or_else (get session_id slots) session_id

-- One turn of the loop of `swapSlots`.
unfoldable pub put_slot : String → String → List (String × String) → List (String × String)
put_slot session_id target slots =
    if str_eq target session_id then delete session_id slots else set session_id target slots

unfoldable pub swap_slots : String → String → List (String × String) → List (String × String)
unfolding put_slot
swap_slots a b slots = put_slot b (slot_of a slots) (put_slot a (slot_of b slots) slots)

unfoldable pub reset_slots : Pins → Pins
reset_slots p = record p { slots = [] }

-- `roomId != null && session.roomId !== roomId`
abbrev is_elsewhere : Option String → Option String → Bool
is_elsewhere none held = false
is_elsewhere (some room_id) none = true
is_elsewhere (some room_id) (some held) = not (str_eq held room_id)

abbrev is_scheduled : Option SessionStatus → Bool
is_scheduled status = not (is_running status) && not (is_ended status)

-- The checks of `swapTalks` on one of the two talks.
unfoldable pub swap_refusal :
    List ServedSession → SessionStatuses → Option String → String → Option PinError
swap_refusal sessions statuses room_id id = elim (find? (λ s. str_eq s.id id) sessions) [
  | none ↦ some (unknown_talk id)
  | some s ↦
      if is_some s.shared_from || not (is_talk s.kind)
      then some (not_a_talk id)
      else if ltb 1 s.room_span
      then some (spans_rooms id)
      else if is_elsewhere room_id s.room_id
      then some (other_room id)
      else if not (is_scheduled (statuses id))
      then some (already_given id)
      else none
]

-- The effects of `swapTalks`, its checks passed.
abbrev swapped : String → String → Pins → Pins
swapped a b p =
    let (lifted, rooms) =
      clear_sessions (a ∷ b ∷ []) (record p { slots = swap_slots a b p.slots }) in
    tell program_announced (elim rooms [ [] ↦ lifted | r ∷ more ↦ tell pins_announced lifted ])

unfoldable pub swap_talks :
    Option (List ServedSession)
    → SessionStatuses
    → String
    → String
    → Option String
    → Pins
    → PinError ⊎ Pins
unfolding swap_slots clear_sessions swap_refusal
swap_talks program statuses a b room_id p = if str_eq a b then inl same_talk else elim program [
  | none ↦ inl no_program
  | some sessions ↦ elim (swap_refusal sessions statuses room_id a) [
    | some e ↦ inl e
    | none ↦ elim (swap_refusal sessions statuses room_id b) [
      | some e ↦ inl e
      | none ↦ inr (swapped a b p)
    ]
  ]
]

unfoldable pub reset_swaps : Pins → Pins
unfolding reset_slots
reset_swaps p = tell program_announced (reset_slots p)

abbrev announce_if : Pins × Bool → Pins
announce_if (p, removed) = if removed then tell pins_announced p else p

-- `pins.get(roomId) !== sessionId`
abbrev pub is_pinned_on : Option String → String → Bool
is_pinned_on none id = false
is_pinned_on (some pinned) id = str_eq pinned id

-- The checks of `pinTalk`.
unfoldable pub pin_refusal :
    List ServedSession → SessionStatuses → String → String → Option PinError
pin_refusal sessions statuses room_id id = elim (find? (λ s. str_eq s.id id) sessions) [
  | none ↦ some (unknown_talk id)
  | some s ↦
      if is_some s.shared_from || not (is_talk s.kind)
      then some (not_a_talk id)
      else if is_elsewhere (some room_id) s.room_id
      then some (other_room id)
      else if is_ended (statuses id)
      then some (already_ended id)
      else none
]

-- `program` is `none` when there is no active programme.
unfoldable pub pin_talk :
    Option (List ServedSession)
    → SessionStatuses
    → String
    → Option String
    → String
    → ℕ
    → Pins
    → PinError ⊎ Pins
unfolding clear_pin get_pin set_pin pin_refusal
pin_talk program statuses room_id none author now_ms p = inr (announce_if (clear_pin room_id p))
pin_talk program statuses room_id (some id) author now_ms p =
    elim (pin_refusal (or_else program []) statuses room_id id) [
      | some e ↦ inl e
      | none ↦
          if is_pinned_on (get_pin room_id p) id
          then inr p
          else inr (tell pins_announced (set_pin room_id id author now_ms p))
    ]

-- Whether a gesture on `session_id` makes the pin on `pinned` moot.
abbrev pub is_moot : String → String → SessionStatus → Bool
is_moot session_id pinned ended = str_eq pinned session_id
is_moot session_id pinned running = not (str_eq pinned session_id)
is_moot session_id pinned scheduled = false

unfoldable pub release_pin_after : String → Option String → SessionStatus → Pins → Pins
unfolding get_pin clear_pin
release_pin_after session_id none status p = p
release_pin_after session_id (some room_id) status p = elim (get_pin room_id p) [
  | none ↦ p
  | some pinned ↦ if is_moot session_id pinned status then announce_if (clear_pin room_id p) else p
]
