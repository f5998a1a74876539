-- ===== src/Room/Pin.antt =====
-- What the pin of packages/room-state/src/state.ts holds for.
use conference_operator.Common.{◌≡◌, String, false, Option, some, none, List, arith, str_eq, eq_iff}
use conference_operator.Schedule.{talk, Slot, Placed}
use conference_operator.Schedule.Search.{IsAt, find-some}
use conference_operator.Lifecycle.{is_ended}
use conference_operator.Room.{SessionStatuses, held_pin, pinned_slot}

held_pin-some :
    (statuses : SessionStatuses) (found : Option Placed) (p : Placed)
    → held_pin statuses found ≡ some p
    → (found ≡ some p) × (p.slot.kind ≡ talk) × (is_ended (statuses p.slot.id) ≡ false)
held_pin-some statuses found p h = ground arith

-- A pin that holds names a talk of the list that has not ended.
pub pinned_slot-some :
    (slots : List Slot) (statuses : SessionStatuses) (pinned_id : Option String) {p : Placed}
    → pinned_slot slots statuses pinned_id ≡ some p
    → IsAt slots p
      × (pinned_id ≡ some p.slot.id)
      × (p.slot.kind ≡ talk)
      × (is_ended (statuses p.slot.id) ≡ false)
unfolding pinned_slot
pinned_slot-some slots statuses none h = cc
pinned_slot-some slots statuses (some id) {p} h =
    let (found, kind, open_still) = held_pin-some statuses _ p h in
    let (at, same) = find-some (λ q. str_eq q.slot.id id) slots found in
    (at, ground (arith, eq_iff p.slot.id id), kind, open_still)
