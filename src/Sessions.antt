-- ===== src/Sessions.antt =====
-- apps/hub-server/src/services/sessions.ts: the decisions on the talks, over the table
-- `session_state` of packages/db/src/hub/schema.ts, and the sweep of the scheduling rule. The hub's
-- instant is an argument.
pub mod Gestures
pub mod Sweep
pub mod Due
use conference_operator.Common.{
  ℕ, suc, String, Bool, true, false, not, ◌&&◌, ◌||◌, Option, none, some, List, [], ◌∷◌, ◌++◌,
  str_eq, filter, find?, map, or_else, if◌then◌else◌,
}
use conference_operator.Common.Maps.{get, set, delete}
use conference_operator.Schedule.{Slot, effective_end_at}
use conference_operator.Lifecycle.{
  SessionStatus, scheduled, running, ended, SessionAction, start, end, Refusal, status_after,
  transition_refusal, is_decision_applicable,
}
use conference_operator.Room.{AutoEndSetting, should_auto_end}

pub record SessionState : Type 0 where
  pub room_id : Option String
  pub status : SessionStatus
  pub started_at : Option ℕ
  pub ended_at : Option ℕ
  pub decided_by : String

-- The table, and the calls of `onChange`.
pub record SessionService : Type 0 where
  pub rows : List (String × SessionState)
  pub changed : List (Option String)

abbrev decided_at : SessionState → Option ℕ
decided_at state = elim state.status [ ended ↦ state.ended_at | _ ↦ state.started_at ]

abbrev pub applicable : ℕ → SessionState → Bool
applicable now_ms state = is_decision_applicable (decided_at state) now_ms

abbrev pub if_applicable : ℕ → Option SessionState → Option SessionState
if_applicable now_ms none = none
if_applicable now_ms (some state) = if applicable now_ms state then some state else none

-- `get`
unfoldable pub state_of : ℕ → String → SessionService → Option SessionState
unfolding is_decision_applicable
state_of now_ms session_id s = if_applicable now_ms (get session_id s.rows)

abbrev in_room : String → Option String → Bool
in_room room_id none = true
in_room room_id (some r) = str_eq r room_id

abbrev asked : Option String → String × SessionState → Bool
asked none row = true
asked (some room_id) row = in_room room_id row.1.room_id

-- `states`
unfoldable pub states : ℕ → Option String → SessionService → List (String × SessionState)
unfolding is_decision_applicable
states now_ms room_id s = filter (λ row. applicable now_ms row.1) (filter (asked room_id) s.rows)

pub data Written : Type 0 where
  refused : SessionStatus → SessionAction → Option Refusal → Written
  written : SessionState → Written

abbrev pub status_of : Option SessionState → SessionStatus
status_of none = scheduled
status_of (some state) = state.status

abbrev started_before : Option SessionState → Option ℕ
started_before none = none
started_before (some state) = state.started_at

-- The row that a gesture writes.
abbrev pub decided : ℕ → Option String → SessionStatus → String → Option SessionState → SessionState
decided now_ms room_id status decided_by existing = record {
  room_id = room_id;
  status = status;
  started_at = elim status [ running ↦ some now_ms | _ ↦ started_before existing ];
  ended_at = elim status [ ended ↦ some now_ms | _ ↦ none ];
  decided_by = decided_by;
}

unfoldable pub write :
    ℕ → String → Option String → SessionAction → String → SessionService → SessionService × Written
unfolding state_of status_after transition_refusal
write now_ms session_id room_id action decided_by s =
    let existing = state_of now_ms session_id s in
    let from = status_of existing in
    elim (status_after from action) [
      | none ↦ (s, refused from action (transition_refusal from action))
      | some status ↦
          let row = decided now_ms room_id status decided_by existing in
          (
            record { rows = set session_id row s.rows; changed = s.changed ++ (room_id ∷ []) },
            written row,
          )
    ]

unfoldable pub start_talk :
    ℕ → String → Option String → String → SessionService → SessionService × Written
unfolding write
start_talk now_ms session_id room_id decided_by s =
    write now_ms session_id room_id start decided_by s

unfoldable pub end_talk :
    ℕ → String → Option String → String → SessionService → SessionService × Written
unfolding write
end_talk now_ms session_id room_id decided_by s = write now_ms session_id room_id end decided_by s

-- `reset`
unfoldable pub reset_talk : ℕ → String → SessionService → SessionService
unfolding state_of
reset_talk now_ms session_id s = elim (state_of now_ms session_id s) [
  | none ↦ s
  | some existing ↦ record {
    rows = delete session_id s.rows;
    changed = s.changed ++ (existing.room_id ∷ []);
  }
]

pub record ProgramSession : Type 0 where
  pub slot : Slot
  pub room_id : Option String

abbrev has_room : String → ProgramSession → Bool
has_room room_id session = elim session.room_id [ none ↦ false | some r ↦ str_eq r room_id ]

-- `sessionsForRoom`
abbrev sessions_for_room : List ProgramSession → String → List Slot
sessions_for_room sessions room_id =
    map (λ session. session.slot) (filter (has_room room_id) sessions)

-- `slots.indexOf(session)`, of the first session with this id.
abbrev index_of : String → String → List ProgramSession → ℕ
index_of room_id session_id [] = 0
index_of room_id session_id (session ∷ sessions) =
    let later = index_of room_id session_id sessions in
    if str_eq session.slot.id session_id
    then 0
    else if has_room room_id session
    then suc later
    else later

unfoldable pub effective_end_in_program : List ProgramSession → String → Option ℕ
effective_end_in_program sessions session_id =
    elim (find? (λ session. str_eq session.slot.id session_id) sessions) [
      | none ↦ none
      | some session ↦ elim session.room_id [
        | none ↦ none
        | some room_id ↦
            effective_end_at (sessions_for_room sessions room_id)
              (index_of room_id session_id sessions)
      ]
    ]

-- `pinned.has(id)`
abbrev pub has : List String → String → Bool
has [] id = false
has (i ∷ ids) id = str_eq i id || has ids id

-- Whether the sweep closes a talk in this state.
abbrev pub closes :
    ℕ → AutoEndSetting → List ProgramSession → List String → String → SessionState → Bool
closes now_ms setting program pinned session_id state =
    not (has pinned session_id)
    && should_auto_end (effective_end_in_program program session_id) state.status now_ms setting

abbrev pub listed :
    String → SessionService × Option (List String) → SessionService × Option (List String)
listed session_id (s, none) = (s, none)
listed session_id (s, some ids) = (s, some (session_id ∷ ids))

-- The loop of `sweep`; `none` when a gesture was refused, which the loop does not catch.
unfoldable pub sweep_states :
    ℕ
    → AutoEndSetting
    → List ProgramSession
    → List String
    → List (String × SessionState)
    → SessionService
    → SessionService × Option (List String)
unfolding end_talk should_auto_end effective_end_in_program
sweep_states now_ms setting program pinned [] s = (s, some [])
sweep_states now_ms setting program pinned ((session_id, state) ∷ rest) s =
    let (after, result) = end_talk now_ms session_id state.room_id "auto" s in
    let closed = listed session_id (sweep_states now_ms setting program pinned rest after) in
    let left = sweep_states now_ms setting program pinned rest s in
    if closes now_ms setting program pinned session_id state
    then elim result [ refused from action why ↦ (after, none) | written row ↦ closed ]
    else left

pub record HubSettings : Type 0 where
  pub auto_end_enabled : Bool
  pub auto_end_grace_minutes : ℕ

unfoldable pub sweep :
    ℕ
    → HubSettings
    → Option (List ProgramSession)
    → List String
    → SessionService
    → SessionService × Option (List String)
unfolding sweep_states states
sweep now_ms settings none pinned s = (s, some [])
sweep now_ms settings (some program) pinned s =
    if settings.auto_end_enabled
    then sweep_states now_ms
        (record { enabled = true; grace_minutes = settings.auto_end_grace_minutes }) program pinned
        (states now_ms none s) s
    else (s, some [])
