-- ===== src/Sessions/Gestures.antt =====
-- The gestures on a talk, in apps/hub-server/src/services/sessions.ts.
use conference_operator.Common.{
  ℕ, ◌≤◌, ◌≡◌, ◌≢◌, inl, inr, refl, ap, String, true, Option, none, some, List, [], ◌∷◌, ◌++◌,
  arith, Option-cases,
}
use conference_operator.Common.Maps.{get, set, get-set, get-set_other}
use conference_operator.Lifecycle.{
  SessionStatus, running, ended, SessionAction, start, end, status_after, transition_refusal,
  is_decision_applicable,
}
use conference_operator.Sessions.{
  SessionState, SessionService, state_of, write, refused, written, Written, decided, status_of,
  start_talk, end_talk, applicable,
}

-- What a gesture does: the lifecycle decides from the state that is observed.
pub data IsWritten (now_ms : ℕ) (session_id : String) (room_id : Option String)
    (action : SessionAction) (decided_by : String) (s after : SessionService) (result : Written)
    : Type 0 where
  is_refused :
      status_after (status_of (state_of now_ms session_id s)) action ≡ none
      → after ≡ s
      → result
        ≡ refused
            (status_of (state_of now_ms session_id s))
            action
            (transition_refusal (status_of (state_of now_ms session_id s)) action)
      → IsWritten now_ms session_id room_id action decided_by s after result
  is_accepted :
      (status : SessionStatus)
      → status_after (status_of (state_of now_ms session_id s)) action ≡ some status
      → get session_id after.rows
        ≡ some (decided now_ms room_id status decided_by (state_of now_ms session_id s))
      → ((other : String) → session_id ≢ other → get other after.rows ≡ get other s.rows)
      → after.changed ≡ s.changed ++ (room_id ∷ [])
      → result ≡ written (decided now_ms room_id status decided_by (state_of now_ms session_id s))
      → IsWritten now_ms session_id room_id action decided_by s after result

-- A gesture that the lifecycle refuses from the observed state writes nothing, wakes nobody and says
-- the refusal of the shared table; one that it allows writes the row of this talk alone, and wakes
-- its room once.
pub write-IsWritten :
    (now_ms : ℕ) (session_id : String) (room_id : Option String) (action : SessionAction)
    (decided_by : String) (s : SessionService)
    → IsWritten now_ms session_id room_id action decided_by s
        (write now_ms session_id room_id action decided_by s).0
        (write now_ms session_id room_id action decided_by s).1
unfolding write
write-IsWritten now_ms session_id room_id action decided_by s =
    elim (Option-cases (status_after (status_of (state_of now_ms session_id s)) action)) [
      | inl no_status ↦ rw (no_status, write) (is_refused no_status refl refl)
      | inr (status, allowed) ↦
          rw (allowed, write)
            (is_accepted status allowed (get-set session_id _ s.rows)
              (λ other ne. get-set_other session_id other _ s.rows ne) refl refl)
    ]

pub write-rows :
    (now_ms : ℕ) (session_id : String) (room_id : Option String) (action : SessionAction)
    (decided_by : String) (s : SessionService) (existing : Option SessionState)
    (status : SessionStatus)
    → state_of now_ms session_id s ≡ existing
    → status_after (status_of existing) action ≡ some status
    → (write now_ms session_id room_id action decided_by s).0.rows
      ≡ set session_id (decided now_ms room_id status decided_by existing) s.rows
unfolding write
write-rows now_ms session_id room_id action decided_by s existing status known allowed =
    rw (known, allowed, write)
      (ap (λ e. set session_id (decided now_ms room_id status decided_by e) s.rows) known)

-- A gesture that is allowed, whole.
pub write_lem :
    (now_ms : ℕ) (session_id : String) (room_id : Option String) (action : SessionAction)
    (decided_by : String) (s : SessionService) (existing : Option SessionState)
    (status : SessionStatus)
    → state_of now_ms session_id s ≡ existing
    → status_after (status_of existing) action ≡ some status
    → write now_ms session_id room_id action decided_by s ≡ (
      record {
        rows = set session_id (decided now_ms room_id status decided_by existing) s.rows;
        changed = s.changed ++ (room_id ∷ []);
      },
      written (decided now_ms room_id status decided_by existing),
    )
unfolding write
write_lem now_ms session_id room_id action decided_by s existing status known allowed =
    rw (known, allowed, write)
      (ap
        (λ e. (
          record {
            rows = set session_id (decided now_ms room_id status decided_by e) s.rows;
            changed = s.changed ++ (room_id ∷ []);
          },
          written (decided now_ms room_id status decided_by e),
        ))
        known)

pub state_of-get :
    (now_ms : ℕ) (session_id : String) (state : SessionState) (s : SessionService)
    → get session_id s.rows ≡ some state
    → applicable now_ms state ≡ true
    → state_of now_ms session_id s ≡ some state
unfolding state_of
state_of-get now_ms session_id state s found h = rw (found, h) refl

state_of-set :
    (now_ms : ℕ) (session_id : String) (state : SessionState) (s : SessionService)
    (rows : List (String × SessionState))
    → s.rows ≡ set session_id state rows
    → applicable now_ms state ≡ true
    → state_of now_ms session_id s ≡ some state
state_of-set now_ms session_id state s rows same h =
    state_of-get now_ms session_id state s (rw same (get-set session_id state rows)) h

-- A talk that nobody decided on, started and later ended, keeps its start and its end, and its state
-- is then read as ended.
pub start_talk-end_talk :
    (started_ms ended_ms : ℕ) (session_id : String) (room_id : Option String) (by by' : String)
    (s : SessionService)
    → get session_id s.rows ≡ none
    → started_ms ≤ ended_ms
    → state_of ended_ms session_id
        (end_talk ended_ms session_id room_id by'
          (start_talk started_ms session_id room_id by s).0).0
      ≡ some (record {
        room_id = room_id;
        status = ended;
        started_at = some started_ms;
        ended_at = some ended_ms;
        decided_by = by';
      })
unfolding start_talk end_talk write state_of status_after is_decision_applicable
start_talk-end_talk started_ms ended_ms session_id room_id by by' s fresh h =
    let unknown : state_of started_ms session_id s ≡ none = rw fresh refl in
    let one = write-rows started_ms session_id room_id start by s none running unknown refl in
    let s' = (write started_ms session_id room_id start by s).0 in
    let known : state_of ended_ms session_id s'
        ≡ some (decided started_ms room_id running by none) =
      state_of-set ended_ms session_id _ s' s.rows one (ground arith) in
    let two = write-rows ended_ms session_id room_id end by' s' _ ended known refl in
    state_of-set ended_ms session_id _ (write ended_ms session_id room_id end by' s').0 s'.rows two
      (ground arith)
