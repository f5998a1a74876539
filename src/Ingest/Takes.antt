-- ===== src/Ingest/Takes.antt =====
-- `captations` and `forgetCaptures` of apps/hub-server/src/services/ingest.ts: the takes of a room,
-- paired from the log. A take that `open` holds and the list shows is one object in the source:
-- here `opened` holds its place in the list, which an update changes there.
pub mod Pairs
pub mod Matches
pub mod Files
use conference_operator.Common.{
  ℕ, suc, zero, String, Bool, true, false, ◌&&◌, ◌||◌, Option, none, some, List, [], ◌∷◌, ◌++◌,
  str_eq, filter, get_elem?, length, if◌then◌else◌,
}
use conference_operator.Ingest.Project.{
  Report, HubPayload, recording_started, recording_stopped, ObsInstance, obs_a, obs_b,
}
use conference_operator.Ingest.{sort_by_seq, Hub}

pub record RawCapture : Type 0 where
  pub room_id : String
  pub obs : ObsInstance
  pub session_id : Option String
  pub started_at : ℕ
  pub ended_at : Option ℕ
  pub duration_ms : Option ℕ
  pub file : Option String
  pub sidecar_written : Bool
  pub en_cours : Bool
  pub fin_inconnue : Bool

abbrev pub same_obs : ObsInstance → ObsInstance → Bool
same_obs obs_a obs_a = true
same_obs obs_b obs_b = true
same_obs _ _ = false

pub record Pairing : Type 0 where
  pub captures : List RawCapture
  pub opened : ObsInstance → Option ℕ

abbrev pub assign : ObsInstance → Option ℕ → (ObsInstance → Option ℕ) → ObsInstance → Option ℕ
assign obs place opened o = if same_obs o obs then place else opened o

-- The object at a place of the list, changed.
abbrev pub change_at : (RawCapture → RawCapture) → ℕ → List RawCapture → List RawCapture
change_at f i [] = []
change_at f zero (c ∷ captures) = f c ∷ captures
change_at f (suc i) (c ∷ captures) = c ∷ change_at f i captures

abbrev pub superseded : RawCapture → RawCapture
superseded c = record c { en_cours = false; fin_inconnue = true }

abbrev pub or_known : Option String → Option String → Option String
or_known none session_id = session_id
or_known (some known) session_id = some known

abbrev pub closed_by : ℕ → Option String → Option String → ℕ → Bool → RawCapture → RawCapture
closed_by at session_id file duration_ms sidecar c = record c {
  ended_at = some at;
  duration_ms = some duration_ms;
  file = file;
  sidecar_written = sidecar;
  en_cours = false;
  session_id = or_known c.session_id session_id;
}

abbrev pub started_take : String → ObsInstance → Option String → ℕ → RawCapture
started_take room_id obs session_id at = record {
  room_id = room_id;
  obs = obs;
  session_id = session_id;
  started_at = at;
  ended_at = none;
  duration_ms = none;
  file = none;
  sidecar_written = false;
  en_cours = true;
  fin_inconnue = false;
}

abbrev pub lone_stop :
    String → ObsInstance → Option String → ℕ → Option String → ℕ → Bool → RawCapture
lone_stop room_id obs session_id at file duration_ms sidecar = record {
  room_id = room_id;
  obs = obs;
  session_id = session_id;
  started_at = at;
  ended_at = some at;
  duration_ms = some duration_ms;
  file = file;
  sidecar_written = sidecar;
  en_cours = false;
  fin_inconnue = false;
}

abbrev pub supersede : Option ℕ → List RawCapture → List RawCapture
supersede none captures = captures
supersede (some i) captures = change_at superseded i captures

-- The turn of the loop on a start.
unfoldable pub take_start : String → ObsInstance → Option String → ℕ → Pairing → Pairing
take_start room_id obs session_id at s =
    let captures = supersede (s.opened obs) s.captures in
    record {
      captures = captures ++ (started_take room_id obs session_id at ∷ []);
      opened = assign obs (some (length captures)) s.opened;
    }

-- The turn of the loop on a stop.
unfoldable pub take_stop :
    String → ObsInstance → Option String → Option String → ℕ → Bool → ℕ → Pairing → Pairing
take_stop room_id obs session_id file duration_ms sidecar at s = elim (s.opened obs) [
  | none ↦ record s {
    captures = s.captures ++ (lone_stop room_id obs session_id at file duration_ms sidecar ∷ []);
  }
  | some i ↦ record {
    captures = change_at (closed_by at session_id file duration_ms sidecar) i s.captures;
    opened = assign obs none s.opened;
  }
]

abbrev pub pair_payload : String → ℕ → HubPayload → Pairing → Pairing
pair_payload room_id at (recording_started obs session_id) s =
    take_start room_id obs session_id at s
pair_payload room_id at (recording_stopped obs session_id file duration_ms sidecar) s =
    take_stop room_id obs session_id file duration_ms sidecar at s
pair_payload room_id at _ s = s

unfoldable pub pair_takes : String → List Report → Pairing → Pairing
unfolding take_start take_stop
pair_takes room_id [] s = s
pair_takes room_id (e ∷ rows) s =
    pair_takes room_id rows (pair_payload room_id e.occurred_at e.payload s)

abbrev pub is_take : HubPayload → Bool
is_take (recording_started obs session_id) = true
is_take (recording_stopped obs session_id file duration_ms sidecar) = true
is_take _ = false

abbrev pub capture_row : String → Report → Bool
capture_row room_id e = str_eq e.room_id room_id && is_take e.payload

abbrev pub nothing_open : Pairing
nothing_open = record { captures = []; opened = λ o. none }

unfoldable pub captations : String → Hub → List RawCapture
unfolding sort_by_seq pair_takes
captations room_id hub =
    (pair_takes room_id (sort_by_seq (filter (capture_row room_id) hub.events))
      nothing_open).captures

abbrev not_capture : Report → Bool
not_capture e = if is_take e.payload then false else true

-- The hub after `forgetCaptures`.
unfoldable pub forget_captures : Hub → Hub
forget_captures hub = record hub { events = filter not_capture hub.events }
