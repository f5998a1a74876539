-- ===== src/Ingest/Project.antt =====
-- The supervision view of a room, in apps/hub-server/src/services/ingest.ts: which columns of its
-- row an event writes. A row is a function from its columns; a ratio is a number of millionths.
use conference_operator.Common.{
  ℕ, max, String, Bool, true, false, ◌&&◌, Option, none, some, List, [], ◌∷◌, str_eq, leb, or_else,
}
use conference_operator.Common.Maps.{get, set}
use conference_operator.Event.{RoomEventType, Delivery}
use conference_operator.Pump.{Connectivity}

pub data ObsInstance : Type 0 where
  obs_a obs_b : ObsInstance

pub record CommandOutcome : Type 0 where
  pub seq : ℕ
  pub ok : Bool
  pub message : Option String

pub record Heartbeat : Type 0 where
  pub connectivity : Connectivity
  pub scene_role : Option String
  pub recording : Bool
  pub streaming : Bool
  pub outbox_depth : ℕ
  pub program_content_hash : Option String
  pub display_mode : Option String
  pub audio_inputs : String
  pub last_command : Option CommandOutcome

-- The fields the hub reads of each payload; `other_event` stands for the events it only keeps.
pub data HubPayload : Type 0 where
  scene_changed : ObsInstance → Option String → HubPayload
  recording_started : ObsInstance → Option String → HubPayload
  recording_stopped : ObsInstance → Option String → Option String → ℕ → Bool → HubPayload
  vod_consent : String → Option String → ℕ → HubPayload
  stream_started stream_stopped : ObsInstance → HubPayload
  obs_connection : ObsInstance → Bool → String → HubPayload
  wall_impressions : List (String × ℕ) → HubPayload
  room_heartbeat : Heartbeat → HubPayload
  stream_telemetry : ℕ → ℕ → ℕ → HubPayload
  audio_alerts : String → HubPayload
  other_event : RoomEventType → HubPayload

-- An envelope that has been parsed.
pub record Report : Type 0 where
  pub id : String
  pub room_id : String
  pub seq : ℕ
  pub occurred_at : ℕ
  pub monotonic_ms : ℕ
  pub delivery : Delivery
  pub payload : HubPayload

pub data Column : Type 0 where
  connectivity_col scene_role_col display_mode_col current_session_id_col recording_col : Column
  streaming_col outbox_depth_col program_content_hash_col obs_a_connected_col : Column
  obs_b_connected_col obs_a_missing_roles_col obs_b_missing_roles_col : Column
  stream_bitrate_kbps_col stream_skipped_ratio_col stream_congestion_col : Column
  stream_health_at_col audio_inputs_col audio_alerts_col : Column

pub data Cell : Type 0 where
  null : Cell
  flag : Bool → Cell
  number : ℕ → Cell
  text : String → Cell

abbrev pub text_or_null : Option String → Cell
text_or_null none = null
text_or_null (some t) = text t

abbrev connectivity_text : Connectivity → String
connectivity_text Connectivity.online = "ONLINE"
connectivity_text Connectivity.degraded = "DEGRADED"
connectivity_text Connectivity.offline = "OFFLINE"

pub record RoomState : Type 0 where
  pub last_seen_at : Option ℕ
  pub last_seq : ℕ
  pub cell : Column → Cell

-- What the table gives a column that an insertion leaves out.
abbrev pub default_cell : Column → Cell
default_cell connectivity_col = text "OFFLINE"
default_cell recording_col = flag false
default_cell streaming_col = flag false
default_cell outbox_depth_col = number 0
default_cell obs_a_missing_roles_col = text "[]"
default_cell obs_b_missing_roles_col = text "[]"
default_cell audio_inputs_col = text "[]"
default_cell audio_alerts_col = text "[]"
default_cell _ = null

abbrev heartbeat_cell : Heartbeat → Column → Option Cell
heartbeat_cell h connectivity_col = some (text (connectivity_text h.connectivity))
heartbeat_cell h scene_role_col = some (text_or_null h.scene_role)
heartbeat_cell h recording_col = some (flag h.recording)
heartbeat_cell h streaming_col = some (flag h.streaming)
heartbeat_cell h outbox_depth_col = some (number h.outbox_depth)
heartbeat_cell h program_content_hash_col = some (text_or_null h.program_content_hash)
heartbeat_cell h display_mode_col = some (text_or_null h.display_mode)
heartbeat_cell h audio_inputs_col = some (text h.audio_inputs)
heartbeat_cell h _ = none

abbrev scene_cell : Option String → Column → Option Cell
scene_cell (some role) scene_role_col = some (text role)
scene_cell role _ = none

abbrev started_cell : Option String → Column → Option Cell
started_cell session_id recording_col = some (flag true)
started_cell session_id current_session_id_col = some (text_or_null session_id)
started_cell session_id _ = none

abbrev stream_stopped_cell : Column → Option Cell
stream_stopped_cell streaming_col = some (flag false)
stream_stopped_cell stream_bitrate_kbps_col = some null
stream_stopped_cell stream_skipped_ratio_col = some null
stream_stopped_cell stream_congestion_col = some null
stream_stopped_cell stream_health_at_col = some null
stream_stopped_cell _ = none

abbrev connection_cell : ObsInstance → Bool → String → Column → Option Cell
connection_cell obs_a connected roles obs_a_connected_col = some (flag connected)
connection_cell obs_a connected roles obs_a_missing_roles_col = some (text roles)
connection_cell obs_b connected roles obs_b_connected_col = some (flag connected)
connection_cell obs_b connected roles obs_b_missing_roles_col = some (text roles)
connection_cell obs connected roles _ = none

abbrev pub telemetry_cell : ℕ → ℕ → ℕ → ℕ → Column → Option Cell
telemetry_cell now_ms bitrate skipped congestion stream_bitrate_kbps_col = some (number bitrate)
telemetry_cell now_ms bitrate skipped congestion stream_skipped_ratio_col = some (number skipped)
telemetry_cell now_ms bitrate skipped congestion stream_congestion_col = some (number congestion)
telemetry_cell now_ms bitrate skipped congestion stream_health_at_col = some (number now_ms)
telemetry_cell now_ms bitrate skipped congestion _ = none

abbrev recording_stopped_cell : Column → Option Cell
recording_stopped_cell recording_col = some (flag false)
recording_stopped_cell _ = none

abbrev stream_started_cell : Column → Option Cell
stream_started_cell streaming_col = some (flag true)
stream_started_cell _ = none

abbrev alerts_cell : String → Column → Option Cell
alerts_cell alerts audio_alerts_col = some (text alerts)
alerts_cell alerts _ = none

-- `projectionFor`: the columns that the event writes.
unfoldable pub projection_for : ℕ → HubPayload → Column → Option Cell
projection_for now_ms (room_heartbeat h) c = heartbeat_cell h c
projection_for now_ms (scene_changed obs role) c = scene_cell role c
projection_for now_ms (recording_started obs session_id) c = started_cell session_id c
projection_for now_ms (recording_stopped obs session_id file duration_ms sidecar) c =
    recording_stopped_cell c
projection_for now_ms (stream_started obs) c = stream_started_cell c
projection_for now_ms (stream_stopped obs) c = stream_stopped_cell c
projection_for now_ms (obs_connection obs connected roles) c = connection_cell obs connected roles c
projection_for now_ms (audio_alerts alerts) c = alerts_cell alerts c
projection_for now_ms (stream_telemetry bitrate skipped congestion) c =
    telemetry_cell now_ms bitrate skipped congestion c
projection_for now_ms _ c = none

abbrev pub fresh_state : RoomState
fresh_state = record { last_seen_at = none; last_seq = 0; cell = default_cell }

-- The upsert of `applyToRoomState` on a row.
unfoldable pub project : ℕ → Report → RoomState → RoomState
unfolding projection_for
project now_ms e row = record {
  last_seen_at = some now_ms;
  last_seq = max row.last_seq e.seq;
  cell = λ c. or_else (projection_for now_ms e.payload c) (row.cell c);
}

unfoldable pub apply_to_room_state :
    ℕ → String → Report → List (String × RoomState) → List (String × RoomState)
unfolding project
apply_to_room_state now_ms room_id e states =
    set room_id (project now_ms e (or_else (get room_id states) fresh_state)) states

abbrev same_bool : Bool → Bool → Bool
same_bool true true = true
same_bool false false = true
same_bool _ _ = false

abbrev same_cell : Cell → Cell → Bool
same_cell null null = true
same_cell (flag a) (flag b) = same_bool a b
same_cell (number a) (number b) = leb a b && leb b a
same_cell (text a) (text b) = str_eq a b
same_cell _ _ = false

abbrev all_columns : List Column
all_columns =
    connectivity_col ∷ scene_role_col ∷ display_mode_col ∷ current_session_id_col ∷ recording_col
    ∷ streaming_col ∷ outbox_depth_col ∷ program_content_hash_col ∷ obs_a_connected_col
    ∷ obs_b_connected_col ∷ obs_a_missing_roles_col ∷ obs_b_missing_roles_col
    ∷ stream_bitrate_kbps_col ∷ stream_skipped_ratio_col ∷ stream_congestion_col
    ∷ stream_health_at_col ∷ audio_inputs_col ∷ audio_alerts_col ∷ []

abbrev same_on : List Column → RoomState → RoomState → Bool
same_on [] a b = true
same_on (c ∷ cs) a b = same_cell (a.cell c) (b.cell c) && same_on cs a b

-- The rows are the same but for the receipt time and the sequence.
unfoldable pub same_watched : RoomState → RoomState → Bool
same_watched a b = same_on all_columns a b
