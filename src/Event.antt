-- ===== src/Event.antt =====
-- packages/contract/src/events.ts: the events a room sends up, how each is delivered, and the
-- envelope that carries one. Instants are milliseconds; the source writes them as ISO texts of
-- one length, whose order is that of the instants. The rest of a payload is kept as its JSON text.
use conference_operator.Common.{ℕ, String, Option, Bool, true, false}
use conference_operator.Common.Int.{ℤ}

pub data RoomEventType : Type 0 where
  room_incident scene_changed recording_started recording_stopped talk_marker : RoomEventType
  vod_consent stream_started stream_stopped obs_connection room_message : RoomEventType
  wall_impressions screen_message room_heartbeat stream_telemetry audio_alerts : RoomEventType

pub data Delivery : Type 0 where
  required best_effort : Delivery

unfoldable pub delivery_by_event : RoomEventType → Delivery
delivery_by_event room_heartbeat = best_effort
delivery_by_event stream_telemetry = best_effort
delivery_by_event audio_alerts = best_effort
delivery_by_event _ = required

pub record RoomEventPayload : Type 0 where
  pub type : RoomEventType
  pub body : String

pub record Envelope : Type 0 where
  pub id : String
  pub room_id : String
  pub seq : ℕ
  pub occurred_at : ℤ
  pub monotonic_ms : ℕ
  pub delivery : Delivery
  pub dedup_key : Option String
  pub expires_at : Option ℕ
  pub payload : RoomEventPayload

abbrev pub is_required : Delivery → Bool
is_required required = true
is_required best_effort = false
