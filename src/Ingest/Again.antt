-- ===== src/Ingest/Again.antt =====
-- A batch that a room sends again after a later one, in apps/hub-server/src/services/ingest.ts.
use conference_operator.Common.{
  ℕ, ◌≤◌, ◌≡◌, inl, inr, refl, ◌≢◌, sym, ap, is_some, In, ◌∙◌, String, true, some, List, arith,
}
use conference_operator.Ingest.Project.{
  Report, HubPayload, Column, Cell, projection_for, telemetry_cell, scene_changed,
  recording_started, recording_stopped, vod_consent, stream_started, stream_stopped, obs_connection,
  wall_impressions, room_heartbeat, stream_telemetry, audio_alerts, other_event, connectivity_col,
  scene_role_col, display_mode_col, current_session_id_col, recording_col, streaming_col,
  outbox_depth_col, program_content_hash_col, obs_a_connected_col, obs_b_connected_col,
  obs_a_missing_roles_col, obs_b_missing_roles_col, stream_bitrate_kbps_col,
  stream_skipped_ratio_col, stream_congestion_col, stream_health_at_col, audio_inputs_col,
  audio_alerts_col,
}
use conference_operator.Ingest.Sort.{last_writer, last_writer-sort, last_writer_same}
use conference_operator.Ingest.{Candidate, Hub, valid_of, sort_by_seq, push}
use conference_operator.Ingest.View.{
  cell_of, seq_of, writes, written_by, written_by_any, push-written_by, push-IsShown,
}

-- Only the instant of the telemetry hangs on when the hub applies an event.
telemetry_cell-steady :
    (a b bitrate skipped congestion : ℕ) (c : Column)
    → c ≢ stream_health_at_col
    → telemetry_cell a bitrate skipped congestion c ≡ telemetry_cell b bitrate skipped congestion c
telemetry_cell-steady a b bitrate skipped congestion connectivity_col h = refl
telemetry_cell-steady a b bitrate skipped congestion scene_role_col h = refl
telemetry_cell-steady a b bitrate skipped congestion display_mode_col h = refl
telemetry_cell-steady a b bitrate skipped congestion current_session_id_col h = refl
telemetry_cell-steady a b bitrate skipped congestion recording_col h = refl
telemetry_cell-steady a b bitrate skipped congestion streaming_col h = refl
telemetry_cell-steady a b bitrate skipped congestion outbox_depth_col h = refl
telemetry_cell-steady a b bitrate skipped congestion program_content_hash_col h = refl
telemetry_cell-steady a b bitrate skipped congestion obs_a_connected_col h = refl
telemetry_cell-steady a b bitrate skipped congestion obs_b_connected_col h = refl
telemetry_cell-steady a b bitrate skipped congestion obs_a_missing_roles_col h = refl
telemetry_cell-steady a b bitrate skipped congestion obs_b_missing_roles_col h = refl
telemetry_cell-steady a b bitrate skipped congestion stream_bitrate_kbps_col h = refl
telemetry_cell-steady a b bitrate skipped congestion stream_skipped_ratio_col h = refl
telemetry_cell-steady a b bitrate skipped congestion stream_congestion_col h = refl
telemetry_cell-steady a b bitrate skipped congestion stream_health_at_col h = absurd (h refl)
telemetry_cell-steady a b bitrate skipped congestion audio_inputs_col h = refl
telemetry_cell-steady a b bitrate skipped congestion audio_alerts_col h = refl

projection_for-steady :
    (a b : ℕ) (payload : HubPayload) (c : Column)
    → c ≢ stream_health_at_col
    → projection_for a payload c ≡ projection_for b payload c
unfolding projection_for
projection_for-steady a b (scene_changed o r) c h = refl
projection_for-steady a b (recording_started o s) c h = refl
projection_for-steady a b (recording_stopped o s f d k) c h = refl
projection_for-steady a b (vod_consent s r d) c h = refl
projection_for-steady a b (stream_started o) c h = refl
projection_for-steady a b (stream_stopped o) c h = refl
projection_for-steady a b (obs_connection o x r) c h = refl
projection_for-steady a b (wall_impressions n) c h = refl
projection_for-steady a b (room_heartbeat x) c h = refl
projection_for-steady a b (stream_telemetry x y z) c h = telemetry_cell-steady a b x y z c h
projection_for-steady a b (audio_alerts x) c h = refl
projection_for-steady a b (other_event t) c h = refl

-- A batch that is sent again after a later one undoes what that one showed: each column that the
-- batch writes, but for the instant of the telemetry, shows again what it showed after the first
-- arrival, while the sequence of the row stays at least what the
-- later batch had brought it to.
pub push-again :
    (now_ms then_ms at_last_ms : ℕ) (room_id : String) (batch later : List Candidate) (hub : Hub)
    (c : Column) (e : Report)
    → c ≢ stream_health_at_col
    → In e (valid_of room_id batch)
    → writes now_ms c e ≡ true
    → let first = (push now_ms room_id batch hub).0 in
      let second = (push then_ms room_id later first).0 in
      let third = (push at_last_ms room_id batch second).0 in
      (cell_of room_id c third.states ≡ cell_of room_id c first.states)
      × (seq_of room_id second.states ≤ seq_of room_id third.states)
push-again now_ms then_ms at_last_ms room_id batch later hub c e steady m w =
    let first = (push now_ms room_id batch hub).0 in
    let second = (push then_ms room_id later first).0 in
    let end = push-IsShown at_last_ms room_id batch second c in
    elim (last_writer-sort (writes now_ms c) (valid_of room_id batch)) [
      | inl (silent, nobody) ↦ let f = nobody e m in absurd (ground arith)
      | inr (g, found, last) ↦ (
        push-written_by at_last_ms room_id batch second c
            ∙ again (sort_by_seq (valid_of room_id batch)) g found last.writer _ _
            ∙ sym (push-written_by now_ms room_id batch hub c),
        end.1,
      )
    ]
  where
    again :
        (es : List Report) (g : Report)
        → last_writer (writes now_ms c) es ≡ some g
        → writes now_ms c g ≡ true
        → (a b : Cell)
        → written_by at_last_ms c (last_writer (writes at_last_ms c) es) a
          ≡ written_by now_ms c (last_writer (writes now_ms c) es) b
    again es g found own a b =
        rw
          (last_writer_same (writes at_last_ms c) (writes now_ms c) es
            (λ f. ap is_some (sym (projection_for-steady now_ms at_last_ms f.payload c steady))))
          (rw found (
            rw (sym (projection_for-steady now_ms at_last_ms g.payload c steady))
              (written_by_any now_ms c g a b own)))
