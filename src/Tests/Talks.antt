-- ===== src/Tests/Talks.antt =====
-- A talk's gestures, its guards and a room's uploads, at small examples.
use conference_operator.Common.{◌+◌, ◌≡◌, ◌≢◌, inl, inr, refl, true, false, Bool, none, some, In, ℕ}
use conference_operator.TalkFlow.{
  FlowTarget, TalkFlowInput, TalkGesture, recording_start, session_start, start_too_early,
  start_steps, run_talk_steps,
}
use conference_operator.TalkFlow.Sequence.{start_steps-records, journalled, start_journal}
use conference_operator.Regulator.{RegulatorInputs, upload_verdict, allowed}

abbrev keynote : FlowTarget
keynote = record { id = "t1"; starts_at_ms = 2000000; ends_at_ms = some 4000000 }

abbrev idle_room : TalkFlowInput
idle_room = record {
  now_ms = 1000000;
  target = some keynote;
  pinned_session_id = none;
  recording = false;
  config = none;
}

too_early_run : start_too_early idle_room ≡ true
unfolding start_too_early
too_early_run = refl

-- A room that grants every gesture, and counts them.
abbrev grants : TalkGesture → ℕ → ℕ × Bool
grants g n = (n + 1, true)

records_example :
    In (record { gesture = recording_start; answered = true }) (start_journal grants idle_room 0)
unfolding run_talk_steps start_steps journalled
records_example = start_steps-records grants idle_room 0 session_start true other (inr (inl refl))
  where
    other : session_start ≢ recording_start
    other h = cc

abbrev quiet_room : RegulatorInputs
quiet_room = record {
  storage_ready = true;
  policy = record {
    actif = true;
    debit_max_octets_s = some 1000000;
    cpu_max = 600;
    marge_conference_minutes = 10;
  };
  manual = false;
  recording = false;
  talk_running = false;
  ms_before_next = none;
  load = record { cpu = some 200; memory = none };
  observed_rate_bytes_s = none;
}

upload_run : upload_verdict quiet_room ≡ allowed (some 1000000)
unfolding upload_verdict
upload_run = refl
