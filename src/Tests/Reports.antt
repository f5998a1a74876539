-- ===== src/Tests/Reports.antt =====
-- A room's events on their way to the hub, and what the hub makes of them, at small examples.
use conference_operator.Common.{
  ℕ, ◌≡◌, ◌⊎◌, ◌+◌, ◌≤◌, arith, inl, refl, String, true, false, none, some, List, [], ◌∷◌, str_eq,
  ◌&&◌,
}
use conference_operator.Event.{Envelope, required}
use conference_operator.Outbox.Retention.{Waits}
use conference_operator.Pump.{settle, failed}
use conference_operator.Ingest.Project.{
  Report, HubPayload, recording_started, recording_stopped, vod_consent, obs_a, flag, Column,
  recording_col, default_cell,
}
use conference_operator.Ingest.{Candidate, Hub, push, valid_of, sort_by_seq}
use conference_operator.Ingest.Answers.{file_consent, file_consent_comm, file_consent_withdrawn}
use conference_operator.Common.Maps.{get}
use conference_operator.Ingest.Log.{IsLog}
use conference_operator.Ingest.Outcome.{IsAnswered, push-IsAnswered}
use conference_operator.Ingest.Twice.{IsUnmoved, push-IsUnmoved}
use conference_operator.Ingest.View.{cell_of, seq_of, IsShown, push-IsShown}
use conference_operator.Ingest.Again.{push-again}
use conference_operator.Ingest.Told.{IsHere}
use conference_operator.Ingest.Sort.{Ascends}
use conference_operator.Ingest.Takes.{captations}
use conference_operator.Ingest.Takes.Pairs.{count, bit, rolls}
use conference_operator.Ingest.Takes.Files.{
  last_word, rows_of, has_file, is_stop_with, captations-running, captations-files,
}
use conference_operator.Reporting.{System, begins, arrives, unanswered, arrive}
use conference_operator.Reporting.Once.{Reads, Run-once}
use conference_operator.Tests.Queue.{queue-IsValid, started, stopped_take}
use conference_operator.Tests.Pumps.{pump}

abbrev report : String → ℕ → HubPayload → Report
report id seq payload = record {
  id = id;
  room_id = "r1";
  seq = seq;
  occurred_at = 1000 + seq;
  monotonic_ms = seq;
  delivery = required;
  payload = payload;
}

abbrev read_payload : Envelope → HubPayload
read_payload f = elim (str_eq f.id "e0") [
  | true ↦ recording_started obs_a (some "t1")
  | false ↦ recording_stopped obs_a (some "t1") (some "take.mkv") 1000 true
]

abbrev sample_read : Envelope → Candidate
sample_read f = record {
  id = some f.id;
  parsed = some (record {
    id = f.id;
    room_id = f.room_id;
    seq = f.seq;
    occurred_at = 1000;
    monotonic_ms = f.monotonic_ms;
    delivery = f.delivery;
    payload = read_payload f;
  });
}

sample-Reads : Reads "r1" sample_read
sample-Reads f ours = (_, refl, refl, ours)

abbrev empty_hub : Hub
empty_hub = record {
  events = [];
  states = [];
  consents = [];
  outcomes = [];
  impressions = [];
  audited = [];
  changed = [];
}

abbrev at_rest : System
at_rest = record { pump = pump; hub = empty_hub; answers = [] }

abbrev both : List Envelope
both = started ∷ stopped_take ∷ []

-- The batch arrives, its answer is lost.
abbrev lost : System
lost =
    let sent = arrive "r1" 500 sample_read 2500 both at_rest in
    record sent { pump = (settle "r1" 2600 (λ id. 0) false both failed sent.pump).0 }

-- It arrives again.
abbrev again : System
again = arrive "r1" 500 sample_read 4000 both lost

once_example :
    (Waits started again.pump.outbox.rows ⊎ IsHere "r1" "e0" again.hub.events)
    × IsLog again.hub.events
once_example =
    Run-once "r1" 500 sample_read sample-Reads started 172801000 queue-IsValid tt tt refl refl refl
      (inl refl)
      (arrives (unanswered (arrives begins 2500 both (refl, (refl, tt))) 2600 (λ id. 0) false both)
        4000 both (refl, (refl, tt)))

abbrev start_report : Report
start_report = report "e0" 0 (recording_started obs_a (some "t1"))

abbrev stop_report : Report
stop_report = report "e1" 1 (recording_stopped obs_a (some "t1") (some "take.mkv") 1000 true)

abbrev candidate : Report → Candidate
candidate r = record { id = some r.id; parsed = some r }

abbrev broken : Candidate
broken = record { id = none; parsed = none }

abbrev first_batch : List Candidate
first_batch = candidate start_report ∷ broken ∷ candidate start_report ∷ []

abbrev second_batch : List Candidate
second_batch = candidate stop_report ∷ []

push-IsAnswered_example :
    IsAnswered "r1" first_batch empty_hub.events
      (push 5000 "r1" first_batch empty_hub).0.events
      (push 5000 "r1" first_batch empty_hub).1
push-IsAnswered_example = push-IsAnswered 5000 "r1" first_batch empty_hub tt

twice_example :
    IsUnmoved
      (push 5000 "r1" first_batch empty_hub).0
      (push 6000 "r1" first_batch (push 5000 "r1" first_batch empty_hub).0).0
      (push 6000 "r1" first_batch (push 5000 "r1" first_batch empty_hub).0).1
twice_example = push-IsUnmoved 5000 6000 "r1" first_batch empty_hub

push-IsShown_example :
    IsShown 5000 recording_col
      (valid_of "r1" first_batch)
      (cell_of "r1" recording_col empty_hub.states)
      (cell_of "r1" recording_col (push 5000 "r1" first_batch empty_hub).0.states)
    × (seq_of "r1" empty_hub.states ≤ seq_of "r1" (push 5000 "r1" first_batch empty_hub).0.states)
push-IsShown_example = push-IsShown 5000 "r1" first_batch empty_hub recording_col

abbrev after_first : Hub
after_first = (push 5000 "r1" first_batch empty_hub).0

abbrev after_second : Hub
after_second = (push 6000 "r1" second_batch after_first).0

-- The room has stopped, and its view says again that it records.
again_example :
    (cell_of "r1" recording_col (push 7000 "r1" first_batch after_second).0.states
      ≡ cell_of "r1" recording_col after_first.states)
    × (seq_of "r1" after_second.states
        ≤ seq_of "r1" (push 7000 "r1" first_batch after_second).0.states)
unfolding conference_operator.Ingest.Project.projection_for
again_example =
    push-again 5000 6000 7000 "r1" first_batch second_batch empty_hub recording_col start_report
      (λ h. cc) (inl refl) refl

stopped_run : cell_of "r1" recording_col after_second.states ≡ flag false
unfolding conference_operator.Ingest.Project.projection_for push
stopped_run = refl

comm_example :
    get "t1" (
      file_consent 9000 "r1" "t1"
        (some "refuse")
        800
        (file_consent 8000 "r1" "t1" (some "accorde") 700 []))
    ≡ get "t1" (
        file_consent 8000 "r1" "t1"
          (some "accorde")
          700
          (file_consent 9000 "r1" "t1" (some "refuse") 800 []))
comm_example =
    file_consent_comm 8000 9000 "r1" "r1" "t1" "accorde" "refuse" 700 800 [] (omega arith)

-- An answer of 700 stands, withdrawn at 900 by the speaker: a replay of it brings it back.
withdrawn_example :
    get "t1" (
      file_consent 9500 "r1" "t1" (some "accorde") 700 (
        file_consent 9000 "r1" "t1" none 900 (
          ("t1", record { statut = "accorde"; decide_a = 700; room_id = "r1"; updated_at = 8000 })
          ∷ [])))
    ≡ some (record { statut = "accorde"; decide_a = 700; room_id = "r1"; updated_at = 9500 })
withdrawn_example =
    file_consent_withdrawn 9000 9500 "r1" "r1" "t1" "accorde" 900 700
      (("t1", record { statut = "accorde"; decide_a = 700; room_id = "r1"; updated_at = 8000 })
        ∷ [])
      refl

abbrev taken_hub : Hub
taken_hub = record empty_hub {
  events = stop_report ∷ start_report ∷ report "e2" 2 (recording_started obs_a none) ∷ [];
}

running_example :
    Ascends (rows_of "r1" taken_hub)
    × (count (rolls obs_a) (captations "r1" taken_hub)
        ≡ bit (last_word obs_a (rows_of "r1" taken_hub) false))
running_example = captations-running "r1" taken_hub obs_a

files_example :
    count (has_file "take.mkv") (captations "r1" taken_hub)
    ≡ count (λ e. str_eq e.room_id "r1" && is_stop_with "take.mkv" e.payload) taken_hub.events
files_example = captations-files "take.mkv" "r1" taken_hub
