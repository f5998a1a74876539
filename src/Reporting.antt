-- ===== src/Reporting.antt =====
-- A room's queue and pump (apps/room-client/src/core/outbox.ts and outbox-pump.ts), the network
-- between, and the hub's ingestion (apps/hub-server/src/services/ingest.ts) behind its handler in
-- apps/hub-server/src/router.ts. What zod reads of an event is an argument, `read`.
pub mod Once
use conference_operator.Common.{
  ℕ, ◌<◌, ◌≡◌, String, Bool, Option, some, List, [], ◌∷◌, map, All, In,
}
use conference_operator.Event.{Envelope}
use conference_operator.Outbox.{Outbox}
use conference_operator.Outbox.Trace.{Trace}
use conference_operator.Pump.{PumpState, PushResult, answered, failed, settle}
use conference_operator.Ingest.{
  Candidate, RejectionReason, invalid_schema, unknown_room, IngestOutcome, Hub, push,
}

abbrev reason_text : RejectionReason → String
reason_text invalid_schema = "invalid-schema"
reason_text unknown_room = "unknown-room"

-- The handler of `ingest.push`: the outcome, with the hub's time.
unfoldable pub answer_of : ℕ → IngestOutcome → PushResult
answer_of server_time outcome = record {
  acked = outcome.acked;
  duplicates = outcome.duplicates;
  rejected = map (λ x. (x.0, reason_text x.1)) outcome.rejected;
  server_time = some server_time;
}

-- The room, the hub, and the answers that the hub has given so far.
pub record System : Type 0 where
  pub pump : PumpState
  pub hub : Hub
  pub answers : List PushResult

module _ (room_id : String) (max_depth : ℕ) (read : Envelope → Candidate) where
  -- The hub receives a batch of the room.
  unfoldable pub arrive : ℕ → List Envelope → System → System
  unfolding push answer_of
  arrive now_ms batch s =
      let (hub, outcome) = push now_ms room_id (map read batch) s.hub in
      record s { hub = hub; answers = answer_of now_ms outcome ∷ s.answers }

  -- What can happen until an event `e` of the room expires, in any order: the room works on its
  -- queue, and gives up no word on `e` by itself; a request arrives, late, again or not at all; the
  -- pump gets an answer of the hub, late or again, or the failure of a request, and may be stopped
  -- by then; the other rooms report.
  pub data Run (e : Envelope) (expiry : ℕ) (s : System) : System → Type 0 where
    begins : Run e expiry s s
    works :
        {t : System}
        → Run e expiry s t
        → {q : Outbox} → Trace room_id max_depth e expiry t.pump.outbox q
        → Run e expiry s (record t { pump = record t.pump { outbox = q } })
    arrives :
        {t : System}
        → Run e expiry s t
        → (now_ms : ℕ) (batch : List Envelope) → All (λ f. f.room_id ≡ room_id) batch
        → Run e expiry s (arrive now_ms batch t)
    others :
        {t : System}
        → Run e expiry s t
        → (now_ms : ℕ) (other : String) (batch : List Candidate)
        → Run e expiry s (record t { hub = (push now_ms other batch t.hub).0 })
    confirmed :
        {t : System}
        → Run e expiry s t
        → (later_ms : ℕ) (draw : String → ℕ) (stopped : Bool) (batch : List Envelope)
          (result : PushResult)
        → In result t.answers
        → Run e expiry s (record t {
          pump = (settle room_id later_ms draw stopped batch (answered result) t.pump).0;
        })
    unanswered :
        {t : System}
        → Run e expiry s t
        → (later_ms : ℕ) (draw : String → ℕ) (stopped : Bool) (batch : List Envelope)
        → Run e expiry s
            (record t { pump = (settle room_id later_ms draw stopped batch failed t.pump).0 })
