-- ===== src/Pump/Pass.antt =====
-- A whole pass of apps/room-client/src/core/outbox-pump.ts, from the purge to the answer.
use conference_operator.Common.{ℕ, ◌<◌, ◌≡◌, String, Bool, some, List, [], ◌∷◌, In, arith}
use conference_operator.Event.{Envelope}
use conference_operator.Outbox.{Outbox, evict_expired}
use conference_operator.Outbox.Invariant.{IsValid}
use conference_operator.Outbox.Retention.{Waits, evict_expired-Waits}
use conference_operator.Pump.{
  PumpState, PushResult, PushAnswer, answered, handled, claim, drain_once, send_batch,
}
use conference_operator.Pump.Drain.{settle-Waits}

module _ (room_id : String) (now_ms later_ms batch_size : ℕ) (draw : String → ℕ) (stopped : Bool)
    (push : List Envelope → PushAnswer) (meanwhile : Outbox → Outbox) (s : PumpState) where
  claim-outbox : (claim room_id now_ms batch_size s).0.outbox ≡ (evict_expired now_ms s.outbox).0
  unfolding claim
  claim-outbox = ground arith

  send_batch-Waits :
      (batch : List Envelope) (p : PumpState) (e : Envelope)
      → ((q : Outbox) → Waits e q.rows → Waits e (meanwhile q).rows)
      → ((result : PushResult) → push batch ≡ answered result → ¬ In e.id (handled result))
      → Waits e p.outbox.rows
      → Waits e (send_batch room_id later_ms draw stopped push meanwhile batch p).0.outbox.rows
  unfolding send_batch
  send_batch-Waits [] p e keeps unsettled m = m
  send_batch-Waits (f ∷ rest) p e keeps unsettled m =
      settle-Waits room_id later_ms draw (f ∷ rest) (record p { outbox = meanwhile p.outbox })
        stopped (push (f ∷ rest)) e unsettled (keeps p.outbox m)

  -- A whole pass takes an unexpired event out of the queue only if the hub answered and settled
  -- it, whatever the network does and whenever the pump is stopped, if what the rest of the room
  -- does to the queue during the request keeps the event.
  pub drain_once-Waits :
      (e : Envelope) (expiry : ℕ)
      → IsValid room_id s.outbox
      → e.expires_at ≡ some expiry
      → now_ms < expiry
      → ((q : Outbox) → Waits e q.rows → Waits e (meanwhile q).rows)
      → ((batch : List Envelope) (result : PushResult)
          → push batch ≡ answered result
          → ¬ In e.id (handled result))
      → Waits e s.outbox.rows
      → Waits e
          (drain_once room_id now_ms later_ms batch_size draw stopped push meanwhile
            s).0.outbox.rows
  unfolding drain_once
  drain_once-Waits e expiry v dated alive keeps unsettled m =
      let (claimed, batch) = claim room_id now_ms batch_size s in
      send_batch-Waits batch claimed e keeps (unsettled batch)
        (rw claim-outbox (evict_expired-Waits room_id e now_ms expiry s.outbox v dated alive m))
