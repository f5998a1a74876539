-- ===== src/Pump.antt =====
-- apps/room-client/src/core/outbox-pump.ts: one batch at a time from the queue to the hub, and the
-- tick that drives it. The hub's answer is an argument: `push` stands for the network.
pub mod Drain
pub mod Pass
pub mod Single
use conference_operator.Common.{
  ℕ, suc, ◌+◌, ◌-◌, String, Bool, true, false, not, ◌&&◌, ◌||◌, Option, none, some, List, [], ◌∷◌,
  ◌++◌, str_eq, length, filter, map, if◌then◌else◌,
}
use conference_operator.Event.{Envelope}
use conference_operator.Outbox.{
  Outbox, LogEntry, push_failed, ack, reject, defer, evict_expired, claim_batch, backlog,
}

pub data Connectivity : Type 0 where
  online degraded offline : Connectivity

pub record PushResult : Type 0 where
  pub acked : List String
  pub duplicates : List String
  pub rejected : List (String × String)
  pub server_time : Option ℕ

-- What `await push(batch)` gives: a result, or the exception of a failed request.
pub data PushAnswer : Type 0 where
  answered : PushResult → PushAnswer
  failed : PushAnswer

-- The calls that the pump makes of its options.
pub data Notice : Type 0 where
  on_depth : ℕ → Notice
  on_server_time : ℕ → Notice
  on_connectivity : Connectivity → Notice

pub record DrainOutcome : Type 0 where
  pub sent : ℕ
  pub duplicates : ℕ
  pub rejected : ℕ
  pub deferred : ℕ
  pub connectivity : Connectivity

-- The queue and the pump's own field, with the notices given so far.
pub record PumpState : Type 0 where
  pub outbox : Outbox
  pub connectivity : Connectivity
  pub notices : List Notice

abbrev is_same : Connectivity → Connectivity → Bool
is_same online online = true
is_same degraded degraded = true
is_same offline offline = true
is_same _ _ = false

unfoldable pub set_connectivity : Connectivity → PumpState → PumpState
set_connectivity next s =
    if is_same next s.connectivity
    then s
    else record s { connectivity = next; notices = s.notices ++ (on_connectivity next ∷ []) }

abbrev notify : Notice → PumpState → PumpState
notify n s = record s { notices = s.notices ++ (n ∷ []) }

abbrev notify_time : Option ℕ → PumpState → PumpState
notify_time none s = s
notify_time (some t) s = notify (on_server_time t) s

-- `set.has(id)`
abbrev pub contains : List String → String → Bool
contains [] id = false
contains (i ∷ ids) id = str_eq i id || contains ids id

abbrev pub envelope_ids : List Envelope → List String
envelope_ids batch = map (λ e. e.id) batch

abbrev pub rejected_ids : PushResult → List String
rejected_ids result = map (λ x. x.0) result.rejected

-- The ids that the hub has settled, one way or another.
abbrev pub handled : PushResult → List String
handled result = result.acked ++ (result.duplicates ++ rejected_ids result)

abbrev pub remaining : PushResult → List Envelope → List Envelope
remaining result batch = filter (λ e. not (contains (handled result) e.id)) batch

unfoldable pub abandon : ℕ → PumpState → DrainOutcome
abandon size s = record {
  sent = 0;
  duplicates = 0;
  rejected = 0;
  deferred = size;
  connectivity = s.connectivity;
}

module _ (room_id : String) where
  -- What `drainOnce` does before the request leaves: the purge, and the batch.
  unfoldable pub claim : ℕ → ℕ → PumpState → PumpState × List Envelope
  claim now_ms batch_size s =
      let purged = record s { outbox = (evict_expired now_ms s.outbox).0 } in
      (
        notify (on_depth (backlog room_id purged.outbox)) purged,
        claim_batch room_id now_ms batch_size purged.outbox,
      )

  -- What it does when the hub has answered.
  unfoldable pub settle_answer :
      ℕ → (String → ℕ) → List Envelope → PushResult → PumpState → PumpState × DrainOutcome
  unfolding set_connectivity
  settle_answer now_ms draw batch result s =
      let left = remaining result batch in
      let queue =
        defer now_ms draw (envelope_ids left)
          (reject result.rejected (ack (result.acked ++ result.duplicates) s.outbox)) in
      let told =
        set_connectivity online (notify_time result.server_time (record s { outbox = queue })) in
      (
        notify (on_depth (backlog room_id queue)) told,
        record {
          sent = length result.acked;
          duplicates = length result.duplicates;
          rejected = length result.rejected;
          deferred = length left;
          connectivity = online;
        },
      )

  -- What it does when the request failed.
  unfoldable pub settle_failure :
      ℕ → (String → ℕ) → List Envelope → PumpState → PumpState × DrainOutcome
  unfolding set_connectivity
  settle_failure now_ms draw batch s =
      let told =
        set_connectivity offline
          (record s { outbox = defer now_ms draw (envelope_ids batch) s.outbox }) in
      let queue = told.outbox in
      (
        record told {
          outbox = record queue { journal = queue.journal ++ (push_failed (length batch) ∷ []) };
        },
        record {
          sent = 0;
          duplicates = 0;
          rejected = 0;
          deferred = length batch;
          connectivity = offline;
        },
      )

  -- `drainOnce` from the answer on; `stopped` is the pump's flag at that moment.
  unfoldable pub settle :
      ℕ → (String → ℕ) → Bool → List Envelope → PushAnswer → PumpState → PumpState × DrainOutcome
  unfolding settle_answer settle_failure abandon
  settle now_ms draw true batch answer s = (s, abandon (length batch) s)
  settle now_ms draw false batch (answered result) s = settle_answer now_ms draw batch result s
  settle now_ms draw false batch failed s = settle_failure now_ms draw batch s

  abbrev idle : PumpState → DrainOutcome
  idle s = record {
    sent = 0;
    duplicates = 0;
    rejected = 0;
    deferred = 0;
    connectivity = s.connectivity;
  }

  -- `drainOnce` once the batch is claimed: an empty one sends nothing. `meanwhile` is what the
  -- rest of the room did to the queue during the request.
  unfoldable pub send_batch :
      ℕ
      → (String → ℕ)
      → Bool
      → (List Envelope → PushAnswer)
      → (Outbox → Outbox)
      → List Envelope
      → PumpState
      → PumpState × DrainOutcome
  unfolding settle
  send_batch later_ms draw stopped push meanwhile [] s = (s, idle s)
  send_batch later_ms draw stopped push meanwhile (e ∷ rest) s =
      settle later_ms draw stopped (e ∷ rest) (push (e ∷ rest))
        (record s { outbox = meanwhile s.outbox })

  unfoldable pub drain_once :
      ℕ
      → ℕ
      → ℕ
      → (String → ℕ)
      → Bool
      → (List Envelope → PushAnswer)
      → (Outbox → Outbox)
      → PumpState
      → PumpState × DrainOutcome
  unfolding claim send_batch
  drain_once now_ms later_ms batch_size draw stopped push meanwhile s =
      let (claimed, batch) = claim now_ms batch_size s in
      send_batch later_ms draw stopped push meanwhile batch claimed

-- The pump's flags. `in_flight` counts the calls of `drainOnce` that have not finished.
pub record Flags : Type 0 where
  pub timer : Bool
  pub draining : Bool
  pub stopped : Bool
  pub wake_again : Bool
  pub in_flight : ℕ

unfoldable pub initial : Flags
initial = record {
  timer = false;
  draining = false;
  stopped = false;
  wake_again = false;
  in_flight = 0;
}

unfoldable pub pass : Flags → Flags
pass f =
    if f.draining
    then record f { wake_again = true }
    else record f { draining = true; in_flight = f.in_flight + 1 }

-- The `finally` of a drain.
unfoldable pub finished : Flags → Flags
unfolding pass
finished f =
    let quiet = record f { draining = false; in_flight = f.in_flight - 1 } in
    if not f.wake_again || f.stopped then quiet else pass (record quiet { wake_again = false })

unfoldable pub wake : Flags → Flags
unfolding pass
wake f = if f.timer then pass f else f

unfoldable pub start : Flags → Flags
start f = if f.timer then f else record f { stopped = false; timer = true }

unfoldable pub stop : Flags → Flags
stop f = record f { stopped = true; wake_again = false; timer = false }
