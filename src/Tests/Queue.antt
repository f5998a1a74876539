-- ===== src/Tests/Queue.antt =====
-- The queue of a room, with a recording under way and a heartbeat, at small examples.
use conference_operator.Common.{
  ◌≢◌, str_eq, eq_iff, false, ◌≡◌, inl, inr, refl, arith, String, none, some, [], ◌∷◌, In,
}
use conference_operator.Common.Int.{pos}
use conference_operator.Event.{
  Envelope, RoomEventPayload, required, recording_started, recording_stopped, room_heartbeat,
}
use conference_operator.Outbox.{
  Row, Outbox, enqueue, backoff_ms, heartbeat_dedup_key, defer, ack, evict_expired,
}
use conference_operator.Outbox.Invariant.{IsValid}
use conference_operator.Outbox.Enqueue.{IsFresh, enqueue-IsValid}
use conference_operator.Outbox.Retention.{Waits}
use conference_operator.Outbox.Trace.{
  Trace, begins, enqueued, acked, deferred, evicted, Trace-Waits,
}

-- Texts that a test tells apart are different.
pub apart : (a b : String) → str_eq a b ≡ false → a ≢ b
apart a b h = ground (arith, eq_iff a b)

abbrev pub started : Envelope
started = record {
  id = "e0";
  room_id = "r1";
  seq = 0;
  occurred_at = pos 1000;
  monotonic_ms = 1000;
  delivery = required;
  dedup_key = none;
  expires_at = some 172801000;
  payload = record { type = recording_started; body = "" };
}

abbrev pub stopped_take : Envelope
stopped_take = record {
  id = "e1";
  room_id = "r1";
  seq = 1;
  occurred_at = pos 2000;
  monotonic_ms = 2000;
  delivery = required;
  dedup_key = none;
  expires_at = some 172802000;
  payload = record { type = recording_stopped; body = "" };
}

-- The first event was refused by the network, and waits.
abbrev pub first_row : Row
first_row = record { envelope = started; attempts = 1; next_attempt_at = 3000 }

abbrev pub second_row : Row
second_row = record { envelope = stopped_take; attempts = 0; next_attempt_at = 2000 }

abbrev pub queue : Outbox
queue = record {
  rows = first_row ∷ second_row ∷ [];
  next_seq = 2;
  since_last_check = 126;
  journal = [];
}

pub queue-IsValid : IsValid "r1" queue
queue-IsValid = record {
  owned = (refl, (refl, tt));
  ordered = (
    (
      record {
        seq_lt = omega arith;
        id_ne = apart "e0" "e1" refl;
        key_ne = λ k h. λ h'. ground arith;
      },
      tt,
    ),
    (tt, tt),
  );
  below = (omega arith, (omega arith, tt));
}

abbrev beat : RoomEventPayload
beat = record { type = room_heartbeat; body = "" }

queue-IsFresh : IsFresh "r1" "e2" queue
queue-IsFresh = (apart "e0" "e2" refl, (apart "e1" "e2" refl, tt))

abbrev after_beat : Outbox
after_beat =
    (enqueue "r1" 1 queue 2500 (pos 0) "e2" beat
      (record { dedup_key = some (heartbeat_dedup_key "r1"); ttl_ms = none })).0

enqueue_example : IsValid "r1" after_beat
enqueue_example =
    enqueue-IsValid "r1" 1 queue 2500 (pos 0) "e2" beat
      (record { dedup_key = some (heartbeat_dedup_key "r1"); ttl_ms = none }) queue-IsValid
      queue-IsFresh

-- A heartbeat, a confirmation of the other event, a deferral and a purge.
abbrev end_of_day : Outbox
end_of_day = (evict_expired 4000 (defer 3500 (λ id. 0) ("e0" ∷ []) (ack ("e1" ∷ []) after_beat))).0

sample-Trace : Trace "r1" 1 started 172801000 queue end_of_day
sample-Trace =
    evicted
      (deferred
        (acked
          (enqueued begins 2500 (pos 0) "e2" beat
            (record { dedup_key = some (heartbeat_dedup_key "r1"); ttl_ms = none }) queue-IsFresh)
          ("e1" ∷ []) other)
        3500 (λ id. 0) ("e0" ∷ []))
      4000 (omega arith)
  where
    other : ¬ In {A = String} "e0" ("e1" ∷ [])
    other (inl h) = apart "e0" "e1" refl h
    other (inr h) = h

trace-Waits_example : Waits started end_of_day.rows
trace-Waits_example = Trace-Waits "r1" 1 queue-IsValid refl refl refl (inl refl) sample-Trace

backoff_run : backoff_ms 3 0 ≡ 3200
unfolding backoff_ms
backoff_run = refl
