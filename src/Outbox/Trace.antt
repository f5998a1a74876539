-- ===== src/Outbox/Trace.antt =====
-- Every sequence of operations on the queue of apps/room-client/src/core/outbox.ts, and what it
-- cannot lose.
use conference_operator.Outbox.Enqueue.{insert_row-IsValid}
use conference_operator.Outbox.Invariant.{same_rows-IsValid}
use conference_operator.Outbox.Retention.{
  Waits, ack-Waits, reject-Waits, evict_expired-Waits, apply_backpressure-Waits, insert_row-Waits,
}
use conference_operator.Common.{eq_refl}
use conference_operator.Common.Int.{ℤ}
use conference_operator.Common.{
  ℕ, ◌<◌, ◌≡◌, inl, inr, refl, String, none, some, List, map, In, leb, Bool-cases,
}
use conference_operator.Event.{Envelope, RoomEventPayload, required}
use conference_operator.Outbox.{
  Outbox, EnqueueOptions, ack, reject, defer, evict_expired, insert_row, envelope_of, enqueue,
  backpressure_every,
}
use conference_operator.Outbox.Invariant.{
  IsValid, ack-IsValid, reject-IsValid, defer-IsValid, evict_expired-IsValid, defer_all-envelopes,
}
use conference_operator.Outbox.Enqueue.{IsFresh, enqueue-IsValid}

module _ (room_id : String) (max_depth : ℕ) where
  -- What can happen to the queue `q` between two reads while the hub neither confirms nor rejects
  -- the event `e`, and `e` has not expired.
  pub data Trace (e : Envelope) (expiry : ℕ) (q : Outbox) : Outbox → Type 0 where
    begins : Trace e expiry q q
    enqueued :
        {p : Outbox}
        → Trace e expiry q p
        → (now_ms : ℕ) (clock_offset_ms : ℤ) (id : String) (payload : RoomEventPayload)
          (options : EnqueueOptions)
        → IsFresh room_id id p
        → Trace e expiry q (enqueue room_id max_depth p now_ms clock_offset_ms id payload options).0
    acked :
        {p : Outbox}
        → Trace e expiry q p
        → (ids : List String) → ¬ In e.id ids
        → Trace e expiry q (ack ids p)
    rejected :
        {p : Outbox}
        → Trace e expiry q p
        → (entries : List (String × String)) → ¬ In e.id (map (λ x. x.0) entries)
        → Trace e expiry q (reject entries p)
    deferred :
        {p : Outbox}
        → Trace e expiry q p
        → (now_ms : ℕ) (draw : String → ℕ) (ids : List String)
        → Trace e expiry q (defer now_ms draw ids p)
    evicted :
        {p : Outbox}
        → Trace e expiry q p
        → (now_ms : ℕ) → now_ms < expiry
        → Trace e expiry q (evict_expired now_ms p).0

  enqueue-Waits :
      (e : Envelope) (q : Outbox) (now_ms : ℕ) (clock_offset_ms : ℤ) (id : String)
      (payload : RoomEventPayload) (options : EnqueueOptions)
      → IsValid room_id q
      → IsFresh room_id id q
      → e.delivery ≡ required
      → e.dedup_key ≡ none
      → Waits e q.rows
      → Waits e (enqueue room_id max_depth q now_ms clock_offset_ms id payload options).0.rows
  unfolding enqueue
  enqueue-Waits e q now_ms clock_offset_ms id payload options v fresh req free m =
      let f = envelope_of room_id q now_ms clock_offset_ms id payload options in
      let inserted = insert_row room_id q now_ms f in
      let valid = insert_row-IsValid room_id q now_ms f v refl (eq_refl room_id) fresh in
      let kept = insert_row-Waits room_id e q now_ms f free m in
      elim (Bool-cases (leb backpressure_every inserted.since_last_check)) [
        | inl due ↦
            rw (due, enqueue)
              (apply_backpressure-Waits room_id e max_depth
                (record inserted { since_last_check = 0 })
                (same_rows-IsValid room_id _ inserted refl refl valid) req kept)
        | inr early ↦ rw (early, enqueue) kept
      ]

  -- Along every such sequence the table stays well formed.
  pub Trace-IsValid :
      {e : Envelope} {expiry : ℕ} {q p : Outbox}
      → IsValid room_id q
      → Trace e expiry q p
      → IsValid room_id p
  Trace-IsValid v begins = v
  Trace-IsValid v (enqueued t now_ms offset id payload options fresh) =
      enqueue-IsValid room_id max_depth _ now_ms offset id payload options (Trace-IsValid v t) fresh
  Trace-IsValid v (acked t ids other) = ack-IsValid room_id ids _ (Trace-IsValid v t)
  Trace-IsValid v (rejected t entries other) = reject-IsValid room_id entries _ (Trace-IsValid v t)
  Trace-IsValid v (deferred t now_ms draw ids) =
      defer-IsValid room_id now_ms draw ids _ (Trace-IsValid v t)
  Trace-IsValid v (evicted t now_ms alive) =
      evict_expired-IsValid room_id now_ms _ (Trace-IsValid v t)

  defer-Waits :
      (e : Envelope) (now_ms : ℕ) (draw : String → ℕ) (ids : List String) (q : Outbox)
      → Waits e q.rows
      → Waits e (defer now_ms draw ids q).rows
  unfolding defer
  defer-Waits e now_ms draw ids q m = rw (defer_all-envelopes now_ms draw ids q.rows) m

  -- A required event without a collapse key stays in the queue along every sequence of enqueues,
  -- saturation checks included, of acknowledgements and rejections of other events, of deferrals
  -- and of purges before its expiry.
  pub Trace-Waits :
      {e : Envelope} {expiry : ℕ} {q p : Outbox}
      → IsValid room_id q
      → e.delivery ≡ required
      → e.dedup_key ≡ none
      → e.expires_at ≡ some expiry
      → Waits e q.rows
      → Trace e expiry q p
      → Waits e p.rows
  Trace-Waits v req free dated m begins = m
  Trace-Waits {e} v req free dated m (enqueued t now_ms offset id payload options fresh) =
      enqueue-Waits e _ now_ms offset id payload options (Trace-IsValid v t) fresh req free
        (Trace-Waits v req free dated m t)
  Trace-Waits {e} v req free dated m (acked {p} t ids other) =
      ack-Waits e ids p other (Trace-Waits v req free dated m t)
  Trace-Waits {e} v req free dated m (rejected {p} t entries other) =
      reject-Waits e entries p other (Trace-Waits v req free dated m t)
  Trace-Waits {e} v req free dated m (deferred {p} t now_ms draw ids) =
      defer-Waits e now_ms draw ids p (Trace-Waits v req free dated m t)
  Trace-Waits {e} {expiry} v req free dated m (evicted {p} t now_ms alive) =
      evict_expired-Waits room_id e now_ms expiry p (Trace-IsValid v t) dated alive
        (Trace-Waits v req free dated m t)
