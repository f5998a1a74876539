-- ===== src/Reporting/Once.antt =====
-- From a room's queue to the hub's log: apps/room-client/src/core/outbox.ts and outbox-pump.ts,
-- and apps/hub-server/src/services/ingest.ts.
use conference_operator.Common.{
  ℕ, ◌≡◌, ◌⊎◌, inl, inr, refl, sym, ap, String, Bool, true, false, none, some, List, [], ◌∷◌, ◌++◌,
  map, All, All-In, All_of_In, In, In-append, Bool-cases, eq_iff, str_eq,
}
use conference_operator.Event.{Envelope, required}
use conference_operator.Outbox.{Outbox, defer}
use conference_operator.Outbox.Invariant.{
  IsValid, ack-IsValid, reject-IsValid, defer-IsValid, same_rows-IsValid,
}
use conference_operator.Outbox.Retention.{Waits}
use conference_operator.Outbox.Trace.{Trace-Waits, Trace-IsValid}
use conference_operator.Pump.{
  PumpState, PushResult, PushAnswer, answered, failed, settle, settle_failure, handled,
  envelope_ids, offline,
}
use conference_operator.Pump.Drain.{
  settle-Waits, settle_answer-outbox, queue_after, set_connectivity-outbox,
}
use conference_operator.Ingest.Project.{Report}
use conference_operator.Ingest.{Candidate, IngestOutcome, push}
use conference_operator.Ingest.Log.{IsLog}
use conference_operator.Ingest.Replay.{push-IsLog}
use conference_operator.Ingest.Told.{IsHere, push-IsHere, push-stays, push-accepts}
use conference_operator.Reporting.{
  System, answer_of, arrive, Run, begins, works, arrives, others, confirmed, unanswered,
}

In-cases : (id : String) (ids : List String) → In id ids ⊎ (¬ In id ids)
In-cases id [] = inr (λ m. m)
In-cases id (x ∷ ids) = elim (Bool-cases (str_eq id x)) [
  | inl same ↦ inl (inl ((eq_iff id x).0 same))
  | inr other ↦ elim (In-cases id ids) [
    | inl m ↦ inl (inr m)
    | inr absent ↦ inr (λ h. elim h [
      | inl same ↦ let bad : str_eq id x ≡ true = (eq_iff id x).1 same in cc
      | inr m ↦ absent m
    ])
  ]
]

settle-IsValid :
    (room_id : String) (later_ms : ℕ) (draw : String → ℕ) (batch : List Envelope) (stopped : Bool)
    (answer : PushAnswer) (p : PumpState)
    → IsValid room_id p.outbox
    → IsValid room_id (settle room_id later_ms draw stopped batch answer p).0.outbox
unfolding settle queue_after settle_failure
settle-IsValid room_id later_ms draw batch true answer p v = v
settle-IsValid room_id later_ms draw batch false (answered result) p v =
    rw (settle_answer-outbox room_id later_ms draw batch p result) (
      defer-IsValid room_id later_ms draw _ _ (
        reject-IsValid room_id result.rejected _
          (ack-IsValid room_id (result.acked ++ result.duplicates) _ v)))
settle-IsValid room_id later_ms draw batch false failed p v =
    let deferred = record p { outbox = defer later_ms draw (envelope_ids batch) p.outbox } in
    same_rows-IsValid room_id _ deferred.outbox
      (ap (λ (q : Outbox). q.rows) (set_connectivity-outbox offline deferred))
      (ap (λ (q : Outbox). q.next_seq) (set_connectivity-outbox offline deferred))
      (defer-IsValid room_id later_ms draw (envelope_ids batch) p.outbox v)

-- The schema reads the room's own events, and keeps their keys.
abbrev pub Reads : String → (Envelope → Candidate) → Type 0
Reads room_id read =
    (f : Envelope)
    → f.room_id ≡ room_id
    → (r : Report) × ((read f).parsed ≡ some r) × (r.id ≡ f.id) × (r.room_id ≡ room_id)

-- Every answer of the hub is true of its log.
abbrev pub IsTold : String → System → Type 0
IsTold room_id s =
    All (λ result. (id : String) → In id (handled result) → IsHere room_id id s.hub.events)
      s.answers

module _ (room_id : String) (max_depth : ℕ) (read : Envelope → Candidate)
    (reads : Reads room_id read) where
  handled-answer_of :
      (server_time : ℕ) (outcome : IngestOutcome) (id : String)
      → outcome.rejected ≡ []
      → In id (handled (answer_of server_time outcome))
      → In id (outcome.acked ++ outcome.duplicates)
  unfolding answer_of
  handled-answer_of server_time outcome id none_rejected m =
      let m' : In id (outcome.acked ++ (outcome.duplicates ++ [])) = rw none_rejected at m in
      elim ((In-append outcome.acked (outcome.duplicates ++ []) id).0 m') [
        | inl a ↦ (In-append outcome.acked outcome.duplicates id).1 (inl a)
        | inr d ↦ elim ((In-append outcome.duplicates [] id).0 d) [
          | inl k ↦ (In-append outcome.acked outcome.duplicates id).1 (inr k)
          | inr absent ↦ absurd absent
        ]
      ]

  own_batch :
      (batch : List Envelope)
      → All (λ f. f.room_id ≡ room_id) batch
      → All (λ f. (r : Report) × ((read f).parsed ≡ some r) × (r.room_id ≡ room_id)) batch
  own_batch [] h = tt
  own_batch (f ∷ batch) (ours, h) =
      let (r, parsed, same, here) = reads f ours in ((r, parsed, here), own_batch batch h)

  stays :
      (now_ms : ℕ) (other : String) (batch : List Candidate) (s : System)
      → IsTold room_id s
      → All
          (λ result.
            (id : String)
            → In id (handled result)
            → IsHere room_id id (push now_ms other batch s.hub).0.events)
          s.answers
  stays now_ms other batch s v = All_of_In _ s.answers (λ result there id m.
      push-stays now_ms room_id other batch s.hub id (All-In _ s.answers result v there id m))

  arrive-IsTold :
      (now_ms : ℕ) (batch : List Envelope) (s : System)
      → All (λ f. f.room_id ≡ room_id) batch
      → IsTold room_id s
      → IsTold room_id (arrive room_id max_depth read now_ms batch s)
  unfolding arrive
  arrive-IsTold now_ms batch s ours v = (
    λ id m. push-IsHere now_ms room_id (map read batch) s.hub id (
        handled-answer_of now_ms _ id
          (push-accepts read now_ms room_id batch s.hub (own_batch batch ours)) m),
    stays now_ms room_id (map read batch) s v,
  )

module _ (room_id : String) (max_depth : ℕ) (read : Envelope → Candidate)
    (reads : Reads room_id read) (e : Envelope) (expiry : ℕ) where
  pub Run-IsTold :
      {s t : System} → IsTold room_id s → Run room_id max_depth read e expiry s t → IsTold room_id t
  Run-IsTold v begins = v
  Run-IsTold v (works r w) = Run-IsTold v r
  Run-IsTold v (arrives {t} r now_ms batch ours) =
      arrive-IsTold room_id max_depth read reads now_ms batch t ours (Run-IsTold v r)
  Run-IsTold v (others {t} r now_ms other batch) =
      stays room_id max_depth read reads now_ms other batch t (Run-IsTold v r)
  Run-IsTold v (confirmed r later_ms draw stopped batch result there) = Run-IsTold v r
  Run-IsTold v (unanswered r later_ms draw stopped batch) = Run-IsTold v r

  Run-IsValid :
      {s t : System}
      → IsValid room_id s.pump.outbox
      → Run room_id max_depth read e expiry s t
      → IsValid room_id t.pump.outbox
  unfolding arrive
  Run-IsValid v begins = v
  Run-IsValid v (works r w) = Trace-IsValid room_id max_depth (Run-IsValid v r) w
  Run-IsValid v (arrives r now_ms batch ours) = Run-IsValid v r
  Run-IsValid v (others r now_ms other batch) = Run-IsValid v r
  Run-IsValid v (confirmed r later_ms draw stopped batch result there) =
      settle-IsValid room_id later_ms draw batch stopped (answered result) _ (Run-IsValid v r)
  Run-IsValid v (unanswered r later_ms draw stopped batch) =
      settle-IsValid room_id later_ms draw batch stopped failed _ (Run-IsValid v r)

  pub Run-IsLog :
      {s t : System}
      → IsLog s.hub.events
      → Run room_id max_depth read e expiry s t
      → IsLog t.hub.events
  unfolding arrive
  Run-IsLog v begins = v
  Run-IsLog v (works r w) = Run-IsLog v r
  Run-IsLog v (arrives {t} r now_ms batch ours) =
      (push-IsLog now_ms room_id (map read batch) t.hub (Run-IsLog v r)).0
  Run-IsLog v (others {t} r now_ms other batch) =
      (push-IsLog now_ms other batch t.hub (Run-IsLog v r)).0
  Run-IsLog v (confirmed r later_ms draw stopped batch result there) = Run-IsLog v r
  Run-IsLog v (unanswered r later_ms draw stopped batch) = Run-IsLog v r

  -- The event is in the room's queue or in the hub's log.
  abbrev IsSafe : System → Type 0
  IsSafe s = Waits e s.pump.outbox.rows ⊎ IsHere room_id e.id s.hub.events

  settle-IsSafe :
      (later_ms : ℕ) (draw : String → ℕ) (stopped : Bool) (batch : List Envelope)
      (answer : PushAnswer) (t : System)
      → ((result : PushResult) → answer ≡ answered result → In result t.answers)
      → IsTold room_id t
      → IsSafe t
      → IsSafe (record t { pump = (settle room_id later_ms draw stopped batch answer t.pump).0 })
  settle-IsSafe later_ms draw stopped batch failed t known told (inl w) =
      inl (settle-Waits room_id later_ms draw batch t.pump stopped failed e (λ result h. cc) w)
  settle-IsSafe later_ms draw stopped batch (answered result) t known told (inl w) =
      elim (In-cases e.id (handled result)) [
        | inl m ↦ inr (All-In _ t.answers result told (known result refl) e.id m)
        | inr absent ↦ inl (
            settle-Waits room_id later_ms draw batch t.pump stopped (answered result) e
              (λ other h m. let same : result ≡ other = cc in absent (rw same m)) w)
      ]
  settle-IsSafe later_ms draw stopped batch answer t known told (inr here) = inr here

  Run-IsSafe :
      {s t : System}
      → IsValid room_id s.pump.outbox
      → IsTold room_id s
      → e.delivery ≡ required
      → e.dedup_key ≡ none
      → e.expires_at ≡ some expiry
      → IsSafe s
      → Run room_id max_depth read e expiry s t
      → IsSafe t
  unfolding arrive
  Run-IsSafe v told req free dated safe begins = safe
  Run-IsSafe v told req free dated safe (works r w) =
      elim (Run-IsSafe v told req free dated safe r) [
        | inl waits ↦ inl (Trace-Waits room_id max_depth (Run-IsValid v r) req free dated waits w)
        | inr here ↦ inr here
      ]
  Run-IsSafe v told req free dated safe (arrives {t} r now_ms batch ours) =
      elim (Run-IsSafe v told req free dated safe r) [
        | inl waits ↦ inl waits
        | inr here ↦ inr (push-stays now_ms room_id room_id (map read batch) t.hub e.id here)
      ]
  Run-IsSafe v told req free dated safe (others {t} r now_ms other batch) =
      elim (Run-IsSafe v told req free dated safe r) [
        | inl waits ↦ inl waits
        | inr here ↦ inr (push-stays now_ms room_id other batch t.hub e.id here)
      ]
  Run-IsSafe v told req free dated safe (confirmed {t} r later_ms draw stopped batch result there) =
      settle-IsSafe later_ms draw stopped batch (answered result) t
        (λ other h. let same : result ≡ other = cc in rw (sym same) there) (Run-IsTold told r)
        (Run-IsSafe v told req free dated safe r)
  Run-IsSafe v told req free dated safe (unanswered {t} r later_ms draw stopped batch) =
      settle-IsSafe later_ms draw stopped batch failed t (λ other h. cc) (Run-IsTold told r)
        (Run-IsSafe v told req free dated safe r)

  -- A required event without a collapse key that waits in the queue of a room is, as long as it has
  -- not expired, in the queue or in the log of the hub, and once in the log: whatever requests and
  -- answers are lost, late or sent again, whatever the saturation of the queue, and whenever the pump
  -- is stopped. It supposes a well-formed queue, a log without doubles, true answers so far, and
  -- that the schema reads what the room writes.
  pub Run-once :
      {s t : System}
      → IsValid room_id s.pump.outbox
      → IsLog s.hub.events
      → IsTold room_id s
      → e.delivery ≡ required
      → e.dedup_key ≡ none
      → e.expires_at ≡ some expiry
      → Waits e s.pump.outbox.rows
      → Run room_id max_depth read e expiry s t
      → (Waits e t.pump.outbox.rows ⊎ IsHere room_id e.id t.hub.events) × IsLog t.hub.events
  Run-once v log told req free dated waits r =
      (Run-IsSafe v told req free dated (inl waits) r, Run-IsLog log r)
