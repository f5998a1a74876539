-- ===== src/Pump/Drain.antt =====
-- What a pass of apps/room-client/src/core/outbox-pump.ts takes out of the queue.
use conference_operator.Common.{
  ℕ, ◌≡◌, ◌≢◌, ◌↔◌, inl, inr, refl, String, Bool, true, false, not, List, [], ◌∷◌, ◌++◌, map, arith,
  In, In-filter, In-map, In-of_map, In-append, ap, sym, ◌∙◌, Option-cases, eq_iff,
}
use conference_operator.Event.{Envelope}
use conference_operator.Outbox.{
  Row, Outbox, has_id, delete_where, ack_rows, ack, reject_one, reject, defer,
}
use conference_operator.Outbox.Invariant.{defer_all-envelopes}
use conference_operator.Outbox.Retention.{Waits, ack-Waits, reject-Waits}
use conference_operator.Pump.{
  PumpState, envelope_ids, remaining, PushResult, PushAnswer, answered, failed, Connectivity,
  offline, handled, rejected_ids, set_connectivity, settle, settle_answer, settle_failure,
}

delete-Waits :
    (e : Envelope) (id : String) (rows : List Row)
    → Waits e (delete_where (has_id id) rows)
    → Waits e rows × (e.id ≢ id)
delete-Waits e id rows m =
    let (r, kept, same) = In-of_map (λ (r : Row). r.envelope) (delete_where (has_id id) rows) e m in
    let (old, test) = (In-filter (λ r. not (has_id id r)) rows r).0 kept in
    (
      rw same (In-map (λ (r : Row). r.envelope) rows r old),
      λ h. differs r test (ap (λ (x : Envelope). x.id) (sym same) ∙ h),
    )
  where
    differs : (r : Row) → not (has_id id r) ≡ true → r.envelope.id ≢ id
    differs r test same = ground (arith, eq_iff r.envelope.id id)

ack_rows-gone :
    (e : Envelope) (ids : List String) (rows : List Row)
    → Waits e (ack_rows ids rows)
    → Waits e rows × ¬ In e.id ids
unfolding ack_rows
ack_rows-gone e [] rows m = (m, λ h. h)
ack_rows-gone e (id ∷ ids) rows m =
    let (m', later) = ack_rows-gone e ids (delete_where (has_id id) rows) m in
    let (old, other) = delete-Waits e id rows m' in
    (old, λ h. elim h [ inl x ↦ other x | inr y ↦ later y ])

reject-gone :
    (e : Envelope) (entries : List (String × String)) (q : Outbox)
    → Waits e (reject entries q).rows
    → Waits e q.rows × ¬ In e.id (map (λ x. x.0) entries)
unfolding reject
reject-gone e [] q m = (m, λ h. h)
reject-gone e ((id, reason) ∷ entries) q m =
    let (m', later) = reject-gone e entries (reject_one id reason q) m in
    let (old, other) = delete-Waits e id q.rows m' in
    (old, λ h. elim h [ inl x ↦ other x | inr y ↦ later y ])

ack-gone :
    (e : Envelope) (ids : List String) (q : Outbox)
    → Waits e (ack ids q).rows
    → Waits e q.rows × ¬ In e.id ids
unfolding ack
ack-gone e ids q m = ack_rows-gone e ids q.rows m

-- The three lists of an answer.
module _ (id : String) (result : PushResult) where
  front : In id (result.acked ++ result.duplicates) → In id (handled result)
  front h = elim ((In-append result.acked result.duplicates id).0 h) [
    | inl a ↦ (In-append result.acked (result.duplicates ++ rejected_ids result) id).1 (inl a)
    | inr d ↦
        (In-append result.acked (result.duplicates ++ rejected_ids result) id).1
          (inr ((In-append result.duplicates (rejected_ids result) id).1 (inl d)))
  ]

  third : In id (rejected_ids result) → In id (handled result)
  third h =
      (In-append result.acked (result.duplicates ++ rejected_ids result) id).1
        (inr ((In-append result.duplicates (rejected_ids result) id).1 (inr h)))

  split :
      In id (handled result)
      → ¬ In id (result.acked ++ result.duplicates)
      → ¬ In id (rejected_ids result)
      → ⊥
  split h unacked unrejected =
      elim ((In-append result.acked (result.duplicates ++ rejected_ids result) id).0 h) [
        | inl a ↦ unacked ((In-append result.acked result.duplicates id).1 (inl a))
        | inr r ↦ elim ((In-append result.duplicates (rejected_ids result) id).0 r) [
          | inl d ↦ unacked ((In-append result.acked result.duplicates id).1 (inr d))
          | inr x ↦ unrejected x
        ]
      ]

defer-Waits_iff :
    (e : Envelope) (now_ms : ℕ) (draw : String → ℕ) (ids : List String) (q : Outbox)
    → Waits e (defer now_ms draw ids q).rows ↔ Waits e q.rows
unfolding defer
defer-Waits_iff e now_ms draw ids q = (
  λ m. rw (← defer_all-envelopes now_ms draw ids q.rows) m,
  λ m. rw (defer_all-envelopes now_ms draw ids q.rows) m,
)

pub set_connectivity-outbox :
    (c : Connectivity) (s : PumpState) → (set_connectivity c s).outbox ≡ s.outbox
unfolding set_connectivity
set_connectivity-outbox c s = ground arith

set_connectivity_lem : (c : Connectivity) (s : PumpState) → (set_connectivity c s).connectivity ≡ c
unfolding set_connectivity
set_connectivity_lem c s = ground arith

module _ (room_id : String) (later_ms : ℕ) (draw : String → ℕ) (batch : List Envelope)
    (s : PumpState) where
  unfoldable pub queue_after : PushResult → Outbox
  queue_after result =
      defer later_ms draw (envelope_ids (remaining result batch))
        (reject result.rejected (ack (result.acked ++ result.duplicates) s.outbox))

  pub settle_answer-outbox :
      (result : PushResult)
      → (settle_answer room_id later_ms draw batch result s).0.outbox ≡ queue_after result
  unfolding settle_answer queue_after
  settle_answer-outbox result = elim (Option-cases result.server_time) [
    | inl untimed ↦ ground arith
    | inr (t, timed) ↦ ground arith
  ]

  queue_after-Waits :
      (result : PushResult) (e : Envelope)
      → Waits e (queue_after result).rows ↔ (Waits e s.outbox.rows × ¬ In e.id (handled result))
  unfolding queue_after
  queue_after-Waits result e = (to, from)
    where
      acked : Outbox
      acked = ack (result.acked ++ result.duplicates) s.outbox

      to : Waits e (queue_after result).rows → Waits e s.outbox.rows × ¬ In e.id (handled result)
      to m =
          let kept =
            (defer-Waits_iff e later_ms draw (envelope_ids (remaining result batch))
                (reject result.rejected acked)).0
              m in
          let (kept', unrejected) = reject-gone e result.rejected acked kept in
          let (old, unacked) = ack-gone e (result.acked ++ result.duplicates) s.outbox kept' in
          (old, λ h. split e.id result h unacked unrejected)

      from : Waits e s.outbox.rows × ¬ In e.id (handled result) → Waits e (queue_after result).rows
      from (m, other) =
          (defer-Waits_iff e later_ms draw (envelope_ids (remaining result batch))
              (reject result.rejected acked)).1
            (reject-Waits e result.rejected acked (λ h. other (third e.id result h))
              (ack-Waits e (result.acked ++ result.duplicates) s.outbox
                (λ h. other (front e.id result h)) m))

  -- When the hub has answered, an event waits on exactly if it waited and the answer names it
  -- neither as received, nor as a duplicate, nor as rejected.
  pub settle_answer-Waits :
      (result : PushResult) (e : Envelope)
      → Waits e (settle_answer room_id later_ms draw batch result s).0.outbox.rows
        ↔ (Waits e s.outbox.rows × ¬ In e.id (handled result))
  settle_answer-Waits result e = rw (settle_answer-outbox result) (queue_after-Waits result e)

  -- When the request failed no event leaves or enters the queue, and the pump is offline.
  pub settle_failure-Waits :
      (e : Envelope)
      → (Waits e (settle_failure room_id later_ms draw batch s).0.outbox.rows
          ↔ Waits e s.outbox.rows)
        × ((settle_failure room_id later_ms draw batch s).0.connectivity ≡ offline)
  unfolding settle_failure
  settle_failure-Waits e =
      let deferred = record s { outbox = defer later_ms draw (envelope_ids batch) s.outbox } in
      (
        rw (set_connectivity-outbox offline deferred)
            (defer-Waits_iff e later_ms draw (envelope_ids batch) s.outbox),
        set_connectivity_lem offline deferred,
      )

  -- An event that the hub did not settle waits on, whether the request was answered, failed, or
  -- came back to a stopped pump.
  pub settle-Waits :
      (stopped : Bool) (answer : PushAnswer) (e : Envelope)
      → ((result : PushResult) → answer ≡ answered result → ¬ In e.id (handled result))
      → Waits e s.outbox.rows
      → Waits e (settle room_id later_ms draw stopped batch answer s).0.outbox.rows
  unfolding settle
  settle-Waits true answer e unsettled m = m
  settle-Waits false (answered result) e unsettled m =
      unfold settle in (settle_answer-Waits result e).1 (m, unsettled result refl)
  settle-Waits false failed e unsettled m = ((settle_failure-Waits e).0).1 m
