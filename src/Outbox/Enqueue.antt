-- ===== src/Outbox/Enqueue.antt =====
-- Enqueueing keeps the table of apps/room-client/src/core/outbox.ts well formed.
use conference_operator.Common.{
  ℕ, ◌+◌, ◌-◌, ◌<◌, ◌≡◌, ◌≢◌, inl, inr, refl, String, Bool, true, false, not, ◌&&◌, Option, none,
  some, List, [], ◌∷◌, arith, All, In, filter, All-filter, All-append, All_of_In, All-In, In-filter,
  Pairwise-filter, Pairwise-snoc, str_eq, eq_iff, eq_refl, Bool-cases, ap, leb,
}
use conference_operator.Common.Int.{ℤ}
use conference_operator.Event.{Envelope, RoomEventPayload}
use conference_operator.Outbox.{
  Row, Outbox, EnqueueOptions, has_key, of_room, apply_backpressure, give_up, insert_row,
  envelope_of, enqueue, backpressure_every, collapsed, evictable, stats, ids_of,
}
use conference_operator.Outbox.Invariant.{Precedes, IsValid, ack-IsValid, same_rows-IsValid}

module _ (room_id : String) where
  give_up-IsValid :
      (q : Outbox) (total : ℕ) (rows : List Row)
      → IsValid room_id q
      → IsValid room_id (give_up room_id q total rows)
  give_up-IsValid q total [] v = same_rows-IsValid room_id _ q refl refl v
  give_up-IsValid q total (row ∷ rows) v = ack-IsValid room_id (ids_of (row ∷ rows)) q v

  pub apply_backpressure-IsValid :
      (max_depth : ℕ) (q : Outbox)
      → IsValid room_id q
      → IsValid room_id (apply_backpressure room_id max_depth q)
  unfolding apply_backpressure
  apply_backpressure-IsValid max_depth q v =
      let total = (stats room_id q).total in
      elim (Bool-cases (leb total max_depth)) [
        | inl fits ↦ rw fits v
        | inr full ↦ rw full (give_up-IsValid q total (evictable room_id q (total - max_depth)) v)
      ]

  -- The id drawn for an event is not one of those that wait.
  abbrev pub IsFresh : String → Outbox → Type 0
  IsFresh id q = All (λ r. r.envelope.id ≢ id) q.rows

  abbrev pub collapses : Option String → Row → Bool
  collapses none r = false
  collapses (some key) r = of_room room_id r && has_key r.envelope.dedup_key key

  pub collapsed-filter :
      (key : Option String) (rows : List Row)
      → collapsed room_id key rows ≡ filter (λ r. not (collapses key r)) rows
  collapsed-filter none [] = refl
  collapsed-filter none (r ∷ rows) = ap (λ l. r ∷ l) (collapsed-filter none rows)
  collapsed-filter (some key) rows = refl

  collapses_key :
      (key : Option String) (r : Row) (k : String)
      → of_room room_id r ≡ true
      → collapses key r ≡ false
      → r.envelope.dedup_key ≡ some k
      → key ≢ some k
  collapses_key none r k own kept e = λ h. ground arith
  collapses_key (some key) r k own kept e = λ h. ground (arith, eq_iff k key)

  insert_row-Precedes :
      (q : Outbox) (e : Envelope) (r : Row)
      → IsValid room_id q
      → e.seq ≡ q.next_seq
      → IsFresh e.id q
      → In r (filter (λ s. not (collapses e.dedup_key s)) q.rows)
      → Precedes r.envelope e
  insert_row-Precedes q e r v n fresh m =
      let (old, kept) = (In-filter (λ s. not (collapses e.dedup_key s)) q.rows r).0 m in
      record {
        seq_lt = rw n (All-In (λ (s : Row). s.envelope.seq < q.next_seq) q.rows r v.below old);
        id_ne = All-In (λ (s : Row). s.envelope.id ≢ e.id) q.rows r fresh old;
        key_ne = λ k has.
            collapses_key e.dedup_key r k
              (All-In (λ (s : Row). of_room room_id s ≡ true) q.rows r v.owned old) (ground arith)
              has;
      }

  pub insert_row-IsValid :
      (q : Outbox) (now_ms : ℕ) (e : Envelope)
      → IsValid room_id q
      → e.seq ≡ q.next_seq
      → str_eq e.room_id room_id ≡ true
      → IsFresh e.id q
      → IsValid room_id (insert_row room_id q now_ms e)
  unfolding insert_row
  insert_row-IsValid q now_ms e v n own fresh =
      let kept = filter (λ s. not (collapses e.dedup_key s)) q.rows in
      let new : Row = record { envelope = e; attempts = 0; next_attempt_at = now_ms } in
      rw (collapsed-filter e.dedup_key q.rows) (record {
        owned = All-append _ kept (new ∷ []) (All-filter _ _ q.rows v.owned) (own, tt);
        ordered =
            Pairwise-snoc (λ (a b : Row). Precedes a.envelope b.envelope) kept new
              (Pairwise-filter (λ (a b : Row). Precedes a.envelope b.envelope) _ q.rows v.ordered)
              (All_of_In (λ (a : Row). Precedes a.envelope e) kept
                (λ r m. insert_row-Precedes q e r v n fresh m));
        below =
            All-append _ kept (new ∷ [])
              (All-filter _ _ q.rows (
                All_of_In (λ (r : Row). r.envelope.seq < q.next_seq + 1) q.rows
                  (λ r m.
                    omega (
                      arith,
                      All-In (λ (s : Row). s.envelope.seq < q.next_seq) q.rows r v.below m,
                    ))))
              (omega arith, tt);
      })

  -- Enqueueing keeps the table well formed, whatever the event and its options, if the id drawn is
  -- fresh; the saturation check included.
  pub enqueue-IsValid :
      (max_depth : ℕ) (q : Outbox) (now_ms : ℕ) (clock_offset_ms : ℤ) (id : String)
      (payload : RoomEventPayload) (options : EnqueueOptions)
      → IsValid room_id q
      → IsFresh id q
      → IsValid room_id (enqueue room_id max_depth q now_ms clock_offset_ms id payload options).0
  unfolding enqueue
  enqueue-IsValid max_depth q now_ms clock_offset_ms id payload options v fresh =
      let e = envelope_of room_id q now_ms clock_offset_ms id payload options in
      let inserted = insert_row room_id q now_ms e in
      let valid = insert_row-IsValid q now_ms e v refl (eq_refl room_id) fresh in
      elim (Bool-cases (leb backpressure_every inserted.since_last_check)) [
        | inl due ↦
            rw (due, enqueue)
              (apply_backpressure-IsValid max_depth (record inserted { since_last_check = 0 })
                (same_rows-IsValid room_id _ inserted refl refl valid))
        | inr early ↦ rw (early, enqueue) valid
      ]
