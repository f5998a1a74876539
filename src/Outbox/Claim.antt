-- ===== src/Outbox/Claim.antt =====
-- What `claimBatch` of apps/room-client/src/core/outbox.ts hands over, and in what order.
use conference_operator.Common.{
  ℕ, ◌≤◌, ◌<◌, ◌≡◌, refl, String, Bool, true, ◌&&◌, List, [], ◌∷◌, map, arith, All, Pairwise, In,
  filter, take, All-In, All_of_In, In-filter, In-take, In-of_map, Pairwise-filter, Pairwise-take,
  Pairwise-map, leb, length, length-take, length-map, ap,
}
use conference_operator.Event.{Envelope}
use conference_operator.Outbox.{Row, Outbox, of_room, order_by_seq, claim_batch}
use conference_operator.Outbox.Invariant.{Precedes, IsValid}

abbrev Ascending : List Row → Type 0
Ascending = Pairwise (λ a b. a.envelope.seq < b.envelope.seq)

order_by_seq_sorted : (rows : List Row) → Ascending rows → order_by_seq rows ≡ rows
unfolding order_by_seq
order_by_seq_sorted [] h = refl
order_by_seq_sorted (r ∷ []) h = refl
order_by_seq_sorted (r ∷ s ∷ rows) h = ground (arith, order_by_seq_sorted (s ∷ rows) h.1)

Precedes-Ascending :
    (rows : List Row) → Pairwise (λ a b. Precedes a.envelope b.envelope) rows → Ascending rows
Precedes-Ascending [] h = tt
Precedes-Ascending (r ∷ rows) h = (
  All_of_In (λ (s : Row). r.envelope.seq < s.envelope.seq) rows
      (λ s m. (All-In (λ (s : Row). Precedes r.envelope s.envelope) rows s h.0 m).seq_lt),
  Precedes-Ascending rows h.1,
)

-- In a well-formed table the order of the numbers is that of the insertions.
pub order_by_seq-filter :
    (room_id : String) (q : Outbox) (test : Row → Bool)
    → IsValid room_id q
    → order_by_seq (filter test q.rows) ≡ filter test q.rows
order_by_seq-filter room_id q test v = order_by_seq_sorted _ (
    Pairwise-filter (λ (a b : Row). a.envelope.seq < b.envelope.seq) test q.rows
      (Precedes-Ascending q.rows v.ordered))

module _ (room_id : String) where
  abbrev pub is_due : ℕ → Row → Bool
  is_due now_ms r = of_room room_id r && leb r.next_attempt_at now_ms

  claim_batch-take :
      (now_ms limit : ℕ) (q : Outbox)
      → IsValid room_id q
      → claim_batch room_id now_ms limit q
        ≡ map (λ r. r.envelope) (take limit (filter (is_due now_ms) q.rows))
  unfolding claim_batch
  claim_batch-take now_ms limit q v =
      ap (λ (rows : List Row). map (λ r. r.envelope) (take limit rows))
        (order_by_seq-filter room_id q (is_due now_ms) v)

  taken :
      (now_ms limit : ℕ) (q : Outbox) (e : Envelope)
      → In e (map (λ r. r.envelope) (take limit (filter (is_due now_ms) q.rows)))
      → (r : Row) × In r q.rows × (e ≡ r.envelope) × (is_due now_ms r ≡ true)
  taken now_ms limit q e m =
      let (r, in_take, same) =
        In-of_map (λ (r : Row). r.envelope) (take limit (filter (is_due now_ms) q.rows)) e m in
      let (old, due) =
        (In-filter (is_due now_ms) q.rows r).0
          (In-take limit (filter (is_due now_ms) q.rows) r in_take) in
      (r, old, same, due)

  -- A batch holds at most `limit` events, by strictly ascending numbers, and each is an event of
  -- the queue whose instant has come.
  pub claim_batch-Ascending :
      (now_ms limit : ℕ) (q : Outbox)
      → IsValid room_id q
      → (length (claim_batch room_id now_ms limit q) ≤ limit)
        × Pairwise (λ a b. a.seq < b.seq) (claim_batch room_id now_ms limit q)
        × All
            (λ e. (r : Row) × In r q.rows × (e ≡ r.envelope) × (is_due now_ms r ≡ true))
            (claim_batch room_id now_ms limit q)
  claim_batch-Ascending now_ms limit q v =
      let due = filter (is_due now_ms) q.rows in
      rw (claim_batch-take now_ms limit q v) (
        omega (arith, length-map (λ (r : Row). r.envelope) (take limit due), length-take limit due),
        (Pairwise-map (λ (a b : Envelope). a.seq < b.seq) (λ (r : Row). r.envelope)
              (take limit due)).1
            (Pairwise-take _ limit due (
              Pairwise-filter (λ (a b : Row). a.envelope.seq < b.envelope.seq) _ q.rows
                (Precedes-Ascending q.rows v.ordered))),
        All_of_In _ _ (λ e m. taken now_ms limit q e m),
      )
