-- ===== src/Outbox/Invariant.antt =====
-- What always holds of the table behind apps/room-client/src/core/outbox.ts, and that each of its
-- operations keeps it.
use conference_operator.Common.{
  Pairwise-cases, In, inl, inr, sym, ◌≡◌, ℕ, ◌<◌, ◌≡◌, ◌≢◌, refl, String, Bool, true, not, some,
  List, [], ◌∷◌, map, arith, All, Pairwise, filter, All-filter, All-map, Pairwise-filter,
  Pairwise-map, str_eq, ◌∙◌,
}
use conference_operator.Event.{Envelope}
use conference_operator.Outbox.{
  Row, Outbox, has_id, of_room, ack_rows, ack, reject_one, reject, defer_rows, defer_all, defer,
  evict_expired, delete_where, ids_of, is_expired,
}

-- Two events of the queue, the first before the second: their numbers ascend, their ids differ,
-- and they do not share a collapse key.
pub record Precedes (a b : Envelope) : Type 0 where
  pub seq_lt : a.seq < b.seq
  pub id_ne : a.id ≢ b.id
  pub key_ne : (k : String) → a.dedup_key ≡ some k → b.dedup_key ≢ some k

-- A queue of one room, in the order of its numbers, all given out; the primary key and the unique
-- index on the collapse key hold.
pub record IsValid (room_id : String) (q : Outbox) : Type 0 where
  pub owned : All (λ r. of_room room_id r ≡ true) q.rows
  pub ordered : Pairwise (λ a b. Precedes a.envelope b.envelope) q.rows
  pub below : All (λ r. r.envelope.seq < q.next_seq) q.rows

module _ (room_id : String) where
  filter-IsValid :
      (test : Row → Bool) {q : Outbox} (p : Outbox)
      → p.rows ≡ filter test q.rows
      → p.next_seq ≡ q.next_seq
      → IsValid room_id q
      → IsValid room_id p
  filter-IsValid test {q} p e n v = record {
    owned = rw e (All-filter _ test q.rows v.owned);
    ordered =
        rw e
          (Pairwise-filter (λ (a b : Row). Precedes a.envelope b.envelope) test q.rows v.ordered);
    below = rw (e, n) (All-filter _ test q.rows v.below);
  }

  ack_rows-IsValid :
      (ids : List String) (q : Outbox)
      → IsValid room_id q
      → IsValid room_id (record q { rows = ack_rows ids q.rows })
  unfolding ack_rows
  ack_rows-IsValid [] q v = v
  ack_rows-IsValid (id ∷ ids) q v =
      ack_rows-IsValid ids (record q { rows = delete_where (has_id id) q.rows })
        (filter-IsValid (λ r. not (has_id id r)) _ refl refl v)

  pub ack-IsValid :
      (ids : List String) (q : Outbox) → IsValid room_id q → IsValid room_id (ack ids q)
  unfolding ack
  ack-IsValid ids q v = ack_rows-IsValid ids q v

  -- The invariant speaks of the rows and of the next number only.
  pub same_rows-IsValid :
      (p q : Outbox)
      → p.rows ≡ q.rows
      → p.next_seq ≡ q.next_seq
      → IsValid room_id q
      → IsValid room_id p
  same_rows-IsValid p q e n v = record {
    owned = rw e v.owned;
    ordered = rw e v.ordered;
    below = rw (e, n) v.below;
  }

  pub reject-IsValid :
      (entries : List (String × String)) (q : Outbox)
      → IsValid room_id q
      → IsValid room_id (reject entries q)
  unfolding reject
  reject-IsValid [] q v = v
  reject-IsValid ((id, reason) ∷ entries) q v =
      reject-IsValid entries (reject_one id reason q)
        (filter-IsValid (λ r. not (has_id id r)) _ refl refl v)

  pub evict_expired-IsValid :
      (now_ms : ℕ) (q : Outbox) → IsValid room_id q → IsValid room_id (evict_expired now_ms q).0
  unfolding evict_expired
  evict_expired-IsValid now_ms q v =
      let ids = ids_of (filter (is_expired now_ms) q.rows) in
      same_rows-IsValid _ (record q { rows = ack_rows ids q.rows }) refl refl
        (ack_rows-IsValid ids q v)

-- Deferring changes only when a row is due.
defer_rows-envelopes :
    (now_ms draw : ℕ) (id : String) (rows : List Row)
    → map (λ r. r.envelope) (defer_rows now_ms draw id rows) ≡ map (λ r. r.envelope) rows
unfolding defer_rows
defer_rows-envelopes now_ms draw id [] = refl
defer_rows-envelopes now_ms draw id (row ∷ rows) =
    ground (arith, defer_rows-envelopes now_ms draw id rows)

pub defer_all-envelopes :
    (now_ms : ℕ) (draw : String → ℕ) (ids : List String) (rows : List Row)
    → map (λ r. r.envelope) (defer_all now_ms draw ids rows) ≡ map (λ r. r.envelope) rows
unfolding defer_all
defer_all-envelopes now_ms draw [] rows = refl
defer_all-envelopes now_ms draw (id ∷ ids) rows =
    defer_all-envelopes now_ms draw ids (defer_rows now_ms (draw id) id rows)
    ∙ defer_rows-envelopes now_ms (draw id) id rows

-- What is said of the envelopes alone is kept when the envelopes are.
envelopes-IsValid :
    (room_id : String) (p q : Outbox)
    → map (λ r. r.envelope) p.rows ≡ map (λ r. r.envelope) q.rows
    → p.next_seq ≡ q.next_seq
    → IsValid room_id q
    → IsValid room_id p
envelopes-IsValid room_id p q e n v = record {
  owned = (All-map (λ e. str_eq e.room_id room_id ≡ true) (λ (r : Row). r.envelope) p.rows).0 (
      rw e (
        (All-map (λ e. str_eq e.room_id room_id ≡ true) (λ (r : Row). r.envelope) q.rows).1
          v.owned));
  ordered =
      (Pairwise-map Precedes (λ (r : Row). r.envelope) p.rows).0
        (rw e ((Pairwise-map Precedes (λ (r : Row). r.envelope) q.rows).1 v.ordered));
  below = rw n (
      (All-map (λ e. e.seq < q.next_seq) (λ (r : Row). r.envelope) p.rows).0
        (rw e ((All-map (λ e. e.seq < q.next_seq) (λ (r : Row). r.envelope) q.rows).1 v.below)));
}

pub defer-IsValid :
    (room_id : String) (now_ms : ℕ) (draw : String → ℕ) (ids : List String) (q : Outbox)
    → IsValid room_id q
    → IsValid room_id (defer now_ms draw ids q)
unfolding defer
defer-IsValid room_id now_ms draw ids q v =
    envelopes-IsValid room_id _ q (defer_all-envelopes now_ms draw ids q.rows) refl v

-- The id of a row tells it from the others.
pub unique_row :
    {room_id : String} {q : Outbox} (a b : Row)
    → IsValid room_id q
    → In a q.rows
    → In b q.rows
    → a.envelope.id ≡ b.envelope.id
    → a ≡ b
unique_row {q} a b v m n e =
    elim (Pairwise-cases (λ (x y : Row). Precedes x.envelope y.envelope) q.rows a b v.ordered m n) [
      | inl same ↦ same
      | inr other ↦ elim other [
        | inl before ↦ absurd (before.id_ne e)
        | inr after ↦ absurd (after.id_ne (sym e))
      ]
    ]
