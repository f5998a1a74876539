-- ===== src/Outbox/Retention.antt =====
-- Nothing important is lost: what can take a required event out of the queue of
-- apps/room-client/src/core/outbox.ts, over every sequence of its operations.
use conference_operator.Common.{
  ℕ, ◌-◌, ◌<◌, ◌≡◌, ◌≢◌, inl, inr, refl, String, Bool, true, false, not, Option, none, some, List,
  [], ◌∷◌, ◌++◌, map, arith, In, filter, In-filter, In-take, In-map, In-of_map, In-append, leb, ap,
  sym, ◌∙◌, Bool-cases, eq_iff,
}
use mathlib.Core.Path.{subst}
use conference_operator.Event.{Envelope, required, is_required}
use conference_operator.Outbox.{
  Row, Outbox, has_id, ack_rows, ack, reject_one, reject, evict_expired, is_expired, ids_of,
  apply_backpressure, give_up, insert_row, delete_where, evictable, stats, order_by_seq,
}
use conference_operator.Outbox.Invariant.{IsValid, unique_row}
use conference_operator.Outbox.Enqueue.{collapses, collapsed-filter}
use conference_operator.Outbox.Claim.{order_by_seq-filter}

-- The event waits in the queue.
abbrev pub Waits : Envelope → List Row → Type 0
Waits e rows = In e (map (λ r. r.envelope) rows)

filter-Waits :
    (e : Envelope) (test : Row → Bool) (rows : List Row)
    → ((r : Row) → r.envelope ≡ e → test r ≡ true)
    → Waits e rows
    → Waits e (filter test rows)
filter-Waits e test rows keep m =
    let (r, old, same) = In-of_map (λ (r : Row). r.envelope) rows e m in
    rw same (
      In-map (λ (r : Row). r.envelope) (filter test rows) r
        ((In-filter test rows r).1 (old, keep r (sym same))))

pub ack_rows-Waits :
    (e : Envelope) (ids : List String) (rows : List Row)
    → ¬ In e.id ids
    → Waits e rows
    → Waits e (ack_rows ids rows)
unfolding ack_rows
ack_rows-Waits e [] rows other m = m
ack_rows-Waits e (id ∷ ids) rows other m =
    ack_rows-Waits e ids (delete_where (has_id id) rows) (λ h. other (inr h))
      (filter-Waits e (λ r. not (has_id id r)) rows (λ r same. unkeyed r same (λ h. other (inl h)))
        m)
  where
    unkeyed : (r : Row) → r.envelope ≡ e → e.id ≢ id → not (has_id id r) ≡ true
    unkeyed r same ne = ground (arith, eq_iff r.envelope.id id)

pub ack-Waits :
    (e : Envelope) (ids : List String) (q : Outbox)
    → ¬ In e.id ids
    → Waits e q.rows
    → Waits e (ack ids q).rows
unfolding ack
ack-Waits e ids q other m = ack_rows-Waits e ids q.rows other m

pub reject-Waits :
    (e : Envelope) (entries : List (String × String)) (q : Outbox)
    → ¬ In e.id (map (λ x. x.0) entries)
    → Waits e q.rows
    → Waits e (reject entries q).rows
unfolding reject
reject-Waits e [] q other m = m
reject-Waits e ((id, reason) ∷ entries) q other m =
    reject-Waits e entries (reject_one id reason q) (λ h. other (inr h))
      (filter-Waits e (λ r. not (has_id id r)) q.rows
        (λ r same. unkeyed r same (λ h. other (inl h))) m)
  where
    unkeyed : (r : Row) → r.envelope ≡ e → e.id ≢ id → not (has_id id r) ≡ true
    unkeyed r same ne = ground (arith, eq_iff r.envelope.id id)

module _ (room_id : String) (e : Envelope) where
  -- No row of another event has this id.
  other_ids :
      (q : Outbox) (test : Row → Bool)
      → IsValid room_id q
      → Waits e q.rows
      → ((r : Row) → r.envelope ≡ e → test r ≡ false)
      → ¬ In e.id (ids_of (filter test q.rows))
  other_ids q test v m spares h =
      let (r, old, same) = In-of_map (λ (r : Row). r.envelope) q.rows e m in
      let (s, kept, same_id) = In-of_map (λ (r : Row). r.envelope.id) (filter test q.rows) e.id h in
      let (old', passed) = (In-filter test q.rows s).0 kept in
      let one : s ≡ r =
        unique_row {room_id = room_id} {q = q} s r v old' old
          (sym same_id ∙ ap (λ (x : Envelope). x.id) same) in
      ground (arith, spares s (ap (λ (x : Row). x.envelope) one ∙ sym same))

  pub evict_expired-Waits :
      (now_ms expiry : ℕ) (q : Outbox)
      → IsValid room_id q
      → e.expires_at ≡ some expiry
      → now_ms < expiry
      → Waits e q.rows
      → Waits e (evict_expired now_ms q).0.rows
  unfolding evict_expired
  evict_expired-Waits now_ms expiry q v dated alive m =
      ack_rows-Waits e (ids_of (filter (is_expired now_ms) q.rows)) q.rows
        (other_ids q (is_expired now_ms) v m spares) m
    where
      spares : (r : Row) → r.envelope ≡ e → is_expired now_ms r ≡ false
      spares r same =
          let x : r.envelope.expires_at ≡ some expiry =
            ap (λ (f : Envelope). f.expires_at) same ∙ dated in
          rw x (ground arith)

  give_up-Waits :
      (q : Outbox) (surplus total : ℕ)
      → IsValid room_id q
      → e.delivery ≡ required
      → Waits e q.rows
      → Waits e (give_up room_id q total (evictable room_id q surplus)).rows
  unfolding ack
  give_up-Waits q surplus total v req m = go (evictable room_id q surplus) spared
    where
      weak : Row → Bool
      weak r = not (is_required r.envelope.delivery)

      spares : (r : Row) → r.envelope ≡ e → weak r ≡ false
      spares r same =
          let x : r.envelope.delivery ≡ required = ap (λ (f : Envelope). f.delivery) same ∙ req in
          rw x

      spared : ¬ In e.id (ids_of (evictable room_id q surplus))
      spared h =
          let (s, chosen, same_id) =
            In-of_map (λ (r : Row). r.envelope.id) (evictable room_id q surplus) e.id h in
          let chosen' : In s (filter weak q.rows) =
            subst (λ l. In s l) (order_by_seq-filter room_id q weak v)
              (In-take surplus (order_by_seq (filter weak q.rows)) s chosen) in
          other_ids q weak v m spares
            (rw same_id (In-map (λ (r : Row). r.envelope.id) (filter weak q.rows) s chosen'))

      go : (rows : List Row) → ¬ In e.id (ids_of rows) → Waits e (give_up room_id q total rows).rows
      go [] _ = m
      go (r ∷ rows) other = ack_rows-Waits e (ids_of (r ∷ rows)) q.rows other m

  pub apply_backpressure-Waits :
      (max_depth : ℕ) (q : Outbox)
      → IsValid room_id q
      → e.delivery ≡ required
      → Waits e q.rows
      → Waits e (apply_backpressure room_id max_depth q).rows
  unfolding apply_backpressure
  apply_backpressure-Waits max_depth q v req m =
      let total = (stats room_id q).total in
      elim (Bool-cases (leb total max_depth)) [
        | inl fits ↦ rw fits m
        | inr full ↦ rw full (give_up-Waits q (total - max_depth) total v req m)
      ]

  pub insert_row-Waits :
      (q : Outbox) (now_ms : ℕ) (f : Envelope)
      → e.dedup_key ≡ none
      → Waits e q.rows
      → Waits e (insert_row room_id q now_ms f).rows
  unfolding insert_row
  insert_row-Waits q now_ms f free m =
      let new : Row = record { envelope = f; attempts = 0; next_attempt_at = now_ms } in
      let kept =
        filter-Waits e (λ r. not (collapses room_id f.dedup_key r)) q.rows
          (λ r same. spared f.dedup_key r same) m in
      let (r, old, same) =
        In-of_map (λ (r : Row). r.envelope)
          (filter (λ r. not (collapses room_id f.dedup_key r)) q.rows) e kept in
      rw (collapsed-filter room_id f.dedup_key q.rows, same)
        (In-map (λ (r : Row). r.envelope)
          (filter (λ r. not (collapses room_id f.dedup_key r)) q.rows ++ new ∷ []) r
          ((In-append (filter (λ r. not (collapses room_id f.dedup_key r)) q.rows) (new ∷ []) r).1
            (inl old)))
    where
      spared :
          (key : Option String) (r : Row) → r.envelope ≡ e → not (collapses room_id key r) ≡ true
      spared none r same = refl
      spared (some k) r same =
          let x : r.envelope.dedup_key ≡ none = ap (λ (g : Envelope). g.dedup_key) same ∙ free in
          ground arith
