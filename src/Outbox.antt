-- ===== src/Outbox.antt =====
-- apps/room-client/src/core/outbox.ts: the durable queue of the events a room sends up, over the
-- table `outbox` of packages/db/src/client/schema.ts, whose rows are a list in the order of their
-- insertion. The instant, the ULID drawn for an event and the random draws are arguments.
pub mod Invariant
pub mod Enqueue
pub mod Claim
pub mod Retention
pub mod Trace
pub mod Backoff
use Prim.Native.String
use conference_operator.Common.{
  ℕ, suc, ◌+◌, ◌-◌, ◌*◌, ◌/◌, ◌^◌, String, Bool, false, not, ◌&&◌, Option, none, some, List, [],
  ◌∷◌, ◌++◌, str_eq, leb, min, or_else, length, filter, find?, map, take, if◌then◌else◌,
}
use conference_operator.Common.Int.{ℤ, pos, negsuc, sub_ℕ}
use conference_operator.Event.{
  RoomEventType, Delivery, required, best_effort, delivery_by_event, RoomEventPayload, Envelope,
  is_required,
}
use mathlib.Core.Option

abbrev pub ttl_ms : Delivery → ℕ
ttl_ms required = 172800000
ttl_ms best_effort = 30000

abbrev pub backoff_base_ms : ℕ
backoff_base_ms = 1000

abbrev pub backoff_cap_ms : ℕ
backoff_cap_ms = 60000

abbrev pub backpressure_every : ℕ
backpressure_every = 128

-- A row of the table: the envelope with its delivery state.
pub record Row : Type 0 where
  pub envelope : Envelope
  pub attempts : ℕ
  pub next_attempt_at : ℕ

-- What the queue writes to the local journal.
pub data LogEntry : Type 0 where
  rejected_by_hub : String → String → Option RoomEventType → LogEntry
  required_lost : List Row → LogEntry
  saturated : ℕ → LogEntry
  push_failed : ℕ → LogEntry

pub record Outbox : Type 0 where
  pub rows : List Row
  pub next_seq : ℕ
  pub since_last_check : ℕ
  pub journal : List LogEntry

pub record EnqueueOptions : Type 0 where
  pub dedup_key : Option String
  pub ttl_ms : Option ℕ

-- `eq(outbox.dedupKey, key)`, false on a null column.
abbrev pub has_key : Option String → String → Bool
has_key none key = false
has_key (some k) key = str_eq k key

abbrev pub has_id : String → Row → Bool
has_id id row = str_eq row.envelope.id id

-- `delete(outbox).where(test)`
abbrev pub delete_where : (Row → Bool) → List Row → List Row
delete_where test rows = filter (λ row. not (test row)) rows

-- A stable sort on `seq`: `orderBy(asc(outbox.seq))`.
unfoldable pub insert_by_seq : Row → List Row → List Row
insert_by_seq row [] = row ∷ []
insert_by_seq row (r ∷ rows) =
    let later = insert_by_seq row rows in
    if leb row.envelope.seq r.envelope.seq then row ∷ r ∷ rows else r ∷ later

unfoldable pub order_by_seq : List Row → List Row
unfolding insert_by_seq
order_by_seq [] = []
order_by_seq (row ∷ rows) = insert_by_seq row (order_by_seq rows)

-- `backoffMs`, with `random()` = draw / 2 ^ 53: the value base * (0.8 + 0.4 * random()), rounded.
unfoldable pub backoff_ms : ℕ → ℕ → ℕ
backoff_ms attempts draw =
    let base = min (backoff_base_ms * 2 ^ (attempts - 1)) backoff_cap_ms in
    (base * (8 * 9007199254740992 + 4 * draw) * 2 + 10 * 9007199254740992) / (20 * 9007199254740992)

-- A heartbeat's collapse key.
unfoldable pub heartbeat_dedup_key : String → String
heartbeat_dedup_key room_id = String.◌++◌ "room.heartbeat:" room_id

pub record OutboxStats : Type 0 where
  pub total : ℕ
  pub required_count : ℕ
  pub best_effort_count : ℕ

-- `nowMs + settings.clockOffsetMs`
abbrev add_offset : ℕ → ℤ → ℤ
add_offset now_ms (pos n) = pos (now_ms + n)
add_offset now_ms (negsuc n) = sub_ℕ now_ms (suc n)

unfoldable pub ack_rows : List String → List Row → List Row
ack_rows [] rows = rows
ack_rows (id ∷ ids) rows = ack_rows ids (delete_where (has_id id) rows)

unfoldable pub ack : List String → Outbox → Outbox
unfolding ack_rows
ack ids q = record q { rows = ack_rows ids q.rows }

-- One turn of `reject`'s loop, over an entry's id and reason.
unfoldable pub reject_one : String → String → Outbox → Outbox
reject_one id reason q = record q {
  rows = delete_where (has_id id) q.rows;
  journal =
      q.journal
      ++ (rejected_by_hub id reason
            (Option.map (λ (r : Row). r.envelope.payload.type) (find? (has_id id) q.rows))
          ∷ []);
}

unfoldable pub reject : List (String × String) → Outbox → Outbox
unfolding reject_one
reject [] q = q
reject ((id, reason) ∷ entries) q = reject entries (reject_one id reason q)

-- One turn of `defer`'s loop: the row with this id, if there is one, waits.
unfoldable pub defer_rows : ℕ → ℕ → String → List Row → List Row
unfolding backoff_ms
defer_rows now_ms draw id [] = []
defer_rows now_ms draw id (row ∷ rows) =
    let rest = defer_rows now_ms draw id rows in
    if has_id id row
    then record row {
      attempts = row.attempts + 1;
      next_attempt_at = now_ms + backoff_ms (row.attempts + 1) draw;
    }
      ∷ rest
    else row ∷ rest

-- `draw` gives the random number drawn for each id.
unfoldable pub defer_all : ℕ → (String → ℕ) → List String → List Row → List Row
unfolding defer_rows
defer_all now_ms draw [] rows = rows
defer_all now_ms draw (id ∷ ids) rows =
    defer_all now_ms draw ids (defer_rows now_ms (draw id) id rows)

unfoldable pub defer : ℕ → (String → ℕ) → List String → Outbox → Outbox
unfolding defer_all
defer now_ms draw ids q = record q { rows = defer_all now_ms draw ids q.rows }

-- `isNotNull(expiresAt) && expiresAt <= now`
abbrev pub is_expired : ℕ → Row → Bool
is_expired now_ms row = elim row.envelope.expires_at [ none ↦ false | some e ↦ leb e now_ms ]

abbrev log_lost : List Row → List LogEntry → List LogEntry
log_lost [] journal = journal
log_lost (row ∷ lost) journal = journal ++ (required_lost (row ∷ lost) ∷ [])

abbrev ids_of : List Row → List String
ids_of rows = map (λ r. r.envelope.id) rows

-- Returns the queue and the number of events dropped.
unfoldable pub evict_expired : ℕ → Outbox → Outbox × ℕ
unfolding ack_rows
evict_expired now_ms q =
    let expired = filter (is_expired now_ms) q.rows in
    let lost = filter (λ row. is_required row.envelope.delivery) expired in
    (
      record q { rows = ack_rows (ids_of expired) q.rows; journal = log_lost lost q.journal },
      length expired,
    )

module _ (room_id : String) where
  abbrev pub of_room : Row → Bool
  of_room row = str_eq row.envelope.room_id room_id

  unfoldable pub stats : Outbox → OutboxStats
  stats q =
      let required_count =
        length (filter (λ r. of_room r && is_required r.envelope.delivery) q.rows) in
      let best_effort_count =
        length (filter (λ r. of_room r && not (is_required r.envelope.delivery)) q.rows) in
      record {
        total = required_count + best_effort_count;
        required_count = required_count;
        best_effort_count = best_effort_count;
      }

  unfoldable pub depth : Outbox → ℕ
  unfolding stats
  depth q = (stats q).total

  unfoldable pub backlog : Outbox → ℕ
  unfolding heartbeat_dedup_key
  backlog q = length (
      filter (λ r. of_room r && not (has_key r.envelope.dedup_key (heartbeat_dedup_key room_id)))
        q.rows)

  unfoldable pub claim_batch : ℕ → ℕ → Outbox → List Envelope
  unfolding order_by_seq
  claim_batch now_ms limit q =
      map (λ r. r.envelope)
        (take limit (order_by_seq (filter (λ r. of_room r && leb r.next_attempt_at now_ms) q.rows)))

  -- The rows that the saturation check gives up.
  abbrev evictable : Outbox → ℕ → List Row
  evictable q surplus =
      take surplus (order_by_seq (filter (λ r. not (is_required r.envelope.delivery)) q.rows))

  abbrev give_up : Outbox → ℕ → List Row → Outbox
  give_up q total [] = record q { journal = q.journal ++ (saturated total ∷ []) }
  give_up q total (row ∷ rows) = ack (ids_of (row ∷ rows)) q

  unfoldable pub apply_backpressure : ℕ → Outbox → Outbox
  unfolding stats ack order_by_seq
  apply_backpressure max_depth q =
      let total = (stats q).total in
      if leb total max_depth then q else give_up q total (evictable q (total - max_depth))

  -- `{ id }` is the ULID drawn for the event; `clock_offset_ms` comes from the settings.
  unfoldable pub envelope_of :
      Outbox → ℕ → ℤ → String → RoomEventPayload → EnqueueOptions → Envelope
  unfolding delivery_by_event
  envelope_of q now_ms clock_offset_ms id payload options =
      let delivery = delivery_by_event payload.type in
      record {
        id = id;
        room_id = room_id;
        seq = q.next_seq;
        occurred_at = add_offset now_ms clock_offset_ms;
        monotonic_ms = now_ms;
        delivery = delivery;
        dedup_key = options.dedup_key;
        expires_at = some (now_ms + or_else options.ttl_ms (ttl_ms delivery));
        payload = payload;
      }

  -- The collapse, inside the transaction.
  abbrev collapsed : Option String → List Row → List Row
  collapsed none rows = rows
  collapsed (some key) rows = delete_where (λ r. of_room r && has_key r.envelope.dedup_key key) rows

  unfoldable pub insert_row : Outbox → ℕ → Envelope → Outbox
  insert_row q now_ms e = record q {
    rows =
        collapsed e.dedup_key q.rows
        ++ (record { envelope = e; attempts = 0; next_attempt_at = now_ms } ∷ []);
    next_seq = q.next_seq + 1;
    since_last_check = q.since_last_check + 1;
  }

  unfoldable pub enqueue :
      ℕ → Outbox → ℕ → ℤ → String → RoomEventPayload → EnqueueOptions → Outbox × Envelope
  unfolding envelope_of insert_row apply_backpressure
  enqueue max_depth q now_ms clock_offset_ms id payload options =
      let e = envelope_of q now_ms clock_offset_ms id payload options in
      let inserted = insert_row q now_ms e in
      if leb backpressure_every inserted.since_last_check
      then (apply_backpressure max_depth (record inserted { since_last_check = 0 }), e)
      else (inserted, e)
