-- ===== src/Ingest/Replay.antt =====
-- A batch that a room sends again changes nothing that is counted, in
-- apps/hub-server/src/services/ingest.ts.
use conference_operator.Common.{
  ℕ, ◌+◌, ◌≡◌, ◌⊎◌, inl, inr, refl, sym, ap, ◌∙◌, String, Bool, true, false, some, List, [], ◌∷◌,
  arith, str_eq, eq_refl, Bool-cases, Option-cases, List-cases, In, length,
}
use conference_operator.Common.Maps.{get}
use conference_operator.Ingest.Project.{Report}
use conference_operator.Ingest.{
  Candidate, RejectionReason, IngestOutcome, Hub, valid_of, rejected_of, Inserted, insert_events,
  apply_batch, note_outcome, note_outcomes, newer_outcome, reported_outcome, notify, push_valid,
  push_from, push,
}
use conference_operator.Ingest.Log.{
  IsLog, IsKept, insert_events-IsLog, insert_events-IsKept, insert_events-In-IsKept,
  insert_events-told, sorted_out,
}

abbrev pub start_of : Hub → Inserted
start_of hub = record {
  events = hub.events;
  impressions = hub.impressions;
  acked = [];
  duplicates = [];
}

-- The word on a command leaves the tables alone.
pub record IsSameLog (a b : Hub) : Type 0 where
  pub events : a.events ≡ b.events
  pub impressions : a.impressions ≡ b.impressions

note_outcome-IsSameLog :
    (room_id : String) (e : Report) (hub : Hub) → IsSameLog (note_outcome room_id e hub) hub
note_outcome-IsSameLog room_id e hub =
    elim (Option-cases (newer_outcome (get room_id hub.outcomes) (reported_outcome e.payload))) [
      | inl old ↦ rw (old, note_outcome) (record { events = refl; impressions = refl })
      | inr (o, new) ↦ rw (new, note_outcome) (record { events = refl; impressions = refl })
    ]

pub note_outcomes-IsSameLog :
    (room_id : String) (valid : List Report) (hub : Hub)
    → IsSameLog (note_outcomes room_id valid hub) hub
unfolding note_outcomes
note_outcomes-IsSameLog room_id [] hub = record { events = refl; impressions = refl }
note_outcomes-IsSameLog room_id (e ∷ valid) hub =
    let one = note_outcome-IsSameLog room_id e hub in
    let rest = note_outcomes-IsSameLog room_id valid (note_outcome room_id e hub) in
    record { events = rest.events ∙ one.events; impressions = rest.impressions ∙ one.impressions }

start_of-note_outcomes :
    (room_id : String) (valid : List Report) (hub : Hub)
    → start_of (note_outcomes room_id valid hub) ≡ start_of hub
start_of-note_outcomes room_id valid hub =
    let same = note_outcomes-IsSameLog room_id valid hub in rw (same.events, same.impressions) refl

-- What `push` does to the log, in one equation for each part.
pub record IsPushed (room_id : String) (valid : List Report) (hub after : Hub)
    (told : IngestOutcome) : Type 0 where
  pub events : after.events ≡ (insert_events valid (start_of hub)).events
  pub impressions : after.impressions ≡ (insert_events valid (start_of hub)).impressions
  pub outcomes : after.outcomes ≡ (note_outcomes room_id valid hub).outcomes
  pub audited : after.audited ≡ (note_outcomes room_id valid hub).audited
  pub acked : told.acked ≡ (insert_events valid (start_of hub)).acked
  pub duplicates : told.duplicates ≡ (insert_events valid (start_of hub)).duplicates

notify-same :
    (test : Bool) (room_id : String) (hub : Hub)
    → ((notify test room_id hub).events ≡ hub.events)
      × ((notify test room_id hub).impressions ≡ hub.impressions)
      × ((notify test room_id hub).outcomes ≡ hub.outcomes)
      × ((notify test room_id hub).audited ≡ hub.audited)
notify-same true room_id hub = (refl, refl, refl, refl)
notify-same false room_id hub = (refl, refl, refl, refl)

push_from-IsPushed :
    (now_ms : ℕ) (room_id : String) (rejected : List (String × RejectionReason))
    (valid : List Report) (hub : Hub)
    → IsPushed room_id valid hub
        (push_from now_ms room_id rejected valid hub).0
        (push_from now_ms room_id rejected valid hub).1
unfolding push_from push_valid apply_batch insert_events note_outcomes
push_from-IsPushed now_ms room_id rejected [] hub = record {
  events = refl;
  impressions = refl;
  outcomes = refl;
  audited = refl;
  acked = refl;
  duplicates = refl;
}
push_from-IsPushed now_ms room_id rejected (e ∷ rest) hub =
    let same = start_of-note_outcomes room_id (e ∷ rest) hub in
    let (events, impressions, outcomes, audited) = notify-same _ room_id _ in
    record {
      events = events ∙ ap (λ s. (insert_events (e ∷ rest) s).events) same;
      impressions = impressions ∙ ap (λ s. (insert_events (e ∷ rest) s).impressions) same;
      outcomes = outcomes;
      audited = audited;
      acked = ap (λ s. (insert_events (e ∷ rest) s).acked) same;
      duplicates = ap (λ s. (insert_events (e ∷ rest) s).duplicates) same;
    }

pub push-IsPushed :
    (now_ms : ℕ) (room_id : String) (batch : List Candidate) (hub : Hub)
    → IsPushed room_id
        (valid_of room_id batch)
        hub
        (push now_ms room_id batch hub).0
        (push now_ms room_id batch hub).1
unfolding push
push-IsPushed now_ms room_id batch hub =
    push_from-IsPushed now_ms room_id (rejected_of room_id batch) (valid_of room_id batch) hub

pub push-rejected :
    (now_ms : ℕ) (room_id : String) (batch : List Candidate) (hub : Hub)
    → (push now_ms room_id batch hub).1.rejected ≡ rejected_of room_id batch
unfolding push push_from
push-rejected now_ms room_id batch hub = elim (List-cases (valid_of room_id batch)) [
  | inl empty ↦ rw (empty, push_from) refl
  | inr (e, rest, valid) ↦ rw (valid, push_from) refl
]

-- The log keeps one event for each room and id, and the answer to a batch names as many elements as
-- the batch has.
pub push-IsLog :
    (now_ms : ℕ) (room_id : String) (batch : List Candidate) (hub : Hub)
    → IsLog hub.events
    → IsLog (push now_ms room_id batch hub).0.events
      × (length (push now_ms room_id batch hub).1.acked
            + length (push now_ms room_id batch hub).1.duplicates
            + length (push now_ms room_id batch hub).1.rejected
          ≡ length batch)
push-IsLog now_ms room_id batch hub v =
    let done = push-IsPushed now_ms room_id batch hub in
    let valid = valid_of room_id batch in
    (
      rw done.events (insert_events-IsLog valid (start_of hub) v),
      rw (done.acked, done.duplicates, push-rejected now_ms room_id batch hub)
          (omega (arith, insert_events-told valid (start_of hub), sorted_out room_id batch)),
    )

valid_of-In :
    (room_id : String) (batch : List Candidate) (c : Candidate) (e : Report)
    → In c batch
    → c.parsed ≡ some e
    → e.room_id ≡ room_id
    → In e (valid_of room_id batch)
valid_of-In room_id [] c e m read ours = m
valid_of-In room_id (d ∷ batch) c e (inl same) read ours =
    rw (sym same, read, ours, eq_refl room_id) (inl refl)
valid_of-In room_id (d ∷ batch) c e (inr m) read ours = elim (Option-cases d.parsed) [
  | inl broken ↦ rw broken (valid_of-In room_id batch c e m read ours)
  | inr (f, other) ↦ elim (Bool-cases (str_eq f.room_id room_id)) [
    | inl here ↦ rw (other, here) (inr (valid_of-In room_id batch c e m read ours))
    | inr there ↦ rw (other, there) (valid_of-In room_id batch c e m read ours)
  ]
]

-- What the log holds it keeps, and a well-formed event of the room is in it after the batch that
-- carries it, whatever stands beside it in the batch.
pub push-IsKept :
    (now_ms : ℕ) (room_id : String) (batch : List Candidate) (hub : Hub) (e : Report)
    → IsKept e hub.events
      ⊎ ((c : Candidate) × In c batch × (c.parsed ≡ some e) × (e.room_id ≡ room_id))
    → IsKept e (push now_ms room_id batch hub).0.events
push-IsKept now_ms room_id batch hub e h =
    let done = push-IsPushed now_ms room_id batch hub in
    rw done.events (elim h [
      | inl old ↦ insert_events-IsKept (valid_of room_id batch) e (start_of hub) old
      | inr (c, m, read, ours) ↦
          insert_events-In-IsKept (valid_of room_id batch) e (start_of hub)
            (valid_of-In room_id batch c e m read ours)
    ])
