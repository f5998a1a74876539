-- ===== src/Ingest.antt =====
-- apps/hub-server/src/services/ingest.ts: what the hub makes of a batch of events a room reports,
-- over the tables `ingest_event` and `room_state` of packages/db/src/hub/schema.ts. A candidate of a
-- batch carries what zod's `safeParse` reads of it. Instants are milliseconds; a list that the
-- source stores as JSON is its text.
pub mod Project
pub mod Answers
pub mod Takes
pub mod Sort
pub mod View
pub mod Again
pub mod Log
pub mod Replay
pub mod Outcome
pub mod Told
pub mod Twice
use conference_operator.Common.{
  ℕ, suc, ◌+◌, ◌/◌, max, String, Bool, true, false, not, ◌&&◌, ◌||◌, Option, none, some, List, [],
  ◌∷◌, ◌++◌, str_eq, leb, ltb, or_else, filter, if◌then◌else◌, is_some,
}
use conference_operator.Common.Maps.{get, set}
use conference_operator.Event.{RoomEventType, Delivery}
use conference_operator.Ingest.Project.{
  Report, HubPayload, room_heartbeat, wall_impressions, CommandOutcome, RoomState, same_watched,
  apply_to_room_state,
}
use conference_operator.Ingest.Answers.{Consent, apply_consent}

-- What `safeParse` says of one element of a batch, with its `id` when it is a string.
pub record Candidate : Type 0 where
  pub id : Option String
  pub parsed : Option Report

pub data RejectionReason : Type 0 where
  invalid_schema unknown_room : RejectionReason

pub record IngestOutcome : Type 0 where
  pub acked : List String
  pub duplicates : List String
  pub rejected : List (String × RejectionReason)

-- A row of `comment_impression`.
pub record Impression : Type 0 where
  pub comment_id : String
  pub room_id : String
  pub day : ℕ
  pub count : ℕ
  pub last_shown_at : ℕ

pub record Hub : Type 0 where
  pub events : List Report
  pub states : List (String × RoomState)
  pub consents : List (String × Consent)
  pub outcomes : List (String × CommandOutcome)
  pub impressions : List Impression
  pub audited : List (String × CommandOutcome)
  pub changed : List String

-- The primary key of `ingest_event`.
abbrev pub has_key_of : Report → Report → Bool
has_key_of e r = str_eq r.room_id e.room_id && str_eq r.id e.id

abbrev pub holds : Report → List Report → Bool
holds e [] = false
holds e (r ∷ events) = has_key_of e r || holds e events

-- What `push` keeps of a batch, and what it rejects, in the order of the batch.
abbrev pub valid_of : String → List Candidate → List Report
valid_of room_id [] = []
valid_of room_id (c ∷ batch) = elim c.parsed [
  | none ↦ valid_of room_id batch
  | some e ↦ if str_eq e.room_id room_id then e ∷ valid_of room_id batch else valid_of room_id batch
]

abbrev pub extract_id : Candidate → String
extract_id c = or_else c.id "inconnu"

abbrev pub rejected_of : String → List Candidate → List (String × RejectionReason)
rejected_of room_id [] = []
rejected_of room_id (c ∷ batch) = elim c.parsed [
  | none ↦ (extract_id c, invalid_schema) ∷ rejected_of room_id batch
  | some e ↦
      if str_eq e.room_id room_id
      then rejected_of room_id batch
      else (e.id, unknown_room) ∷ rejected_of room_id batch
]

-- `addImpressions` of wall.ts: one row per comment, room and day.
abbrev same_impression : Impression → Impression → Bool
same_impression a b =
    str_eq a.comment_id b.comment_id
    && str_eq a.room_id b.room_id
    && (leb a.day b.day && leb b.day a.day)

unfoldable pub add_impression : Impression → List Impression → List Impression
add_impression i [] = i ∷ []
add_impression i (j ∷ rows) =
    let rest = add_impression i rows in
    if same_impression i j
    then record j { count = j.count + i.count; last_shown_at = max j.last_shown_at i.last_shown_at }
      ∷ rows
    else j ∷ rest

unfoldable pub add_impressions : String → ℕ → List (String × ℕ) → List Impression → List Impression
unfolding add_impression
add_impressions room_id at [] rows = rows
add_impressions room_id at ((comment_id, n) ∷ counts) rows = add_impressions room_id at counts (
    add_impression
      (record {
        comment_id = comment_id;
        room_id = room_id;
        day = at / 86400000;
        count = n;
        last_shown_at = at;
      })
      rows)

abbrev pub counted : Report → List Impression → List Impression
counted e rows = elim e.payload [
  | wall_impressions counts ↦ add_impressions e.room_id e.occurred_at counts rows
  | _ ↦ rows
]

-- One turn of the insertions.
pub record Inserted : Type 0 where
  pub events : List Report
  pub impressions : List Impression
  pub acked : List String
  pub duplicates : List String

unfoldable pub insert_event : Report → Inserted → Inserted
unfolding add_impressions
insert_event e s =
    if holds e s.events then record s { duplicates = s.duplicates ++ (e.id ∷ []) } else record s {
      events = s.events ++ (e ∷ []);
      impressions = counted e s.impressions;
      acked = s.acked ++ (e.id ∷ []);
    }

unfoldable pub insert_events : List Report → Inserted → Inserted
unfolding insert_event
insert_events [] s = s
insert_events (e ∷ valid) s = insert_events valid (insert_event e s)

-- A stable sort on `seq`.
unfoldable pub insert_by_seq : Report → List Report → List Report
insert_by_seq e [] = e ∷ []
insert_by_seq e (r ∷ rs) =
    let later = insert_by_seq e rs in if leb e.seq r.seq then e ∷ r ∷ rs else r ∷ later

unfoldable pub sort_by_seq : List Report → List Report
unfolding insert_by_seq
sort_by_seq [] = []
sort_by_seq (e ∷ es) = insert_by_seq e (sort_by_seq es)

unfoldable pub apply_states :
    ℕ → String → List Report → List (String × RoomState) → List (String × RoomState)
unfolding apply_to_room_state
apply_states now_ms room_id [] states = states
apply_states now_ms room_id (e ∷ es) states =
    apply_states now_ms room_id es (apply_to_room_state now_ms room_id e states)

unfoldable pub apply_consents :
    ℕ → String → List Report → List (String × Consent) → List (String × Consent)
unfolding apply_consent
apply_consents now_ms room_id [] consents = consents
apply_consents now_ms room_id (e ∷ es) consents =
    apply_consents now_ms room_id es (apply_consent now_ms room_id e.payload consents)

-- The word on a command that a heartbeat brings, when it is newer than the one held.
abbrev pub newer_outcome : Option CommandOutcome → Option CommandOutcome → Option CommandOutcome
newer_outcome held none = none
newer_outcome none (some reported) = some reported
newer_outcome (some held) (some reported) =
    if leb reported.seq held.seq then none else some reported

abbrev pub reported_outcome : HubPayload → Option CommandOutcome
reported_outcome payload = elim payload [ room_heartbeat h ↦ h.last_command | _ ↦ none ]

abbrev pub note_outcome : String → Report → Hub → Hub
note_outcome room_id e hub =
    elim (newer_outcome (get room_id hub.outcomes) (reported_outcome e.payload)) [
      | none ↦ hub
      | some reported ↦ record hub {
        outcomes = set room_id reported hub.outcomes;
        audited = hub.audited ++ ((room_id, reported) ∷ []);
      }
    ]

unfoldable pub note_outcomes : String → List Report → Hub → Hub
unfolding set
note_outcomes room_id [] hub = hub
note_outcomes room_id (e ∷ valid) hub = note_outcomes room_id valid (note_outcome room_id e hub)

abbrev pub silence_ms : ℕ
silence_ms = 35000

-- `moved`: whether the batch changed anything a watcher could see.
unfoldable pub moved : ℕ → Option RoomState → Option RoomState → Bool
unfolding same_watched
moved now_ms none after = true
moved now_ms (some before) none = true
moved now_ms (some before) (some after) = elim before.last_seen_at [
  | none ↦ true
  | some seen ↦ if ltb (seen + silence_ms) now_ms then true else not (same_watched before after)
]

-- `audited` grows by each call of `onCommandOutcome`.
abbrev more_audited : List (String × CommandOutcome) → List (String × CommandOutcome) → Bool
more_audited [] [] = false
more_audited [] (b ∷ after) = true
more_audited (a ∷ before) [] = false
more_audited (a ∷ before) (b ∷ after) = more_audited before after

abbrev pub notify : Bool → String → Hub → Hub
notify test room_id hub =
    if test then record hub { changed = hub.changed ++ (room_id ∷ []) } else hub

-- The transaction of `push`.
unfoldable pub apply_batch : ℕ → String → List Report → Hub → Hub × Inserted
unfolding insert_events sort_by_seq apply_states apply_consents
apply_batch now_ms room_id valid hub =
    let s = insert_events valid (record {
      events = hub.events;
      impressions = hub.impressions;
      acked = [];
      duplicates = [];
    }) in
    (
      record hub {
        events = s.events;
        impressions = s.impressions;
        states = apply_states now_ms room_id (sort_by_seq valid) hub.states;
        consents = apply_consents now_ms room_id (sort_by_seq valid) hub.consents;
      },
      s,
    )

unfoldable pub push_valid : ℕ → String → List Report → Hub → Hub × Inserted
unfolding note_outcomes apply_batch moved
push_valid now_ms room_id valid hub =
    let noted = note_outcomes room_id valid hub in
    let (applied, s) = apply_batch now_ms room_id valid noted in
    (
      notify
          (more_audited hub.audited noted.audited
            || moved now_ms (get room_id hub.states) (get room_id applied.states))
          room_id applied,
      s,
    )

-- `push` from the early return on, over what it keeps and what it rejects.
unfoldable pub push_from :
    ℕ → String → List (String × RejectionReason) → List Report → Hub → Hub × IngestOutcome
unfolding push_valid
push_from now_ms room_id rejected [] hub =
    (hub, record { acked = []; duplicates = []; rejected = rejected })
push_from now_ms room_id rejected (e ∷ rest) hub =
    let (hub', s) = push_valid now_ms room_id (e ∷ rest) hub in
    (hub', record { acked = s.acked; duplicates = s.duplicates; rejected = rejected })

unfoldable pub push : ℕ → String → List Candidate → Hub → Hub × IngestOutcome
unfolding push_from
push now_ms room_id batch hub =
    push_from now_ms room_id (rejected_of room_id batch) (valid_of room_id batch) hub

unfoldable pub last_command : String → Hub → Option CommandOutcome
last_command room_id hub = get room_id hub.outcomes
