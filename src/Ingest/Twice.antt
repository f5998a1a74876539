-- ===== src/Ingest/Twice.antt =====
-- The second arrival of a batch, in apps/hub-server/src/services/ingest.ts.
use conference_operator.Common.{
  ℕ, ◌≡◌, inl, inr, refl, sym, ap, ◌∙◌, String, Option, none, some, List, [], ◌∷◌, ◌++◌, arith,
  Bool-cases, Option-cases, In, All, All_of_In, leb,
}
use conference_operator.Common.Maps.{get, get-set}
use conference_operator.Ingest.Project.{Report, CommandOutcome}
use conference_operator.Ingest.{
  Candidate, Hub, valid_of, Inserted, insert_event, insert_events, note_outcome, note_outcomes,
  newer_outcome, reported_outcome, push, IngestOutcome,
}
use conference_operator.Ingest.Log.{IsKept, insert_events-In-IsKept}
use conference_operator.Ingest.Replay.{start_of, push-IsPushed}

-- A run of insertions that adds nothing.
record IsSameInsert (s t : Inserted) : Type 0 where
  events : t.events ≡ s.events
  impressions : t.impressions ≡ s.impressions
  acked : t.acked ≡ s.acked

insert_events-same :
    (valid : List Report) (s : Inserted)
    → All (λ e. IsKept e s.events) valid
    → IsSameInsert s (insert_events valid s)
unfolding insert_events
insert_events-same [] s v = record { events = refl; impressions = refl; acked = refl }
insert_events-same (e ∷ valid) s (kept, v) =
    let told = record s { duplicates = s.duplicates ++ (e.id ∷ []) } in
    let same : insert_event e s ≡ told = rw (kept, insert_event) refl in
    let rest = insert_events-same valid told v in
    rw same (record { events = rest.events; impressions = rest.impressions; acked = rest.acked })

-- The hub has already the word that the event brings on a command.
IsHeard : String → Hub → Report → Type 0
IsHeard room_id hub e = newer_outcome (get room_id hub.outcomes) (reported_outcome e.payload) ≡ none

IsHeard-outcomes :
    (room_id : String) (a b : Hub) (e : Report)
    → a.outcomes ≡ b.outcomes
    → IsHeard room_id b e
    → IsHeard room_id a e
unfolding IsHeard
IsHeard-outcomes room_id a b e same h = rw same h

newer_outcome-some :
    (held reported : Option CommandOutcome) (o : CommandOutcome)
    → newer_outcome held reported ≡ some o
    → reported ≡ some o
newer_outcome-some held none o h = cc
newer_outcome-some none (some p) o h = h
newer_outcome-some (some k) (some p) o h = ground arith

newer_outcome-none :
    (held reported other : Option CommandOutcome) (o : CommandOutcome)
    → newer_outcome held reported ≡ some o
    → newer_outcome held other ≡ none
    → newer_outcome (some o) other ≡ none
newer_outcome-none held reported none o h k = refl
newer_outcome-none none reported (some q) o h k = cc
newer_outcome-none (some p) none (some q) o h k = cc
newer_outcome-none (some p) (some r) (some q) o h k = elim (Bool-cases (leb r.seq p.seq)) [
  | inl old ↦ let bad : none ≡ some o = sym (rw old refl) ∙ h in cc
  | inr new ↦
      let same : some r ≡ some o = sym (rw new refl) ∙ h in
      let eq : r ≡ o = cc in rw (sym eq) (ground arith)
]

newer_outcome_self : (o : CommandOutcome) → newer_outcome (some o) (some o) ≡ none
newer_outcome_self o = ground arith

note_outcome-IsHeard :
    (room_id : String) (e : Report) (hub : Hub) → IsHeard room_id (note_outcome room_id e hub) e
unfolding IsHeard
note_outcome-IsHeard room_id e hub =
    elim (Option-cases (newer_outcome (get room_id hub.outcomes) (reported_outcome e.payload))) [
      | inl old ↦ rw (old, note_outcome) old
      | inr (o, new) ↦
          rw
            (
              new,
              note_outcome,
              get-set room_id o hub.outcomes,
              newer_outcome-some (get room_id hub.outcomes) (reported_outcome e.payload) o new,
            )
            (newer_outcome_self o)
    ]

note_outcome-kept :
    (room_id : String) (e f : Report) (hub : Hub)
    → IsHeard room_id hub f
    → IsHeard room_id (note_outcome room_id e hub) f
unfolding IsHeard
note_outcome-kept room_id e f hub h =
    elim (Option-cases (newer_outcome (get room_id hub.outcomes) (reported_outcome e.payload))) [
      | inl old ↦ rw (old, note_outcome) h
      | inr (o, new) ↦
          rw (new, note_outcome, get-set room_id o hub.outcomes) (newer_outcome-none _ _ _ o new h)
    ]

note_outcomes-kept :
    (room_id : String) (valid : List Report) (f : Report) (hub : Hub)
    → IsHeard room_id hub f
    → IsHeard room_id (note_outcomes room_id valid hub) f
unfolding note_outcomes
note_outcomes-kept room_id [] f hub h = h
note_outcomes-kept room_id (e ∷ valid) f hub h =
    note_outcomes-kept room_id valid f (note_outcome room_id e hub)
      (note_outcome-kept room_id e f hub h)

note_outcomes-IsHeard :
    (room_id : String) (valid : List Report) (f : Report) (hub : Hub)
    → In f valid
    → IsHeard room_id (note_outcomes room_id valid hub) f
unfolding note_outcomes
note_outcomes-IsHeard room_id [] f hub m = elim m [ ]
note_outcomes-IsHeard room_id (e ∷ valid) f hub (inl same) = rw same (
    note_outcomes-kept room_id valid e (note_outcome room_id e hub)
      (note_outcome-IsHeard room_id e hub))
note_outcomes-IsHeard room_id (e ∷ valid) f hub (inr m) =
    note_outcomes-IsHeard room_id valid f (note_outcome room_id e hub) m

note_outcomes-same :
    (room_id : String) (valid : List Report) (hub : Hub)
    → All (IsHeard room_id hub) valid
    → note_outcomes room_id valid hub ≡ hub
unfolding note_outcomes IsHeard
note_outcomes-same room_id [] hub h = refl
note_outcomes-same room_id (e ∷ valid) hub (heard, h) =
    let same : note_outcome room_id e hub ≡ hub = rw (heard, note_outcome) refl in
    rw same (note_outcomes-same room_id valid hub h)

-- What the second arrival of a batch leaves as the first made it.
pub record IsUnmoved (before after : Hub) (told : IngestOutcome) : Type 0 where
  pub events : after.events ≡ before.events
  pub impressions : after.impressions ≡ before.impressions
  pub outcomes : after.outcomes ≡ before.outcomes
  pub audited : after.audited ≡ before.audited
  pub acked : told.acked ≡ []

-- A batch that comes a second time right after the first adds no event to the log, counts no
-- impression, brings no word on a command to the audit, and confirms nothing as new.
pub push-IsUnmoved :
    (now_ms then_ms : ℕ) (room_id : String) (batch : List Candidate) (hub : Hub)
    → IsUnmoved
        (push now_ms room_id batch hub).0
        (push then_ms room_id batch (push now_ms room_id batch hub).0).0
        (push then_ms room_id batch (push now_ms room_id batch hub).0).1
push-IsUnmoved now_ms then_ms room_id batch hub =
    let valid = valid_of room_id batch in
    let hub' = (push now_ms room_id batch hub).0 in
    let one = push-IsPushed now_ms room_id batch hub in
    let two = push-IsPushed then_ms room_id batch hub' in
    let kept =
      All_of_In (λ e. IsKept e hub'.events) valid
        (λ e m. rw one.events (insert_events-In-IsKept valid e (start_of hub) m)) in
    let same = insert_events-same valid (start_of hub') kept in
    let heard = All_of_In (IsHeard room_id hub') valid (λ e m.
      IsHeard-outcomes room_id hub' (note_outcomes room_id valid hub) e one.outcomes
        (note_outcomes-IsHeard room_id valid e hub m)) in
    let still = note_outcomes-same room_id valid hub' heard in
    record {
      events = two.events ∙ same.events;
      impressions = two.impressions ∙ same.impressions;
      outcomes = two.outcomes ∙ ap (λ h. h.outcomes) still;
      audited = two.audited ∙ ap (λ h. h.audited) still;
      acked = two.acked ∙ same.acked;
    }
