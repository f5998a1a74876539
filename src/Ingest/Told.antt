-- ===== src/Ingest/Told.antt =====
-- What the answer of `push` in apps/hub-server/src/services/ingest.ts says is in the log.
use conference_operator.Common.{
  ℕ, ◌≡◌, ◌⊎◌, inl, inr, refl, sym, ◌∙◌, String, true, some, List, [], ◌∷◌, ◌++◌, arith, str_eq,
  eq_iff, eq_refl, Bool-cases, Option-cases, In, In-append, All, map,
}
use conference_operator.Ingest.Project.{Report}
use conference_operator.Ingest.{
  Candidate, Hub, holds, has_key_of, valid_of, rejected_of, Inserted, insert_event, insert_events,
  push,
}
use conference_operator.Ingest.Replay.{start_of, push-IsPushed, push-rejected}

-- The log holds an event of the room with this id.
abbrev pub IsHere : String → String → List Report → Type 0
IsHere room_id id events = (r : Report) × In r events × (r.room_id ≡ room_id) × (r.id ≡ id)

IsHere-cons :
    (room_id id : String) (x : Report) (events : List Report)
    → IsHere room_id id events
    → IsHere room_id id (x ∷ events)
IsHere-cons room_id id x events (r, m, h, k) = (r, inr m, h, k)

holds-IsHere :
    (e : Report) (events : List Report) → holds e events ≡ true → IsHere e.room_id e.id events
holds-IsHere e [] h = cc
holds-IsHere e (x ∷ events) h = elim (Bool-cases (has_key_of e x)) [
  | inl same ↦ (
    x,
    inl refl,
    (eq_iff x.room_id e.room_id).0 (ground arith),
    (eq_iff x.id e.id).0 (ground arith),
  )
  | inr other ↦ IsHere-cons e.room_id e.id x events (holds-IsHere e events (ground arith))
]

insert_event-In : (e r : Report) (s : Inserted) → In r s.events → In r (insert_event e s).events
unfolding insert_event
insert_event-In e r s m = elim (Bool-cases (holds e s.events)) [
  | inl known ↦ rw known m
  | inr new ↦ rw new ((In-append s.events (e ∷ []) r).1 (inl m))
]

pub insert_events-In :
    (valid : List Report) (r : Report) (s : Inserted)
    → In r s.events
    → In r (insert_events valid s).events
unfolding insert_events
insert_events-In [] r s m = m
insert_events-In (e ∷ valid) r s m =
    insert_events-In valid r (insert_event e s) (insert_event-In e r s m)

-- The ids that a run of insertions has confirmed.
abbrev told_ids : Inserted → List String
told_ids s = s.acked ++ s.duplicates

abbrev IsTrue : String → Inserted → Type 0
IsTrue room_id s = (id : String) → In id (told_ids s) → IsHere room_id id s.events

In-acked :
    (id new : String) (acked duplicates : List String)
    → In id ((acked ++ (new ∷ [])) ++ duplicates)
    → (id ≡ new) ⊎ In id (acked ++ duplicates)
In-acked id new acked duplicates m = elim ((In-append (acked ++ (new ∷ [])) duplicates id).0 m) [
  | inl a ↦ elim ((In-append acked (new ∷ []) id).0 a) [
    | inl old ↦ inr ((In-append acked duplicates id).1 (inl old))
    | inr (inl same) ↦ inl same
    | inr (inr none_left) ↦ absurd none_left
  ]
  | inr d ↦ inr ((In-append acked duplicates id).1 (inr d))
]

In-duplicates :
    (id new : String) (acked duplicates : List String)
    → In id (acked ++ (duplicates ++ (new ∷ [])))
    → (id ≡ new) ⊎ In id (acked ++ duplicates)
In-duplicates id new acked duplicates m =
    elim ((In-append acked (duplicates ++ (new ∷ [])) id).0 m) [
      | inl a ↦ inr ((In-append acked duplicates id).1 (inl a))
      | inr d ↦ elim ((In-append duplicates (new ∷ []) id).0 d) [
        | inl old ↦ inr ((In-append acked duplicates id).1 (inr old))
        | inr (inl same) ↦ inl same
        | inr (inr none_left) ↦ absurd none_left
      ]
    ]

insert_event-IsTrue :
    (room_id : String) (e : Report) (s : Inserted)
    → e.room_id ≡ room_id
    → IsTrue room_id s
    → IsTrue room_id (insert_event e s)
unfolding insert_event
insert_event-IsTrue room_id e s ours v = elim (Bool-cases (holds e s.events)) [
  | inl known ↦
      rw (known, insert_event)
        (λ id m. elim (In-duplicates id e.id s.acked s.duplicates m) [
          | inl same ↦ rw (same, sym ours) (holds-IsHere e s.events known)
          | inr old ↦ v id old
        ])
  | inr new ↦
      rw (new, insert_event)
        (λ id m. elim (In-acked id e.id s.acked s.duplicates m) [
          | inl same ↦ (e, (In-append s.events (e ∷ []) e).1 (inr (inl refl)), ours, sym same)
          | inr old ↦
              let (r, there, h, k) = v id old in
              (r, (In-append s.events (e ∷ []) r).1 (inl there), h, k)
        ])
]

insert_events-IsTrue :
    (room_id : String) (valid : List Report) (s : Inserted)
    → All (λ e. e.room_id ≡ room_id) valid
    → IsTrue room_id s
    → IsTrue room_id (insert_events valid s)
unfolding insert_events
insert_events-IsTrue room_id [] s ours v = v
insert_events-IsTrue room_id (e ∷ valid) s (mine, ours) v =
    insert_events-IsTrue room_id valid (insert_event e s) ours
      (insert_event-IsTrue room_id e s mine v)

pub valid_of-room :
    (room_id : String) (batch : List Candidate)
    → All (λ e. e.room_id ≡ room_id) (valid_of room_id batch)
valid_of-room room_id [] = tt
valid_of-room room_id (c ∷ batch) = elim (Option-cases c.parsed) [
  | inl broken ↦ rw broken (valid_of-room room_id batch)
  | inr (e, read) ↦ elim (Bool-cases (str_eq e.room_id room_id)) [
    | inl ours ↦ rw (read, ours) ((eq_iff e.room_id room_id).0 ours, valid_of-room room_id batch)
    | inr other ↦ rw (read, other) (valid_of-room room_id batch)
  ]
]

-- An id that the answer confirms, or says a duplicate, is that of an event of the room in the log.
pub push-IsHere :
    (now_ms : ℕ) (room_id : String) (batch : List Candidate) (hub : Hub) (id : String)
    → In id
        ((push now_ms room_id batch hub).1.acked ++ (push now_ms room_id batch hub).1.duplicates)
    → IsHere room_id id (push now_ms room_id batch hub).0.events
push-IsHere now_ms room_id batch hub id m =
    let done = push-IsPushed now_ms room_id batch hub in
    let valid = valid_of room_id batch in
    rw done.events (
      insert_events-IsTrue room_id valid (start_of hub) (valid_of-room room_id batch)
        (λ i absent. elim absent [ ]) id (rw (← done.acked, ← done.duplicates) m))

-- What the log holds stays there.
pub push-stays :
    (now_ms : ℕ) (room_id other : String) (batch : List Candidate) (hub : Hub) (id : String)
    → IsHere room_id id hub.events
    → IsHere room_id id (push now_ms other batch hub).0.events
push-stays now_ms room_id other batch hub id (r, m, h, k) =
    let done = push-IsPushed now_ms other batch hub in
    (r, rw done.events (insert_events-In (valid_of other batch) r (start_of hub) m), h, k)

-- A batch that the schema reads, of the room's own events, has nothing rejected.
pub push-accepts :
    {A : Type 0} (read : A → Candidate) (now_ms : ℕ) (room_id : String) (batch : List A) (hub : Hub)
    → All (λ a. (r : Report) × ((read a).parsed ≡ some r) × (r.room_id ≡ room_id)) batch
    → (push now_ms room_id (map read batch) hub).1.rejected ≡ []
push-accepts read now_ms room_id batch hub h =
    push-rejected now_ms room_id (map read batch) hub ∙ unrejected read room_id batch h
  where
    unrejected :
        {A : Type 0} (read : A → Candidate) (room_id : String) (batch : List A)
        → All (λ a. (r : Report) × ((read a).parsed ≡ some r) × (r.room_id ≡ room_id)) batch
        → rejected_of room_id (map read batch) ≡ []
    unrejected read room_id [] h = refl
    unrejected read room_id (a ∷ batch) ((r, parsed, ours), h) =
        rw (parsed, ours, eq_refl room_id) (unrejected read room_id batch h)
