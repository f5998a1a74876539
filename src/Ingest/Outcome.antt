-- ===== src/Ingest/Outcome.antt =====
-- What the answer of `push` in apps/hub-server/src/services/ingest.ts says of each element of a batch.
use conference_operator.Common.{
  ℕ, ◌+◌, ◌≡◌, ◌≢◌, ◌⊎◌, ◌↔◌, inl, inr, refl, sym, ap, ◌∙◌, String, Bool, true, false, ◌&&◌, ◌||◌,
  none, some, or_else, List, [], ◌∷◌, ◌++◌, arith, leb, str_eq, eq_iff, Bool-cases, Option-cases,
  In, All, length, if◌then◌else◌,
}
use mathlib.Core.Path.{subst}
use conference_operator.Ingest.Project.{Report}
use conference_operator.Ingest.{
  Candidate, RejectionReason, invalid_schema, unknown_room, IngestOutcome, Hub, valid_of,
  rejected_of, holds, Inserted, insert_event, insert_events, push,
}
use conference_operator.Ingest.Log.{IsLog}
use conference_operator.Ingest.Takes.Pairs.{bit, count, count-append}
use conference_operator.Ingest.Told.{valid_of-room}
use conference_operator.Ingest.Replay.{start_of, push-IsPushed, push-rejected, push-IsLog}

-- An element that the room may report, with this id.
abbrev pub named : String → String → Candidate → Bool
named room_id id c = elim c.parsed [
  | none ↦ false
  | some e ↦ str_eq e.room_id room_id && str_eq e.id id
]

abbrev pub logged : String → String → List Report → Bool
logged room_id id [] = false
logged room_id id (r ∷ events) =
    (str_eq r.room_id room_id && str_eq r.id id) || logged room_id id events

-- How often an id is new, of the times it stands in the batch.
abbrev pub new_times : Bool → ℕ → ℕ
new_times true n = 0
new_times false n = if leb 1 n then 1 else 0

abbrev pub times : String → List String → ℕ
times id ids = count (λ x. str_eq x id) ids

-- Why an element is refused, and under what id.
pub data IsRefused (room_id id : String) (reason : RejectionReason) (c : Candidate) : Type 0 where
  unreadable :
      c.parsed ≡ none
      → id ≡ or_else c.id "inconnu"
      → reason ≡ invalid_schema
      → IsRefused room_id id reason c
  foreign :
      (e : Report)
      → c.parsed ≡ some e
      → e.room_id ≢ room_id
      → id ≡ e.id
      → reason ≡ unknown_room
      → IsRefused room_id id reason c

-- An answer to a batch, over the log it found and the one it leaves.
pub record IsAnswered (room_id : String) (batch : List Candidate) (before after : List Report)
    (told : IngestOutcome) : Type 0 where
  pub log : IsLog after
  pub acked :
      (id : String)
      → times id told.acked ≡ new_times (logged room_id id before) (count (named room_id id) batch)
  pub told_times :
      (id : String)
      → times id told.acked + times id told.duplicates ≡ count (named room_id id) batch
  pub rejected :
      (id : String) (reason : RejectionReason)
      → In (id, reason) told.rejected
        ↔ ((c : Candidate) × In c batch × IsRefused room_id id reason c)
  pub complete : length told.acked + length told.duplicates + length told.rejected ≡ length batch

logged-append :
    (room_id id : String) (xs ys : List Report)
    → logged room_id id (xs ++ ys) ≡ logged room_id id xs || logged room_id id ys
logged-append room_id id [] ys = refl
logged-append room_id id (x ∷ xs) ys = ground (arith, logged-append room_id id xs ys)

holds-logged : (e : Report) (events : List Report) → holds e events ≡ logged e.room_id e.id events
holds-logged e [] = refl
holds-logged e (r ∷ events) = ground (arith, holds-logged e events)

abbrev is_of : String → Report → Bool
is_of id e = str_eq e.id id

insert_event-acked :
    (room_id id : String) (e : Report) (s : Inserted) (n : ℕ)
    → e.room_id ≡ room_id
    → times id (insert_event e s).acked + new_times (logged room_id id (insert_event e s).events) n
      ≡ times id s.acked + new_times (logged room_id id s.events) (bit (is_of id e) + n)
unfolding insert_event
insert_event-acked room_id id e s n ours =
    let known_is : holds e s.events ≡ logged room_id e.id s.events =
      holds-logged e s.events ∙ ap (λ r. logged r e.id s.events) ours in
    let appended = logged-append room_id id s.events (e ∷ []) in
    let counted = count-append (λ x. str_eq x id) s.acked (e.id ∷ []) in
    let here : str_eq e.room_id room_id ≡ true = (eq_iff e.room_id room_id).1 ours in
    elim (Bool-cases (str_eq e.id id)) [
      | inl own ↦
          let known' : holds e s.events ≡ logged room_id id s.events =
            known_is ∙ ap (λ i. logged room_id i s.events) ((eq_iff e.id id).0 own) in
          elim (Bool-cases (logged room_id id s.events)) [
            | inl old ↦ rw (known' ∙ old) (rw old refl)
            | inr fresh ↦
                rw (known' ∙ fresh)
                  (rw (appended, fresh, counted, here, own) (first_of (times id s.acked) n))
          ]
      | inr other ↦ elim (Bool-cases (holds e s.events)) [
        | inl held ↦ rw held (
            rw other
              (ap (λ m. times id s.acked + new_times (logged room_id id s.events) m) (zero_add n)))
        | inr free ↦ rw free (
            rw (appended, counted, here, other)
              (passed (times id s.acked) n (logged room_id id s.events)))
      ]
    ]
  where
    zero_add : (n : ℕ) → n ≡ 0 + n
    zero_add n = omega arith

    first_of : (t n : ℕ) → t + (1 + 0) + 0 ≡ t + new_times false (1 + n)
    first_of t n = ground arith

    passed : (t n : ℕ) (b : Bool) → t + (0 + 0) + new_times (b || false) n ≡ t + new_times b (0 + n)
    passed t n true = omega arith
    passed t n false = ground arith

none_new : (t : ℕ) (b : Bool) → t ≡ t + new_times b 0
none_new t true = omega arith
none_new t false = omega arith

insert_events-acked :
    (room_id id : String) (valid : List Report) (s : Inserted)
    → All (λ e. e.room_id ≡ room_id) valid
    → times id (insert_events valid s).acked
      ≡ times id s.acked + new_times (logged room_id id s.events) (count (is_of id) valid)
unfolding insert_events
insert_events-acked room_id id [] s ours = none_new (times id s.acked) (logged room_id id s.events)
insert_events-acked room_id id (e ∷ valid) s (mine, ours) =
    insert_events-acked room_id id valid (insert_event e s) ours
    ∙ insert_event-acked room_id id e s (count (is_of id) valid) mine

insert_events-told_times :
    (id : String) (valid : List Report) (s : Inserted)
    → times id (insert_events valid s).acked + times id (insert_events valid s).duplicates
      ≡ times id s.acked + times id s.duplicates + count (is_of id) valid
unfolding insert_events insert_event
insert_events-told_times id [] s = omega arith
insert_events-told_times id (e ∷ valid) s =
    let rest = insert_events-told_times id valid (insert_event e s) in
    let one = one_told id e s in omega (arith, rest, one)
  where
    one_told :
        (id : String) (e : Report) (s : Inserted)
        → times id (insert_event e s).acked + times id (insert_event e s).duplicates
          ≡ times id s.acked + times id s.duplicates + bit (is_of id e)
    one_told id e s = elim (Bool-cases (holds e s.events)) [
      | inl known ↦
          rw known (omega (arith, count-append (λ x. str_eq x id) s.duplicates (e.id ∷ [])))
      | inr new ↦ rw new (omega (arith, count-append (λ x. str_eq x id) s.acked (e.id ∷ [])))
    ]

count-valid_of :
    (room_id id : String) (batch : List Candidate)
    → count (is_of id) (valid_of room_id batch) ≡ count (named room_id id) batch
count-valid_of room_id id [] = refl
count-valid_of room_id id (c ∷ batch) = elim (Option-cases c.parsed) [
  | inl broken ↦ rw broken (omega (arith, count-valid_of room_id id batch))
  | inr (e, read) ↦ elim (Bool-cases (str_eq e.room_id room_id)) [
    | inl ours ↦ rw (read, ours) (omega (arith, count-valid_of room_id id batch))
    | inr other ↦ rw (read, other) (omega (arith, count-valid_of room_id id batch))
  ]
]

abbrev Refused : String → List Candidate → String → RejectionReason → Type 0
Refused room_id batch id reason = (c : Candidate) × In c batch × IsRefused room_id id reason c

later :
    (room_id : String) (c : Candidate) (batch : List Candidate) (id : String)
    (reason : RejectionReason)
    → Refused room_id batch id reason
    → Refused room_id (c ∷ batch) id reason
later room_id c batch id reason (d, m, r) = (d, inr m, r)

uncons :
    (room_id : String) (c : Candidate) (batch : List Candidate) (id : String)
    (reason : RejectionReason)
    → Refused room_id (c ∷ batch) id reason
    → IsRefused room_id id reason c ⊎ Refused room_id batch id reason
uncons room_id c batch id reason (d, inl same, r) =
    inl (subst (λ x. IsRefused room_id id reason x) same r)
uncons room_id c batch id reason (d, inr m, r) = inr (d, m, r)

-- What a refusal says of an element that is known.
unreadable_is :
    (room_id id : String) (reason : RejectionReason) (c : Candidate)
    → c.parsed ≡ none
    → IsRefused room_id id reason c
    → ◌≡◌ {A = String × RejectionReason} (id, reason) (or_else c.id "inconnu", invalid_schema)
unreadable_is room_id id reason c broken (unreadable _ i r) = cc
unreadable_is room_id id reason c broken (foreign e read ne i r) = absurd (clash read)
  where
    clash : {f : Report} → c.parsed ≡ some f → ⊥
    clash e = cc

foreign_is :
    (room_id id : String) (reason : RejectionReason) (c : Candidate) (e : Report)
    → c.parsed ≡ some e
    → IsRefused room_id id reason c
    → (e.room_id ≢ room_id) × ◌≡◌ {A = String × RejectionReason} (id, reason) (e.id, unknown_room)
foreign_is room_id id reason c e read (unreadable broken i r) = absurd (clash broken)
  where
    clash : c.parsed ≡ none → ⊥
    clash b = cc
foreign_is room_id id reason c e read (foreign f other ne i r) =
    let same : f ≡ e = cc in rw (← same) (ne, rw (i, r) refl)

refused_first :
    (room_id : String) (c : Candidate) (batch : List Candidate)
    → c.parsed ≡ none
    → rejected_of room_id (c ∷ batch)
      ≡ (or_else c.id "inconnu", invalid_schema) ∷ rejected_of room_id batch
refused_first room_id c batch broken = rw broken refl

kept_first :
    (room_id : String) (c : Candidate) (batch : List Candidate) (e : Report)
    → c.parsed ≡ some e
    → str_eq e.room_id room_id ≡ true
    → rejected_of room_id (c ∷ batch) ≡ rejected_of room_id batch
kept_first room_id c batch e read ours = rw (read, ours) refl

foreign_first :
    (room_id : String) (c : Candidate) (batch : List Candidate) (e : Report)
    → c.parsed ≡ some e
    → str_eq e.room_id room_id ≡ false
    → rejected_of room_id (c ∷ batch) ≡ (e.id, unknown_room) ∷ rejected_of room_id batch
foreign_first room_id c batch e read other = rw (read, other) refl

rejected_of-IsRefused :
    (room_id : String) (batch : List Candidate) (id : String) (reason : RejectionReason)
    → In (id, reason) (rejected_of room_id batch) ↔ Refused room_id batch id reason
rejected_of-IsRefused room_id [] id reason = (λ m. elim m [ ], λ h. elim h.1 [ ])
rejected_of-IsRefused room_id (c ∷ batch) id reason =
    let (to, from) = rejected_of-IsRefused room_id batch id reason in
    elim (Option-cases c.parsed) [
      | inl broken ↦ by_rest (refused_first room_id c batch broken) (
        λ m. elim m [
          | inl same ↦ (c, inl refl, unreadable broken (ap (λ x. x.0) same) (ap (λ x. x.1) same))
          | inr there ↦ later room_id c batch id reason (to there)
        ],
        λ h. elim (uncons room_id c batch id reason h) [
          | inl this ↦ inl (unreadable_is room_id id reason c broken this)
          | inr there ↦ inr (from there)
        ],
      )
      | inr (e, read) ↦ elim (Bool-cases (str_eq e.room_id room_id)) [
        | inl ours ↦ by_rest (kept_first room_id c batch e read ours) (
          λ m. later room_id c batch id reason (to m),
          λ h. elim (uncons room_id c batch id reason h) [
            | inl this ↦
                absurd (
                  (foreign_is room_id id reason c e read this).0
                    ((eq_iff e.room_id room_id).0 ours))
            | inr there ↦ from there
          ],
        )
        | inr other ↦ by_rest (foreign_first room_id c batch e read other) (
          λ m. elim m [
            | inl same ↦ (
              c,
              inl refl,
              foreign e read (λ k. ground (arith, eq_iff e.room_id room_id)) (ap (λ x. x.0) same)
                  (ap (λ x. x.1) same),
            )
            | inr there ↦ later room_id c batch id reason (to there)
          ],
          λ h. elim (uncons room_id c batch id reason h) [
            | inl this ↦ inl (foreign_is room_id id reason c e read this).1
            | inr there ↦ inr (from there)
          ],
        )
      ]
    ]
  where
    by_rest :
        {xs : List (String × RejectionReason)}
        → rejected_of room_id (c ∷ batch) ≡ xs
        → In (id, reason) xs ↔ Refused room_id (c ∷ batch) id reason
        → In (id, reason) (rejected_of room_id (c ∷ batch)) ↔ Refused room_id (c ∷ batch) id reason
    by_rest e h = subst (λ xs. In (id, reason) xs ↔ Refused room_id (c ∷ batch) id reason) (sym e) h

-- What the hub answers to a batch, over a log that has one event for each room and id. Of the elements
-- of one id that the room may report, one is confirmed if the log had no event of the room with the
-- id, none if it had, and the others are said duplicates; an element is rejected, with its reason,
-- exactly when it does not read or is of another room; and the answer has as many entries as the
-- batch has elements. The log still has one event for each room and id.
pub push-IsAnswered :
    (now_ms : ℕ) (room_id : String) (batch : List Candidate) (hub : Hub)
    → IsLog hub.events
    → IsAnswered room_id batch hub.events
        (push now_ms room_id batch hub).0.events
        (push now_ms room_id batch hub).1
push-IsAnswered now_ms room_id batch hub v =
    let done = push-IsPushed now_ms room_id batch hub in
    let valid = valid_of room_id batch in
    let (log, complete) = push-IsLog now_ms room_id batch hub v in
    record {
      log = log;
      acked = λ id. rw done.acked (
          insert_events-acked room_id id valid (start_of hub) (valid_of-room room_id batch)
          ∙ rw (count-valid_of room_id id batch) (omega arith));
      told_times = λ id.
          rw (done.acked, done.duplicates)
            (insert_events-told_times id valid (start_of hub)
              ∙ rw (count-valid_of room_id id batch) (omega arith));
      rejected = λ id reason.
          rw (push-rejected now_ms room_id batch hub)
            (rejected_of-IsRefused room_id batch id reason);
      complete = complete;
    }
