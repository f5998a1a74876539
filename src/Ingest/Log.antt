-- ===== src/Ingest/Log.antt =====
-- Nothing a room reports is lost or kept twice, in the log of
-- apps/hub-server/src/services/ingest.ts.
use conference_operator.Common.{
  ◌+◌, ◌≡◌, inl, inr, refl, String, true, false, ◌||◌, List, [], ◌∷◌, ◌++◌, arith, str_eq, eq_refl,
  Bool-cases, Option-cases, In, All, Pairwise, Pairwise-snoc, length, length-append,
}
use conference_operator.Ingest.Project.{Report}
use conference_operator.Ingest.{
  Candidate, has_key_of, holds, valid_of, rejected_of, Inserted, insert_event, insert_events,
}

-- Two events of the log have different keys.
abbrev pub Differs : Report → Report → Type 0
Differs a b = has_key_of b a ≡ false

abbrev pub IsLog : List Report → Type 0
IsLog = Pairwise Differs

holds-All :
    (e : Report) (events : List Report) → holds e events ≡ false → All (λ r. Differs r e) events
holds-All e [] h = tt
holds-All e (r ∷ events) h = (ground arith, holds-All e events (ground arith))

insert_event-IsLog : (e : Report) (s : Inserted) → IsLog s.events → IsLog (insert_event e s).events
unfolding insert_event
insert_event-IsLog e s v = elim (Bool-cases (holds e s.events)) [
  | inl known ↦ rw known v
  | inr new ↦ rw new (Pairwise-snoc Differs s.events e v (holds-All e s.events new))
]

pub insert_events-IsLog :
    (valid : List Report) (s : Inserted) → IsLog s.events → IsLog (insert_events valid s).events
unfolding insert_events
insert_events-IsLog [] s v = v
insert_events-IsLog (e ∷ valid) s v =
    insert_events-IsLog valid (insert_event e s) (insert_event-IsLog e s v)

-- The log holds an event with this key.
abbrev pub IsKept : Report → List Report → Type 0
IsKept e events = holds e events ≡ true

pub holds-append :
    (e : Report) (xs ys : List Report) → holds e (xs ++ ys) ≡ holds e xs || holds e ys
holds-append e [] ys = refl
holds-append e (x ∷ xs) ys = ground (arith, holds-append e xs ys)

pub has_key_of_self : (e : Report) → has_key_of e e ≡ true
has_key_of_self e = ground (arith, eq_refl e.room_id, eq_refl e.id)

insert_event-IsKept :
    (e f : Report) (s : Inserted) → IsKept f s.events → IsKept f (insert_event e s).events
unfolding insert_event
insert_event-IsKept e f s k = elim (Bool-cases (holds e s.events)) [
  | inl known ↦ rw known k
  | inr new ↦ rw (new, holds-append f s.events (e ∷ [])) (ground arith)
]

insert_event-IsKept_self : (e : Report) (s : Inserted) → IsKept e (insert_event e s).events
unfolding insert_event
insert_event-IsKept_self e s = elim (Bool-cases (holds e s.events)) [
  | inl known ↦ rw known known
  | inr new ↦ rw (new, holds-append e s.events (e ∷ [])) (ground (arith, has_key_of_self e))
]

pub insert_events-IsKept :
    (valid : List Report) (f : Report) (s : Inserted)
    → IsKept f s.events
    → IsKept f (insert_events valid s).events
unfolding insert_events
insert_events-IsKept [] f s k = k
insert_events-IsKept (e ∷ valid) f s k =
    insert_events-IsKept valid f (insert_event e s) (insert_event-IsKept e f s k)

pub insert_events-In-IsKept :
    (valid : List Report) (f : Report) (s : Inserted)
    → In f valid
    → IsKept f (insert_events valid s).events
unfolding insert_events
insert_events-In-IsKept [] f s m = elim m [ ]
insert_events-In-IsKept (e ∷ valid) f s (inl same) =
    rw same (insert_events-IsKept valid e (insert_event e s) (insert_event-IsKept_self e s))
insert_events-In-IsKept (e ∷ valid) f s (inr m) =
    insert_events-In-IsKept valid f (insert_event e s) m

-- Every insertion is told, as new or as a duplicate.
insert_event-told :
    (e : Report) (s : Inserted)
    → length (insert_event e s).acked + length (insert_event e s).duplicates
      ≡ length s.acked + length s.duplicates + 1
unfolding insert_event
insert_event-told e s =
    ground (arith, length-append s.acked (e.id ∷ []), length-append s.duplicates (e.id ∷ []))

pub insert_events-told :
    (valid : List Report) (s : Inserted)
    → length (insert_events valid s).acked + length (insert_events valid s).duplicates
      ≡ length s.acked + length s.duplicates + length valid
unfolding insert_events
insert_events-told [] s = omega arith
insert_events-told (e ∷ valid) s =
    omega (arith, insert_events-told valid (insert_event e s), insert_event-told e s)

pub sorted_out :
    (room_id : String) (batch : List Candidate)
    → length (valid_of room_id batch) + length (rejected_of room_id batch) ≡ length batch
sorted_out room_id [] = refl
sorted_out room_id (c ∷ batch) = elim (Option-cases c.parsed) [
  | inl broken ↦ rw broken (omega (arith, sorted_out room_id batch))
  | inr (e, read) ↦ elim (Bool-cases (str_eq e.room_id room_id)) [
    | inl ours ↦ rw (read, ours) (omega (arith, sorted_out room_id batch))
    | inr other ↦ rw (read, other) (omega (arith, sorted_out room_id batch))
  ]
]
