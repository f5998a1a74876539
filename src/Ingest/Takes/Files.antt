-- ===== src/Ingest/Takes/Files.antt =====
-- What `captations` of apps/hub-server/src/services/ingest.ts shows of the log: a running take for
-- each instance whose last word is a start, and each file that a stop tells.
use conference_operator.Common.{
  ℕ, ◌+◌, ◌≡◌, inl, inr, refl, ap, ◌∙◌, String, Bool, true, false, ◌&&◌, Option, none, some,
  is_some, List, [], ◌∷◌, str_eq, filter, if◌then◌else◌, arith, Bool-cases, leb,
}
use conference_operator.Ingest.Project.{
  Report, HubPayload, recording_started, recording_stopped, ObsInstance,
}
use conference_operator.Ingest.{sort_by_seq, insert_by_seq, Hub}
use conference_operator.Ingest.Sort.{Ascends, sort_by_seq-Ascends}
use conference_operator.Ingest.Takes.{
  RawCapture, same_obs, Pairing, superseded, closed_by, started_take, lone_stop, supersede,
  take_start, pair_payload, pair_takes, is_take, capture_row, nothing_open, captations,
}
use conference_operator.Ingest.Takes.Pairs.{
  bit, count, count-append, count-change_at, rolls, OpenAt, IsPairing,
}
use conference_operator.Ingest.Takes.Matches.{
  pair_payload-IsPairing, pair_takes-IsPairing, stopped_take, take_stop_lem, same_obs_eq,
}

-- Whether the last word of an instance is a start.
abbrev heard : ObsInstance → HubPayload → Bool → Bool
heard o (recording_started obs session_id) b = if same_obs o obs then true else b
heard o (recording_stopped obs session_id file duration_ms sidecar) b =
    if same_obs o obs then false else b
heard o _ b = b

abbrev pub last_word : ObsInstance → List Report → Bool → Bool
last_word o [] b = b
last_word o (e ∷ rows) b = last_word o rows (heard o e.payload b)

opened-stopped_take :
    (place : Option ℕ) (obs o : ObsInstance) (c : RawCapture) (f : RawCapture → RawCapture)
    (s : Pairing)
    → s.opened obs ≡ place
    → is_some ((stopped_take place obs c f s).opened o)
      ≡ (if same_obs o obs then false else is_some (s.opened o))
unfolding stopped_take
opened-stopped_take none obs o c f s e = elim (Bool-cases (same_obs o obs)) [
  | inl same ↦ rw (same, same_obs_eq o obs same, e) refl
  | inr other ↦ rw other refl
]
opened-stopped_take (some i) obs o c f s e = elim (Bool-cases (same_obs o obs)) [
  | inl same ↦ rw same refl
  | inr other ↦ rw other refl
]

opened-pair_payload :
    (room_id : String) (at : ℕ) (payload : HubPayload) (s : Pairing) (o : ObsInstance)
    → is_some ((pair_payload room_id at payload s).opened o)
      ≡ heard o payload (is_some (s.opened o))
unfolding take_start
opened-pair_payload room_id at payload s o =
    elim payload
      as (λ p.
        is_some ((pair_payload room_id at p s).opened o) ≡ heard o p (is_some (s.opened o))) [
          | recording_started obs session_id ↦ ground arith
          | recording_stopped obs session_id file duration_ms sidecar ↦
              rw (take_stop_lem room_id obs session_id file duration_ms sidecar at s)
                (opened-stopped_take (s.opened obs) obs o _ _ s refl)
          | _ ↦ refl
        ]

pair_takes-opened :
    (room_id : String) (rows : List Report) (s : Pairing) (o : ObsInstance)
    → is_some ((pair_takes room_id rows s).opened o) ≡ last_word o rows (is_some (s.opened o))
unfolding pair_takes
pair_takes-opened room_id [] s o = refl
pair_takes-opened room_id (e ∷ rows) s o =
    pair_takes-opened room_id rows _ o
    ∙ ap (last_word o rows) (opened-pair_payload room_id e.occurred_at e.payload s o)

OpenAt-count :
    (captures : List RawCapture) (o : ObsInstance) (place : Option ℕ)
    → OpenAt captures o place
    → count (rolls o) captures ≡ bit (is_some place)
OpenAt-count captures o none v = v
OpenAt-count captures o (some i) v = v.0

abbrev pub rows_of : String → Hub → List Report
rows_of room_id hub = sort_by_seq (filter (capture_row room_id) hub.events)

nothing_open-IsPairing : IsPairing nothing_open
nothing_open-IsPairing o = refl

-- The events of a room are read in the order of emission, by ascending sequence; and an instance of
-- the room has one running take when its last start has no stop after it in that order, and none
-- otherwise.
pub captations-running :
    (room_id : String) (hub : Hub) (o : ObsInstance)
    → Ascends (rows_of room_id hub)
      × (count (rolls o) (captations room_id hub) ≡ bit (last_word o (rows_of room_id hub) false))
unfolding captations
captations-running room_id hub o =
    let rows = rows_of room_id hub in
    (
      sort_by_seq-Ascends (filter (capture_row room_id) hub.events),
      OpenAt-count _ o _ (pair_takes-IsPairing room_id rows nothing_open nothing_open-IsPairing o)
          ∙ ap bit (pair_takes-opened room_id rows nothing_open o),
    )

abbrev pub has_file : String → RawCapture → Bool
has_file f c = elim c.file [ none ↦ false | some g ↦ str_eq g f ]

abbrev pub is_stop_with : String → HubPayload → Bool
is_stop_with f (recording_stopped obs session_id (some g) duration_ms sidecar) = str_eq g f
is_stop_with f _ = false

supersede-files :
    (f : String) (captures : List RawCapture) (o : ObsInstance) (place : Option ℕ)
    → OpenAt captures o place
    → count (has_file f) (supersede place captures) ≡ count (has_file f) captures
supersede-files f captures o none v = refl
supersede-files f captures o (some i) (one, c, at, running, empty) =
    omega (arith, count-change_at (has_file f) superseded captures i c at)

stopped_take-files :
    (f : String) (room_id : String) (obs : ObsInstance) (session_id file : Option String)
    (duration_ms : ℕ) (sidecar : Bool) (at : ℕ) (s : Pairing) (place : Option ℕ)
    → OpenAt s.captures obs place
    → count
        (has_file f)
        (stopped_take place obs
          (lone_stop room_id obs session_id at file duration_ms sidecar)
          (closed_by at session_id file duration_ms sidecar)
          s).captures
      ≡ count (has_file f) s.captures
        + bit (is_stop_with f (recording_stopped obs session_id file duration_ms sidecar))
unfolding stopped_take
stopped_take-files f room_id obs session_id none duration_ms sidecar at s none v = omega (
  arith,
  count-append (has_file f) s.captures
      (lone_stop room_id obs session_id at none duration_ms sidecar ∷ []),
)
stopped_take-files f room_id obs session_id (some g) duration_ms sidecar at s none v = omega (
  arith,
  count-append (has_file f) s.captures
      (lone_stop room_id obs session_id at (some g) duration_ms sidecar ∷ []),
)
stopped_take-files f room_id obs session_id none duration_ms sidecar at s (some i)
      (one, c, place, running, empty) =
    let unset : has_file f c ≡ false = rw empty refl in
    omega (
      arith,
      ap bit unset,
      count-change_at (has_file f) (closed_by at session_id none duration_ms sidecar) s.captures i c
          place,
    )
stopped_take-files f room_id obs session_id (some g) duration_ms sidecar at s (some i)
      (one, c, place, running, empty) =
    let unset : has_file f c ≡ false = rw empty refl in
    omega (
      arith,
      ap bit unset,
      count-change_at (has_file f) (closed_by at session_id (some g) duration_ms sidecar) s.captures
          i c place,
    )

pair_payload-files :
    (f room_id : String) (at : ℕ) (payload : HubPayload) (s : Pairing)
    → IsPairing s
    → count (has_file f) (pair_payload room_id at payload s).captures
      ≡ count (has_file f) s.captures + bit (is_stop_with f payload)
unfolding take_start
pair_payload-files f room_id at payload s v =
    elim payload
      as (λ p.
        count (has_file f) (pair_payload room_id at p s).captures
        ≡ count (has_file f) s.captures + bit (is_stop_with f p)) [
          | recording_started obs session_id ↦ omega (
            arith,
            supersede-files f s.captures obs (s.opened obs) (v obs),
            count-append (has_file f) (supersede (s.opened obs) s.captures)
                (started_take room_id obs session_id at ∷ []),
          )
          | recording_stopped obs session_id file duration_ms sidecar ↦
              rw (take_stop_lem room_id obs session_id file duration_ms sidecar at s) (
                stopped_take-files f room_id obs session_id file duration_ms sidecar at s
                  (s.opened obs) (v obs))
          | _ ↦ omega arith
        ]

pair_takes-files :
    (f room_id : String) (rows : List Report) (s : Pairing)
    → IsPairing s
    → count (has_file f) (pair_takes room_id rows s).captures
      ≡ count (has_file f) s.captures + count (λ e. is_stop_with f e.payload) rows
unfolding pair_takes
pair_takes-files f room_id [] s v = omega arith
pair_takes-files f room_id (e ∷ rows) s v = omega (
  arith,
  pair_takes-files f room_id rows _ (pair_payload-IsPairing room_id e.occurred_at e.payload s v),
  pair_payload-files f room_id e.occurred_at e.payload s v,
)

count-insert_by_seq :
    (test : Report → Bool) (e : Report) (rows : List Report)
    → count test (insert_by_seq e rows) ≡ bit (test e) + count test rows
unfolding insert_by_seq
count-insert_by_seq test e [] = omega arith
count-insert_by_seq test e (r ∷ rows) = elim (Bool-cases (leb e.seq r.seq)) [
  | inl sooner ↦ rw sooner refl
  | inr later ↦ rw later (omega (arith, count-insert_by_seq test e rows))
]

count-sort_by_seq :
    (test : Report → Bool) (rows : List Report) → count test (sort_by_seq rows) ≡ count test rows
unfolding sort_by_seq
count-sort_by_seq test [] = refl
count-sort_by_seq test (e ∷ rows) =
    omega (arith, count-insert_by_seq test e (sort_by_seq rows), count-sort_by_seq test rows)

is_stop_with-false :
    (f : String) (payload : HubPayload) → is_take payload ≡ false → is_stop_with f payload ≡ false
is_stop_with-false f payload h =
    elim payload as (λ p. is_take p ≡ false → is_stop_with f p ≡ false) [
      | recording_stopped obs session_id file duration_ms sidecar ↦ λ k. cc
      | _ ↦ λ k. refl
    ]
      h

count-filter_stops :
    (f room_id : String) (rows : List Report)
    → count (λ e. is_stop_with f e.payload) (filter (capture_row room_id) rows)
      ≡ count (λ e. str_eq e.room_id room_id && is_stop_with f e.payload) rows
count-filter_stops f room_id [] = refl
count-filter_stops f room_id (e ∷ rows) = elim (Bool-cases (str_eq e.room_id room_id)) [
  | inl ours ↦ elim (Bool-cases (is_take e.payload)) [
    | inl kept ↦ rw (ours, kept) (omega (arith, count-filter_stops f room_id rows))
    | inr left ↦
        rw (ours, left, is_stop_with-false f e.payload left)
          (omega (arith, count-filter_stops f room_id rows))
  ]
  | inr other ↦ rw other (omega (arith, count-filter_stops f room_id rows))
]

-- A file is shown once for each stop of the room in the log that tells it: no file is lost, not even
-- that of a stop without its start, and none is shown twice.
pub captations-files :
    (f room_id : String) (hub : Hub)
    → count (has_file f) (captations room_id hub)
      ≡ count (λ e. str_eq e.room_id room_id && is_stop_with f e.payload) hub.events
unfolding captations
captations-files f room_id hub = omega (
  arith,
  pair_takes-files f room_id (rows_of room_id hub) nothing_open nothing_open-IsPairing,
  count-sort_by_seq (λ e. is_stop_with f e.payload) (filter (capture_row room_id) hub.events),
  count-filter_stops f room_id hub.events,
)
