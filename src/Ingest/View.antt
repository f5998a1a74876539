-- ===== src/Ingest/View.antt =====
-- The supervision view of a room after a batch, in apps/hub-server/src/services/ingest.ts.
use conference_operator.Common.{
  ℕ, ◌≤◌, max, ◌≡◌, inl, inr, refl, ap, is_some, In, ◌∙◌, String, Bool, true, false, Option, none,
  some, or_else, List, [], ◌∷◌, arith, Option-cases,
}
use conference_operator.Common.Maps.{get, get-set}
use conference_operator.Ingest.Project.{
  Report, Column, Cell, RoomState, default_cell, fresh_state, projection_for, project,
  apply_to_room_state,
}
use conference_operator.Ingest.Sort.{
  last_writer, last_writer-writes, last_writer-sort, IsLastWriter,
}
use conference_operator.Ingest.{
  Candidate, RejectionReason, Hub, valid_of, rejected_of, sort_by_seq, apply_states, note_outcome,
  note_outcomes, notify, newer_outcome, reported_outcome, push_valid, push_from, push, apply_batch,
}

abbrev cell_in : Column → Option RoomState → Cell
cell_in c none = default_cell c
cell_in c (some row) = row.cell c

-- What a watcher reads of a room in a column.
abbrev pub cell_of : String → Column → List (String × RoomState) → Cell
cell_of room_id c states = cell_in c (get room_id states)

abbrev seq_in : Option RoomState → ℕ
seq_in none = 0
seq_in (some row) = row.last_seq

abbrev pub seq_of : String → List (String × RoomState) → ℕ
seq_of room_id states = seq_in (get room_id states)

-- Whether an event writes a column.
abbrev pub writes : ℕ → Column → Report → Bool
writes now_ms c e = is_some (projection_for now_ms e.payload c)

apply_to_room_state-get :
    (now_ms : ℕ) (room_id : String) (e : Report) (states : List (String × RoomState))
    → get room_id (apply_to_room_state now_ms room_id e states)
      ≡ some (project now_ms e (or_else (get room_id states) fresh_state))
unfolding apply_to_room_state
apply_to_room_state-get now_ms room_id e states = get-set room_id _ states

apply_to_room_state-cell_of :
    (now_ms : ℕ) (room_id : String) (e : Report) (c : Column) (states : List (String × RoomState))
    → cell_of room_id c (apply_to_room_state now_ms room_id e states)
      ≡ or_else (projection_for now_ms e.payload c) (cell_of room_id c states)
unfolding project
apply_to_room_state-cell_of now_ms room_id e c states =
    ap (cell_in c) (apply_to_room_state-get now_ms room_id e states)
    ∙ elim (get room_id states)
        as (λ row.
          cell_in c (some (project now_ms e (or_else row fresh_state)))
          ≡ or_else (projection_for now_ms e.payload c) (cell_in c row)) [
            | none ↦ refl
            | some row ↦ refl
          ]

apply_to_room_state-seq_of :
    (now_ms : ℕ) (room_id : String) (e : Report) (states : List (String × RoomState))
    → seq_of room_id (apply_to_room_state now_ms room_id e states)
      ≡ max (seq_of room_id states) e.seq
unfolding project
apply_to_room_state-seq_of now_ms room_id e states =
    ap seq_in (apply_to_room_state-get now_ms room_id e states)
    ∙ elim (get room_id states)
        as (λ row.
          seq_in (some (project now_ms e (or_else row fresh_state))) ≡ max (seq_in row) e.seq) [
            | none ↦ refl
            | some row ↦ refl
          ]

-- A column once its last writer has written it.
abbrev pub written_by : ℕ → Column → Option Report → Cell → Cell
written_by now_ms c none before = before
written_by now_ms c (some e) before = or_else (projection_for now_ms e.payload c) before

pub written_by_any :
    (now_ms : ℕ) (c : Column) (e : Report) (a b : Cell)
    → writes now_ms c e ≡ true
    → written_by now_ms c (some e) a ≡ written_by now_ms c (some e) b
written_by_any now_ms c e a b h = elim (Option-cases (projection_for now_ms e.payload c)) [
  | inl silent ↦ absurd (ground arith)
  | inr (v, told) ↦ rw told refl
]

apply_states-cell_of :
    (now_ms : ℕ) (room_id : String) (es : List Report) (c : Column)
    (states : List (String × RoomState))
    → cell_of room_id c (apply_states now_ms room_id es states)
      ≡ written_by now_ms c (last_writer (writes now_ms c) es) (cell_of room_id c states)
unfolding apply_states
apply_states-cell_of now_ms room_id [] c states = refl
apply_states-cell_of now_ms room_id (e ∷ es) c states =
    let rest =
      apply_states-cell_of now_ms room_id es c (apply_to_room_state now_ms room_id e states) in
    let one = apply_to_room_state-cell_of now_ms room_id e c states in
    elim (Option-cases (last_writer (writes now_ms c) es)) [
      | inl silent ↦ elim (Option-cases (projection_for now_ms e.payload c)) [
        | inl idle ↦ rest ∙ rw (silent, idle) (one ∙ rw idle refl)
        | inr (v, told) ↦ rest ∙ rw (silent, told) (one ∙ rw told refl)
      ]
      | inr (g, later) ↦
          rest
          ∙ rw later
              (written_by_any now_ms c g _ _ (last_writer-writes (writes now_ms c) es g later))
    ]

apply_states-seq_of :
    (now_ms : ℕ) (room_id : String) (es : List Report) (states : List (String × RoomState))
    → seq_of room_id states ≤ seq_of room_id (apply_states now_ms room_id es states)
unfolding apply_states
apply_states-seq_of now_ms room_id [] states = omega arith
apply_states-seq_of now_ms room_id (e ∷ es) states = omega (
  arith,
  apply_states-seq_of now_ms room_id es (apply_to_room_state now_ms room_id e states),
  apply_to_room_state-seq_of now_ms room_id e states,
)

note_outcome-states :
    (room_id : String) (e : Report) (hub : Hub) → (note_outcome room_id e hub).states ≡ hub.states
note_outcome-states room_id e hub =
    elim (Option-cases (newer_outcome (get room_id hub.outcomes) (reported_outcome e.payload))) [
      | inl old ↦ rw (old, note_outcome) refl
      | inr (o, new) ↦ rw (new, note_outcome) refl
    ]

note_outcomes-states :
    (room_id : String) (valid : List Report) (hub : Hub)
    → (note_outcomes room_id valid hub).states ≡ hub.states
unfolding note_outcomes
note_outcomes-states room_id [] hub = refl
note_outcomes-states room_id (e ∷ valid) hub =
    note_outcomes-states room_id valid (note_outcome room_id e hub)
    ∙ note_outcome-states room_id e hub

notify-states :
    (test : Bool) (room_id : String) (hub : Hub) → (notify test room_id hub).states ≡ hub.states
notify-states true room_id hub = refl
notify-states false room_id hub = refl

push_from-states :
    (now_ms : ℕ) (room_id : String) (rejected : List (String × RejectionReason))
    (valid : List Report) (hub : Hub)
    → (push_from now_ms room_id rejected valid hub).0.states
      ≡ apply_states now_ms room_id (sort_by_seq valid) hub.states
unfolding push_from push_valid apply_batch sort_by_seq apply_states
push_from-states now_ms room_id rejected [] hub = refl
push_from-states now_ms room_id rejected (e ∷ rest) hub =
    notify-states _ room_id _
    ∙ ap (apply_states now_ms room_id (sort_by_seq (e ∷ rest)))
        (note_outcomes-states room_id (e ∷ rest) hub)

-- What the events that a batch may report make of a column, from `before` to `after`: nothing, when
-- none writes it, or what the event with the highest sequence of those that write it gives.
pub data IsShown (now_ms : ℕ) (c : Column) (valid : List Report) (before after : Cell)
    : Type 0 where
  untouched :
      ((e : Report) → In e valid → projection_for now_ms e.payload c ≡ none)
      → after ≡ before
      → IsShown now_ms c valid before after
  written :
      (e : Report)
      → IsLastWriter (writes now_ms c) valid e
      → projection_for now_ms e.payload c ≡ some after
      → IsShown now_ms c valid before after

written_by-IsShown :
    (now_ms : ℕ) (c : Column) (valid : List Report) (before after : Cell)
    → after ≡ written_by now_ms c (last_writer (writes now_ms c) (sort_by_seq valid)) before
    → IsShown now_ms c valid before after
written_by-IsShown now_ms c valid before after h = elim (last_writer-sort (writes now_ms c) valid) [
  | inl (silent, nobody) ↦ untouched (λ e m. silent_none e (nobody e m)) (h ∙ rw silent refl)
  | inr (e, found, last) ↦ elim (Option-cases (projection_for now_ms e.payload c)) [
    | inl mute ↦ let w = last.writer in absurd (ground arith)
    | inr (v, told) ↦
        let shown : after ≡ v = h ∙ rw (found, told) refl in written e last (rw shown told)
  ]
]
  where
    silent_none :
        (e : Report) → writes now_ms c e ≡ false → projection_for now_ms e.payload c ≡ none
    silent_none e f = elim (Option-cases (projection_for now_ms e.payload c)) [
      | inl mute ↦ mute
      | inr (v, told) ↦ absurd (ground arith)
    ]

pub push-written_by :
    (now_ms : ℕ) (room_id : String) (batch : List Candidate) (hub : Hub) (c : Column)
    → cell_of room_id c (push now_ms room_id batch hub).0.states
      ≡ written_by now_ms c
          (last_writer (writes now_ms c) (sort_by_seq (valid_of room_id batch)))
          (cell_of room_id c hub.states)
unfolding push
push-written_by now_ms room_id batch hub c =
    ap (cell_of room_id c)
      (push_from-states now_ms room_id (rejected_of room_id batch) (valid_of room_id batch) hub)
    ∙ apply_states-cell_of now_ms room_id (sort_by_seq (valid_of room_id batch)) c hub.states

-- A column of the room's view is what the event of the batch with the highest sequence among those
-- that write it gives, the last of them in the batch where several have that sequence, duplicates
-- included, and is left alone when none writes it. The sequence of the row never goes back.
pub push-IsShown :
    (now_ms : ℕ) (room_id : String) (batch : List Candidate) (hub : Hub) (c : Column)
    → IsShown now_ms c
        (valid_of room_id batch)
        (cell_of room_id c hub.states)
        (cell_of room_id c (push now_ms room_id batch hub).0.states)
      × (seq_of room_id hub.states ≤ seq_of room_id (push now_ms room_id batch hub).0.states)
unfolding push
push-IsShown now_ms room_id batch hub c =
    let same =
      push_from-states now_ms room_id (rejected_of room_id batch) (valid_of room_id batch) hub in
    (
      written_by-IsShown now_ms c (valid_of room_id batch) _ _
          (push-written_by now_ms room_id batch hub c),
      rw same
          (apply_states-seq_of now_ms room_id (sort_by_seq (valid_of room_id batch)) hub.states),
    )
