-- ===== src/Breaks.antt =====
-- packages/program/src/shared-breaks.ts: the breaks of one room that the free rooms inherit. A session
-- of a list is read with the sessions that stand after it, where its next neighbour is found. How
-- `localeCompare` orders two identifiers is an argument.
pub mod Free
use conference_operator.Common.{
  ℕ, ◌<◌, ◌≤◌, String, Bool, true, false, not, ◌&&◌, ◌||◌, Option, none, some, List, [], ◌∷◌, ◌++◌,
  str_eq, filter, find?, leb, ltb, ◌==◌, length, map, if◌then◌else◌,
}
use Prim.Native.String
use mathlib.Core.Option
use conference_operator.Schedule.{Slot, SessionKind, talk, break, effective_end_ms}

pub record Session : Type 0 where
  pub slot : Slot
  pub room_id : Option String
  pub title : String
  pub shared_from : Option String

pub record Program : Type 0 where
  pub rooms : List String
  pub sessions : List Session

abbrev pub in_room : String → Session → Bool
in_room room_id s = elim s.room_id [ none ↦ false | some r ↦ str_eq r room_id ]

-- A session with its effective end in its room.
pub record Ended : Type 0 where
  pub session : Session
  pub end_ms : Option ℕ

abbrev next_of : Session → List Session → Option Slot
next_of s later = elim s.room_id [
  | none ↦ none
  | some room_id ↦ Option.map (λ (t : Session). t.slot) (find? (in_room room_id) later)
]

-- `endOf`, and `endAt` in the list of a room, for every session.
unfoldable pub with_ends : List Session → List Ended
unfolding effective_end_ms
with_ends [] = []
with_ends (s ∷ later) =
    record { session = s; end_ms = effective_end_ms s.slot (next_of s later) } ∷ with_ends later

abbrev pub overlaps : Ended → ℕ → ℕ → Bool
overlaps o start break_end = elim o.end_ms [
  | none ↦ ltb o.session.slot.starts_at_ms break_end
  | some end ↦ ltb o.session.slot.starts_at_ms break_end && ltb start end
]

-- Whether a session of the room touches the interval.
unfoldable pub taken : String → ℕ → ℕ → List Ended → Bool
taken room_id start break_end [] = false
taken room_id start break_end (o ∷ own) =
    (in_room room_id o.session && overlaps o start break_end) || taken room_id start break_end own

abbrev is_break : SessionKind → Bool
is_break break = true
is_break talk = false

abbrev pub is_room_break : Ended → Bool
is_room_break b =
    is_break b.session.slot.kind && (elim b.session.room_id [ none ↦ false | some r ↦ true ])

pub record SlotKey : Type 0 where
  pub start : ℕ
  pub end : ℕ
  pub title : String

abbrev same_key : SlotKey → SlotKey → Bool
same_key a b = a.start == b.start && (a.end == b.end && str_eq a.title b.title)

-- `seen.has(slot)`
abbrev pub has_seen : List SlotKey → SlotKey → Bool
has_seen [] k = false
has_seen (s ∷ seen) k = same_key s k || has_seen seen k

abbrev pub key_of : Ended → ℕ → SlotKey
key_of b end = record { start = b.session.slot.starts_at_ms; end = end; title = b.session.title }

abbrev pub copy_of : Ended → String → Session
copy_of b room_id = record b.session {
  slot = record b.session.slot { id = String.◌++◌ b.session.slot.id (String.◌++◌ "@" room_id) };
  room_id = some room_id;
  shared_from = some b.session.slot.id;
}

-- The loop over the breaks, for one room.
unfoldable pub inherit : String → List Ended → List Ended → List SlotKey → List Session
unfolding taken
inherit room_id all [] seen = []
inherit room_id all (b ∷ breaks) seen =
    let skipped = inherit room_id all breaks seen in
    elim b.end_ms [
      | none ↦ skipped
      | some end ↦
          let rest = inherit room_id all breaks (key_of b end ∷ seen) in
          if in_room room_id b.session
            || (has_seen seen (key_of b end) || taken room_id b.session.slot.starts_at_ms end all)
          then skipped
          else copy_of b room_id ∷ rest
    ]

-- The loop over the rooms.
unfoldable pub inherit_all : List String → List Ended → List Session
unfolding inherit
inherit_all [] all = []
inherit_all (room_id ∷ rooms) all =
    inherit room_id all (filter is_room_break all) [] ++ inherit_all rooms all

module _ (before : String → String → Bool) where
  abbrev sorts_before : Session → Session → Bool
  sorts_before a b =
      ltb a.slot.starts_at_ms b.slot.starts_at_ms
      || (a.slot.starts_at_ms == b.slot.starts_at_ms && before a.slot.id b.slot.id)

  -- A stable sort.
  unfoldable pub insert_session : Session → List Session → List Session
  insert_session s [] = s ∷ []
  insert_session s (t ∷ sessions) =
      let later = insert_session s sessions in
      if sorts_before s t then s ∷ t ∷ sessions else t ∷ later

  unfoldable pub sort_sessions : List Session → List Session
  unfolding insert_session
  sort_sessions [] = []
  sort_sessions (s ∷ sessions) = insert_session s (sort_sessions sessions)

  abbrev re_sorted : Program → List Session → Program
  re_sorted program [] = program
  re_sorted program (s ∷ added) = record program {
    sessions = sort_sessions (program.sessions ++ (s ∷ added));
  }

  unfoldable pub apply_shared_breaks : Program → Program
  unfolding with_ends inherit_all sort_sessions
  apply_shared_breaks program =
      let all = with_ends program.sessions in
      if leb (length (filter is_room_break all)) 0 || leb (length program.rooms) 1
      then program
      else re_sorted program (inherit_all program.rooms all)
