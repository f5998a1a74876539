-- ===== src/Command.antt =====
-- apps/hub-server/src/services/commands.ts: the commands the hub sends down to the rooms, over the
-- table `command` of packages/db/src/hub/schema.ts, whose rows are a list in the order of its key
-- `seq`, and the flow of one room. The key is given by the database, one above the last.
pub mod Steps
pub mod Tracking
pub mod Stream
use conference_operator.Common.{
  ℕ, ◌+◌, ◌*◌, String, Bool, true, false, not, ◌&&◌, ◌||◌, Option, none, some, List, [], ◌∷◌, ◌++◌,
  str_eq, leb, ltb, filter, map, take, if◌then◌else◌,
}

-- The payloads that the bus itself reads; the others are their type and their text.
pub data CommandPayload : Type 0 where
  message_broadcast : Option String → Option String → CommandPayload
  overlay_set : Option (String × String) → CommandPayload
  other_payload : String → String → CommandPayload

pub record Command : Type 0 where
  pub seq : ℕ
  pub issued_at : ℕ
  pub ttl_seconds : Option ℕ
  pub payload : CommandPayload

-- A command with its target, in the table as on the channel.
pub record Dispatched : Type 0 where
  pub room_id : Option String
  pub command : Command

pub record Bus : Type 0 where
  pub rows : List Dispatched
  pub next_seq : ℕ

-- `target == null || target === roomId`
abbrev pub is_for : String → Dispatched → Bool
is_for room_id d = elim d.room_id [ none ↦ true | some target ↦ str_eq target room_id ]

-- The row that `publish` inserts.
unfoldable pub dispatched : Option String → CommandPayload → Option ℕ → ℕ → Bus → Dispatched
dispatched room_id payload ttl_seconds now_ms b = record {
  room_id = room_id;
  command = record {
    seq = b.next_seq;
    issued_at = now_ms;
    ttl_seconds = ttl_seconds;
    payload = payload;
  };
}

unfoldable pub insert : Dispatched → Bus → Bus
insert d b = record { rows = b.rows ++ (d ∷ []); next_seq = b.next_seq + 1 }

unfoldable pub reversed : List Dispatched → List Dispatched
reversed [] = []
reversed (d ∷ ds) = reversed ds ++ (d ∷ [])

unfoldable pub last_seq : Bus → ℕ
unfolding reversed
last_seq b = elim (reversed b.rows) [ [] ↦ 0 | d ∷ ds ↦ d.command.seq ]

-- `set.add(text)`
abbrev add_text : List String → String → List String
add_text [] text = text ∷ []
add_text (t ∷ texts) text =
    let rest = add_text texts text in if str_eq t text then t ∷ texts else t ∷ rest

abbrev is_event_wide : Dispatched → Bool
is_event_wide d = elim d.room_id [
  | some target ↦ false
  | none ↦ elim d.command.payload [
    | message_broadcast text target ↦ true
    | overlay_set message ↦ false
    | other_payload type body ↦ false
  ]
]

abbrev is_audience : Option String → Bool
is_audience none = false
is_audience (some target) = str_eq target "audience"

abbrev wide_text : CommandPayload → List String → List String
wide_text (message_broadcast none target) texts = texts
wide_text (message_broadcast (some text) target) texts =
    if is_audience target then add_text texts text else texts
wide_text _ texts = texts

abbrev collect_texts : List Dispatched → List String → List String
collect_texts [] texts = texts
collect_texts (d ∷ ds) texts = collect_texts ds (wide_text d.command.payload texts)

unfoldable pub event_wide_texts : ℕ → Bus → List String
unfolding reversed
event_wide_texts limit b = collect_texts (take limit (filter is_event_wide (reversed b.rows))) []

abbrev is_overlay : CommandPayload → Bool
is_overlay (overlay_set message) = true
is_overlay _ = false

abbrev is_wanted : Option String → Dispatched → Bool
is_wanted none d = true
is_wanted (some room_id) d = is_for room_id d

unfoldable pub past_banners : Option String → ℕ → Bus → List Dispatched
unfolding reversed
past_banners room_id limit b =
    filter (is_wanted room_id)
      (take (limit * 2) (filter (λ d. is_overlay d.command.payload) (reversed b.rows)))

-- The commands of a list that are for this room and after `since_seq`.
abbrev pub picked : String → ℕ → List Dispatched → List Command
picked room_id since_seq ds =
    map (λ d. d.command) (filter (λ d. is_for room_id d && ltb since_seq d.command.seq) ds)

unfoldable pub backlog_after : String → ℕ → Bus → List Command
backlog_after room_id since_seq b = picked room_id since_seq b.rows

-- The generator of `stream`: its variable `lastSeq`, what is left of its first loop, the events
-- that the emitter keeps for it, and what it has yielded. `caught_up` once the backlog is read.
pub record Flow : Type 0 where
  pub last_seq : ℕ
  pub caught_up : Bool
  pub pending : List Command
  pub live : List Dispatched
  pub yielded : List Command

unfoldable pub subscribe : ℕ → Flow
subscribe since_seq = record {
  last_seq = since_seq;
  caught_up = false;
  pending = [];
  live = [];
  yielded = [];
}

unfoldable pub emit : Dispatched → Flow → Flow
emit d f = record f { live = f.live ++ (d ∷ []) }

unfoldable pub read_backlog : String → ℕ → Bus → Flow → Flow
unfolding backlog_after
read_backlog room_id since_seq b f = record f {
  caught_up = true;
  pending = backlog_after room_id since_seq b;
}

-- One turn of the first loop.
unfoldable pub yield_pending : Command → List Command → Flow → Flow
yield_pending c rest f = record f {
  last_seq = c.seq;
  pending = rest;
  yielded = f.yielded ++ (c ∷ []);
}

-- One turn of the second loop.
unfoldable pub deliver : String → Dispatched → List Dispatched → Flow → Flow
deliver room_id d rest f =
    if not (is_for room_id d)
    then record f { live = rest }
    else if leb d.command.seq f.last_seq
    then record f { live = rest }
    else record f { live = rest; last_seq = d.command.seq; yielded = f.yielded ++ (d.command ∷ []) }
