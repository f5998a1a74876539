-- ===== src/Tests/Day.antt =====
-- A morning of one room, at small instants: a talk, lunch, and a talk.
use conference_operator.Common.{String, Option, none, some, List, [], ◌∷◌, str_eq, if◌then◌else◌}
use conference_operator.Schedule.{Slot, talk, break}
use conference_operator.Lifecycle.{SessionStatus, running}

abbrev pub opening : Slot
opening = record {
  id = "t1";
  kind = talk;
  starts_at_ms = 1000000;
  ends_at_ms = some 2000000;
  duration_minutes = none;
}

abbrev pub lunch : Slot
lunch = record {
  id = "b1";
  kind = break;
  starts_at_ms = 2000000;
  ends_at_ms = none;
  duration_minutes = none;
}

abbrev pub closing : Slot
closing = record {
  id = "t2";
  kind = talk;
  starts_at_ms = 4000000;
  ends_at_ms = none;
  duration_minutes = some 10;
}

abbrev pub day : List Slot
day = opening ∷ lunch ∷ closing ∷ []

-- Nobody did anything.
abbrev pub untouched : String → Option SessionStatus
untouched id = none

-- The first talk was started, and not ended.
abbrev pub opened : String → Option SessionStatus
opened id = if str_eq id "t1" then some running else none
