-- ===== src/Tests/Decisions.antt =====
-- The decisions on the talks and the sweep, at small examples.
use conference_operator.Common.{◌≡◌, arith, refl, String, true, none, some, is_some, List, [], ◌∷◌}
use conference_operator.Common.Maps.{get}
use conference_operator.Schedule.{talk}
use conference_operator.Lifecycle.{running, ended, end}
use conference_operator.Sessions.{
  SessionState, SessionService, ProgramSession, HubSettings, write, start_talk, end_talk, state_of,
  sweep,
}
use conference_operator.Sessions.Gestures.{IsWritten, write-IsWritten, start_talk-end_talk}
use conference_operator.Sessions.Due.{IsDue, sweep-IsDue}

abbrev no_decision : SessionService
no_decision = record { rows = []; changed = [] }

written_example :
    IsWritten 1000 "t1"
      (some "r1")
      end
      "regie"
      no_decision
      (write 1000 "t1" (some "r1") end "regie" no_decision).0
      (write 1000 "t1" (some "r1") end "regie" no_decision).1
written_example = write-IsWritten 1000 "t1" (some "r1") end "regie" no_decision

kept_example :
    state_of 2000 "t1"
      (end_talk 2000 "t1"
        (some "r1")
        "auto"
        (start_talk 1000 "t1" (some "r1") "regie" no_decision).0).0
    ≡ some (record {
      room_id = some "r1";
      status = ended;
      started_at = some 1000;
      ended_at = some 2000;
      decided_by = "auto";
    })
kept_example =
    start_talk-end_talk 1000 2000 "t1" (some "r1") "regie" "auto" no_decision refl (omega arith)

abbrev under_way : SessionService
under_way = record {
  rows =
      (
        "t1",
        record {
          room_id = some "r1";
          status = running;
          started_at = some 0;
          ended_at = none;
          decided_by = "regie";
        },
      )
      ∷ [];
  changed = [];
}

abbrev one_talk : List ProgramSession
one_talk =
    record {
      slot = record {
        id = "t1";
        kind = talk;
        starts_at_ms = 0;
        ends_at_ms = some 600000;
        duration_minutes = none;
      };
      room_id = some "r1";
    }
    ∷ []

abbrev five_minutes : HubSettings
five_minutes = record { auto_end_enabled = true; auto_end_grace_minutes = 5 }

sweep_example :
    (is_some (sweep 1000000 five_minutes (some one_talk) [] under_way).1 ≡ true)
    × ((id : String) (state : SessionState)
        → get id under_way.rows ≡ some state
        → (IsDue 1000000 five_minutes one_talk [] id state
            → get id (sweep 1000000 five_minutes (some one_talk) [] under_way).0.rows
              ≡ some (record {
                room_id = state.room_id;
                status = ended;
                started_at = state.started_at;
                ended_at = some 1000000;
                decided_by = "auto";
              }))
          × (¬ IsDue 1000000 five_minutes one_talk [] id state
              → get id (sweep 1000000 five_minutes (some one_talk) [] under_way).0.rows
                ≡ some state))
    × ((id : String)
        → get id under_way.rows ≡ none
        → get id (sweep 1000000 five_minutes (some one_talk) [] under_way).0.rows ≡ none)
sweep_example = sweep-IsDue 1000000 five_minutes one_talk [] under_way (tt, tt) refl
