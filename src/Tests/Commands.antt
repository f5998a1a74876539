-- ===== src/Tests/Commands.antt =====
-- A flow of commands to a room: one published before it opens, one before it reads the backlog.
use conference_operator.Common.{◌≡◌, refl, arith, none, some, List, [], ◌∷◌, ◌++◌}
use conference_operator.Command.{
  CommandPayload, other_payload, Command, Dispatched, Bus, dispatched, insert, backlog_after, Flow,
  subscribe, emit, read_backlog, yield_pending, deliver, last_seq,
}
use conference_operator.Command.Steps.{
  IsTable, publishes, reads, yields, delivers, Reach, opened, next,
}
use conference_operator.Command.Stream.{yielded-prefix, yielded_complete}

abbrev reload : Command
reload = record {
  seq = 1;
  issued_at = 1000;
  ttl_seconds = none;
  payload = other_payload "program.invalidate" "";
}

abbrev for_all : Dispatched
for_all = record { room_id = none; command = reload }

abbrev bus : Bus
bus = record { rows = for_all ∷ []; next_seq = 2 }

bus-IsTable : IsTable bus
bus-IsTable = record { ascending = (tt, tt); below = (omega arith, tt) }

abbrev pins : CommandPayload
pins = other_payload "room.pins" ""

-- The hub publishes between the subscription and the reading of the backlog.
abbrev busy : Bus
busy = insert (dispatched (some "r1") pins none 2000 bus) bus

abbrev waiting : Flow
waiting = emit (dispatched (some "r1") pins none 2000 bus) (subscribe 0)

abbrev pushed : Dispatched
pushed = dispatched (some "r1") pins none 2000 bus

abbrev finished_flow : Flow
finished_flow = deliver "r1" pushed [] (
    yield_pending pushed.command []
      (yield_pending reload (pushed.command ∷ []) (read_backlog "r1" 0 busy waiting)))

flow-Reach : Reach "r1" 0 bus busy finished_flow
unfolding subscribe emit insert dispatched read_backlog backlog_after yield_pending deliver
flow-Reach =
    next
      (next
        (next
          (next (next opened (publishes bus (subscribe 0) (some "r1") pins none 2000))
            (reads busy waiting refl))
          (yields busy (read_backlog "r1" 0 busy waiting) reload (pushed.command ∷ []) refl refl))
        (yields busy (yield_pending reload (pushed.command ∷ []) (read_backlog "r1" 0 busy waiting))
          pushed.command [] refl refl))
      (delivers busy
        (yield_pending pushed.command []
          (yield_pending reload (pushed.command ∷ []) (read_backlog "r1" 0 busy waiting)))
        pushed [] refl refl refl)

prefix_example : (rest : List Command) × (finished_flow.yielded ++ rest ≡ backlog_after "r1" 0 busy)
prefix_example = yielded-prefix "r1" 0 bus-IsTable flow-Reach

complete_example : finished_flow.yielded ≡ backlog_after "r1" 0 busy
unfolding subscribe emit insert dispatched read_backlog backlog_after yield_pending deliver
complete_example = yielded_complete "r1" 0 bus-IsTable flow-Reach refl refl refl

complete_run : finished_flow.yielded ≡ reload ∷ pushed.command ∷ []
unfolding subscribe emit insert dispatched read_backlog backlog_after yield_pending deliver
complete_run = refl

last_run : last_seq busy ≡ 2
unfolding last_seq insert dispatched
last_run = refl
