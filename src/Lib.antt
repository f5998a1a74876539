-- ===== src/Lib.antt =====
-- Verification of the conference control library: a hub drives the rooms of an event, each room runs
-- on its own machine, records its talks, and must neither lose what it has to tell the hub nor
-- mistake where it stands in its day.
--
-- The parts and how they interact
--   packages/program/src/selectors.ts places an instant in the day of a room (Schedule).
--   packages/room-state/src/lifecycle.ts gives the statuses of a talk and its gestures (Lifecycle).
--   packages/room-state/src/state.ts reads both, with the talk forced by hand, into the state of the
--   room, the talk to drive, the break to announce and the automatic end (Room).
--   packages/room-state/src/talk-flow.ts decides what to ask before a talk starts or ends, and in
--   what order its gestures are sent (TalkFlow).
--   packages/contract/src/events.ts lists what a room sends up (Event);
--   apps/room-client/src/core/outbox.ts keeps it in a durable queue (Outbox), which
--   apps/room-client/src/core/outbox-pump.ts drains to the hub (Pump).
--   apps/room-client/src/core/regulator.ts says when a room may upload its rushes (Regulator).
--   apps/room-client/src/core/audio-watchdog.ts says when a microphone does not come in (Watchdog).
--   The other way, apps/hub-server/src/services/commands.ts sends the hub's commands down, each room
--   reading what it missed and then what is published (Command).
--   On the hub, apps/hub-server/src/services/ingest.ts applies what the rooms send (Ingest);
--   Reporting puts the queue, the pump, the network and the ingestion together.
--   apps/hub-server/src/services/sessions.ts keeps the decisions on the talks and sweeps those that
--   are over (Sessions), over the lifecycle and the automatic end.
--   apps/hub-server/src/services/pins.ts forces a talk in a room and swaps the slots of two (Pins).
--   packages/program/src/shared-breaks.ts lends the breaks of one room to the free ones (Breaks), and
--   packages/contract/src/access.ts says what each group of operators may do (Access);
--   apps/hub-server/src/services/rate-limit.ts limits the calls of each caller (Limiter).
--   Once the takes are uploaded, apps/vod-montage/src/coupe.ts finds where to cut them (Cut),
--   and apps/hub-server/src/services/montage.ts hands the jobs to the workers (Montage),
--   whose reads from the hub apps/vod-montage/src/retry.ts tries again (Retry). On a room machine,
--   apps/room-client/src/core/interruptions.ts follows the outages of a stream (Outage), and
--   pairing.ts beside it polls the hub until it gives the machine its token (Pairing).
--
-- How state and operations correspond
--   A function of the source keeps its name in snake case. A class with a table is a record whose
--   rows are a list in the order of insertion; a method takes the state and returns it. The
--   Outbox of the source is the record Outbox, its table outbox the list rows, with the two
--   counters next_seq (a row of the store) and since_last_check. A pass of the pump is
--   drain_once: what it does before the request (claim), the request (an argument push), what the
--   rest of the room does to the queue meanwhile (an argument meanwhile), and what it does on the
--   answer or on the failure (settle). The pump's flags are a second record, Flags, over which the
--   interleavings of ticks, wake-ups, ends of requests, starts and stops are a step relation.
--   The flow of commands of a room is a generator: each of its turns is a function on the record Flow,
--   and the publications and the turns are a step relation. A tick of the capture watchdog is tick, in
--   three parts: begin, the loop judge_all over the inputs, conclude.
--   The ingestion keeps its tables in the record Hub. The row of a room is a function from its columns,
--   so that an event that leaves a column out leaves it alone; the events it inserts are a list in
--   the order of their insertion. A capture that the source holds twice, in its list and in its map of
--   open takes, stands in the list, and the map holds its place.
--   A call of the montage that waits for the storage is two functions, before and after the wait:
--   complete is complete_begin and complete_end. In its step relation a second half may come at any
--   moment, with anything it may have read before.
--   The source compares slots by reference: a slot is read here with its place in the list, and
--   two of them are the same when their places are.
--
-- Bounds, numbers and fuel
--   Every loop is over a list but those of with_retries and run_pairing, which the source bounds by a
--   test inside the loop and which run on fuel. Enough of it is proved to be seven turns for the
--   first, one more than the reads allowed, and for the second one turn for each second of the life of
--   the code and one more. Instants are milliseconds since the epoch as natural numbers; ISO texts of
--   one length are compared as the instants they write. Where the
--   source subtracts instants, the comparison is written with an addition, or the difference is a
--   signed integer. The floating numbers of the backoff and of the machine's load are exact
--   fractions: random() is a draw over 2 ^ 53, a share of the processor a number of thousandths, a
--   token of the limiter a million millionths, a level a number of thousandths of a decibel, with none
--   for the -Infinity of a digital silence.
--
-- What is given from outside
--   The clock, the ULID of an event, the random draws, the answer of the hub and the gestures that
--   the room executes are arguments. The theorems suppose of a ULID only that it is not one of
--   those in the queue, or in the table of jobs. What zod reads of an event is an argument: from the
--   queue to the log, the theorem supposes that the schema reads what the room writes, with its keys,
--   since the two sides share the schema. The storage of the montage is a record of operations.
--
-- What is not modelled
--   Screens, servers, ffmpeg, storage and database libraries, and the texts shown to operators, which
--   are input and output. The JSON body of an event is kept as text, since the queue does not read
--   it. The sign-in and the tokens of the hub, the recordings and their upload, the worker of the montage, the
--   import of the programme and the wall of words are components of their own and stand outside this
--   development. Of the parts modelled, the functions that only list rows or join texts for a screen
--   are left out, and so are tokens, which are hashed by a library. A failure of the local database,
--   which the pump of the source would meet as a failure of the request, is left out, and so is a row
--   of the queue that no longer reads as an envelope. The contract of ingest.push checks a whole batch
--   before the handler runs, so that an element is rejected on its own only in a direct call of push;
--   the foreign keys of the log are not modelled. The texts of the errors of a montage are left out,
--   with the count of failures in a row that one of them ends with.
--
-- The tree: each part has its definitions in the file of its name and its theorems in the files of
-- the folder of its name; Common holds the shared names and the lemmas on lists; Tests holds the
-- examples.
pub mod Common
pub mod Schedule
pub mod Pairing
pub mod Limiter
pub mod Access
pub mod Breaks
pub mod Lifecycle
pub mod Room
pub mod TalkFlow
pub mod Event
pub mod Outbox
pub mod Pump
pub mod Regulator
pub mod Command
pub mod Cut
pub mod Watchdog
pub mod Pins
pub mod Sessions
pub mod Outage
pub mod Retry
pub mod Montage
pub mod Ingest
pub mod Reporting
mod Tests
