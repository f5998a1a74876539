-- ===== src/Pump/Single.antt =====
-- One drain at a time: the flags of apps/room-client/src/core/outbox-pump.ts under every order of
-- ticks, wake-ups, ends of drains, starts and stops.
use conference_operator.Common.{◌≤◌, ◌<◌, ◌≡◌, true, false, arith}
use conference_operator.Pump.{Flags, initial, pass, finished, wake, start, stop}

-- What can happen next. The interval ticks only while it is set, and a drain ends only if one is
-- in flight.
pub data Step : Flags → Flags → Type 0 where
  ticks : {f : Flags} → f.timer ≡ true → Step f (pass f)
  wakes : (f : Flags) → Step f (wake f)
  ends : {f : Flags} → 0 < f.in_flight → Step f (finished f)
  starts : (f : Flags) → Step f (start f)
  stops : (f : Flags) → Step f (stop f)

pub data Reach (f : Flags) : Flags → Type 0 where
  here : Reach f f
  next : {g h : Flags} → Reach f g → Step g h → Reach f h

pub record IsSane (f : Flags) : Type 0 where
  pub guarded : f.draining ≡ true → f.in_flight ≡ 1
  pub free : f.draining ≡ false → f.in_flight ≡ 0
  pub silent : f.timer ≡ false → f.wake_again ≡ false
  pub running : f.timer ≡ true → f.stopped ≡ false

Step-IsSane : {f g : Flags} → IsSane f → Step f g → IsSane g
unfolding pass finished wake start stop
Step-IsSane v (ticks t) = ground arith
Step-IsSane v (wakes f) = ground arith
Step-IsSane v (ends l) = ground arith
Step-IsSane v (starts f) = ground arith
Step-IsSane v (stops f) = ground arith

initial-IsSane : IsSane initial
unfolding initial
initial-IsSane = ground arith

pub Reach-IsSane : {f : Flags} → Reach initial f → IsSane f
Reach-IsSane here = initial-IsSane
Reach-IsSane (next r s) = Step-IsSane (Reach-IsSane r) s

-- However ticks, wake-ups, ends, starts and stops fall, two drains are never in flight at once.
pub in_flight-le-one : {f : Flags} → Reach initial f → f.in_flight ≤ 1
in_flight-le-one {f} r = let v = Reach-IsSane r in ground arith

-- A pass asked for while a drain is in flight is not lost: when that drain ends and the pump has
-- not been stopped, another is in flight, and the ask is forgotten.
pub wake-finished :
    {f : Flags}
    → Reach initial f
    → f.timer ≡ true
    → f.draining ≡ true
    → ((finished (wake f)).in_flight ≡ 1)
      × ((finished (wake f)).draining ≡ true)
      × ((finished (wake f)).wake_again ≡ false)
unfolding wake pass finished
wake-finished {f} r t d = let v = Reach-IsSane r in ground arith

-- After a stop, no end of a drain and no wake-up starts another.
pub stop-finished :
    {f : Flags}
    → Reach initial f
    → ((finished (stop f)).in_flight ≡ 0) × ((wake (finished (stop f))).in_flight ≡ 0)
unfolding wake pass finished stop
stop-finished {f} r = let v = Reach-IsSane r in ground arith
