-- ===== src/Tests/Pumps.antt =====
-- A pump over a sample queue.
use conference_operator.Common.{
  ◌≤◌, ◌≡◌, inl, inr, refl, arith, true, false, some, List, [], ◌∷◌, In,
}
use mathlib.Core.Path.{subst}
use conference_operator.Event.{Envelope}
use conference_operator.Outbox.{Outbox}
use conference_operator.Outbox.Retention.{Waits}
use conference_operator.Pump.{
  PumpState, PushResult, PushAnswer, answered, failed, online, drain_once, handled, initial, pass,
  finished, wake, start, stop,
}
use conference_operator.Pump.Pass.{drain_once-Waits}
use conference_operator.Pump.Single.{
  Reach, here, next, ticks, starts, in_flight-le-one, wake-finished, stop-finished,
}
use conference_operator.Tests.Queue.{apart, queue, queue-IsValid, started}

abbrev pub pump : PumpState
pump = record { outbox = queue; connectivity = online; notices = [] }

-- The hub confirms the second event only.
abbrev half : PushResult
half = record { acked = "e1" ∷ []; duplicates = []; rejected = []; server_time = some 5000 }

abbrev half_push : List Envelope → PushAnswer
half_push batch = answered half

abbrev alone : Outbox → Outbox
alone q = q

-- The answer settles nothing about the first event.
abbrev IsLeft : PushAnswer → Type 0
IsLeft (answered result) = ¬ In "e0" (handled result)
IsLeft failed = Unit

pass_example :
    Waits started (drain_once "r1" 2500 2600 50 (λ id. 0) false half_push alone pump).0.outbox.rows
pass_example =
    drain_once-Waits "r1" 2500 2600 50 (λ id. 0) false half_push alone pump started 172801000
      queue-IsValid refl (omega arith) kept unsettled (inl refl)
  where
    kept : (q : Outbox) → Waits started q.rows → Waits started (alone q).rows
    kept q m = m

    unsettled :
        (batch : List Envelope) (result : PushResult)
        → half_push batch ≡ answered result
        → ¬ In "e0" (handled result)
    unsettled batch result h =
        subst IsLeft h
          (λ m. elim m [ inl same ↦ apart "e0" "e1" refl same | inr none_left ↦ none_left ])

-- A pump started, then ticking.
draining : Reach initial (pass (start initial))
unfolding start initial
draining = next (next here (starts initial)) (ticks refl)

single_example : (pass (start initial)).in_flight ≤ 1
single_example = in_flight-le-one draining

wake_example :
    ((finished (wake (pass (start initial)))).in_flight ≡ 1)
    × ((finished (wake (pass (start initial)))).draining ≡ true)
    × ((finished (wake (pass (start initial)))).wake_again ≡ false)
unfolding start initial pass
wake_example = wake-finished draining refl refl

stop_example :
    ((finished (stop (pass (start initial)))).in_flight ≡ 0)
    × ((wake (finished (stop (pass (start initial))))).in_flight ≡ 0)
stop_example = stop-finished draining
