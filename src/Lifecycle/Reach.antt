-- ===== src/Lifecycle/Reach.antt =====
-- Which statuses a talk can go through, over the table of packages/room-state/src/lifecycle.ts.
use conference_operator.Common.{◌≡◌, ◌↔◌, ◌⊎◌, inl, none, some, List, [], ◌∷◌, arith, In, refl}
use conference_operator.Lifecycle.{
  SessionStatus, scheduled, running, ended, SessionAction, start, end, reset, Refusal,
  already_started, already_ended, never_started, status_after, transition_refusal,
}

-- The statuses a talk goes through, gesture by gesture; a refused gesture changes nothing.
unfoldable pub run_gestures : SessionStatus → List SessionAction → SessionStatus
run_gestures s [] = s
run_gestures s (a ∷ rest) = elim (status_after s a) [
  | none ↦ run_gestures s rest
  | some next ↦ run_gestures next rest
]

run_gestures-ended :
    (s : SessionStatus) (gestures : List SessionAction)
    → run_gestures s gestures ≡ ended
    → (s ≡ ended) ⊎ (In end gestures × ((s ≡ running) ⊎ In start gestures))
unfolding run_gestures status_after
run_gestures-ended s [] h = inl h
run_gestures-ended scheduled (start ∷ rest) h = ground (arith, run_gestures-ended running rest h)
run_gestures-ended scheduled (end ∷ rest) h = ground (arith, run_gestures-ended scheduled rest h)
run_gestures-ended scheduled (reset ∷ rest) h = ground (arith, run_gestures-ended scheduled rest h)
run_gestures-ended running (start ∷ rest) h = ground (arith, run_gestures-ended running rest h)
run_gestures-ended running (end ∷ rest) h = ground (arith, run_gestures-ended ended rest h)
run_gestures-ended running (reset ∷ rest) h = ground (arith, run_gestures-ended scheduled rest h)
run_gestures-ended ended gestures h = inl refl

-- A talk is ended only after somebody started it and somebody, or the scheduling rule, ended it:
-- no sequence of gestures on a talk never started declares it given without both.
pub ended_needs_start :
    (gestures : List SessionAction)
    → run_gestures scheduled gestures ≡ ended
    → In start gestures × In end gestures
ended_needs_start gestures h = ground (arith, run_gestures-ended scheduled gestures h)

-- A gesture is refused, with a sentence for the operator, exactly when it leads to no status; the
-- sentence says what was observed: already running, already ended, or never started.
pub transition_refusal_iff :
    (from : SessionStatus) (action : SessionAction) (r : Refusal)
    → (transition_refusal from action ≡ some r) ↔ (
        (status_after from action ≡ none)
        × (((action ≡ start) × (from ≡ running) × (r ≡ already_started))
            ⊎ ((action ≡ end) × (from ≡ ended) × (r ≡ already_ended))
            ⊎ ((action ≡ end) × (from ≡ scheduled) × (r ≡ never_started))))
unfolding transition_refusal status_after
transition_refusal_iff from action r = ground arith
