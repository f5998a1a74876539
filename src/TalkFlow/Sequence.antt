-- ===== src/TalkFlow/Sequence.antt =====
-- In what order the gestures of packages/room-state/src/talk-flow.ts reach the room.
use conference_operator.Common.{
  ◌≢◌, ◌↔◌, Option-cases, ◌≡◌, inl, inr, Bool, true, List, [], ◌∷◌, arith, In, Bool-cases,
}
use conference_operator.TalkFlow.{
  TalkFlowInput, TalkGesture, recording_start, recording_stop, session_end, start_steps, end_steps,
  run_talk_steps, talk_settings,
}

-- A gesture that was sent, with its answer.
pub record Sent : Type 0 where
  pub gesture : TalkGesture
  pub answered : Bool

-- The caller's `act`, with a journal of what it was asked, the last first.
module _ {W : Type 0} (act : TalkGesture → W → W × Bool) where
  unfoldable pub journalled : TalkGesture → W × List Sent → (W × List Sent) × Bool
  journalled g (w, journal) =
      let (w', answered) = act g w in
      ((w', record { gesture = g; answered = answered } ∷ journal), answered)

  abbrev pub start_journal : TalkFlowInput → W → List Sent
  start_journal input w = (run_talk_steps journalled (start_steps input true) (w, [])).0.1

  abbrev pub end_journal : W → List Sent
  end_journal w = (run_talk_steps journalled (end_steps true) (w, [])).0.1

  -- Whatever the room answers, a start that must record first sends another gesture than
  -- `recording.start` only if `recording.start` was sent and succeeded.
  pub start_steps-records :
      (input : TalkFlowInput) (w : W) (g : TalkGesture) (answer : Bool)
      → g ≢ recording_start
      → In (record { gesture = g; answered = answer }) (start_journal input w)
      → In (record { gesture = recording_start; answered = true }) (start_journal input w)
  unfolding run_talk_steps start_steps journalled
  start_steps-records input w g answer other h = elim (Bool-cases (act recording_start w).1) [
    | inr refused ↦ ground arith
    | inl granted ↦ elim (Option-cases (talk_settings input.config).scene) [
      | inl kept ↦ ground arith
      | inr (scene, set) ↦ ground arith
    ]
  ]

  -- An end that must stop the take sends `session.end` only if `recording.stop` was sent and
  -- succeeded, and then it does send it.
  pub end_steps-stops :
      (w : W)
      → ((act recording_stop w).1 ≡ true) ↔ (
          (answer : Bool) × In
            (record { gesture = session_end; answered = answer })
            (end_journal w))
  unfolding run_talk_steps end_steps journalled
  end_steps-stops w =
      (λ h. ((act session_end (act recording_stop w).0).1, ground arith), λ h. ground arith)
