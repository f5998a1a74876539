-- ===== src/TalkFlow/Guards.antt =====
-- When packages/room-state/src/talk-flow.ts asks before a talk starts or ends.
use conference_operator.Common.{
  eq_refl, ℕ, ◌+◌, ◌<◌, ◌≡◌, ◌≢◌, ◌↔◌, true, some, arith, eq_iff, Option-cases, inl, inr,
}
use conference_operator.TalkFlow.{
  TalkFlowInput, FlowTarget, start_too_early, end_early, too_early_ms,
}

-- The first start guard asks exactly when the room has a target whose start is more than a quarter
-- of an hour away, and that target is not the talk forced by hand.
pub start_too_early_iff :
    (input : TalkFlowInput)
    → (start_too_early input ≡ true) ↔ (
        (t : FlowTarget) × (input.target ≡ some t)
        × (input.pinned_session_id ≢ some t.id)
        × (input.now_ms + too_early_ms < t.starts_at_ms))
unfolding start_too_early
start_too_early_iff input = (to, from)
  where
    to :
        start_too_early input ≡ true
        → (t : FlowTarget) × (input.target ≡ some t)
          × (input.pinned_session_id ≢ some t.id)
          × (input.now_ms + too_early_ms < t.starts_at_ms)
    to h = elim (Option-cases input.target) [
      | inl idle ↦ absurd (ground arith)
      | inr (t, aimed) ↦ (t, aimed, (λ e. ground (arith, eq_refl t.id)), ground arith)
    ]

    from :
        ((t : FlowTarget) × (input.target ≡ some t)
          × (input.pinned_session_id ≢ some t.id)
          × (input.now_ms + too_early_ms < t.starts_at_ms))
        → start_too_early input ≡ true
    from (t, aimed, unforced, early) = elim (Option-cases input.pinned_session_id) [
      | inl free ↦ ground arith
      | inr (id, pinned) ↦ ground (arith, eq_iff id t.id)
    ]

-- The first end guard asks exactly when the target has an end that is still to come.
pub end_early_iff :
    (input : TalkFlowInput)
    → (end_early input ≡ true) ↔ (
        (t : FlowTarget) × (e : ℕ) × (input.target ≡ some t)
        × (t.ends_at_ms ≡ some e)
        × (input.now_ms < e))
unfolding end_early
end_early_iff input = (to, λ h. ground arith)
  where
    to :
        end_early input ≡ true
        → (t : FlowTarget) × (e : ℕ) × (input.target ≡ some t)
          × (t.ends_at_ms ≡ some e)
          × (input.now_ms < e)
    to h = elim (Option-cases input.target) [
      | inl idle ↦ absurd (ground arith)
      | inr (t, aimed) ↦ elim (Option-cases t.ends_at_ms) [
        | inl endless ↦ absurd (ground arith)
        | inr (e, known) ↦ (t, e, aimed, known, ground arith)
      ]
    ]
