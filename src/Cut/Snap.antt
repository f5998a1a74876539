-- ===== src/Cut/Snap.antt =====
-- Where apps/vod-montage/src/coupe.ts moves the two ends of a cut.
use conference_operator.Common.{
  ℕ, ◌<◌, ◌≡◌, ◌⊎◌, inl, inr, refl, Bool, true, false, Option, List, [], ◌∷◌, arith, All, In,
  List-cases, sym, filter, Bool-cases, if◌then◌else◌,
}
use mathlib.Core.Path.{subst}
use conference_operator.Cut.{
  Silence, Snapped, SnapWindow, pick, in_window, start_better, end_better, start_at, end_at,
  snap_start, snap_end, snap_cut,
}

pick-In :
    (better : Silence → Silence → Bool) (a : Silence) (rest : List Silence)
    → In (pick better a rest) (a ∷ rest)
unfolding pick
pick-In better a [] = inl refl
pick-In better a (b ∷ rest) = ground (arith, pick-In better (if better b a then b else a) rest)

-- `better` orders the silences by a number.
record IsOrder (better : Silence → Silence → Bool) : Type 0 where
  self : (a : Silence) → better a a ≡ false
  passes : (a b c : Silence) → better b a ≡ true → better b c ≡ false → better a c ≡ false
  follows : (a b c : Silence) → better b a ≡ false → better a c ≡ false → better b c ≡ false

pick_won :
    (better : Silence → Silence → Bool) (a b : Silence) (rest : List Silence)
    → better b a ≡ true
    → pick better a (b ∷ rest) ≡ pick better b rest
unfolding pick
pick_won better a b rest wins = rw wins refl

pick_lost :
    (better : Silence → Silence → Bool) (a b : Silence) (rest : List Silence)
    → better b a ≡ false
    → pick better a (b ∷ rest) ≡ pick better a rest
unfolding pick
pick_lost better a b rest loses = rw loses refl

-- No candidate is better than the one picked.
pick-best :
    (better : Silence → Silence → Bool) (a : Silence) (rest : List Silence)
    → IsOrder better
    → All (λ c. better c (pick better a rest) ≡ false) (a ∷ rest)
unfolding pick
pick-best better a [] v = (v.self a, tt)
pick-best better a (b ∷ rest) v = elim (Bool-cases (better b a)) [
  | inl wins ↦
      let (first, others) = pick-best better b rest v in
      subst (λ p. All (λ c. better c p ≡ false) (a ∷ b ∷ rest))
        (sym (pick_won better a b rest wins))
        (v.passes a b (pick better b rest) wins first, (first, others))
  | inr loses ↦
      let (first, others) = pick-best better a rest v in
      subst (λ p. All (λ c. better c p ≡ false) (a ∷ b ∷ rest))
        (sym (pick_lost better a b rest loses))
        (first, (v.follows a b (pick better a rest) loses first, others))
]

start_better-IsOrder : (mark_ms : ℕ) (window : SnapWindow) → IsOrder (start_better mark_ms window)
start_better-IsOrder mark_ms window = record {
  self = λ a. ground arith;
  passes = λ a b c h k. ground arith;
  follows = λ a b c h k. ground arith;
}

end_better-IsOrder : (mark_ms : ℕ) (window : SnapWindow) → IsOrder (end_better mark_ms window)
end_better-IsOrder mark_ms window = record {
  self = λ a. ground arith;
  passes = λ a b c h k. ground arith;
  follows = λ a b c h k. ground arith;
}

module _ (mark_ms : ℕ) (found : List Silence) (window : SnapWindow) where
  abbrev start_candidates : List Silence
  start_candidates = filter (λ s. in_window mark_ms window s.end_ms) found

  abbrev end_candidates : List Silence
  end_candidates = filter (λ s. in_window mark_ms window s.start_ms) found

  -- The silence an end is moved onto: found, its edge in the window, and none such is better.
  abbrev pub IsBest : (Silence → ℕ) → (Silence → Silence → Bool) → Silence → Type 0
  IsBest edge better s =
      In s (filter (λ c. in_window mark_ms window (edge c)) found)
      × All (λ c. better c s ≡ false) (filter (λ c. in_window mark_ms window (edge c)) found)

  -- The start is kept at its mark, or moved onto the best silence whose end lies in the window: the
  -- latest one, or the nearest when the window says so; it then lies `lead_ms` before that end, and
  -- not before the silence.
  pub snap_start-IsBest :
      (((snap_start mark_ms found window).calee ≡ false)
        × ((snap_start mark_ms found window).ms ≡ mark_ms))
      ⊎ ((s : Silence) × IsBest (λ x. x.end_ms) (start_better mark_ms window) s
          × ((snap_start mark_ms found window).ms ≡ start_at s))
  unfolding snap_start
  snap_start-IsBest = elim (List-cases start_candidates) [
    | inl empty ↦ rw (empty, snap_start) (inl (refl, refl))
    | inr (a, rest, e) ↦
        rw (e, snap_start)
          (inr (
            pick (start_better mark_ms window) a rest,
            (
              pick-In (start_better mark_ms window) a rest,
              pick-best (start_better mark_ms window) a rest (start_better-IsOrder mark_ms window),
            ),
            refl,
          ))
  ]

  -- The end is kept at its mark, or moved onto the best silence whose start lies in the window: the
  -- earliest one, or the nearest when the window says so; it then lies `tail_ms` after that start,
  -- and not after the silence.
  pub snap_end-IsBest :
      (((snap_end mark_ms found window).calee ≡ false)
        × ((snap_end mark_ms found window).ms ≡ mark_ms))
      ⊎ ((s : Silence) × IsBest (λ x. x.start_ms) (end_better mark_ms window) s
          × ((snap_end mark_ms found window).ms ≡ end_at s))
  unfolding snap_end
  snap_end-IsBest = elim (List-cases end_candidates) [
    | inl empty ↦ rw (empty, snap_end) (inl (refl, refl))
    | inr (a, rest, e) ↦
        rw (e, snap_end)
          (inr (
            pick (end_better mark_ms window) a rest,
            (
              pick-In (end_better mark_ms window) a rest,
              pick-best (end_better mark_ms window) a rest (end_better-IsOrder mark_ms window),
            ),
            refl,
          ))
  ]

-- A cut whose ends are in order stays so, whatever the ends are snapped to.
pub snap_cut-ordered :
    (cut : Silence) (start end : Option Snapped)
    → cut.start_ms < cut.end_ms
    → (snap_cut cut start end).start_ms < (snap_cut cut start end).end_ms
unfolding snap_cut
snap_cut-ordered cut start end h = ground arith
