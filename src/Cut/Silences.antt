-- ===== src/Cut/Silences.antt =====
-- What the silences found by apps/vod-montage/src/coupe.ts are.
use conference_operator.Common.{
  ℕ, ◌+◌, ◌≤◌, ◌<◌, ◌≡◌, ◌⊎◌, In-append, inl, inr, refl, sym, true, false, Option, none, some, List,
  [], ◌∷◌, ◌++◌, arith, All, Pairwise, In, All-In, All_of_In, Bool-cases,
}
use conference_operator.Common.Int.{ℤ}
use conference_operator.Cut.{Frame, Silence, is_quiet, closed, started, scan, silences}

-- Frames in the order of the take.
abbrev pub InOrder : List Frame → Type 0
InOrder = Pairwise (λ f g. f.ms < g.ms)

-- The end of the last of the frames.
abbrev pub end_of : ℕ → ℕ → List Frame → ℕ
end_of step_ms last [] = last
end_of step_ms last (f ∷ frames) = end_of step_ms (f.ms + step_ms) frames

module _ (threshold_db : ℤ) (min_ms step_ms : ℕ) where
  -- Every frame of the list that begins within the silence is quiet.
  abbrev IsQuietIn : List Frame → Silence → Type 0
  IsQuietIn frames s =
      All (λ f. s.start_ms ≤ f.ms → f.ms < s.end_ms → is_quiet threshold_db f ≡ true) frames

  -- It ends where the frames end, or at a loud one.
  abbrev EndsAt : List Frame → ℕ → Silence → Type 0
  EndsAt frames last s =
      (s.end_ms ≡ end_of step_ms last frames)
      ⊎ ((g : Frame) × In g frames × (g.ms ≡ s.end_ms) × (is_quiet threshold_db g ≡ false))

  -- What holds of a silence that the loop finds from here on.
  abbrev IsFound : List Frame → Option ℕ → ℕ → Silence → Type 0
  IsFound frames start last s =
      IsQuietIn frames s
      × (min_ms + s.start_ms ≤ s.end_ms)
      × ((start ≡ some s.start_ms)
          ⊎ ((f : Frame) × In f frames × (f.ms ≡ s.start_ms) × (is_quiet threshold_db f ≡ true)))
      × EndsAt frames last s

  EndsAt-cons :
      (f : Frame) (frames : List Frame) (last : ℕ) (s : Silence)
      → EndsAt frames (f.ms + step_ms) s
      → EndsAt (f ∷ frames) last s
  EndsAt-cons f frames last s (inl e) = inl e
  EndsAt-cons f frames last s (inr (g, m, e, loud)) = inr (g, inr m, e, loud)

  closed_lem :
      (start : Option ℕ) (until : ℕ) (s : Silence)
      → In s (closed min_ms start until)
      → (min_ms + s.start_ms ≤ s.end_ms) × (start ≡ some s.start_ms) × (s.end_ms ≡ until)
  closed_lem none until s m = elim m [ ]
  closed_lem (some start) until s m = ground arith

  quiet-IsFound :
      (f : Frame) (frames : List Frame) (start : Option ℕ) (last : ℕ) (s : Silence)
      → is_quiet threshold_db f ≡ true
      → IsFound frames (started start f.ms) (f.ms + step_ms) s
      → IsFound (f ∷ frames) start last s
  quiet-IsFound f frames none last s quiet (inside, long, inl here, ends) = (
    (λ l h. quiet, inside),
    long,
    inr (f, inl refl, ground arith, quiet),
    EndsAt-cons f frames last s ends,
  )
  quiet-IsFound f frames (some start) last s quiet (inside, long, inl here, ends) =
      ((λ l h. quiet, inside), long, inl here, EndsAt-cons f frames last s ends)
  quiet-IsFound f frames start last s quiet (inside, long, inr (g, m, e, q), ends) =
      ((λ l h. quiet, inside), long, inr (g, inr m, e, q), EndsAt-cons f frames last s ends)

  closes-IsFound :
      (f : Frame) (frames : List Frame) (start : Option ℕ) (last : ℕ) (s : Silence)
      → is_quiet threshold_db f ≡ false
      → All (λ g. f.ms < g.ms) frames
      → In s (closed min_ms start f.ms)
      → IsFound (f ∷ frames) start last s
  closes-IsFound f frames start last s loud later m =
      let (long, here, ends) = closed_lem start f.ms s m in
      (
        (
          λ l h. absurd (ground arith),
          All_of_In
              (λ (g : Frame). s.start_ms ≤ g.ms → g.ms < s.end_ms → is_quiet threshold_db g ≡ true)
              frames
              (λ g k l h.
                absurd (over f g s ends (All-In (λ (x : Frame). f.ms < x.ms) frames g later k) h)),
        ),
        long,
        inl here,
        inr (f, inl refl, sym ends, loud),
      )
    where
      over : (f g : Frame) (s : Silence) → s.end_ms ≡ f.ms → f.ms < g.ms → g.ms < s.end_ms → ⊥
      over f g s e l h = ground arith

  later-IsFound :
      (f : Frame) (frames : List Frame) (start : Option ℕ) (last : ℕ) (s : Silence)
      → All (λ g. f.ms < g.ms) frames
      → IsFound frames none (f.ms + step_ms) s
      → IsFound (f ∷ frames) start last s
  later-IsFound f frames start last s later (inside, long, inl here, ends) = absurd (ground arith)
  later-IsFound f frames start last s later (inside, long, inr (g, m, e, q), ends) = (
    (λ l h. absurd (over f g s e (All-In (λ (x : Frame). f.ms < x.ms) frames g later m) l), inside),
    long,
    inr (g, inr m, e, q),
    EndsAt-cons f frames last s ends,
  )
    where
      over : (f g : Frame) (s : Silence) → g.ms ≡ s.start_ms → f.ms < g.ms → s.start_ms ≤ f.ms → ⊥
      over f g s e l h = ground arith

  scan-IsFound :
      (frames : List Frame) (start : Option ℕ) (last : ℕ) (s : Silence)
      → InOrder frames
      → In s (scan threshold_db min_ms step_ms frames start last)
      → IsFound frames start last s
  unfolding scan
  scan-IsFound [] start last s order m =
      let (long, here, ends) = closed_lem start last s m in (tt, long, inl here, inl ends)
  scan-IsFound (f ∷ frames) start last s order m = elim (Bool-cases (is_quiet threshold_db f)) [
    | inl quiet ↦
        quiet-IsFound f frames start last s quiet
          (scan-IsFound frames (started start f.ms) (f.ms + step_ms) s order.1 (in_quiet quiet m))
    | inr loud ↦
        elim ((In-append (closed min_ms start f.ms)
            (scan threshold_db min_ms step_ms frames none (f.ms + step_ms)) s).0
          (in_loud loud m)) [
            | inl here ↦ closes-IsFound f frames start last s loud order.0 here
            | inr there ↦
                later-IsFound f frames start last s order.0
                  (scan-IsFound frames none (f.ms + step_ms) s order.1 there)
          ]
  ]
    where
      in_quiet :
          is_quiet threshold_db f ≡ true
          → In s (scan threshold_db min_ms step_ms (f ∷ frames) start last)
          → In s (scan threshold_db min_ms step_ms frames (started start f.ms) (f.ms + step_ms))
      in_quiet quiet k = ground arith

      in_loud :
          is_quiet threshold_db f ≡ false
          → In s (scan threshold_db min_ms step_ms (f ∷ frames) start last)
          → In s (
              closed min_ms start f.ms
              ++ scan threshold_db min_ms step_ms frames none (f.ms + step_ms))
      in_loud loud k = ground arith

  pub record IsSilence (frames : List Frame) (s : Silence) : Type 0 where
    pub long : min_ms + s.start_ms ≤ s.end_ms
    pub opening : (f : Frame) × In f frames × (f.ms ≡ s.start_ms) × (is_quiet threshold_db f ≡ true)
    pub quiet :
        (f : Frame)
        → In f frames
        → s.start_ms ≤ f.ms
        → f.ms < s.end_ms
        → is_quiet threshold_db f ≡ true
    pub closing : EndsAt frames 0 s

  -- On frames in the order of the take, each silence that is found lasts at least `min_ms`, begins
  -- with a frame at or under the threshold, holds no louder one, and ends at a louder one or where
  -- the frames end.
  pub silences-IsSilence :
      (frames : List Frame) (s : Silence)
      → InOrder frames
      → In s (silences frames threshold_db min_ms step_ms)
      → IsSilence frames s
  unfolding silences
  silences-IsSilence frames s order m =
      let (inside, long, origin, ends) = scan-IsFound frames none 0 s order m in
      record {
        long = long;
        opening = elim origin [ inl never ↦ absurd (ground arith) | inr found ↦ found ];
        quiet = λ f k low high.
            All-In
              (λ (g : Frame). s.start_ms ≤ g.ms → g.ms < s.end_ms → is_quiet threshold_db g ≡ true)
              frames f inside k low high;
        closing = ends;
      }
