-- ===== src/Cut/Found.antt =====
-- Every silence that is long enough is found by `silences` of apps/vod-montage/src/coupe.ts.
use conference_operator.Common.{
  ℕ, ◌+◌, ◌≤◌, ◌<◌, ◌≡◌, In-append, inl, inr, refl, ap, true, Option, none, some, List, [], ◌∷◌,
  ◌++◌, arith, All, In, All-In, leb, Bool-cases,
}
use conference_operator.Common.Int.{ℤ}
use conference_operator.Cut.{Frame, Silence, is_quiet, closed, started, scan, silences}
use conference_operator.Cut.Silences.{InOrder, IsSilence, silences-IsSilence}

module _ (threshold_db : ℤ) (min_ms step_ms : ℕ) where
  -- A silence of the list covers the stretch between two instants.
  abbrev pub Covers : List Silence → ℕ → ℕ → Type 0
  Covers found from until = (s : Silence) × In s found × (s.start_ms ≤ from) × (until ≤ s.end_ms)

  Covers-later :
      (xs ys : List Silence) (from until : ℕ) → Covers ys from until → Covers (xs ++ ys) from until
  Covers-later xs ys from until (s, m, h, k) = (s, (In-append xs ys s).1 (inr m), h, k)

  Covers-closed :
      (start until from bound : ℕ) (ys : List Silence)
      → min_ms + start ≤ bound
      → bound ≤ until
      → start ≤ from
      → Covers (closed min_ms (some start) until ++ ys) from bound
  Covers-closed start until from bound ys long h k =
      let on : leb (min_ms + start) until ≡ true = ground (arith, long, h) in
      rw on (record_of start until, inl refl, k, h)
    where
      record_of : ℕ → ℕ → Silence
      record_of a b = record { start_ms = a; end_ms = b }

  -- Once a silence has lasted its time, it is closed at the next loud frame or at the end.
  scan-closes :
      (frames : List Frame) (start last from bound : ℕ)
      → All (λ f. bound ≤ f.ms) frames
      → min_ms + start ≤ bound
      → bound ≤ last
      → start ≤ from
      → Covers (scan threshold_db min_ms step_ms frames (some start) last) from bound
  unfolding scan
  scan-closes [] start last from bound h long k l =
      let on : leb (min_ms + start) last ≡ true = ground (arith, long, k) in
      let s : Silence = record { start_ms = start; end_ms = last } in rw on (s, inl refl, l, k)
  scan-closes (f ∷ frames) start last from bound (here, later) long k l =
      elim (Bool-cases (is_quiet threshold_db f)) [
        | inl quiet ↦
            rw (quiet, scan)
              (scan-closes frames start (f.ms + step_ms) from bound later long (omega (arith, here))
                l)
        | inr loud ↦
            rw (loud, scan)
              (Covers-closed start f.ms from bound
                (scan threshold_db min_ms step_ms frames none (f.ms + step_ms)) long here l)
      ]

  All-from :
      (f : Frame) (frames : List Frame)
      → All (λ g. f.ms < g.ms) frames
      → All (λ g. f.ms ≤ g.ms) frames
  All-from f [] h = tt
  All-from f (g ∷ frames) (h, k) = (omega (arith, h), All-from f frames k)

  -- A silence under way that reaches the frame `z`.
  scan-reaches :
      (frames : List Frame) (start last from : ℕ) (z : Frame)
      → InOrder frames
      → In z frames
      → ((f : Frame) → In f frames → f.ms ≤ z.ms → is_quiet threshold_db f ≡ true)
      → min_ms + start ≤ z.ms
      → start ≤ from
      → Covers (scan threshold_db min_ms step_ms frames (some start) last) from z.ms
  unfolding scan
  scan-reaches [] start last from z order m quiet long l = elim m [ ]
  scan-reaches (f ∷ frames) start last from z (first, order) (inl same) quiet long l =
      let q : is_quiet threshold_db f ≡ true = quiet f (inl refl) (rw same (omega arith)) in
      rw (q, scan)
        (scan-closes frames start (f.ms + step_ms) from z.ms (rw same (All-from f frames first))
          long (rw same (omega arith)) l)
  scan-reaches (f ∷ frames) start last from z (first, order) (inr m) quiet long l =
      let ahead = All-In (λ (g : Frame). f.ms < g.ms) frames z first m in
      let q : is_quiet threshold_db f ≡ true = quiet f (inl refl) (omega (arith, ahead)) in
      rw (q, scan)
        (scan-reaches frames start (f.ms + step_ms) from z order m (λ g k h. quiet g (inr k) h) long
          l)

  abbrev Before : Option ℕ → List Frame → Type 0
  Before none frames = Unit
  Before (some start) frames = All (λ f. start ≤ f.ms) frames

  All-later :
      (start : ℕ) (f : Frame) (frames : List Frame)
      → start ≤ f.ms
      → All (λ g. f.ms < g.ms) frames
      → All (λ g. start ≤ g.ms) frames
  All-later start f [] h k = tt
  All-later start f (g ∷ frames) h (k, l) = (omega (arith, h, k), All-later start f frames h l)

  started-Before :
      (start : Option ℕ) (f : Frame) (frames : List Frame)
      → Before start (f ∷ frames)
      → All (λ g. f.ms < g.ms) frames
      → (t : ℕ) × (started start f.ms ≡ some t) × (t ≤ f.ms) × All (λ g. t ≤ g.ms) frames
  started-Before none f frames b later = (f.ms, refl, omega arith, All-from f frames later)
  started-Before (some start) f frames b later = (start, refl, b.0, b.1)

  scan-Covers :
      (frames : List Frame) (start : Option ℕ) (last : ℕ) (a z : Frame)
      → InOrder frames
      → Before start frames
      → In a frames
      → In z frames
      → a.ms + min_ms ≤ z.ms
      → ((f : Frame) → In f frames → a.ms ≤ f.ms → f.ms ≤ z.ms → is_quiet threshold_db f ≡ true)
      → Covers (scan threshold_db min_ms step_ms frames start last) a.ms z.ms
  unfolding scan
  scan-Covers [] start last a z order b ma mz long quiet = elim ma [ ]
  scan-Covers (f ∷ frames) start last a z (first, order) b (inl same) mz long quiet =
      let here : a.ms ≡ f.ms = ap (λ (g : Frame). g.ms) same in
      let (t, e, h, after) = started-Before start f frames b first in
      let q : is_quiet threshold_db f ≡ true =
        quiet f (inl refl) (omega (arith, here)) (omega (arith, here, long)) in
      rw (q, scan, e)
        (elim mz [
          | inl last_one ↦
              let back : z.ms ≡ f.ms = ap (λ (g : Frame). g.ms) last_one in
              scan-closes frames t (f.ms + step_ms) a.ms z.ms (rw back (All-from f frames first))
                (omega (arith, long, h, here)) (omega (arith, back)) (omega (arith, h, here))
          | inr further ↦
              scan-reaches frames t (f.ms + step_ms) a.ms z order further
                (λ g k l.
                  quiet g (inr k)
                    (let ahead = All-In (λ (x : Frame). f.ms < x.ms) frames g first k in
                      omega (arith, ahead, here))
                    l)
                (omega (arith, long, h, here)) (omega (arith, h, here))
        ])
  scan-Covers (f ∷ frames) start last a z (first, order) b (inr ma) (inl same) long quiet =
      let ahead = All-In (λ (g : Frame). f.ms < g.ms) frames a first ma in
      let back : z.ms ≡ f.ms = ap (λ (g : Frame). g.ms) same in
      absurd (omega (arith, ahead, back, long))
  scan-Covers (f ∷ frames) start last a z (first, order) b (inr ma) (inr mz) long quiet =
      elim (Bool-cases (is_quiet threshold_db f)) [
        | inl q ↦
            let (t, e, h, after) = started-Before start f frames b first in
            rw (q, scan, e)
              (scan-Covers frames (some t) (f.ms + step_ms) a z order after ma mz long
                (λ g k h l. quiet g (inr k) h l))
        | inr loud ↦
            rw (loud, scan)
              (Covers-later (closed min_ms start f.ms) _ a.ms z.ms (
                scan-Covers frames none (f.ms + step_ms) a z order tt ma mz long
                  (λ g k h l. quiet g (inr k) h l)))
      ]

  -- The silences found are silences, and every quiet stretch that is long enough is within one.
  pub record AreSilences (frames : List Frame) (found : List Silence) : Type 0 where
    pub sound : (s : Silence) → In s found → IsSilence threshold_db min_ms step_ms frames s
    pub complete :
        (a z : Frame)
        → In a frames
        → In z frames
        → a.ms + min_ms ≤ z.ms
        → ((f : Frame) → In f frames → a.ms ≤ f.ms → f.ms ≤ z.ms → is_quiet threshold_db f ≡ true)
        → Covers found a.ms z.ms

  -- On frames in the order of the take, each silence that is found lasts at least `min_ms`, begins
  -- with a frame at or under the threshold, holds no louder one, and ends at a louder one or where
  -- the frames end; and two frames that stand at least `min_ms` apart, with no loud frame from the
  -- one to the other, are within one silence that is found.
  pub silences-AreSilences :
      (frames : List Frame)
      → InOrder frames
      → AreSilences frames (silences frames threshold_db min_ms step_ms)
  unfolding silences
  silences-AreSilences frames order = record {
    sound = λ s m. silences-IsSilence threshold_db min_ms step_ms frames s order m;
    complete = λ a z ma mz long quiet. scan-Covers frames none 0 a z order tt ma mz long quiet;
  }
