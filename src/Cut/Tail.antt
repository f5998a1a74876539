-- ===== src/Cut/Tail.antt =====
-- What `tailPause` of apps/vod-montage/src/coupe.ts points at.
use conference_operator.Common.{
  ℕ, ◌+◌, ◌≤◌, ◌<◌, ◌≡◌, inl, inr, refl, false, Option, none, some, List, [], ◌∷◌, arith, All, In,
  All-In, All_of_In, sym, Bool-cases, leb, ltb, ◌&&◌,
}
use conference_operator.Common.Int.{ℤ, add_ℤ}
use mathlib.Core.Path.{subst}
use conference_operator.Cut.{
  Frame, Silence, TailPause, is_speech, spans_from, first_pause, tail_pause, tail_pause_ms,
  tail_span_ms, speech_bridge_ms,
}
use conference_operator.Cut.Silences.{InOrder}

module _ (threshold_db : ℤ) (end_ms step_ms : ℕ) where
  abbrev LastEndsAfter : ℕ → Option Silence → Type 0
  LastEndsAfter ms none = Unit
  LastEndsAfter ms (some s) = ms < s.end_ms

  ends_after :
      (ms : ℕ) (frames : List Frame) (last : Option Silence)
      → All (λ g. ms < g.ms + step_ms) frames
      → LastEndsAfter ms last
      → All (λ s. ms < s.end_ms) (spans_from threshold_db end_ms step_ms frames last)
  unfolding spans_from
  ends_after ms [] none h k = tt
  ends_after ms [] (some last) h k = (k, tt)
  ends_after ms (f ∷ frames) none h k = ground (
    arith,
    ends_after ms frames none h.1 tt,
    ends_after ms frames (some (record { start_ms = f.ms; end_ms = f.ms + step_ms })) h.1 h.0,
  )
  ends_after ms (f ∷ frames) (some last) h k = ground (
    arith,
    ends_after ms frames (some last) h.1 k,
    ends_after ms frames (some (record last { end_ms = f.ms + step_ms })) h.1 h.0,
    ends_after ms frames (some (record { start_ms = f.ms; end_ms = f.ms + step_ms })) h.1 h.0,
  )

  -- The first span of the list starts where the open one does.
  opens :
      (frames : List Frame) (last : Silence)
      → (a : Silence) × (rest : List Silence) × (spans_from threshold_db end_ms step_ms frames
            (some last)
          ≡ a ∷ rest)
        × (a.start_ms ≡ last.start_ms)
  unfolding spans_from
  opens [] last = (last, [], refl, refl)
  opens (f ∷ frames) last = elim (Bool-cases (is_speech threshold_db end_ms f)) [
    | inr mute ↦ rw mute (opens frames last)
    | inl said ↦ elim (Bool-cases (leb f.ms (last.end_ms + speech_bridge_ms))) [
      | inl near ↦ rw (said, near) (opens frames (record last { end_ms = f.ms + step_ms }))
      | inr far ↦
          rw (said, far)
            (
              last,
              spans_from threshold_db end_ms step_ms frames
                  (some (record { start_ms = f.ms; end_ms = f.ms + step_ms })),
              refl,
              refl,
            )
    ]
  ]

  -- Nobody speaks between two neighbouring spans.
  abbrev IsBetween : List Frame → Silence → Silence → Type 0
  IsBetween frames a b =
      All (λ f. a.end_ms ≤ f.ms → f.ms < b.start_ms → is_speech threshold_db end_ms f ≡ false)
        frames

  abbrev IsSeparated : List Frame → List Silence → Type 0
  IsSeparated frames [] = Unit
  IsSeparated frames (a ∷ []) = Unit
  IsSeparated frames (a ∷ b ∷ spans) = IsBetween frames a b × IsSeparated frames (b ∷ spans)

  add_mute :
      (f : Frame) (frames : List Frame) (spans : List Silence)
      → is_speech threshold_db end_ms f ≡ false
      → IsSeparated frames spans
      → IsSeparated (f ∷ frames) spans
  add_mute f frames [] mute h = tt
  add_mute f frames (a ∷ []) mute h = tt
  add_mute f frames (a ∷ b ∷ spans) mute h =
      ((λ l k. mute, h.0), add_mute f frames (b ∷ spans) mute h.1)

  add_early :
      (f : Frame) (frames : List Frame) (spans : List Silence)
      → All (λ s. f.ms < s.end_ms) spans
      → IsSeparated frames spans
      → IsSeparated (f ∷ frames) spans
  add_early f frames [] early h = tt
  add_early f frames (a ∷ []) early h = tt
  add_early f frames (a ∷ b ∷ spans) early h =
      ((λ l k. absurd (ground (arith, early.0)), h.0), add_early f frames (b ∷ spans) early.1 h.1)

  -- A span opened on the frame that follows in the take is separated from the one before.
  add_span :
      (f : Frame) (frames : List Frame) (last : Silence) (spans : List Silence)
      → All (λ g. f.ms < g.ms) frames
      → ((a : Silence) × (rest : List Silence) × (spans ≡ a ∷ rest) × (a.start_ms ≡ f.ms))
      → IsSeparated (f ∷ frames) spans
      → IsSeparated (f ∷ frames) (last ∷ spans)
  add_span f frames last spans later (a, rest, e, same) h =
      subst (λ l. IsSeparated (f ∷ frames) (last ∷ l)) (sym e)
        (
          (
            λ l k. absurd (ground arith),
            All_of_In
                (λ (g : Frame).
                  last.end_ms ≤ g.ms → g.ms < a.start_ms → is_speech threshold_db end_ms g ≡ false)
                frames
                (λ g m l k.
                  absurd (over g (All-In (λ (x : Frame). f.ms < x.ms) frames g later m) k)),
          ),
          subst (IsSeparated (f ∷ frames)) e h,
        )
    where
      over : (g : Frame) → f.ms < g.ms → g.ms < a.start_ms → ⊥
      over g l k = ground arith

  module _ (lasts : 0 < step_ms) where
    later_ends :
        (f : Frame) (frames : List Frame)
        → All (λ g. f.ms < g.ms) frames
        → All (λ g. f.ms < g.ms + step_ms) frames
    later_ends f [] h = tt
    later_ends f (g ∷ frames) h = (omega (arith, h.0), later_ends f frames h.1)

    spans-IsSeparated :
        (frames : List Frame) (last : Option Silence)
        → InOrder frames
        → IsSeparated frames (spans_from threshold_db end_ms step_ms frames last)
    unfolding spans_from
    spans-IsSeparated [] none order = tt
    spans-IsSeparated [] (some last) order = tt
    spans-IsSeparated (f ∷ frames) none order =
        let opened : Silence = record { start_ms = f.ms; end_ms = f.ms + step_ms } in
        elim (Bool-cases (is_speech threshold_db end_ms f)) [
          | inr mute ↦ rw mute (add_mute f frames _ mute (spans-IsSeparated frames none order.1))
          | inl said ↦ rw said (
              add_early f frames _
                (ends_after f.ms frames (some opened) (later_ends f frames order.0)
                  (omega (arith, lasts)))
                (spans-IsSeparated frames (some opened) order.1))
        ]
    spans-IsSeparated (f ∷ frames) (some last) order =
        let opened : Silence = record { start_ms = f.ms; end_ms = f.ms + step_ms } in
        let longer : Silence = record last { end_ms = f.ms + step_ms } in
        let ends = later_ends f frames order.0 in
        elim (Bool-cases (is_speech threshold_db end_ms f)) [
          | inr mute ↦
              rw mute (add_mute f frames _ mute (spans-IsSeparated frames (some last) order.1))
          | inl said ↦ elim (Bool-cases (leb f.ms (last.end_ms + speech_bridge_ms))) [
            | inl near ↦
                rw (said, near)
                  (add_early f frames _
                    (ends_after f.ms frames (some longer) ends (omega (arith, lasts)))
                    (spans-IsSeparated frames (some longer) order.1))
            | inr far ↦
                rw (said, far)
                  (add_span f frames last _ order.0 (opens frames opened) (
                    add_early f frames _
                      (ends_after f.ms frames (some opened) ends (omega (arith, lasts)))
                      (spans-IsSeparated frames (some opened) order.1)))
          ]
        ]

  -- What a pause of the end of a take is.
  abbrev IsTailPause : List Frame → TailPause → Type 0
  IsTailPause frames p =
      All
        (λ f.
          p.at_ms ≤ f.ms → f.ms < p.at_ms + p.duration_ms → is_speech threshold_db end_ms f ≡ false)
        frames
      × (tail_pause_ms ≤ p.duration_ms)
      × (end_ms < p.at_ms + tail_span_ms)

  first_pause-IsTailPause :
      (frames : List Frame) (spans : List Silence) (p : TailPause)
      → IsSeparated frames spans
      → first_pause end_ms spans ≡ some p
      → IsTailPause frames p
  unfolding first_pause
  first_pause-IsTailPause frames [] p h e = absurd (ground arith)
  first_pause-IsTailPause frames (a ∷ []) p h e = absurd (ground arith)
  first_pause-IsTailPause frames (a ∷ b ∷ spans) p h e =
      elim (Bool-cases
        (leb (a.end_ms + tail_pause_ms) b.start_ms && ltb end_ms (a.end_ms + tail_span_ms))) [
          | inr miss ↦ first_pause-IsTailPause frames (b ∷ spans) p h.1 (skipped miss)
          | inl hit ↦ (
            All_of_In
                (λ (f : Frame).
                  p.at_ms ≤ f.ms
                  → f.ms < p.at_ms + p.duration_ms
                  → is_speech threshold_db end_ms f ≡ false)
                frames
                (λ f m l k.
                  All-In
                    (λ (g : Frame).
                      a.end_ms ≤ g.ms → g.ms < b.start_ms → is_speech threshold_db end_ms g ≡ false)
                    frames f h.0 m (ground arith) (ground arith)),
            ground arith,
            ground arith,
          )
        ]
    where
      skipped :
          (leb (a.end_ms + tail_pause_ms) b.start_ms && ltb end_ms (a.end_ms + tail_span_ms))
            ≡ false
          → first_pause end_ms (b ∷ spans) ≡ some p
      skipped miss = ground arith

-- On frames in the order of the take, the pause pointed at lasts five seconds at least, ends its
-- speech in the last two minutes before the end, and no frame that begins within it is read as
-- speech before the end.
pub tail_pause-mute :
    (frames : List Frame) (floor_db : ℤ) (end_ms step_ms : ℕ) (p : TailPause) (f : Frame)
    → InOrder frames
    → 0 < step_ms
    → tail_pause frames floor_db end_ms step_ms ≡ some p
    → In f frames
    → p.at_ms ≤ f.ms
    → f.ms < p.at_ms + p.duration_ms
    → (is_speech (add_ℤ floor_db 10000) end_ms f ≡ false)
      × (tail_pause_ms ≤ p.duration_ms)
      × (end_ms < p.at_ms + tail_span_ms)
unfolding tail_pause
tail_pause-mute frames floor_db end_ms step_ms p f order lasts e m low high =
    let (mute, long, late) =
      first_pause-IsTailPause (add_ℤ floor_db 10000) end_ms step_ms frames _ p
        (spans-IsSeparated (add_ℤ floor_db 10000) end_ms step_ms lasts frames none order) e in
    (
      All-In
          (λ (g : Frame).
            p.at_ms ≤ g.ms
            → g.ms < p.at_ms + p.duration_ms
            → is_speech (add_ℤ floor_db 10000) end_ms g ≡ false)
          frames f mute m low high,
      long,
      late,
    )
