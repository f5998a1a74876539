-- ===== src/Cut.antt =====
-- apps/vod-montage/src/coupe.ts: where to cut a take, from the levels that ffmpeg measures. A level
-- is in thousandths of a decibel, and `none` for a digital silence, which the source reads as
-- -Infinity. Times are milliseconds in the take.
pub mod Silences
pub mod Found
pub mod Snap
pub mod Tail
use conference_operator.Common.{
  ℕ, ◌+◌, ◌-◌, ◌/◌, Bool, true, false, not, ◌&&◌, ◌||◌, Option, none, some, List, [], ◌∷◌, ◌++◌,
  leb, ltb, filter, length, get_elem?, min, max, or_else, if◌then◌else◌,
}
use conference_operator.Common.Int.{ℤ, pos, negsuc, sub_ℕ, ltb_ℤ, add_ℤ}

pub record Frame : Type 0 where
  pub ms : ℕ
  pub db : Option ℤ

pub record Silence : Type 0 where
  pub start_ms : ℕ
  pub end_ms : ℕ

abbrev pub frame_ms : ℕ
frame_ms = 50

abbrev pub silence_margin_db : ℕ
silence_margin_db = 6000

abbrev pub min_silence_ms : ℕ
min_silence_ms = 350

-- The finite levels of the frames.
abbrev levels_of : List Frame → List ℤ
levels_of [] = []
levels_of (f ∷ frames) = elim f.db [ none ↦ levels_of frames | some db ↦ db ∷ levels_of frames ]

unfoldable pub insert_level : ℤ → List ℤ → List ℤ
insert_level x [] = x ∷ []
insert_level x (y ∷ ys) =
    let later = insert_level x ys in if ltb_ℤ y x then y ∷ later else x ∷ y ∷ ys

-- `sort((a, b) => a - b)`
unfoldable pub sort_levels : List ℤ → List ℤ
unfolding insert_level
sort_levels [] = []
sort_levels (x ∷ xs) = insert_level x (sort_levels xs)

unfoldable pub noise_floor : List Frame → ℤ
unfolding sort_levels
noise_floor frames =
    let levels = sort_levels (levels_of frames) in
    or_else (get_elem? levels ((length levels - 1) / 10)) (negsuc 119999)

-- `!Number.isFinite(frame.db) || frame.db <= thresholdDb`
abbrev pub is_quiet : ℤ → Frame → Bool
is_quiet threshold_db f = elim f.db [ none ↦ true | some db ↦ not (ltb_ℤ threshold_db db) ]

-- `if (start != null && until - start >= minMs) found.push(…)`
abbrev pub closed : ℕ → Option ℕ → ℕ → List Silence
closed min_ms none until = []
closed min_ms (some start) until =
    if leb (min_ms + start) until then record { start_ms = start; end_ms = until } ∷ [] else []

-- `if (quiet && start == null) start = frame.ms`
abbrev pub started : Option ℕ → ℕ → Option ℕ
started none ms = some ms
started (some start) ms = some start

-- The loop of `silences`, with its variables `start` and `last`.
unfoldable pub scan : ℤ → ℕ → ℕ → List Frame → Option ℕ → ℕ → List Silence
scan threshold_db min_ms step_ms [] start last = closed min_ms start last
scan threshold_db min_ms step_ms (f ∷ frames) start last =
    let quiet_rest =
      scan threshold_db min_ms step_ms frames (started start f.ms) (f.ms + step_ms) in
    let loud_rest = scan threshold_db min_ms step_ms frames none (f.ms + step_ms) in
    if is_quiet threshold_db f then quiet_rest else closed min_ms start f.ms ++ loud_rest

unfoldable pub silences : List Frame → ℤ → ℕ → ℕ → List Silence
unfolding scan
silences frames threshold_db min_ms step_ms = scan threshold_db min_ms step_ms frames none 0

unfoldable pub silences_of : List Frame → ℤ × List Silence
unfolding noise_floor silences
silences_of frames =
    let floor_db = noise_floor frames in
    (floor_db, silences frames (add_ℤ floor_db silence_margin_db) min_silence_ms frame_ms)

pub record Snapped : Type 0 where
  pub ms : ℕ
  pub calee : Bool
  pub shift_ms : ℤ

-- `nearest` is false when absent.
pub record SnapWindow : Type 0 where
  pub before_ms : ℕ
  pub after_ms : ℕ
  pub nearest : Bool

abbrev pub lead_ms : ℕ
lead_ms = 250

abbrev pub tail_ms : ℕ
tail_ms = 400

-- `Math.abs(a - b)`
abbrev distance : ℕ → ℕ → ℕ
distance a b = (a - b) + (b - a)

-- `reduce((a, b) => (better(b, a) ? b : a))` from a first candidate.
unfoldable pub pick : (Silence → Silence → Bool) → Silence → List Silence → Silence
pick better a [] = a
pick better a (b ∷ rest) = pick better (if better b a then b else a) rest

abbrev kept : ℕ → Snapped
kept mark_ms = record { ms = mark_ms; calee = false; shift_ms = pos 0 }

abbrev moved : ℕ → ℕ → Snapped
moved mark_ms ms = record { ms = ms; calee = true; shift_ms = sub_ℕ ms mark_ms }

-- `t >= markMs - beforeMs && t <= markMs + afterMs`
abbrev pub in_window : ℕ → SnapWindow → ℕ → Bool
in_window mark_ms window t = leb mark_ms (t + window.before_ms) && leb t (mark_ms + window.after_ms)

abbrev pub start_better : ℕ → SnapWindow → Silence → Silence → Bool
start_better mark_ms window b a =
    if window.nearest
    then ltb (distance b.end_ms mark_ms) (distance a.end_ms mark_ms)
    else ltb a.end_ms b.end_ms

abbrev pub end_better : ℕ → SnapWindow → Silence → Silence → Bool
end_better mark_ms window b a =
    if window.nearest
    then ltb (distance b.start_ms mark_ms) (distance a.start_ms mark_ms)
    else ltb b.start_ms a.start_ms

abbrev pub start_at : Silence → ℕ
start_at pause = max pause.start_ms (pause.end_ms - lead_ms)

abbrev pub end_at : Silence → ℕ
end_at pause = min pause.end_ms (pause.start_ms + tail_ms)

unfoldable pub snap_start : ℕ → List Silence → SnapWindow → Snapped
snap_start mark_ms found window = elim (filter (λ s. in_window mark_ms window s.end_ms) found) [
  | [] ↦ kept mark_ms
  | c ∷ rest ↦ moved mark_ms (start_at (pick (start_better mark_ms window) c rest))
]

unfoldable pub snap_end : ℕ → List Silence → SnapWindow → Snapped
snap_end mark_ms found window = elim (filter (λ s. in_window mark_ms window s.start_ms) found) [
  | [] ↦ kept mark_ms
  | c ∷ rest ↦ moved mark_ms (end_at (pick (end_better mark_ms window) c rest))
]

abbrev snapped_or : Option Snapped → ℕ → ℕ
snapped_or none ms = ms
snapped_or (some s) ms = s.ms

-- `cut` and the result are stretches of the take, as silences are.
unfoldable pub snap_cut : Silence → Option Snapped → Option Snapped → Silence
snap_cut cut start end =
    let start_ms = snapped_or start cut.start_ms in
    let end_ms = snapped_or end cut.end_ms in
    if ltb start_ms end_ms then record { start_ms = start_ms; end_ms = end_ms } else cut

abbrev pub tail_pause_ms : ℕ
tail_pause_ms = 5000

abbrev pub tail_span_ms : ℕ
tail_span_ms = 120000

abbrev pub speech_bridge_ms : ℕ
speech_bridge_ms = 1000

-- A frame that the first loop of `tailPause` reads as speech before the end.
abbrev pub is_speech : ℤ → ℕ → Frame → Bool
is_speech threshold_db end_ms f = ltb f.ms end_ms && not (is_quiet threshold_db f)

-- The stretches of speech, with the last one still open.
unfoldable pub spans_from : ℤ → ℕ → ℕ → List Frame → Option Silence → List Silence
spans_from threshold_db end_ms step_ms [] none = []
spans_from threshold_db end_ms step_ms [] (some last) = last ∷ []
spans_from threshold_db end_ms step_ms (f ∷ frames) none =
    let rest = spans_from threshold_db end_ms step_ms frames none in
    let opened =
      spans_from threshold_db end_ms step_ms frames
        (some (record { start_ms = f.ms; end_ms = f.ms + step_ms })) in
    if is_speech threshold_db end_ms f then opened else rest
spans_from threshold_db end_ms step_ms (f ∷ frames) (some last) =
    let rest = spans_from threshold_db end_ms step_ms frames (some last) in
    let longer =
      spans_from threshold_db end_ms step_ms frames
        (some (record last { end_ms = f.ms + step_ms })) in
    let opened =
      spans_from threshold_db end_ms step_ms frames
        (some (record { start_ms = f.ms; end_ms = f.ms + step_ms })) in
    if not (is_speech threshold_db end_ms f)
    then rest
    else if leb f.ms (last.end_ms + speech_bridge_ms)
    then longer
    else last ∷ opened

pub record TailPause : Type 0 where
  pub at_ms : ℕ
  pub duration_ms : ℕ

-- The second loop, over the neighbouring spans.
unfoldable pub first_pause : ℕ → List Silence → Option TailPause
first_pause end_ms [] = none
first_pause end_ms (a ∷ []) = none
first_pause end_ms (a ∷ b ∷ spans) =
    let rest = first_pause end_ms (b ∷ spans) in
    if leb (a.end_ms + tail_pause_ms) b.start_ms && ltb end_ms (a.end_ms + tail_span_ms)
    then some (record { at_ms = a.end_ms; duration_ms = b.start_ms - a.end_ms })
    else rest

unfoldable pub tail_pause : List Frame → ℤ → ℕ → ℕ → Option TailPause
unfolding spans_from first_pause
tail_pause frames floor_db end_ms step_ms =
    first_pause end_ms (spans_from (add_ℤ floor_db 10000) end_ms step_ms frames none)
