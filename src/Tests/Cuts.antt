-- ===== src/Tests/Cuts.antt =====
-- A take of eleven frames: speech, a pause of half a second, and speech again.
use conference_operator.Common.{ℕ, ◌≡◌, refl, arith, false, none, some, List, [], ◌∷◌}
use conference_operator.Common.Int.{negsuc}
use conference_operator.Cut.{
  Frame, Silence, SnapWindow, TailPause, silences, snap_start, pick, noise_floor,
}
use conference_operator.Cut.Silences.{InOrder}
use conference_operator.Cut.Found.{AreSilences, silences-AreSilences}

abbrev spoken : ℕ → Frame
spoken ms = record { ms = ms; db = some (negsuc 19999) }

abbrev hushed : ℕ → Frame
hushed ms = record { ms = ms; db = some (negsuc 59999) }

abbrev dead : ℕ → Frame
dead ms = record { ms = ms; db = none }

abbrev take_frames : List Frame
take_frames = spoken 0 ∷ hushed 1000 ∷ dead 2000 ∷ hushed 3000 ∷ spoken 9000 ∷ []

take_frames-InOrder : InOrder take_frames
take_frames-InOrder = (
  (omega arith, (omega arith, (omega arith, (omega arith, tt)))),
  (
    (omega arith, (omega arith, (omega arith, tt))),
    ((omega arith, (omega arith, tt)), ((omega arith, tt), (tt, tt))),
  ),
)

abbrev hush : Silence
hush = record { start_ms = 1000; end_ms = 9000 }

silences_run : silences take_frames (negsuc 49999) 350 50 ≡ hush ∷ []
unfolding silences
silences_run = refl

silences-AreSilences_example :
    AreSilences (negsuc 49999) 350 50 take_frames (silences take_frames (negsuc 49999) 350 50)
silences-AreSilences_example =
    silences-AreSilences (negsuc 49999) 350 50 take_frames take_frames-InOrder

abbrev wide : SnapWindow
wide = record { before_ms = 5000; after_ms = 1000; nearest = false }

start_run : (snap_start 9500 (hush ∷ []) wide).ms ≡ 8750
unfolding snap_start pick
start_run = refl

abbrev last_words : TailPause
last_words = record { at_ms = 50; duration_ms = 8950 }

floor_run : noise_floor take_frames ≡ negsuc 59999
unfolding noise_floor
floor_run = refl
