-- ===== src/Tests/Mics.antt =====
-- A microphone that goes silent, and one that is muted.
use conference_operator.Common.{◌≡◌, refl, true, false, List, [], ◌∷◌}
use conference_operator.Common.Int.{negsuc}
use conference_operator.Watchdog.{
  WatchdogContext, Input, Heard, silence, has_alert, default_watchdog,
}
use conference_operator.Watchdog.Trace.{Happening, ticked, levels, after}

abbrev lapel : Input
lapel = record { name = "lapel"; muted = false }

abbrev spare : Input
spare = record { name = "spare"; muted = true }

abbrev talk_on : WatchdogContext
talk_on = record { active = true; inputs = lapel ∷ spare ∷ [] }

abbrev hush : Heard
hush = record { magnitude = negsuc 59999; peak = negsuc 59999 }

abbrev hushed : Happening
hushed = levels (record { name = "lapel"; channels = hush ∷ [] } ∷ [])

-- A sample from 0 to 5 s and one from 30 s on, both silent.
abbrev two_samples : List Happening
two_samples = hushed ∷ ticked 30000 talk_on ∷ ticked 5000 talk_on ∷ hushed ∷ ticked 0 talk_on ∷ []

abbrev as_said : List Happening
as_said = ticked 35000 talk_on ∷ two_samples

silence_run : has_alert silence "lapel" (after default_watchdog as_said).alerts ≡ true
unfolding after
silence_run = refl
