-- ===== src/Watchdog/Trace.antt =====
-- The watchdog of apps/room-client/src/core/audio-watchdog.ts over the ticks and the levels it is given.
use conference_operator.Common.{
  ℕ, ◌+◌, ◌≤◌, ◌≡◌, ◌≢◌, String, false, none, some, List, [], ◌∷◌, In, Pairwise,
}
use conference_operator.Common.Int.{ltb_ℤ}
use conference_operator.Common.Maps.{get}
use conference_operator.Watchdog.{
  WatchdogSettings, WatchdogContext, AudioWatchdog, Input, InputLevel, Heard, tick, push,
}
use conference_operator.Watchdog.Runs.{Mark, mark_of, LastSilent}

pub data Happening : Type 0 where
  ticked : ℕ → WatchdogContext → Happening
  levels : List InputLevel → Happening

abbrev pub fresh : AudioWatchdog
fresh = record {
  active = false;
  sample_start = none;
  next_sample = 0;
  heard = [];
  silent_runs = [];
  alerts = [];
  watched = [];
  notified = [];
}

-- The watchdog after what happened, the newest first.
unfoldable pub after : WatchdogSettings → List Happening → AudioWatchdog
unfolding tick push
after settings [] = fresh
after settings (ticked now_ms context ∷ happened) =
    tick settings now_ms context (after settings happened)
after settings (levels heard ∷ happened) = push heard (after settings happened)

-- What the ticks learnt of an input, the newest first.
unfoldable pub marks : WatchdogSettings → String → List Happening → List Mark
unfolding mark_of after
marks settings i [] = []
marks settings i (ticked now_ms context ∷ happened) =
    mark_of settings now_ms context (after settings happened) i ∷ marks settings i happened
marks settings i (levels heard ∷ happened) = marks settings i happened

-- At each tick, the inputs have different names.
abbrev pub AreNamed : List Happening → Type 0
AreNamed [] = Unit
AreNamed (ticked now_ms context ∷ happened) =
    Pairwise (λ m n. m.name ≢ n.name) context.inputs × AreNamed happened
AreNamed (levels heard ∷ happened) = AreNamed happened

-- What it takes for an input to be said silent at a tick, after what happened.
pub record IsDeaf (settings : WatchdogSettings) (now_ms : ℕ) (context : WatchdogContext)
    (happened : List Happening) (i : String) : Type 0 where
  pub input : Input
  pub there : In input context.inputs
  pub same : input.name ≡ i
  pub live : input.muted ≡ false
  pub start : ℕ
  pub began : (after settings happened).sample_start ≡ some start
  pub long : start + settings.for_ms ≤ now_ms
  pub heard : Heard
  pub was_heard : get i (after settings happened).heard ≡ some heard
  pub quiet : ltb_ℤ settings.silence_db heard.magnitude ≡ false
  pub in_a_row :
      LastSilent settings settings.silent_samples
        (marks settings i (ticked now_ms context ∷ happened))
