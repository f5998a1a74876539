-- ===== src/Watchdog.antt =====
-- apps/room-client/src/core/audio-watchdog.ts: whether the microphones of a talk that is recorded
-- come in. A level is in thousandths of a decibel. A map is a list of its entries in the order of
-- their insertion; an alert is keyed by its kind and its input.
pub mod Maps
pub mod Judge
pub mod Verdict
pub mod Runs
pub mod Says
pub mod Trace
use conference_operator.Common.{
  ℕ, ◌+◌, String, Bool, true, false, not, ◌&&◌, ◌||◌, Option, none, some, List, [], ◌∷◌, ◌++◌,
  str_eq, leb, ltb, filter, find?, map, length, is_some, or_else, if◌then◌else◌,
}
use conference_operator.Common.Maps.{get, set, delete}
use conference_operator.Common.Int.{ℤ, negsuc, ltb_ℤ}

pub data AlertKind : Type 0 where
  muet silence saturation : AlertKind

pub record AudioAlert : Type 0 where
  pub kind : AlertKind
  pub input : String
  pub since : ℕ

pub record WatchdogSettings : Type 0 where
  pub every_ms : ℕ
  pub for_ms : ℕ
  pub silence_db : ℤ
  pub silent_samples : ℕ
  pub clip_db : ℤ

abbrev pub default_watchdog : WatchdogSettings
default_watchdog = record {
  every_ms = 30000;
  for_ms = 5000;
  silence_db = negsuc 49999;
  silent_samples = 2;
  clip_db = negsuc 999;
}

pub record Input : Type 0 where
  pub name : String
  pub muted : Bool

pub record WatchdogContext : Type 0 where
  pub active : Bool
  pub inputs : List Input

pub record Heard : Type 0 where
  pub magnitude : ℤ
  pub peak : ℤ

pub record InputLevel : Type 0 where
  pub name : String
  pub channels : List Heard

-- The fields of the class, and what it has given to `onChange`.
pub record AudioWatchdog : Type 0 where
  pub active : Bool
  pub sample_start : Option ℕ
  pub next_sample : ℕ
  pub heard : List (String × Heard)
  pub silent_runs : List (String × ℕ)
  pub alerts : List AudioAlert
  pub watched : List String
  pub notified : List (List AudioAlert)

abbrev pub same_kind : AlertKind → AlertKind → Bool
same_kind muet muet = true
same_kind silence silence = true
same_kind saturation saturation = true
same_kind _ _ = false

abbrev pub has_key_of : AlertKind → String → AudioAlert → Bool
has_key_of kind input a = same_kind a.kind kind && str_eq a.input input

-- `alerts.has(key)`
abbrev pub has_alert : AlertKind → String → List AudioAlert → Bool
has_alert kind input [] = false
has_alert kind input (a ∷ alerts) = has_key_of kind input a || has_alert kind input alerts

-- `next.set(key, alert)`
unfoldable pub set_alert : AudioAlert → List AudioAlert → List AudioAlert
set_alert a [] = a ∷ []
set_alert a (b ∷ next) =
    let rest = set_alert a next in if has_key_of a.kind a.input b then a ∷ next else b ∷ rest

abbrev pub contains_name : List String → String → Bool
contains_name [] name = false
contains_name (n ∷ names) name = str_eq n name || contains_name names name

abbrev max_ℤ : ℤ → ℤ → ℤ
max_ℤ a b = if ltb_ℤ a b then b else a

abbrev louder : Heard → Heard → Heard
louder a b = record { magnitude = max_ℤ a.magnitude b.magnitude; peak = max_ℤ a.peak b.peak }

abbrev db_floor : Heard
db_floor = record { magnitude = negsuc 59999; peak = negsuc 59999 }

-- The `reduce` over the channels, from the display floor.
abbrev loudest : Heard → List Heard → Heard
loudest a [] = a
loudest a (c ∷ channels) = loudest (louder a c) channels

abbrev push_level : InputLevel → AudioWatchdog → AudioWatchdog
push_level level w =
    if not (contains_name w.watched level.name)
    then w
    else let now_heard = loudest db_floor level.channels in
      record w {
        heard =
            set level.name
              (elim (get level.name w.heard) [
                | none ↦ now_heard
                | some before ↦ louder before now_heard
              ])
              w.heard;
      }

abbrev push_levels : List InputLevel → AudioWatchdog → AudioWatchdog
push_levels [] w = w
push_levels (level ∷ levels) w = push_levels levels (push_level level w)

unfoldable pub push : List InputLevel → AudioWatchdog → AudioWatchdog
unfolding set
push levels w = if is_some w.sample_start then push_levels levels w else w

unfoldable pub listening : AudioWatchdog → Bool
listening w = is_some w.sample_start

abbrev all_known : List AudioAlert → List AudioAlert → Bool
all_known alerts [] = true
all_known alerts (a ∷ next) = has_alert a.kind a.input alerts && all_known alerts next

abbrev same_length : List AudioAlert → List AudioAlert → Bool
same_length next alerts = leb (length next) (length alerts) && leb (length alerts) (length next)

-- The private `#set`.
unfoldable pub set_alerts : List AudioAlert → AudioWatchdog → AudioWatchdog
set_alerts next w = record w {
  alerts = next;
  notified =
      if same_length next w.alerts && all_known w.alerts next
      then w.notified
      else w.notified ++ (next ∷ []);
}

unfoldable pub stop_watching : AudioWatchdog → AudioWatchdog
unfolding set_alerts
stop_watching w =
    set_alerts [] (record w { active = false; sample_start = none; heard = []; silent_runs = [] })

-- `keep(kind, input)`, over the alerts that stood and the next ones.
unfoldable pub keep : ℕ → List AudioAlert → AlertKind → String → List AudioAlert → List AudioAlert
unfolding set_alert
keep now_ms alerts kind input next =
    set_alert
      (or_else (find? (has_key_of kind input) alerts)
        (record { kind = kind; input = input; since = now_ms }))
      next

abbrev pub keep_if :
    Bool → ℕ → List AudioAlert → AlertKind → String → List AudioAlert → List AudioAlert
keep_if test now_ms alerts kind input next =
    if test then keep now_ms alerts kind input next else next

unfoldable pub keep_muted : ℕ → List AudioAlert → List Input → List AudioAlert → List AudioAlert
unfolding keep
keep_muted now_ms alerts [] next = next
keep_muted now_ms alerts (i ∷ inputs) next =
    keep_muted now_ms alerts inputs (keep_if i.muted now_ms alerts muet i.name next)

-- What the loop over the inputs has come to.
pub record Judged : Type 0 where
  pub runs : List (String × ℕ)
  pub next : List AudioAlert

-- Between two verdicts, what was heard last still stands.
abbrev pub standing : ℕ → List AudioAlert → String → List AudioAlert → List AudioAlert
standing now_ms alerts name next =
    keep_if (has_alert saturation name alerts) now_ms alerts saturation name
      (keep_if (has_alert silence name alerts) now_ms alerts silence name next)

module _ (settings : WatchdogSettings) (now_ms : ℕ) where
  abbrev pub new_run : Heard → String → List (String × ℕ) → ℕ
  new_run h name runs =
      if ltb_ℤ settings.silence_db h.magnitude then 0 else or_else (get name runs) 0 + 1

  abbrev pub verdict : List AudioAlert → Heard → String → Judged → Judged
  verdict alerts h name j =
      let run = new_run h name j.runs in
      record {
        runs = set name run j.runs;
        next =
            keep_if (not (ltb_ℤ h.peak settings.clip_db)) now_ms alerts saturation name
              (keep_if (leb settings.silent_samples run) now_ms alerts silence name j.next);
      }

  unfoldable pub judge : List AudioAlert → List (String × Heard) → Bool → Input → Judged → Judged
  unfolding keep
  judge alerts heard sample_ended i j =
      if i.muted
      then record j { runs = delete i.name j.runs }
      else if not sample_ended
      then record j { next = standing now_ms alerts i.name j.next }
      else elim (get i.name heard) [
        | none ↦ record j { next = standing now_ms alerts i.name j.next }
        | some h ↦ verdict alerts h i.name j
      ]

  unfoldable pub judge_all :
      List AudioAlert → List (String × Heard) → Bool → List Input → Judged → Judged
  unfolding judge
  judge_all alerts heard sample_ended [] j = j
  judge_all alerts heard sample_ended (i ∷ inputs) j =
      judge_all alerts heard sample_ended inputs (judge alerts heard sample_ended i j)

  -- `tick` up to the loop: the pass becomes active, and a sample starts when it is time.
  unfoldable pub begin : List Input → AudioWatchdog → AudioWatchdog
  begin inputs w =
      let due = if w.active then w.next_sample else now_ms in
      let on = record w { active = true; next_sample = due; watched = map (λ i. i.name) inputs } in
      if not (is_some w.sample_start) && leb due now_ms
      then record on { sample_start = some now_ms; heard = [] }
      else on

  abbrev pub ended : Option ℕ → Bool
  ended none = false
  ended (some start) = leb (start + settings.for_ms) now_ms

  -- `tick` from the end of the loop on.
  unfoldable pub conclude : Judged → AudioWatchdog → AudioWatchdog
  unfolding set_alerts
  conclude j w =
      let judged = record w { silent_runs = j.runs } in
      set_alerts j.next (elim w.sample_start [
        | none ↦ judged
        | some start ↦
            if leb (start + settings.for_ms) now_ms
            then record judged { next_sample = start + settings.every_ms; sample_start = none }
            else judged
      ])

  unfoldable pub tick : WatchdogContext → AudioWatchdog → AudioWatchdog
  unfolding stop_watching begin judge_all keep_muted conclude
  tick context w =
      if not context.active
      then (if w.active then stop_watching w else w)
      else let begun = begin context.inputs w in
        conclude
          (judge_all w.alerts begun.heard (ended begun.sample_start) context.inputs
            (record { runs = w.silent_runs; next = keep_muted now_ms w.alerts context.inputs [] }))
          begun

pub record Source : Type 0 where
  pub name : String
  pub muted : Bool
  pub capture : Option Bool

abbrev is_capture : Source → Bool
is_capture s = or_else s.capture false

abbrev as_input : Source → Input
as_input s = record { name = s.name; muted = s.muted }

unfoldable pub watched_inputs : List Source → Option String → List Input
watched_inputs sources none = map as_input (filter is_capture sources)
watched_inputs sources (some named) = elim (find? (λ s. str_eq s.name named) sources) [
  | none ↦ []
  | some s ↦ as_input s ∷ []
]
