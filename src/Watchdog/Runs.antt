-- ===== src/Watchdog/Runs.antt =====
-- The samples in a row of apps/room-client/src/core/audio-watchdog.ts, against what was heard in each.
use conference_operator.Common.{
  ℕ, zero, suc, ◌+◌, ◌≡◌, ◌≢◌, refl, sym, ap, ◌∙◌, String, Bool, true, false, not, none, some, List,
  [], ◌∷◌, arith, str_eq, eq_iff, find?, or_else, leb, if◌then◌else◌, Bool-cases, Option-cases, inl,
  inr, All, Pairwise,
}
use conference_operator.Common.Int.{ltb_ℤ}
use conference_operator.Common.Maps.{get, get-set, get-delete}
use conference_operator.Watchdog.{
  AudioAlert, WatchdogSettings, WatchdogContext, AudioWatchdog, Input, Heard, Judged, judge,
  judge_all, keep_muted, begin, ended, conclude, tick, set_alerts, stop_watching,
}
use conference_operator.Watchdog.Judge.{judge-run_other}

-- What a tick learns of an input: nothing, that the count starts again, or what a sample heard of it.
pub data Mark : Type 0 where
  nothing forgotten : Mark
  sampled : Heard → Mark

abbrev pub named : String → Input → Bool
named i n = str_eq n.name i

-- What the sample under way has heard of an input, when it has lasted its time.
abbrev pub heard_by : WatchdogSettings → ℕ → AudioWatchdog → String → Mark
heard_by settings now_ms w i = elim w.sample_start [
  | none ↦ nothing
  | some start ↦
      if leb (start + settings.for_ms) now_ms
      then elim (get i w.heard) [ none ↦ nothing | some h ↦ sampled h ]
      else nothing
]

unfoldable pub mark_of : WatchdogSettings → ℕ → WatchdogContext → AudioWatchdog → String → Mark
mark_of settings now_ms context w i =
    if not context.active
    then (if w.active then forgotten else nothing)
    else elim (find? (named i) context.inputs) [
      | none ↦ nothing
      | some n ↦ if n.muted then forgotten else heard_by settings now_ms w i
    ]

-- Of the marks, the newest first, the first `n` samples are silent, and no count starts again among
-- them.
unfoldable pub LastSilent : WatchdogSettings → ℕ → List Mark → Type 0
LastSilent settings zero marks = Unit
LastSilent settings (suc n) [] = ⊥
LastSilent settings (suc n) (nothing ∷ marks) = LastSilent settings (suc n) marks
LastSilent settings (suc n) (forgotten ∷ marks) = ⊥
LastSilent settings (suc n) (sampled h ∷ marks) =
    (ltb_ℤ settings.silence_db h.magnitude ≡ false) × LastSilent settings n marks

abbrev pub run_of : String → AudioWatchdog → ℕ
run_of i w = or_else (get i w.silent_runs) 0

-- A run after a mark.
abbrev pub run_after : WatchdogSettings → Mark → ℕ → ℕ
run_after settings nothing r = r
run_after settings forgotten r = 0
run_after settings (sampled h) r = if ltb_ℤ settings.silence_db h.magnitude then 0 else r + 1

module _ (settings : WatchdogSettings) (now_ms : ℕ) (alerts : List AudioAlert)
    (heard : List (String × Heard)) (sample_ended : Bool) where
  abbrev judged_mark : Input → Mark
  judged_mark n =
      if n.muted
      then forgotten
      else if not sample_ended
      then nothing
      else elim (get n.name heard) [ none ↦ nothing | some h ↦ sampled h ]

  judge-run :
      (n : Input) (j : Judged)
      → or_else (get n.name (judge settings now_ms alerts heard sample_ended n j).runs) 0
        ≡ run_after settings (judged_mark n) (or_else (get n.name j.runs) 0)
  unfolding judge
  judge-run n j = elim (Bool-cases n.muted) [
    | inl muted ↦ rw muted (ap (λ o. or_else o 0) (get-delete n.name j.runs))
    | inr live ↦ elim (Bool-cases sample_ended) [
      | inr early ↦ rw (live, early) refl
      | inl late ↦ elim (Option-cases (get n.name heard)) [
        | inl deaf ↦ rw (live, late, deaf) refl
        | inr (h, e) ↦ rw (live, late, e) (ap (λ o. or_else o 0) (get-set n.name _ j.runs))
      ]
    ]
  ]

  judge_all-run_other :
      (inputs : List Input) (j : Judged) (i : String)
      → All (λ n. i ≢ n.name) inputs
      → get i (judge_all settings now_ms alerts heard sample_ended inputs j).runs ≡ get i j.runs
  unfolding judge_all
  judge_all-run_other [] j i apart = refl
  judge_all-run_other (n ∷ inputs) j i (ne, apart) =
      judge_all-run_other inputs (judge settings now_ms alerts heard sample_ended n j) i apart
      ∙ judge-run_other settings now_ms alerts heard sample_ended n j i (λ e. ne (sym e))

  -- The mark of the input with this name.
  abbrev mark_in : List Input → String → Mark
  mark_in inputs i = elim (find? (named i) inputs) [ none ↦ nothing | some n ↦ judged_mark n ]

  mark_in-own :
      (n : Input) (inputs : List Input) (i : String)
      → str_eq n.name i ≡ true
      → mark_in (n ∷ inputs) i ≡ judged_mark n
  mark_in-own n inputs i own = rw (own, mark_in) refl

  mark_in-other :
      (n : Input) (inputs : List Input) (i : String)
      → str_eq n.name i ≡ false
      → mark_in (n ∷ inputs) i ≡ mark_in inputs i
  mark_in-other n inputs i other = rw (other, mark_in) refl

  judge_all-run :
      (inputs : List Input) (j : Judged) (i : String)
      → Pairwise (λ m n. m.name ≢ n.name) inputs
      → or_else (get i (judge_all settings now_ms alerts heard sample_ended inputs j).runs) 0
        ≡ run_after settings (mark_in inputs i) (or_else (get i j.runs) 0)
  unfolding judge_all
  judge_all-run [] j i distinct = refl
  judge_all-run (n ∷ inputs) j i (apart, distinct) = elim (Bool-cases (str_eq n.name i)) [
    | inl own ↦
        let e = (eq_iff n.name i).0 own in
        let far : All (λ (m : Input). i ≢ m.name) inputs = rw e at apart in
        ap (λ o. or_else o 0)
          (judge_all-run_other inputs (judge settings now_ms alerts heard sample_ended n j) i far)
        ∙ rw (← e) (judge-run n j)
        ∙ ap (λ m. run_after settings m (or_else (get i j.runs) 0))
            (sym (mark_in-own n inputs i own))
    | inr other ↦
        judge_all-run inputs (judge settings now_ms alerts heard sample_ended n j) i distinct
        ∙ ap (λ o. run_after settings (mark_in inputs i) (or_else o 0))
            (judge-run_other settings now_ms alerts heard sample_ended n j i
              (λ e. ground (arith, eq_iff n.name i)))
        ∙ ap (λ m. run_after settings m (or_else (get i j.runs) 0))
            (sym (mark_in-other n inputs i other))
  ]

conclude-runs :
    (settings : WatchdogSettings) (now_ms : ℕ) (j : Judged) (w : AudioWatchdog)
    → (conclude settings now_ms j w).silent_runs ≡ j.runs
unfolding conclude set_alerts
conclude-runs settings now_ms j w = elim (Option-cases w.sample_start) [
  | inl idle ↦ rw idle refl
  | inr (start, on) ↦ elim (Bool-cases (leb (start + settings.for_ms) now_ms)) [
    | inl late ↦ rw (on, late) refl
    | inr early ↦ rw (on, early) refl
  ]
]

found_name :
    (i : String) (inputs : List Input) (n : Input)
    → find? (named i) inputs ≡ some n
    → str_eq n.name i ≡ true
found_name i [] n h = cc
found_name i (m ∷ inputs) n h = elim (Bool-cases (str_eq m.name i)) [
  | inl own ↦ let e : some m ≡ some n = rw own at h in let f : m ≡ n = cc in rw (← f) own
  | inr other ↦ found_name i inputs n (rw other at h)
]

module _ (settings : WatchdogSettings) (now_ms : ℕ) (context : WatchdogContext)
    (w : AudioWatchdog) where
  -- A sample that begins at this tick has heard nothing.
  begin-mark :
      (n : Input)
      → let begun = begin settings now_ms context.inputs w in
        judged_mark settings now_ms w.alerts begun.heard
          (ended settings now_ms begun.sample_start)
          n
        ≡ (if n.muted then forgotten else heard_by settings now_ms w n.name)
  unfolding begin
  begin-mark n = elim (Bool-cases n.muted) [
    | inl muted ↦ rw muted refl
    | inr live ↦ elim (Option-cases w.sample_start) [
      | inr (start, on) ↦ elim (Bool-cases (leb (start + settings.for_ms) now_ms)) [
        | inl late ↦ rw (live, on, late) refl
        | inr early ↦ rw (live, on, early) refl
      ]
      | inl idle ↦ elim (Bool-cases (leb (if w.active then w.next_sample else now_ms) now_ms)) [
        | inl due ↦ elim (Bool-cases (leb (now_ms + settings.for_ms) now_ms)) [
          | inl late ↦ rw (live, idle, due, late) refl
          | inr early ↦ rw (live, idle, due, early) refl
        ]
        | inr soon ↦ rw (live, idle, soon) refl
      ]
    ]
  ]

  mark_in-mark_of :
      (i : String)
      → context.active ≡ true
      → let begun = begin settings now_ms context.inputs w in
        mark_in settings now_ms w.alerts begun.heard
          (ended settings now_ms begun.sample_start)
          context.inputs
          i
        ≡ mark_of settings now_ms context w i
  unfolding mark_of
  mark_in-mark_of i on = elim (Option-cases (find? (named i) context.inputs)) [
    | inl absent ↦ rw (on, absent, mark_in) refl
    | inr (n, found) ↦
        let e : n.name ≡ i = (eq_iff n.name i).0 (found_name i context.inputs n found) in
        rw (on, found, mark_in) (begin-mark n ∙ rw e refl)
  ]

  active-runs :
      (i : String)
      → context.active ≡ true
      → let begun = begin settings now_ms context.inputs w in
        run_of i (tick settings now_ms context w)
        ≡ run_of i (
            conclude settings now_ms
              (judge_all settings now_ms w.alerts begun.heard
                (ended settings now_ms begun.sample_start)
                context.inputs
                (record {
                  runs = w.silent_runs;
                  next = keep_muted now_ms w.alerts context.inputs [];
                }))
              begun)
  unfolding tick
  active-runs i on = rw on refl

  pub tick-run_of :
      (i : String)
      → Pairwise (λ m n. m.name ≢ n.name) context.inputs
      → run_of i (tick settings now_ms context w)
        ≡ run_after settings (mark_of settings now_ms context w i) (run_of i w)
  unfolding tick mark_of stop_watching set_alerts
  tick-run_of i distinct = elim (Bool-cases context.active) [
    | inr off ↦ elim (Bool-cases w.active) [
      | inl stops ↦ rw (off, stops) refl
      | inr idle ↦ rw (off, idle) refl
    ]
    | inl on ↦
        let begun = begin settings now_ms context.inputs w in
        let first : Judged = record {
          runs = w.silent_runs;
          next = keep_muted now_ms w.alerts context.inputs [];
        } in
        let last = ended settings now_ms begun.sample_start in
        let all = judge_all settings now_ms w.alerts begun.heard last context.inputs first in
        active-runs i on
        ∙ ap (λ rs. or_else (get i rs) 0) (conclude-runs settings now_ms all begun)
        ∙ judge_all-run settings now_ms w.alerts begun.heard last context.inputs first i distinct
        ∙ ap (λ m. run_after settings m (run_of i w)) (mark_in-mark_of i on)
  ]
