-- ===== src/Watchdog/Verdict.antt =====
-- What the alerts of apps/room-client/src/core/audio-watchdog.ts say.
use conference_operator.Common.{
  ℕ, ◌+◌, ◌≤◌, ◌<◌, ◌≡◌, ◌≢◌, ◌↔◌, refl, sym, ap, ◌∙◌, String, true, false, some, [], arith,
  or_else, if◌then◌else◌, Option-cases, inl, inr, leb, In, Pairwise,
}
use conference_operator.Common.Int.{ltb_ℤ}
use conference_operator.Common.Maps.{get}
use conference_operator.Watchdog.{
  muet, silence, WatchdogSettings, WatchdogContext, AudioWatchdog, Input, Heard, has_alert,
  keep_muted, new_run, Judged, judge_all, begin, ended, conclude, tick, set_alerts,
}
use conference_operator.Watchdog.Says.{judge_all-says}
use conference_operator.Watchdog.Judge.{
  has_alert-keep_muted, keep_muted-other, judge_all-muet, judge_all-silence,
}

module _ (settings : WatchdogSettings) (now_ms : ℕ) (context : WatchdogContext)
    (w : AudioWatchdog) where
  abbrev first : Judged
  first = record { runs = w.silent_runs; next = keep_muted now_ms w.alerts context.inputs [] }

  abbrev judged : Judged
  judged =
      let begun = begin settings now_ms context.inputs w in
      judge_all settings now_ms w.alerts begun.heard (ended settings now_ms begun.sample_start)
        context.inputs first

  conclude-alerts :
      (j : Judged) (v : AudioWatchdog) → (conclude settings now_ms j v).alerts ≡ j.next
  unfolding conclude set_alerts
  conclude-alerts j v = refl

  tick-alerts : context.active ≡ true → (tick settings now_ms context w).alerts ≡ judged.next
  unfolding tick
  tick-alerts on = rw on (conclude-alerts judged (begin settings now_ms context.inputs w))

  -- While a talk is recorded, an input is said muted exactly when OBS mutes it, at each tick,
  -- whatever was heard.
  pub tick-muet_iff :
      (i : String)
      → context.active ≡ true
      → (has_alert muet i (tick settings now_ms context w).alerts ≡ true)
        ↔ ((n : Input) × In n context.inputs × (n.muted ≡ true) × (n.name ≡ i))
  tick-muet_iff i on =
      let begun = begin settings now_ms context.inputs w in
      let same =
        judge_all-muet settings now_ms w.alerts begun.heard
          (ended settings now_ms begun.sample_start) context.inputs first i in
      let (to, from) = has_alert-keep_muted now_ms w.alerts context.inputs [] i in
      rw (tick-alerts on, same)
        (
          λ h. elim (to h) [ inl never ↦ absurd (ground arith) | inr found ↦ found ],
          λ h. from (inr h),
        )

  -- A sample that begins now has heard nothing yet.
  begin-heard :
      (i : String) (h : Heard)
      → ended settings now_ms (begin settings now_ms context.inputs w).sample_start ≡ true
      → get i (begin settings now_ms context.inputs w).heard ≡ some h
      → (start : ℕ) × (w.sample_start ≡ some start)
        × (start + settings.for_ms ≤ now_ms)
        × (get i w.heard ≡ some h)
  unfolding begin
  begin-heard i h late e = elim (Option-cases w.sample_start) [
    | inl idle ↦ absurd (ground (arith, idle))
    | inr (start, under_way) ↦
        (start, under_way, ground (arith, under_way), ground (arith, under_way))
  ]

  begin-under_way :
      (start : ℕ)
      → w.sample_start ≡ some start
      → ((begin settings now_ms context.inputs w).sample_start ≡ some start)
        × ((begin settings now_ms context.inputs w).heard ≡ w.heard)
  unfolding begin
  begin-under_way start on = rw on (refl, refl)

  -- An input that is not muted, was heard in a sample that has lasted its time, and whose run of silent
  -- samples is then long enough, is said silent.
  pub tick-says :
      (n : Input) (h : Heard) (start : ℕ)
      → context.active ≡ true
      → Pairwise (λ a b. a.name ≢ b.name) context.inputs
      → In n context.inputs
      → n.muted ≡ false
      → w.sample_start ≡ some start
      → start + settings.for_ms ≤ now_ms
      → get n.name w.heard ≡ some h
      → leb settings.silent_samples (new_run settings now_ms h n.name w.silent_runs) ≡ true
      → has_alert silence n.name (tick settings now_ms context w).alerts ≡ true
  tick-says n h start on distinct there live began long was enough =
      let begun = begin settings now_ms context.inputs w in
      let (still, kept) = begin-under_way start began in
      let late : leb (start + settings.for_ms) now_ms ≡ true = ground (arith, long) in
      ap (λ l. has_alert silence n.name l) (tick-alerts on)
      ∙ judge_all-says settings now_ms w.alerts begun.heard
          (ended settings now_ms begun.sample_start) context.inputs first n h distinct there live
          (ap (ended settings now_ms) still ∙ late) (ap (get n.name) kept ∙ was) enough

  -- An input is newly said silent only when a sample has lasted its time, the input is not muted and
  -- was heard in it, no louder than the threshold, and so many samples in a row were silent.
  pub tick-silence :
      (i : String)
      → 0 < settings.silent_samples
      → context.active ≡ true
      → Pairwise (λ m n. m.name ≢ n.name) context.inputs
      → has_alert silence i w.alerts ≡ false
      → has_alert silence i (tick settings now_ms context w).alerts ≡ true
      → ((n : Input) × In n context.inputs × (n.name ≡ i) × (n.muted ≡ false))
        × ((start : ℕ) × (w.sample_start ≡ some start) × (start + settings.for_ms ≤ now_ms))
        × ((h : Heard) × (get i w.heard ≡ some h) × (ltb_ℤ settings.silence_db h.magnitude ≡ false))
        × (settings.silent_samples ≤ or_else (get i w.silent_runs) 0 + 1)
  tick-silence i some_samples on distinct before now =
      let begun = begin settings now_ms context.inputs w in
      let last = ended settings now_ms begun.sample_start in
      let said =
        judge_all-silence settings now_ms w.alerts begun.heard last context.inputs first i distinct
          (ap (λ l. has_alert silence i l) (sym (tick-alerts on)) ∙ now) in
      elim said [
        | inl old ↦ absurd (fresh (keep_muted-other now_ms w.alerts context.inputs [] i) old)
        | inr (n, there, same, live, inl stood) ↦ absurd (ground arith)
        | inr (n, there, same, live, inr (late, (h, e, enough))) ↦
            let (start, under_way, long, was) = begin-heard i h late e in
            (
              (n, there, same, live),
              (start, under_way, long),
              (h, was, quiet h enough),
              run h enough,
            )
      ]
    where
      fresh :
          has_alert silence i (keep_muted now_ms w.alerts context.inputs []) ≡ false
          → has_alert silence i (keep_muted now_ms w.alerts context.inputs []) ≡ true
          → ⊥
      fresh a b = ground arith

      quiet :
          (h : Heard)
          → leb settings.silent_samples (
              if ltb_ℤ settings.silence_db h.magnitude
              then 0
              else or_else (get i w.silent_runs) 0 + 1)
            ≡ true
          → ltb_ℤ settings.silence_db h.magnitude ≡ false
      quiet h enough = ground arith

      run :
          (h : Heard)
          → leb settings.silent_samples (
              if ltb_ℤ settings.silence_db h.magnitude
              then 0
              else or_else (get i w.silent_runs) 0 + 1)
            ≡ true
          → settings.silent_samples ≤ or_else (get i w.silent_runs) 0 + 1
      run h enough = ground arith
