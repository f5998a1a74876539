-- ===== src/Watchdog/Says.antt =====
-- When the loop of `tick` of apps/room-client/src/core/audio-watchdog.ts says an input silent.
use conference_operator.Common.{
  ℕ, ◌+◌, ◌≡◌, ◌≢◌, sym, String, Bool, true, false, not, Option, some, List, [], ◌∷◌, arith,
  eq_refl, or_else, leb, if◌then◌else◌, Bool-cases, Option-cases, inl, inr, In, All-In, Pairwise,
}
use mathlib.Core.Path.{subst}
use conference_operator.Common.Int.{ltb_ℤ}
use conference_operator.Common.Maps.{get}
use conference_operator.Watchdog.{
  silence, saturation, AudioAlert, WatchdogSettings, Input, Heard, has_alert, keep_if, Judged,
  judge, judge_all, standing, verdict, new_run,
}
use conference_operator.Watchdog.Judge.{has_alert-keep_if, judge-run_other}

module _ (settings : WatchdogSettings) (now_ms : ℕ) (alerts : List AudioAlert)
    (heard : List (String × Heard)) (sample_ended : Bool) where
  stands-keeps :
      (name i : String) (next : List AudioAlert)
      → has_alert silence i next ≡ true
      → has_alert silence i (standing now_ms alerts name next) ≡ true
  stands-keeps name i next h =
      let kept = keep_if (has_alert silence name alerts) now_ms alerts silence name next in
      ground (
        arith,
        has_alert-keep_if (has_alert saturation name alerts) now_ms alerts saturation name kept
            silence i,
        has_alert-keep_if (has_alert silence name alerts) now_ms alerts silence name next silence i,
      )

  verdict-keeps :
      (h : Heard) (name i : String) (j : Judged)
      → has_alert silence i j.next ≡ true
      → has_alert silence i (verdict settings now_ms alerts h name j).next ≡ true
  verdict-keeps h name i j said =
      let test = leb settings.silent_samples (new_run settings now_ms h name j.runs) in
      let kept = keep_if test now_ms alerts silence name j.next in
      ground (
        arith,
        has_alert-keep_if (not (ltb_ℤ h.peak settings.clip_db)) now_ms alerts saturation name kept
            silence i,
        has_alert-keep_if test now_ms alerts silence name j.next silence i,
      )

  judge-keeps :
      (n : Input) (j : Judged) (i : String)
      → has_alert silence i j.next ≡ true
      → has_alert silence i (judge settings now_ms alerts heard sample_ended n j).next ≡ true
  unfolding judge
  judge-keeps n j i said = elim (Bool-cases n.muted) [
    | inl muted ↦ rw muted said
    | inr live ↦ elim (Bool-cases sample_ended) [
      | inr early ↦ rw (live, early) (stands-keeps n.name i j.next said)
      | inl late ↦ elim (Option-cases (get n.name heard)) [
        | inl deaf ↦ rw (live, late, deaf) (stands-keeps n.name i j.next said)
        | inr (h, e) ↦ rw (live, late, e) (verdict-keeps h n.name i j said)
      ]
    ]
  ]

  judge_all-keeps :
      (inputs : List Input) (j : Judged) (i : String)
      → has_alert silence i j.next ≡ true
      → has_alert silence i (judge_all settings now_ms alerts heard sample_ended inputs j).next
        ≡ true
  unfolding judge_all
  judge_all-keeps [] j i said = said
  judge_all-keeps (n ∷ inputs) j i said =
      judge_all-keeps inputs (judge settings now_ms alerts heard sample_ended n j) i
        (judge-keeps n j i said)

  judge-says :
      (n : Input) (j : Judged) (h : Heard)
      → n.muted ≡ false
      → sample_ended ≡ true
      → get n.name heard ≡ some h
      → leb settings.silent_samples (new_run settings now_ms h n.name j.runs) ≡ true
      → has_alert silence n.name (judge settings now_ms alerts heard sample_ended n j).next ≡ true
  unfolding judge
  judge-says n j h live late was enough =
      let kept = keep_if true now_ms alerts silence n.name j.next in
      rw (live, late, was, enough)
        (ground (
          arith,
          eq_refl n.name,
          has_alert-keep_if (not (ltb_ℤ h.peak settings.clip_db)) now_ms alerts saturation n.name
              kept silence n.name,
          has_alert-keep_if true now_ms alerts silence n.name j.next silence n.name,
        ))

  -- An input that was heard, and enough samples of it silent, is said silent.
  pub judge_all-says :
      (inputs : List Input) (j : Judged) (n : Input) (h : Heard)
      → Pairwise (λ a b. a.name ≢ b.name) inputs
      → In n inputs
      → n.muted ≡ false
      → sample_ended ≡ true
      → get n.name heard ≡ some h
      → leb settings.silent_samples (new_run settings now_ms h n.name j.runs) ≡ true
      → has_alert silence n.name (judge_all settings now_ms alerts heard sample_ended inputs j).next
        ≡ true
  unfolding judge_all
  judge_all-says [] j n h distinct m live late was enough = elim m [ ]
  judge_all-says (a ∷ inputs) j n h (apart, distinct) (inl same) live late was enough =
      judge_all-keeps inputs (judge settings now_ms alerts heard sample_ended a j) n.name (
        subst
          (λ x.
            has_alert silence n.name (judge settings now_ms alerts heard sample_ended x j).next
            ≡ true)
          same (judge-says n j h live late was enough))
  judge_all-says (a ∷ inputs) j n h (apart, distinct) (inr m) live late was enough =
      judge_all-says inputs (judge settings now_ms alerts heard sample_ended a j) n h distinct m
        live late was
        (subst
          (λ (o : Option ℕ).
            leb settings.silent_samples
              (if ltb_ℤ settings.silence_db h.magnitude then 0 else or_else o 0 + 1)
            ≡ true)
          (sym (
            judge-run_other settings now_ms alerts heard sample_ended a j n.name
              (All-In (λ (b : Input). a.name ≢ b.name) inputs n apart m)))
          enough)
