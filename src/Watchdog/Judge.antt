-- ===== src/Watchdog/Judge.antt =====
-- What one input adds to the alerts, in the loop of `tick` of
-- apps/room-client/src/core/audio-watchdog.ts.
use conference_operator.Common.{
  ℕ, ◌+◌, ◌≡◌, ◌≢◌, ◌↔◌, ◌⊎◌, refl, sym, ap, ◌∙◌, String, Bool, true, false, not, ◌&&◌, ◌||◌,
  Option, some, List, [], ◌∷◌, arith, str_eq, eq_iff, eq_refl, or_else, if◌then◌else◌, Bool-cases,
  Option-cases, inl, inr, leb, In, All-In, Pairwise,
}
use conference_operator.Common.Int.{ltb_ℤ}
use mathlib.Core.Path.{subst}
use conference_operator.Common.Maps.{get, get-set_other, get-delete_other}
use conference_operator.Watchdog.{
  AlertKind, muet, silence, saturation, AudioAlert, WatchdogSettings, Input, Heard, same_kind,
  has_alert, keep_if, keep_muted, Judged, standing, new_run, verdict, judge, judge_all,
}
use conference_operator.Watchdog.Maps.{has_alert-keep}

pub has_alert-keep_if :
    (test : Bool) (now_ms : ℕ) (alerts : List AudioAlert) (kind : AlertKind) (input : String)
    (next : List AudioAlert) (k : AlertKind) (i : String)
    → has_alert k i (keep_if test now_ms alerts kind input next)
      ≡ (test && (same_kind kind k && str_eq input i)) || has_alert k i next
has_alert-keep_if true now_ms alerts kind input next k i =
    has_alert-keep now_ms alerts kind input next k i
has_alert-keep_if false now_ms alerts kind input next k i = refl

pub has_alert-keep_muted :
    (now_ms : ℕ) (alerts : List AudioAlert) (inputs : List Input) (next : List AudioAlert)
    (i : String)
    → (has_alert muet i (keep_muted now_ms alerts inputs next) ≡ true) ↔ (
        (has_alert muet i next ≡ true)
        ⊎ ((n : Input) × In n inputs × (n.muted ≡ true) × (n.name ≡ i)))
unfolding keep_muted
has_alert-keep_muted now_ms alerts [] next i = ((λ h. inl h), λ h. ground arith)
has_alert-keep_muted now_ms alerts (n ∷ inputs) next i =
    let (to, from) =
      has_alert-keep_muted now_ms alerts inputs (keep_if n.muted now_ms alerts muet n.name next)
        i in
    let first = has_alert-keep_if n.muted now_ms alerts muet n.name next muet i in
    (
      λ h. elim (to h) [
        | inl before ↦ elim (Bool-cases (has_alert muet i next)) [
          | inl old ↦ inl old
          | inr new ↦
              inr (n, inl refl, ground (arith, first), ground (arith, first, eq_iff n.name i))
        ]
        | inr (m, there, muted, same) ↦ inr (m, inr there, muted, same)
      ],
      λ h. elim h [
        | inl old ↦ from (inl (ground (arith, first)))
        | inr (m, inl here, muted, same) ↦ from (inl (first ∙ hit m here muted same))
        | inr (m, inr there, muted, same) ↦ from (inr (m, there, muted, same))
      ],
    )
  where
    hit :
        (m : Input)
        → m ≡ n
        → m.muted ≡ true
        → m.name ≡ i
        → ((n.muted && (same_kind muet muet && str_eq n.name i)) || has_alert muet i next) ≡ true
    hit m here muted same =
        let on : n.muted ≡ true = ap (λ (x : Input). x.muted) (sym here) ∙ muted in
        let named : n.name ≡ i = ap (λ (x : Input). x.name) (sym here) ∙ same in
        rw (on, named) (ground (arith, eq_refl i))

pub keep_muted-other :
    (now_ms : ℕ) (alerts : List AudioAlert) (inputs : List Input) (next : List AudioAlert)
    (i : String)
    → has_alert silence i (keep_muted now_ms alerts inputs next) ≡ has_alert silence i next
unfolding keep_muted
keep_muted-other now_ms alerts [] next i = refl
keep_muted-other now_ms alerts (n ∷ inputs) next i =
    keep_muted-other now_ms alerts inputs (keep_if n.muted now_ms alerts muet n.name next) i
    ∙ ground (arith, has_alert-keep_if n.muted now_ms alerts muet n.name next silence i)

module _ (settings : WatchdogSettings) (now_ms : ℕ) (alerts : List AudioAlert)
    (heard : List (String × Heard)) (sample_ended : Bool) where
  judge-muet :
      (n : Input) (j : Judged) (i : String)
      → has_alert muet i (judge settings now_ms alerts heard sample_ended n j).next
        ≡ has_alert muet i j.next
  unfolding judge
  judge-muet n j i = elim (Bool-cases n.muted) [
    | inl muted ↦ rw muted refl
    | inr live ↦ elim (Bool-cases sample_ended) [
      | inr early ↦ rw (live, early) (stands n.name j.next)
      | inl late ↦ elim (Option-cases (get n.name heard)) [
        | inl deaf ↦ rw (live, late, deaf) (stands n.name j.next)
        | inr (h, e) ↦ rw (live, late, e) (decided h n.name)
      ]
    ]
  ]
    where
      stands :
          (name : String) (next : List AudioAlert)
          → has_alert muet i (standing now_ms alerts name next) ≡ has_alert muet i next
      stands name next =
          let kept = keep_if (has_alert silence name alerts) now_ms alerts silence name next in
          has_alert-keep_if (has_alert saturation name alerts) now_ms alerts saturation name kept
            muet i
          ∙ ground (
            arith,
            has_alert-keep_if (has_alert silence name alerts) now_ms alerts silence name next muet
                i,
          )

      decided :
          (h : Heard) (name : String)
          → has_alert muet i (verdict settings now_ms alerts h name j).next
            ≡ has_alert muet i j.next
      decided h name =
          let test = leb settings.silent_samples (new_run settings now_ms h name j.runs) in
          let kept = keep_if test now_ms alerts silence name j.next in
          has_alert-keep_if (not (ltb_ℤ h.peak settings.clip_db)) now_ms alerts saturation name kept
            muet i
          ∙ ground (arith, has_alert-keep_if test now_ms alerts silence name j.next muet i)

  pub judge_all-muet :
      (inputs : List Input) (j : Judged) (i : String)
      → has_alert muet i (judge_all settings now_ms alerts heard sample_ended inputs j).next
        ≡ has_alert muet i j.next
  unfolding judge_all
  judge_all-muet [] j i = refl
  judge_all-muet (n ∷ inputs) j i =
      judge_all-muet inputs (judge settings now_ms alerts heard sample_ended n j) i
      ∙ judge-muet n j i

  -- Why an input is said silent that was not yet: a sample has ended, it was heard, and enough
  -- samples in a row were silent.
  abbrev pub IsNews : List (String × ℕ) → String → Type 0
  IsNews runs i =
      (sample_ended ≡ true)
      × ((h : Heard) × (get i heard ≡ some h)
          × (leb settings.silent_samples (new_run settings now_ms h i runs) ≡ true))

  abbrev Said : List Input → Judged → String → Type 0
  Said inputs j i =
      (has_alert silence i j.next ≡ true)
      ⊎ ((n : Input) × In n inputs
          × (n.name ≡ i)
          × (n.muted ≡ false)
          × ((has_alert silence i alerts ≡ true) ⊎ IsNews j.runs i))

  silence-stands :
      (name : String) (next : List AudioAlert) (i : String)
      → has_alert silence i (standing now_ms alerts name next) ≡ true
      → (has_alert silence i next ≡ true) ⊎ ((name ≡ i) × (has_alert silence i alerts ≡ true))
  silence-stands name next i h =
      let kept = keep_if (has_alert silence name alerts) now_ms alerts silence name next in
      let outer =
        has_alert-keep_if (has_alert saturation name alerts) now_ms alerts saturation name kept
          silence i in
      let inner =
        has_alert-keep_if (has_alert silence name alerts) now_ms alerts silence name next silence
          i in
      elim (Bool-cases (has_alert silence i next)) [
        | inl old ↦ inl old
        | inr new ↦
            let both : (has_alert silence name alerts && str_eq name i) ≡ true =
              ground (arith, outer, inner) in
            let same : name ≡ i = ground (arith, eq_iff name i) in
            inr (same, subst (λ x. has_alert silence x alerts ≡ true) same (ground arith))
      ]

  silence-decided :
      (h : Heard) (name : String) (j : Judged) (i : String)
      → has_alert silence i (verdict settings now_ms alerts h name j).next ≡ true
      → (has_alert silence i j.next ≡ true)
        ⊎ ((name ≡ i) × (leb settings.silent_samples (new_run settings now_ms h i j.runs) ≡ true))
  silence-decided h name j i k =
      let test = leb settings.silent_samples (new_run settings now_ms h name j.runs) in
      let kept = keep_if test now_ms alerts silence name j.next in
      let outer =
        has_alert-keep_if (not (ltb_ℤ h.peak settings.clip_db)) now_ms alerts saturation name kept
          silence i in
      let inner = has_alert-keep_if test now_ms alerts silence name j.next silence i in
      elim (Bool-cases (has_alert silence i j.next)) [
        | inl old ↦ inl old
        | inr new ↦
            let both : (test && str_eq name i) ≡ true = ground (arith, outer, inner) in
            let same : name ≡ i = ground (arith, eq_iff name i) in
            inr (
              same,
              subst (λ x. leb settings.silent_samples (new_run settings now_ms h x j.runs) ≡ true)
                  same (ground arith),
            )
      ]

  judge-silence :
      (n : Input) (j : Judged) (i : String)
      → has_alert silence i (judge settings now_ms alerts heard sample_ended n j).next ≡ true
      → (has_alert silence i j.next ≡ true)
        ⊎ ((n.name ≡ i)
            × (n.muted ≡ false)
            × ((has_alert silence i alerts ≡ true) ⊎ IsNews j.runs i))
  unfolding judge
  judge-silence n j i h = elim (Bool-cases n.muted) [
    | inl muted ↦ inl (ground (arith, muted))
    | inr live ↦ elim (Bool-cases sample_ended) [
      | inr early ↦ elim (silence-stands n.name j.next i (ground (arith, live, early))) [
        | inl old ↦ inl old
        | inr (same, stood) ↦ inr (same, live, inl stood)
      ]
      | inl late ↦ elim (Option-cases (get n.name heard)) [
        | inl deaf ↦ elim (silence-stands n.name j.next i (ground (arith, live, late, deaf))) [
          | inl old ↦ inl old
          | inr (same, stood) ↦ inr (same, live, inl stood)
        ]
        | inr (x, e) ↦ elim (silence-decided x n.name j i (ground (arith, live, late, e))) [
          | inl old ↦ inl old
          | inr (same, enough) ↦
              inr (same, live, inr (late, (x, subst (λ y. get y heard ≡ some x) same e, enough)))
        ]
      ]
    ]
  ]

  pub judge-run_other :
      (n : Input) (j : Judged) (i : String)
      → n.name ≢ i
      → get i (judge settings now_ms alerts heard sample_ended n j).runs ≡ get i j.runs
  unfolding judge
  judge-run_other n j i ne = elim (Bool-cases n.muted) [
    | inl muted ↦ rw muted (get-delete_other n.name i j.runs ne)
    | inr live ↦ elim (Bool-cases sample_ended) [
      | inr early ↦ rw (live, early) refl
      | inl late ↦ elim (Option-cases (get n.name heard)) [
        | inl deaf ↦ rw (live, late, deaf) refl
        | inr (h, e) ↦ rw (live, late, e) (get-set_other n.name i _ j.runs ne)
      ]
    ]
  ]

  pub judge_all-silence :
      (inputs : List Input) (j : Judged) (i : String)
      → Pairwise (λ m n. m.name ≢ n.name) inputs
      → has_alert silence i (judge_all settings now_ms alerts heard sample_ended inputs j).next
        ≡ true
      → Said inputs j i
  unfolding judge_all
  judge_all-silence [] j i distinct h = inl h
  judge_all-silence (n ∷ inputs) j i distinct h =
      let later = judge settings now_ms alerts heard sample_ended n j in
      elim (judge_all-silence inputs later i distinct.1 h) [
        | inl now ↦ elim (judge-silence n j i now) [
          | inl old ↦ inl old
          | inr (same, live, why) ↦ inr (n, inl refl, same, live, why)
        ]
        | inr (m, there, same, live, inl stood) ↦ inr (m, inr there, same, live, inl stood)
        | inr (m, there, same, live, inr (late, (x, e, enough))) ↦
            let apart : n.name ≢ i = λ k.
              All-In (λ (y : Input). n.name ≢ y.name) inputs m distinct.0 there (k ∙ sym same) in
            inr (
              m,
              inr there,
              same,
              live,
              inr (
                late,
                (
                  x,
                  e,
                  subst
                      (λ (o : Option ℕ).
                        leb settings.silent_samples
                          (if ltb_ℤ settings.silence_db x.magnitude then 0 else or_else o 0 + 1)
                        ≡ true)
                      (judge-run_other n j i apart) enough,
                ),
              ),
            )
      ]
