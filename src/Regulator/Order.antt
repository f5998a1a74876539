-- ===== src/Regulator/Order.antt =====
-- What an upload verdict of apps/room-client/src/core/regulator.ts guarantees.
use conference_operator.Common.{
  refl, inl, inr, Bool-cases, ℕ, zero, suc, ◌*◌, ◌^◌, ◌≤◌, ◌<◌, ◌≡◌, ◌↔◌, ◌⊎◌, true, false, Option,
  none, some, arith, min,
}
use conference_operator.Regulator.{
  is_saturated, at_most, below, is_busy, RegulatorInputs, WaitReason, debit, charge, fenetre,
  Memory, wait, allowed, upload_verdict, wait_after, rate_floor_bytes_s,
}

-- Storage ready, nothing recorded, no talk on; and somebody asked, or policy and machine agree.
pub record MayUpload (input : RegulatorInputs) : Type 0 where
  pub stored : input.storage_ready ≡ true
  pub quiet : input.recording ≡ false
  pub free : input.talk_running ≡ false
  pub asked_or_fit :
      (input.manual ≡ true)
      ⊎ ((input.policy.actif ≡ true)
          × ((input.ms_before_next ≡ none)
              ⊎ ((t : ℕ) × (input.ms_before_next ≡ some t)
                  × (input.policy.marge_conference_minutes * 60000 < t)))
          × ((c : ℕ) × (input.load.cpu ≡ some c) × (c ≤ input.policy.cpu_max))
          × ((input.load.memory ≡ none)
              ⊎ ((m : Memory) × (input.load.memory ≡ some m)
                  × (10 * m.used_bytes ≤ 9 * m.total_bytes)))
          × ((input.observed_rate_bytes_s ≡ none)
              ⊎ ((r : ℕ) × (input.observed_rate_bytes_s ≡ some r) × (rate_floor_bytes_s ≤ r))))

fit_memory :
    (o : Option Memory)
    → is_saturated o ≡ false
    → (o ≡ none) ⊎ ((m : Memory) × (o ≡ some m) × (10 * m.used_bytes ≤ 9 * m.total_bytes))
fit_memory none h = inl refl
fit_memory (some m) h = inr (m, refl, ground arith)

fit_after :
    (o : Option ℕ) (limit : ℕ)
    → at_most o limit ≡ false
    → (o ≡ none) ⊎ ((t : ℕ) × (o ≡ some t) × (limit < t))
fit_after none limit h = inl refl
fit_after (some t) limit h = inr (t, refl, ground arith)

fit_rate :
    (o : Option ℕ) (limit : ℕ)
    → below o limit ≡ false
    → (o ≡ none) ⊎ ((t : ℕ) × (o ≡ some t) × (limit ≤ t))
fit_rate none limit h = inl refl
fit_rate (some t) limit h = inr (t, refl, ground arith)

fit_cpu :
    (o : Option ℕ) (limit : ℕ) → is_busy o limit ≡ false → (c : ℕ) × (o ≡ some c) × (c ≤ limit)
fit_cpu none limit h = cc
fit_cpu (some c) limit h = (c, refl, ground arith)

-- The refusals that a request by hand overrides, all passed.
verdict_unasked :
    (input : RegulatorInputs)
    → upload_verdict input ≡ allowed input.policy.debit_max_octets_s
    → input.manual ≡ false
    → (input.policy.actif ≡ true)
      × (at_most input.ms_before_next (input.policy.marge_conference_minutes * 60000) ≡ false)
      × (is_busy input.load.cpu input.policy.cpu_max ≡ false)
      × (is_saturated input.load.memory ≡ false)
      × (below input.observed_rate_bytes_s rate_floor_bytes_s ≡ false)
unfolding upload_verdict
verdict_unasked input h unasked =
    (ground arith, ground arith, ground arith, ground arith, ground arith)

-- A room uploads exactly when the storage is ready, nothing is recorded and no talk runs, and
-- either somebody asked, or the policy allows it, the next talk is further than the margin, the
-- machine's load is known and low enough, and the rate, once observed, is above the floor.
pub upload_verdict-allowed_iff :
    (input : RegulatorInputs)
    → (upload_verdict input ≡ allowed input.policy.debit_max_octets_s) ↔ MayUpload input
unfolding upload_verdict
upload_verdict-allowed_iff input = (to, from)
  where
    to : upload_verdict input ≡ allowed input.policy.debit_max_octets_s → MayUpload input
    to h = record {
      stored = ground arith;
      quiet = ground arith;
      free = ground arith;
      asked_or_fit = elim (Bool-cases input.manual) [
        | inl asked ↦ inl asked
        | inr unasked ↦
            let (on, far, cpu, memory, rate) = verdict_unasked input h unasked in
            inr (
              on,
              fit_after input.ms_before_next _ far,
              fit_cpu input.load.cpu _ cpu,
              fit_memory input.load.memory memory,
              fit_rate input.observed_rate_bytes_s _ rate,
            )
      ];
    }

    from : MayUpload input → upload_verdict input ≡ allowed input.policy.debit_max_octets_s
    from h = ground (arith, h.stored, h.quiet, h.free, h.asked_or_fit)

-- The reason that is shown is the first that refuses: a room that records is told so whatever its
-- machine and its network do, and a wait for the machine or the network names a room that is idle.
pub upload_verdict-reason :
    (input : RegulatorInputs) (reason : WaitReason)
    → upload_verdict input ≡ wait reason
    → ((reason ≡ debit) ⊎ (reason ≡ charge) ⊎ (reason ≡ fenetre))
    → (input.recording ≡ false)
      × (input.talk_running ≡ false)
      × (input.manual ≡ false)
      × (input.policy.actif ≡ true)
unfolding upload_verdict
upload_verdict-reason input reason h late = ground arith

rate_wait :
    (failures : ℕ)
    → (15000 ≤ min 900000 (30000 * 2 ^ min failures 5))
      × (min 900000 (30000 * 2 ^ min failures 5) ≤ min 900000 (30000 * 2 ^ min (suc failures) 5))
rate_wait zero = omega arith
rate_wait (suc zero) = omega arith
rate_wait (suc (suc zero)) = omega arith
rate_wait (suc (suc (suc zero))) = omega arith
rate_wait (suc (suc (suc (suc zero)))) = omega arith
rate_wait (suc (suc (suc (suc (suc n))))) =
    let e : min (suc (suc (suc (suc (suc n))))) 5 ≡ 5 = omega arith in
    let e' : min (suc (suc (suc (suc (suc (suc n)))))) 5 ≡ 5 = omega arith in
    rw (e, e') (omega arith)

-- Only a slow network backs off: its wait doubles with each failure and never passes a quarter of
-- an hour; every other refusal is tried again after fifteen seconds.
pub wait_after_bounds :
    (reason : WaitReason) (failures : ℕ)
    → (15000 ≤ wait_after reason failures)
      × (wait_after reason failures ≤ 900000)
      × (wait_after reason failures ≤ wait_after reason (suc failures))
unfolding wait_after
wait_after_bounds debit failures = omega (arith, rate_wait failures)
wait_after_bounds _ failures = omega arith
