-- ===== src/Pairing/Polls.antt =====
-- How a pairing of apps/room-client/src/core/pairing.ts ends.
use conference_operator.Common.{
  ℕ, suc, zero, ◌+◌, ◌*◌, ◌≤◌, ◌<◌, ◌≡◌, ◌⊎◌, inl, inr, refl, sym, ◌∙◌, String, Bool, none, some,
  List, [], ◌∷◌, ◌++◌, ltb, arith, Bool-cases, Option-cases,
}
use conference_operator.Pairing.{
  DeviceCodeResponse, Reply, granted, refused, PollErrorCode, aborted, expired_token, Outcome,
  paired, failed, unreadable, Hook, on_pending, on_code, Paired, next_interval, code_of,
  unreachable_of, poll_from, run_pairing,
}

Reply-cases :
    (r : Reply)
    → ((token : String) × (r ≡ granted (some token)))
      ⊎ (r ≡ granted none)
      ⊎ ((error : String) × (r ≡ refused error))
Reply-cases (granted (some token)) = inl (token, refl)
Reply-cases (granted none) = inr (inl refl)
Reply-cases (refused error) = inr (inr (error, refl))

next_interval_le :
    (error : String) (interval next : ℕ)
    → next_interval error interval ≡ some next
    → interval ≤ next
next_interval_le error interval next h = ground (arith, h)

module _ (reply : ℕ → Reply) (aborted_before aborted_after : ℕ → Bool) (late_ms : ℕ → ℕ) where
  -- An error of the hub after which the loop goes on.
  abbrev GoesOn : Reply → Type 0
  GoesOn r =
      (error : String) × (interval next : ℕ) × (r ≡ refused error)
      × (next_interval error interval ≡ some next)

  -- The polls are no more than the interval of the hub allows before the code expires, all but the
  -- last were answered by an error to wait after, and the outcome is what the last poll says, an
  -- interruption or the end of the code.
  pub record IsPaired (code : DeviceCodeResponse) (p : Paired) : Type 0 where
    pub cadence : p.polls * code.interval ≤ code.expires_in
    pub earlier : (n : ℕ) → 1 ≤ n → n < p.polls → GoesOn (reply n)
    pub token : (a : String) → p.outcome ≡ paired a → reply p.polls ≡ granted (some a)
    pub failure :
        (c : PollErrorCode)
        → p.outcome ≡ failed c
        → (c ≡ aborted)
          ⊎ (c ≡ expired_token)
          ⊎ ((error : String) × (reply p.polls ≡ refused error) × (c ≡ code_of error))

  stopped_at :
      (code : DeviceCodeResponse) (polls : ℕ) (hooks : List Hook) (c : PollErrorCode)
      → polls * code.interval ≤ code.expires_in
      → ((n : ℕ) → 1 ≤ n → n ≤ polls → GoesOn (reply n))
      → (c ≡ aborted) ⊎ (c ≡ expired_token)
      → IsPaired code (record { outcome = failed c; polls = polls; hooks = hooks })
  stopped_at code polls hooks c fits before w = record {
    cadence = fits;
    earlier = λ n h k. before n h (omega (arith, k));
    token = λ a h. cc;
    failure =
        λ d h. let e : c ≡ d = cc in rw (← e) (elim w [ inl x ↦ inl x | inr y ↦ inr (inl y) ]);
  }

  answered_at :
      (code : DeviceCodeResponse) (attempt : ℕ) (o : Outcome) (hooks : List Hook)
      → (attempt + 1) * code.interval ≤ code.expires_in
      → ((n : ℕ) → 1 ≤ n → n ≤ attempt → GoesOn (reply n))
      → ((a : String) × (o ≡ paired a) × (reply (attempt + 1) ≡ granted (some a)))
        ⊎ (o ≡ unreadable)
        ⊎ ((error : String) × (o ≡ failed (code_of error)) × (reply (attempt + 1) ≡ refused error))
      → IsPaired code (record { outcome = o; polls = attempt + 1; hooks = hooks })
  answered_at code attempt o hooks fits before w = record {
    cadence = fits;
    earlier = λ n h k. before n h (omega (arith, k));
    token = λ a h. elim w [
      | inl (b, e, got) ↦ got_token b a (sym e ∙ h) got
      | inr (inl e) ↦ absurd (apart_unreadable a (sym e ∙ h))
      | inr (inr (error, e, got)) ↦ absurd (apart_failed (code_of error) a (sym e ∙ h))
    ];
    failure = λ c h. elim w [
      | inl (b, e, got) ↦ absurd (apart_failed c b (sym h ∙ e))
      | inr (inl e) ↦ absurd (failed_unreadable c (sym h ∙ e))
      | inr (inr (error, e, got)) ↦ inr (inr (error, got, same_code c (code_of error) (sym h ∙ e)))
    ];
  }
    where
      got_token :
          (b a : String)
          → paired b ≡ paired a
          → reply (attempt + 1) ≡ granted (some b)
          → reply (attempt + 1) ≡ granted (some a)
      got_token b a e got = cc

      apart_unreadable : (a : String) → unreadable ≡ paired a → ⊥
      apart_unreadable a e = cc

      apart_failed : (c : PollErrorCode) (a : String) → failed c ≡ paired a → ⊥
      apart_failed c a e = cc

      failed_unreadable : (c : PollErrorCode) → failed c ≡ unreadable → ⊥
      failed_unreadable c e = cc

      same_code : (c d : PollErrorCode) → failed c ≡ failed d → c ≡ d
      same_code c d e = cc

  poll_from-IsPaired :
      (fuel : ℕ) (code : DeviceCodeResponse) (start_ms attempt interval now_ms : ℕ)
      (hooks : List Hook)
      → code.expires_in + 1 ≤ fuel + attempt
      → attempt ≤ attempt * code.interval
      → 1 ≤ code.interval
      → code.interval ≤ interval
      → start_ms + 1000 * (attempt * code.interval) ≤ now_ms
      → now_ms ≤ start_ms + code.expires_in * 1000
      → ((n : ℕ) → 1 ≤ n → n ≤ attempt → GoesOn (reply n))
      → (p : Paired) × (poll_from reply aborted_before aborted_after late_ms fuel
            (start_ms + code.expires_in * 1000)
            attempt
            interval
            now_ms
            hooks
          ≡ some p)
        × IsPaired code p
  unfolding poll_from
  poll_from-IsPaired zero code start_ms attempt interval now_ms hooks fuelled many pos slower spent
        live before =
      absurd (omega arith)
  poll_from-IsPaired (suc fuel) code start_ms attempt interval now_ms hooks fuelled many pos slower
        spent live before =
      let n = attempt + 1 in
      let then_ms = now_ms + (interval * 1000 + late_ms n) in
      let deadline = start_ms + code.expires_in * 1000 in
      let hooks' = hooks ++ (on_pending n (interval * 1000) ∷ []) in
      let product = one_more attempt code.interval in
      let so_far : attempt * code.interval ≤ code.expires_in = omega arith in
      let stopped = λ (c : PollErrorCode) (h : List Hook) (w : (c ≡ aborted) ⊎ (c ≡ expired_token)).
        stopped_at code attempt h c so_far before w in
      elim (Bool-cases (aborted_before n)) [
        | inl cut ↦ (_, rw (cut, poll_from) refl, stopped aborted hooks (inl refl))
        | inr quiet ↦ elim (Bool-cases (aborted_after n)) [
          | inl cut ↦ (_, rw (quiet, cut, poll_from) refl, stopped aborted hooks' (inl refl))
          | inr calm ↦ elim (Bool-cases (ltb deadline then_ms)) [
            | inl over ↦
                (_, rw (quiet, calm, over, poll_from) refl, stopped expired_token hooks' (inr refl))
            | inr in_time ↦
                let live' : then_ms ≤ deadline = ground arith in
                let spent' : start_ms + 1000 * (n * code.interval) ≤ then_ms =
                  omega (arith, product) in
                let fits : n * code.interval ≤ code.expires_in = omega (arith, live', spent') in
                elim (Reply-cases (reply n)) [
                  | inl (token, got) ↦ (
                    _,
                    rw (quiet, calm, in_time, got, poll_from) refl,
                    answered_at code attempt (paired token) hooks' fits before
                        (inl (token, refl, got)),
                  )
                  | inr (inl got) ↦ (
                    _,
                    rw (quiet, calm, in_time, got, poll_from) refl,
                    answered_at code attempt unreadable hooks' fits before (inr (inl refl)),
                  )
                  | inr (inr (error, got)) ↦ elim (Option-cases (next_interval error interval)) [
                    | inl final ↦ (
                      _,
                      rw (quiet, calm, in_time, got, final, poll_from) refl,
                      answered_at code attempt (failed (code_of error)) hooks' fits before
                          (inr (inr (error, refl, got))),
                    )
                    | inr (interval', again) ↦
                        let (p, ran, good) =
                          poll_from-IsPaired fuel code start_ms n interval' then_ms
                            (hooks' ++ unreachable_of error n) (omega (arith, fuelled))
                            (omega (arith, product, many, pos)) pos
                            (omega (arith, slower, next_interval_le error interval interval' again))
                            spent' live'
                            (λ m h k. elim (at_most attempt m k) [
                              | inl old ↦ before m h old
                              | inr here ↦ (error, interval, interval', rw here got, again)
                            ]) in
                        (p, rw (quiet, calm, in_time, got, again, poll_from) ran, good)
                  ]
                ]
          ]
        ]
      ]
    where
      at_most : (a m : ℕ) → m ≤ a + 1 → (m ≤ a) ⊎ (m ≡ a + 1)
      at_most a m h = ground arith

      one_more : (a i : ℕ) → (a + 1) * i ≡ a * i + i
      one_more a i = grind arith

  -- The pairing always ends, whatever the hub answers and however late the waits end, within one turn
  -- for each second of the code's life and one more.
  pub run_pairing-IsPaired :
      (code : DeviceCodeResponse) (start_ms : ℕ)
      → 1 ≤ code.interval
      → (p : Paired) × (run_pairing reply aborted_before aborted_after late_ms
            (code.expires_in + 1)
            code
            start_ms
          ≡ some p)
        × IsPaired code p
  unfolding run_pairing
  run_pairing-IsPaired code start_ms pos =
      poll_from-IsPaired (code.expires_in + 1) code start_ms 0 code.interval start_ms (on_code ∷ [])
        (omega arith) (omega arith) pos (omega arith) (omega arith) (omega arith)
        (λ n h k. absurd (omega (arith, h, k)))
