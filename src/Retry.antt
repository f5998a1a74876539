-- ===== src/Retry.antt =====
-- apps/vod-montage/src/retry.ts: a read from the hub, tried again. What each try gives is an argument,
-- by its number; the loop of the source has no bound of its own and runs here on fuel.
use conference_operator.Common.{
  ℕ, suc, zero, ◌+◌, ◌-◌, ◌*◌, ◌≤◌, ◌<◌, ◌≡◌, ◌⊎◌, inl, inr, refl, Bool, true, false, ◌||◌, Option,
  none, some, List, [], ◌∷◌, ◌++◌, arith, leb, Bool-cases, if◌then◌else◌,
}

abbrev pub retry_attempts : ℕ
retry_attempts = 6

abbrev pub retry_wait_ms : ℕ
retry_wait_ms = 6000

pub data Read (A E : Type 0) : Type 0 where
  answered : A → Read A E
  thrown : E → Read A E

-- What the caller gets, with the reads made, the time waited and the calls of `onRetry`.
pub record Tried (A E : Type 0) : Type 0 where
  pub result : Read A E
  pub reads : ℕ
  pub waited_ms : ℕ
  pub retried : List (E × ℕ)

module _ {A E : Type 0} (read : ℕ → Read A E) (give_up_on : E → Bool) where
  -- One turn of the loop and those that follow; `none` when the fuel is out.
  unfoldable pub retry_from : ℕ → ℕ → ℕ → List (E × ℕ) → Option (Tried A E)
  retry_from zero attempt waited_ms retried = none
  retry_from (suc fuel) attempt waited_ms retried = elim (read attempt) [
    | answered a ↦
        some (record {
          result = answered a;
          reads = attempt;
          waited_ms = waited_ms;
          retried = retried;
        })
    | thrown e ↦
        if leb retry_attempts attempt || give_up_on e
        then some (record {
          result = thrown e;
          reads = attempt;
          waited_ms = waited_ms;
          retried = retried;
        })
        else retry_from fuel (attempt + 1) (waited_ms + retry_wait_ms)
            (retried ++ ((e, attempt) ∷ []))
  ]

  unfoldable pub with_retries : ℕ → Option (Tried A E)
  unfolding retry_from
  with_retries fuel = retry_from fuel 1 0 []

  -- The result is that of the last read; one that was thrown was the last allowed, or one to give up
  -- on, and every read before it was thrown and not to give up on.
  pub record IsTried (from : ℕ) (t : Tried A E) : Type 0 where
    pub from_first : from ≤ t.reads
    pub bounded : t.reads ≤ 6
    pub last : read t.reads ≡ t.result
    pub waited : t.waited_ms ≡ 6000 * (t.reads - 1)
    pub final : (e : E) → t.result ≡ thrown e → (t.reads ≡ 6) ⊎ (give_up_on e ≡ true)
    pub earlier :
        (n : ℕ) → from ≤ n → n < t.reads → (e : E) × (read n ≡ thrown e) × (give_up_on e ≡ false)

  Read-cases : (r : Read A E) → ((a : A) × (r ≡ answered a)) ⊎ ((e : E) × (r ≡ thrown e))
  Read-cases (answered a) = inl (a, refl)
  Read-cases (thrown e) = inr (e, refl)

  retry_from-IsTried :
      (fuel attempt waited_ms : ℕ) (retried : List (E × ℕ))
      → 1 ≤ attempt
      → 7 ≤ fuel + attempt
      → attempt ≤ 6
      → waited_ms ≡ 6000 * (attempt - 1)
      → (t : Tried A E) × (retry_from fuel attempt waited_ms retried ≡ some t) × IsTried attempt t
  unfolding retry_from
  retry_from-IsTried zero attempt waited_ms retried first fuelled below waited =
      absurd (omega arith)
  retry_from-IsTried (suc fuel) attempt waited_ms retried first fuelled below waited =
      elim (Read-cases (read attempt)) [
        | inl (a, got) ↦ (
          record { result = answered a; reads = attempt; waited_ms = waited_ms; retried = retried },
          rw (got, retry_from) refl,
          record {
            from_first = omega arith;
            bounded = below;
            last = got;
            waited = waited;
            final = λ e h. cc;
            earlier = λ n h k. absurd (omega arith);
          },
        )
        | inr (e, got) ↦ elim (Bool-cases (leb 6 attempt || give_up_on e)) [
          | inl over ↦ (
            record { result = thrown e; reads = attempt; waited_ms = waited_ms; retried = retried },
            rw (got, over, retry_from) refl,
            record {
              from_first = omega arith;
              bounded = below;
              last = got;
              waited = waited;
              final = λ f h. let same : e ≡ f = cc in rw (← same) (over_cases attempt e below over);
              earlier = λ n h k. absurd (omega arith);
            },
          )
          | inr again ↦
              let (t, ran, done) =
                retry_from-IsTried fuel (attempt + 1) (waited_ms + 6000)
                  (retried ++ ((e, attempt) ∷ [])) (omega arith) (omega arith) (ground arith)
                  (ground arith) in
              (
                t,
                rw (got, again, retry_from) ran,
                record {
                  from_first = let b = done.from_first in omega arith;
                  bounded = done.bounded;
                  last = done.last;
                  waited = done.waited;
                  final = done.final;
                  earlier = λ n h k. elim (at_or_after attempt n h) [
                    | inl here ↦ (e, rw (← here) got, ground arith)
                    | inr later ↦ done.earlier n later k
                  ];
                },
              )
        ]
      ]
    where
      over_cases :
          (attempt : ℕ) (e : E)
          → attempt ≤ 6
          → leb 6 attempt || give_up_on e ≡ true
          → (attempt ≡ 6) ⊎ (give_up_on e ≡ true)
      over_cases attempt e below over = ground arith

      at_or_after : (a n : ℕ) → a ≤ n → (a ≡ n) ⊎ (a + 1 ≤ n)
      at_or_after a n h = ground arith

  -- Whatever the hub answers, the loop ends: seven turns of fuel are enough, at most six reads are made
  -- and six seconds waited between two, the caller gets what the last read gave, an error that comes
  -- up is that of the sixth read or one to give up on, and every read before the last had failed.
  pub with_retries-IsTried : (t : Tried A E) × (with_retries 7 ≡ some t) × IsTried 1 t
  unfolding with_retries
  with_retries-IsTried =
      retry_from-IsTried 7 1 0 [] (omega arith) (omega arith) (omega arith) (omega arith)
