-- ===== src/Outage.antt =====
-- apps/room-client/src/core/interruptions.ts: what is written about a stream that reconnects. The
-- texts are left out: a message is what it counts.
use conference_operator.Common.{
  ℕ, ◌+◌, ◌-◌, ◌≤◌, ◌||◌, Option, none, some, or_else, List, [], ◌∷◌, arith, leb, ◌==◌,
  if◌then◌else◌,
}

pub record OutageTracker : Type 0 where
  pub attempts : ℕ
  pub start_ms : Option ℕ
  pub last_log_ms : ℕ

pub data Written : Type 0 where
  interrupted : Written
  still_interrupted : ℕ → ℕ → Written

pub record LoggedFailure : Type 0 where
  pub message : Option Written
  pub attempts : ℕ

-- A recovery, with the duration of the outage.
pub record Restored : Type 0 where
  pub attempts : ℕ
  pub duration_ms : ℕ

abbrev pub at_rest : OutageTracker
at_rest = record { attempts = 0; start_ms = none; last_log_ms = 0 }

-- `failure`
unfoldable pub failure : ℕ → ℕ → OutageTracker → OutageTracker × LoggedFailure
failure reminder_ms now_ms t =
    let attempts = t.attempts + 1 in
    let start = or_else t.start_ms now_ms in
    if attempts == 1 || leb (t.last_log_ms + reminder_ms) now_ms
    then (
      record { attempts = attempts; start_ms = some start; last_log_ms = now_ms },
      record {
        message =
            some
              (if attempts == 1 then interrupted else still_interrupted attempts (now_ms - start));
        attempts = attempts;
      },
    )
    else (
      record { attempts = attempts; start_ms = some start; last_log_ms = t.last_log_ms },
      record { message = none; attempts = attempts },
    )

unfoldable pub restored : ℕ → OutageTracker → OutageTracker × Option Restored
restored now_ms t = elim t.start_ms [
  | none ↦ (t, none)
  | some start ↦ (at_rest, some (record { attempts = t.attempts; duration_ms = now_ms - start }))
]

abbrev pub bit_of : Option Written → ℕ
bit_of none = 0
bit_of (some w) = 1

-- Failures at the given instants, and how many of them are written.
unfoldable pub failures : ℕ → List ℕ → OutageTracker → OutageTracker × ℕ
unfolding failure
failures reminder_ms [] t = (t, 0)
failures reminder_ms (now_ms ∷ instants) t =
    let (t', logged) = failure reminder_ms now_ms t in
    let (last, n) = failures reminder_ms instants t' in (last, bit_of logged.message + n)

-- Instants that do not go back, from one on.
abbrev pub Forward : ℕ → List ℕ → Type 0
Forward from [] = Unit
Forward from (now_ms ∷ instants) = (from ≤ now_ms) × Forward now_ms instants

abbrev pub last_of : ℕ → List ℕ → ℕ
last_of from [] = from
last_of from (now_ms ∷ instants) = last_of now_ms instants

last_of_le : (from : ℕ) (instants : List ℕ) → Forward from instants → from ≤ last_of from instants
last_of_le from [] h = omega arith
last_of_le from (now_ms ∷ instants) h =
    let rest = last_of_le now_ms instants h.1 in omega (arith, h.0)
