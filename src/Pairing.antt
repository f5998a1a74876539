-- ===== src/Pairing.antt =====
-- apps/room-client/src/core/pairing.ts: a room machine asks the hub for its token. The hub's answers,
-- the interruptions and how late each wait ends are arguments, by the number of the attempt; the
-- loop of the source has no bound of its own and runs here on fuel.
pub mod Polls
use conference_operator.Common.{
  ℕ, suc, zero, ◌+◌, ◌*◌, String, Bool, true, false, Option, none, some, List, [], ◌∷◌, ◌++◌,
  str_eq, ltb, if◌then◌else◌,
}

-- The numbers of the hub's answer, in seconds.
pub record DeviceCodeResponse : Type 0 where
  pub interval : ℕ
  pub expires_in : ℕ

-- An answer to a poll: `granted none` has a body that the schema does not read.
pub data Reply : Type 0 where
  granted : Option String → Reply
  refused : String → Reply

pub data PollErrorCode : Type 0 where
  aborted expired_token access_denied unknown : PollErrorCode

pub data Outcome : Type 0 where
  paired : String → Outcome
  failed : PollErrorCode → Outcome
  unreadable : Outcome

-- The calls of the hooks.
pub data Hook : Type 0 where
  on_code : Hook
  on_pending : ℕ → ℕ → Hook
  on_unreachable : ℕ → Hook

-- How a pairing ends, with the polls made.
pub record Paired : Type 0 where
  pub outcome : Outcome
  pub polls : ℕ
  pub hooks : List Hook

abbrev pub slow_down_increment_seconds : ℕ
slow_down_increment_seconds = 5

-- The interval that follows an error, or none when the pairing stops there.
abbrev pub next_interval : String → ℕ → Option ℕ
next_interval error interval =
    if str_eq error "authorization_pending"
    then some interval
    else if str_eq error "network"
    then some interval
    else if str_eq error "slow_down"
    then some (interval + slow_down_increment_seconds)
    else none

abbrev pub code_of : String → PollErrorCode
code_of error =
    if str_eq error "access_denied"
    then access_denied
    else if str_eq error "expired_token"
    then expired_token
    else unknown

abbrev pub unreachable_of : String → ℕ → List Hook
unreachable_of error attempt = if str_eq error "network" then on_unreachable attempt ∷ [] else []

abbrev pub ended : Outcome → ℕ → List Hook → Option Paired
ended outcome polls hooks = some (record { outcome = outcome; polls = polls; hooks = hooks })

module _ (reply : ℕ → Reply) (aborted_before aborted_after : ℕ → Bool) (late_ms : ℕ → ℕ) where
  -- A turn of the loop and those that follow, after `attempt` polls; `none` when the fuel is out.
  unfoldable pub poll_from : ℕ → ℕ → ℕ → ℕ → ℕ → List Hook → Option Paired
  poll_from zero deadline attempt interval now_ms hooks = none
  poll_from (suc fuel) deadline attempt interval now_ms hooks =
      let n = attempt + 1 in
      let then_ms = now_ms + (interval * 1000 + late_ms n) in
      let hooks' = hooks ++ (on_pending n (interval * 1000) ∷ []) in
      if aborted_before n
      then ended (failed aborted) attempt hooks
      else if aborted_after n
      then ended (failed aborted) attempt hooks'
      else if ltb deadline then_ms
      then ended (failed expired_token) attempt hooks'
      else elim (reply n) [
        | granted (some token) ↦ ended (paired token) n hooks'
        | granted none ↦ ended unreadable n hooks'
        | refused error ↦ elim (next_interval error interval) [
          | none ↦ ended (failed (code_of error)) n hooks'
          | some interval' ↦
              poll_from fuel deadline n interval' then_ms (hooks' ++ unreachable_of error n)
        ]
      ]

  unfoldable pub run_pairing : ℕ → DeviceCodeResponse → ℕ → Option Paired
  unfolding poll_from
  run_pairing fuel code start_ms =
      poll_from fuel (start_ms + code.expires_in * 1000) 0 code.interval start_ms (on_code ∷ [])
