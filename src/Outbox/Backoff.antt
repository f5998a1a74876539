-- ===== src/Outbox/Backoff.antt =====
-- How long `backoffMs` of apps/room-client/src/core/outbox.ts makes an event wait.
use native.Mathlib.Nat.{pow-suc}
use conference_operator.Common.{ℕ, zero, suc, ◌+◌, ◌*◌, ◌^◌, ◌-◌, ◌/◌, ◌≤◌, ◌<◌, min, arith}
use conference_operator.Outbox.{backoff_ms, backoff_base_ms, backoff_cap_ms}

two_pow_pos : (n : ℕ) → 1 ≤ 2 ^ n
two_pow_pos zero = omega arith
two_pow_pos (suc n) = rw pow-suc (omega (arith, two_pow_pos n))

-- The base of a wait: one second doubled at each attempt, a minute at most.
abbrev pub base_ms : ℕ → ℕ
base_ms attempts = min (backoff_base_ms * 2 ^ (attempts - 1)) backoff_cap_ms

base_ms_bounds : (attempts : ℕ) → (1000 ≤ base_ms attempts) × (base_ms attempts ≤ 60000)
base_ms_bounds attempts = omega (arith, two_pow_pos (attempts - 1))

mul_bound : (b draw : ℕ) → draw < 9007199254740992 → b * draw ≤ b * 9007199254740992
mul_bound b draw h = grind arith

abbrev jittered : ℕ → ℕ → ℕ
jittered b draw =
    (b * (8 * 9007199254740992 + 4 * draw) * 2 + 10 * 9007199254740992) / (20 * 9007199254740992)

jittered_bounds :
    (b draw : ℕ)
    → draw < 9007199254740992
    → (b * 4 ≤ jittered b draw * 5 + 3) × (jittered b draw * 5 ≤ b * 6 + 3)
jittered_bounds b draw h = omega (arith, mul_bound b draw h)

-- Whatever is drawn, a wait lies within a fifth of its base, up to the rounding, so between 0.8
-- and 72 seconds.
pub backoff_ms_bounds :
    (attempts draw : ℕ)
    → draw < 9007199254740992
    → (base_ms attempts * 4 ≤ backoff_ms attempts draw * 5 + 3)
      × (backoff_ms attempts draw * 5 ≤ base_ms attempts * 6 + 3)
      × (800 ≤ backoff_ms attempts draw)
      × (backoff_ms attempts draw ≤ 72000)
unfolding backoff_ms
backoff_ms_bounds attempts draw h =
    let (low, high) = jittered_bounds (base_ms attempts) draw h in
    let (b_low, b_high) = base_ms_bounds attempts in
    (low, high, wait_low (base_ms attempts) _ low b_low, wait_high (base_ms attempts) _ high b_high)
  where
    wait_low : (b w : ℕ) → b * 4 ≤ w * 5 + 3 → 1000 ≤ b → 800 ≤ w
    wait_low b w l k = omega arith

    wait_high : (b w : ℕ) → w * 5 ≤ b * 6 + 3 → b ≤ 60000 → w ≤ 72000
    wait_high b w l k = omega arith
