-- ===== src/Base/Float32.antt =====
-- `float32(n)` of a `uint64`, as the whole number that the result stands for: 24 significant bits,
-- rounded to nearest, ties to even.
use Prim.Native.Nat.{ℕ, zero, suc, ◌+◌, ◌*◌, ◌/◌, ◌%◌, ◌^◌, ◌<◌}
use mathlib.Core.Path.{◌≡◌, refl}
use mathlib.Core.Bool.{true, ◌&&◌, ◌||◌}
use native.Mathlib.Omega.{arith}
use db2rest_bridge.Base.Tests.{ltb, ◌==◌, lt→ltb, if◌then◌else◌}

abbrev significand : ℕ
significand = 2 ^ 24

-- `n` to a multiple of `step`, a power of two
abbrev round_to : ℕ → ℕ → ℕ
round_to n step =
    let q = n / step in
    let r = n % step in
    if ltb step (2 * r) || (2 * r == step && q % 2 == 1) then (q + 1) * step else q * step

-- The step doubles until 24 bits are left: 40 rounds are enough for 64 bits.
pub search_step : ℕ → ℕ → ℕ → ℕ
search_step zero n step = round_to n step
search_step (suc fuel) n step =
    let more = search_step fuel n (2 * step) in
    if ltb (n / step) significand then round_to n step else more

unfoldable pub float32 : ℕ → ℕ
float32 n = search_step 40 n 1

round_to_one : (n : ℕ) → round_to n 1 ≡ n
round_to_one n = ground arith

below_test : (n : ℕ) → n < significand → ltb (n / 1) significand ≡ true
below_test n h = lt→ltb (n / 1) significand (omega arith)

search_step_exact : (fuel n : ℕ) → n < significand → search_step (suc fuel) n 1 ≡ n
unfolding search_step
search_step_exact fuel n h = rw (below_test n h) (round_to_one n)

-- Numbers below 2^24 are exact.
float32_exact : (n : ℕ) → n < significand → float32 n ≡ n
unfolding float32
float32_exact n h = search_step_exact 39 n h

float32_test : float32 16_777_217 ≡ 16_777_216
unfolding float32 search_step
float32_test = refl
