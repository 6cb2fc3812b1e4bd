-- ===== src/Rtu/Delay.antt =====
-- rtuclient.go: the time that `Send` waits for a response, in microseconds.
use gomodbus.Prelude.{
  ℕ, ◌+◌, ◌*◌, ◌/◌, ◌^◌, ◌≤◌, ◌<◌, ◌||◌, ◌==◌, Bool-cases, inl, inr, ltb, ℤ, pos, negsuc,
  if◌then◌else◌, arith,
}
use native.Mathlib.Nat.{le-div_iff_mul-le, div-le_self, mul-le-mul_right}

-- `characterDelay` and `frameDelay`, by the baud rate.
unfoldable pub delays : ℤ → ℕ × ℕ
delays (negsuc n) = (750, 1750)
delays (pos baud_rate) =
    if baud_rate == 0 || ltb 19200 baud_rate
    then (750, 1750)
    else (15000000 / baud_rate, 35000000 / baud_rate)

-- `calculateDelay`
unfoldable pub calculate_delay : ℤ → ℕ → ℕ
calculate_delay baud_rate chars = let d = delays baud_rate in d.0 * chars + d.1

quotients :
    (baud_rate : ℕ)
    → 0 < baud_rate
    → baud_rate ≤ 19200
    → (750 ≤ 15000000 / baud_rate)
      × (15000000 / baud_rate ≤ 15000000)
      × (1750 ≤ 35000000 / baud_rate)
      × (35000000 / baud_rate ≤ 35000000)
quotients b h k = (
  (le-div_iff_mul-le h).1 (omega arith),
  div-le_self 15000000 b,
  (le-div_iff_mul-le h).1 (omega arith),
  div-le_self 35000000 b,
)

delays_bounds :
    (baud_rate : ℤ)
    → (750 ≤ (delays baud_rate).0)
      × ((delays baud_rate).0 ≤ 15000000)
      × (1750 ≤ (delays baud_rate).1)
      × ((delays baud_rate).1 ≤ 35000000)
unfolding delays
delays_bounds (negsuc n) = (omega arith, omega arith, omega arith, omega arith)
delays_bounds (pos b) = elim (Bool-cases (b == 0 || ltb 19200 b)) [
  | inl e ↦ rw e (omega arith, omega arith, omega arith, omega arith)
  | inr e ↦ rw e (quotients b (ground arith) (ground arith))
]

-- Whatever the baud rate is, also a negative one, the time is at least that of a fast line, 750
-- microseconds for each character and 1750 for the frame; and for fewer than 2^20 characters, which
-- is more than a request and its response have, its nanoseconds fit into a `time.Duration`.
pub calculate_delay_bounds :
    (baud_rate : ℤ) (chars : ℕ)
    → chars < 2 ^ 20
    → (750 * chars + 1750 ≤ calculate_delay baud_rate chars)
      × (calculate_delay baud_rate chars * 1000 < 2 ^ 63)
unfolding calculate_delay
calculate_delay_bounds baud_rate chars h =
    let (a, b, c, d) = delays_bounds baud_rate in
    let low = mul-le-mul_right chars a in
    let high = mul-le-mul_right chars b in (omega (arith, low, c), omega (arith, high, d))
