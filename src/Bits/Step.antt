-- ===== src/Bits/Step.antt =====
-- One equation for the lowest digit of each operation.
use Prim.Native.Nat.{digits, differ, bit_and-bitwise, bit_or-bitwise, bit_xor-bitwise}
use gomodbus.Prelude.{ℕ, zero, suc, ◌+◌, ◌*◌, ◌/◌, ◌%◌, ◌≤◌, ◌<◌, min, max, ◌≡◌, refl, arith}
use gomodbus.Prelude.{bit_and, bit_or, bit_xor}

-- The recursion counts down from its first number; any larger count gives the same digits.
module _ (rest : ℕ → ℕ) (op : ℕ → ℕ → ℕ) where
  count_enough : (a b k l : ℕ) → a ≤ k → a ≤ l → digits rest op k a b ≡ digits rest op l a b
  count_enough zero b zero zero hk hl = refl
  count_enough zero b zero (suc l) hk hl = refl
  count_enough zero b (suc k) zero hk hl = refl
  count_enough zero b (suc k) (suc l) hk hl = refl
  count_enough (suc a) b zero l hk hl = absurd (omega arith)
  count_enough (suc a) b (suc k) zero hk hl = absurd (omega arith)
  count_enough (suc a) b (suc k) (suc l) hk hl =
      omega (arith, count_enough (suc a / 2) (b / 2) k l (omega arith) (omega arith))

  lowest_digit :
      (m y : ℕ)
      → digits rest op (suc m) (suc m) y
        ≡ op (suc m % 2) (y % 2) + 2 * digits rest op (suc m / 2) (suc m / 2) (y / 2)
  lowest_digit m y =
      omega (arith, count_enough (suc m / 2) (y / 2) m (suc m / 2) (omega arith) (omega arith))

differ_bits : (x y : ℕ) → x < 2 → y < 2 → differ x y ≡ (x + y) % 2
differ_bits zero y hx hy = omega arith
differ_bits (suc zero) zero hx hy = refl
differ_bits (suc zero) (suc zero) hx hy = refl
differ_bits (suc zero) (suc (suc y)) hx hy = absurd (omega arith)
differ_bits (suc (suc x)) y hx hy = absurd (omega arith)

pub bit_xor_step : (x y : ℕ) → bit_xor x y ≡ (x + y) % 2 + 2 * bit_xor (x / 2) (y / 2)
bit_xor_step zero y = simp bit_xor-bitwise (omega arith)
bit_xor_step (suc m) y = omega (
  arith,
  bit_xor-bitwise (suc m) y,
  bit_xor-bitwise (suc m / 2) (y / 2),
  lowest_digit (λ t. t) differ m y,
  differ_bits (suc m % 2) (y % 2) (omega arith) (omega arith),
)

pub bit_and_step : (x y : ℕ) → bit_and x y ≡ min (x % 2) (y % 2) + 2 * bit_and (x / 2) (y / 2)
bit_and_step zero y = simp bit_and-bitwise (omega arith)
bit_and_step (suc m) y = simp bit_and-bitwise (lowest_digit (λ _. 0) min m y)

pub bit_or_step : (x y : ℕ) → bit_or x y ≡ max (x % 2) (y % 2) + 2 * bit_or (x / 2) (y / 2)
bit_or_step zero y = simp bit_or-bitwise (omega arith)
bit_or_step (suc m) y = simp bit_or-bitwise (lowest_digit (λ t. t) max m y)
