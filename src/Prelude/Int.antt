-- ===== src/Prelude/Int.antt =====
-- Integers over the native numbers, and two's complement.
use Prim.Native.Nat.{ℕ, ◌-◌, ◌^◌}
use gomodbus.Prelude.Tests.{ltb, if◌then◌else◌}

-- `negsuc n` is -(n + 1).
pub data ℤ : Type 0 where
  pos negsuc : ℕ → ℤ

-- The integer that a word of `w` bits stands for.
abbrev pub signed : ℕ → ℕ → ℤ
signed w v = if ltb v (2 ^ (w - 1)) then pos v else negsuc (2 ^ w - 1 - v)

-- The word of `w` bits that stands for an integer.
abbrev pub unsigned : ℕ → ℤ → ℕ
unsigned w (pos n) = n
unsigned w (negsuc n) = 2 ^ w - 1 - n
