-- ===== src/Prelude/Words.antt =====
-- Bytes and 16-bit words as numbers: the casts and shifts of Go, and their ranges.
use Prim.Native.Nat.{ℕ, ◌*◌, ◌/◌, ◌%◌, ◌^◌, ◌<◌}

abbrev pub u8 : ℕ → ℕ
u8 n = n % 256

abbrev pub u16 : ℕ → ℕ
u16 n = n % 65536

infixl 75 ◌<<<◌ ◌>>>◌
abbrev pub ◌<<<◌ : ℕ → ℕ → ℕ
x <<< k = x * 2 ^ k

abbrev pub ◌>>>◌ : ℕ → ℕ → ℕ
x >>> k = x / 2 ^ k

abbrev pub IsByte : ℕ → Type 0
IsByte b = b < 256

abbrev pub IsWord : ℕ → Type 0
IsWord w = w < 65536
