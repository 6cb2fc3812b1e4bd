-- ===== src/Lrc.antt =====
-- lrc.go: the longitudinal redundancy check, a sum of bytes.
use gomodbus.Prelude.{ℕ, ◌+◌, ◌-◌, List, [], ◌∷◌, u8}

pub record Lrc : Type 0 where
  pub sum : ℕ

-- `reset`, whatever the sum is.
abbrev pub reset : Lrc
reset = record { sum = 0 }

unfoldable pub push_byte : Lrc → ℕ → Lrc
push_byte lrc b = record { sum = u8 (lrc.sum + b) }

unfoldable pub push_bytes : Lrc → List ℕ → Lrc
push_bytes lrc [] = lrc
push_bytes lrc (b ∷ bs) = push_bytes (record { sum = u8 (lrc.sum + b) }) bs

-- The two's complement of the sum, as a byte.
unfoldable pub value : Lrc → ℕ
value lrc = u8 (256 - lrc.sum)
