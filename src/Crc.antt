-- ===== src/Crc.antt =====
-- crc.go: the table-driven Modbus CRC. `enhancement-utils.go`'s `CRC16` is in Crc/BitLoop.
pub mod Table
pub mod BitLoop
pub mod Equivalence
pub mod Detection
use gomodbus.Prelude.{ℕ, ◌+◌, ◌%◌, ◌^◌, ◌*◌, List, [], ◌∷◌, bit_or, bit_xor, get_or, u16, ◌<<<◌}
use Table.{crc_high_bytes, crc_low_bytes}

-- Cyclical redundancy checking: the two bytes of the running remainder.
pub record Crc : Type 0 where
  pub high : ℕ
  pub low : ℕ

unfoldable pub reset : Crc
reset = record { high = 0xff; low = 0xff }

-- The body of the loop of `pushBytes`.
unfoldable pub push_byte : Crc → ℕ → Crc
push_byte c b =
    let idx = bit_xor c.low b in
    record { high = get_or crc_low_bytes idx 0; low = bit_xor c.high (get_or crc_high_bytes idx 0) }

unfoldable pub push_bytes : Crc → List ℕ → Crc
push_bytes c [] = c
push_bytes c (b ∷ bs) = push_bytes (push_byte c b) bs

unfoldable pub value : Crc → ℕ
value c = bit_or (u16 (c.high <<< 8)) c.low
