-- ===== src/Crc/BitLoop.antt =====
-- enhancement-utils.go: `CRC16`, which shifts one bit at a time.
use gomodbus.Prelude.{ℕ, zero, suc, List, [], ◌∷◌}
use gomodbus.Prelude.{bit_and, bit_or, bit_xor, u16, ◌<<<◌, ◌>>>◌, ◌!=◌, if◌then◌else◌}

-- One round of the inner loop.
unfoldable pub shift_once : ℕ → ℕ
shift_once crc = if bit_and crc 0x0001 != 0 then bit_xor (crc >>> 1) 0xa001 else crc >>> 1

-- The inner loop, with the rounds that are left.
unfoldable pub shift_loop : ℕ → ℕ → ℕ
shift_loop zero crc = crc
shift_loop (suc n) crc = shift_loop n (shift_once crc)

-- The outer loop, over the bytes that are left.
unfoldable pub crc16_loop : ℕ → List ℕ → ℕ
crc16_loop crc [] = crc
crc16_loop crc (b ∷ bs) = crc16_loop (shift_loop 8 (bit_xor crc b)) bs

unfoldable pub crc16 : List ℕ → ℕ
crc16 bytes =
    let crc = crc16_loop 0xffff bytes in
    bit_or (u16 (bit_and crc 0xff <<< 8)) (bit_and (crc >>> 8) 0xff)
