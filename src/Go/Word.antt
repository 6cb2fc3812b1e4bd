-- ===== src/Go/Word.antt =====
-- The two bytes of a word, and the word of two bytes.
use gomodbus.Prelude.{ℕ, ◌+◌, ◌*◌, ◌/◌, ◌%◌, ◌<◌, ◌≡◌, arith, bit_or, ◌<<<◌, u16}
use gomodbus.Prelude.{IsByte, IsWord, All}
use gomodbus.Go.Defs.{put_uint16}
use gomodbus.Bits.Mask.{or_fields}

pub put_uint16-IsByte : (v : ℕ) → All IsByte (put_uint16 v)
put_uint16-IsByte v = (omega arith, (omega arith, tt))

-- `uint16(hi)<<8 | uint16(lo)`
pub join_bytes : (hi lo : ℕ) → hi < 256 → lo < 256 → bit_or (u16 (hi <<< 8)) lo ≡ hi * 256 + lo
join_bytes hi lo hh hl =
    let fits : hi * 256 % 65536 ≡ hi * 256 = omega arith in rw fits (or_fields 8 hi lo hl)

pub word_of_bytes : (v : ℕ) → IsWord v → v / 256 % 256 * 256 + v % 256 ≡ v
word_of_bytes v h = omega arith
