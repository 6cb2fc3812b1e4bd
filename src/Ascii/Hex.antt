-- ===== src/Ascii/Hex.antt =====
-- The hexadecimal text of bytes, and that it is read back.
use gomodbus.Prelude.{ℕ, ◌+◌, ◌*◌, ◌%◌, ◌/◌, ◌<◌, ◌≡◌, refl, arith, List, [], ◌∷◌, ◌++◌, length}
use gomodbus.Prelude.{true, All, IsByte, ltb, leb, bit_and, if◌then◌else◌}
use gomodbus.Go.{ok, index, slice}
use gomodbus.Bits.Mask.{and_low}
use gomodbus.Ascii.{hex_table, from_hex, hex_decode, write_hex, read_hex}

abbrev pub hex_digit : ℕ → ℕ
hex_digit n = if ltb n 10 then 48 + n else 55 + n

abbrev pub hex_text : List ℕ → List ℕ
hex_text [] = []
hex_text (v ∷ vs) = hex_digit (v / 16) ∷ hex_digit (v % 16) ∷ hex_text vs

index_digit : (n : ℕ) → n < 16 → index hex_table n ≡ ok (hex_digit n)
unfolding index
index_digit n h = ground arith

pub from_hex-digit : (n : ℕ) → n < 16 → from_hex (hex_digit n) ≡ ok n
unfolding from_hex
from_hex-digit n h = ground arith

pub write_hex-text : (vs : List ℕ) → All IsByte vs → write_hex vs ≡ ok (hex_text vs)
unfolding write_hex
write_hex-text [] h = refl
write_hex-text (v ∷ vs) (hv, h) =
    let low : bit_and v 0x0f ≡ v % 16 = and_low 4 v in
    rw
      (
        index_digit (v / 16) (omega arith),
        low,
        index_digit (v % 16) (omega arith),
        write_hex-text vs h,
      )
      refl

pub hex_decode-text : (vs : List ℕ) → All IsByte vs → hex_decode (hex_text vs) ≡ ok vs
unfolding hex_decode
hex_decode-text [] h = refl
hex_decode-text (v ∷ vs) (hv, h) =
    let whole : v / 16 * 16 + v % 16 ≡ v = omega arith in
    rw
      (
        from_hex-digit (v / 16) (omega arith),
        from_hex-digit (v % 16) (omega arith),
        hex_decode-text vs h,
        whole,
      )
      refl

pub length-hex_text : (vs : List ℕ) → length (hex_text vs) ≡ 2 * length vs
length-hex_text [] = refl
length-hex_text (v ∷ vs) = omega (arith, length-hex_text vs)

pub hex_text-append : (vs ws : List ℕ) → hex_text (vs ++ ws) ≡ hex_text vs ++ hex_text ws
hex_text-append [] ws = refl
hex_text-append (v ∷ vs) ws = rw (hex_text-append vs ws) refl

-- The first two characters of a text, as `readHex` reads them.
pub read_hex-text : (v : ℕ) (cs : List ℕ) → IsByte v → read_hex (hex_text (v ∷ []) ++ cs) ≡ ok v
unfolding read_hex slice index
read_hex-text v cs h =
    let fits : leb 2 (length (hex_text (v ∷ []) ++ cs)) ≡ true = ground arith in
    rw (fits, hex_decode-text (v ∷ []) (h, tt)) refl
