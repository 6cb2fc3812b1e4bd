-- ===== src/Ascii.antt =====
-- asciiclient.go: the ASCII packager, with the hexadecimal text of its frames.
pub mod Hex
pub mod Frame
pub mod Transport
pub mod Delivery
pub mod OverTcp
pub mod Message
pub mod Checked
use gomodbus.Prelude.{ℕ, ◌+◌, ◌-◌, ◌*◌, ◌%◌, ◌/◌, ◌^◌, List, [], ◌∷◌, ◌++◌, length, bit_and, not}
use gomodbus.Prelude.{◌>>>◌, ltb, leb, ◌!=◌, ◌&&◌, if◌then◌else◌}
use gomodbus.Go.{
  Outcome, ok, err, panic, ◌>>=◌, ◌>>◌, fail_if, index, minus, slice, slice_from, Error,
}
use gomodbus.Go.Text.{same_string}
use gomodbus.Pdu.{Pdu}
use gomodbus.Lrc.{reset, push_byte, push_bytes, value}

abbrev pub ascii_start : List ℕ
ascii_start = 58 ∷ []

abbrev pub ascii_end : List ℕ
ascii_end = 13 ∷ 10 ∷ []

abbrev pub ascii_min_size : ℕ
ascii_min_size = 3

abbrev pub ascii_max_size : ℕ
ascii_max_size = 513

-- The characters `0123456789ABCDEF`.
abbrev pub hex_table : List ℕ
hex_table = 48 ∷ 49 ∷ 50 ∷ 51 ∷ 52 ∷ 53 ∷ 54 ∷ 55 ∷ 56 ∷ 57 ∷ 65 ∷ 66 ∷ 67 ∷ 68 ∷ 69 ∷ 70 ∷ []

-- A character of `encoding/hex`, in upper or lower case.
unfoldable pub from_hex : ℕ → Outcome ℕ
from_hex c =
    if leb 48 c && leb c 57
    then ok (c - 48)
    else if leb 97 c && leb c 102
    then ok (c - 87)
    else if leb 65 c && leb c 70
    then ok (c - 55)
    else err Error.bad_hex

-- `hex.Decode`
unfoldable pub hex_decode : List ℕ → Outcome (List ℕ)
hex_decode [] = ok []
hex_decode (p ∷ []) = err Error.bad_hex
hex_decode (p ∷ q ∷ cs) = do
  a ← from_hex p
  b ← from_hex q
  rest ← hex_decode cs
  ok ((a * 16 + b) ∷ rest)

-- `writeHex`
unfoldable pub write_hex : List ℕ → Outcome (List ℕ)
write_hex [] = ok []
write_hex (v ∷ vs) = do
  high ← index hex_table (v >>> 4)
  low ← index hex_table (bit_and v 0x0f)
  rest ← write_hex vs
  ok (high ∷ low ∷ rest)

-- `readHex`
unfoldable pub read_hex : List ℕ → Outcome ℕ
read_hex cs = do field ← slice cs 0 2; bytes ← hex_decode field; index bytes 0

pub record AsciiPackager : Type 0 where
  pub slave_id : ℕ

unfoldable pub set_slaver_id : AsciiPackager → ℕ → AsciiPackager
set_slaver_id mb slave_id = record mb { slave_id = slave_id }

-- The checksum of a slave address and a unit.
abbrev pub lrc_of : ℕ → Pdu → ℕ
lrc_of slave pdu =
    value (push_bytes (push_byte (push_byte reset slave) pdu.function_code) pdu.payload)

unfoldable pub encode : AsciiPackager → Pdu → Outcome (List ℕ)
encode mb pdu = do
  head ← write_hex (mb.slave_id ∷ pdu.function_code ∷ [])
  text ← write_hex pdu.payload
  checksum ← write_hex (lrc_of mb.slave_id pdu ∷ [])
  ok (ascii_start ++ (head ++ (text ++ (checksum ++ ascii_end))))

unfoldable pub verify : List ℕ → List ℕ → Outcome (Unit {0})
verify adu_request adu_response = do
  let size = length adu_response
  fail_if (ltb size (ascii_min_size + 6)) (Error.response_too_short size)
  fail_if (size % 2 != 1) (Error.odd_length size)
  start ← slice adu_response 0 1
  fail_if (not (same_string start ascii_start)) Error.bad_start
  end_at ← minus size 2
  ending ← slice_from adu_response end_at
  fail_if (not (same_string ending ascii_end)) Error.bad_end
  response_field ← slice_from adu_response 1
  response_val ← read_hex response_field
  request_field ← slice_from adu_request 1
  request_val ← read_hex request_field
  fail_if (response_val != request_val) (Error.slave_mismatch response_val request_val)

unfoldable pub decode : List ℕ → Outcome Pdu
decode adu = do
  address_field ← slice_from adu 1
  address ← read_hex address_field
  function_field ← slice_from adu 3
  function_code ← read_hex function_field
  data_end ← minus (length adu) 4
  text ← slice adu 5 data_end
  payload ← hex_decode text
  lrc_field ← slice_from adu data_end
  lrc_val ← read_hex lrc_field
  let pdu : Pdu = record { function_code = function_code; payload = payload }
  fail_if (lrc_val != lrc_of address pdu) (Error.checksum_mismatch lrc_val (lrc_of address pdu))
  ok pdu
