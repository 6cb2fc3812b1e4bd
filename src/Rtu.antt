-- ===== src/Rtu.antt =====
-- rtuclient.go: the RTU packager. `calculateResponseLength` and the transporter are in Rtu/Length
-- and Rtu/Transport.
pub mod Frame
pub mod Cut
pub mod Size
pub mod RoundTrip
pub mod Safety
pub mod Corruption
pub mod Sound
pub mod Length
pub mod Transport
pub mod Total
pub mod Delivery
pub mod Delay
pub mod OverTcp
use gomodbus.Prelude.{ℕ, ◌+◌, ◌-◌, ◌/◌, ◌*◌, ◌%◌, ◌^◌, List, [], ◌∷◌, ◌++◌, length, get_or, bit_or}
use gomodbus.Prelude.{u8, u16, ◌<<<◌, ◌>>>◌, ltb, ◌!=◌, ◌&&◌, if◌then◌else◌}
use gomodbus.Go.{Outcome, ok, err, panic, ◌>>=◌, ◌>>◌, fail_if, index, minus, slice, Error}
use gomodbus.Pdu.{Pdu}
use gomodbus.Crc.{reset, push_bytes, value}

abbrev pub rtu_min_size : ℕ
rtu_min_size = 4

abbrev pub rtu_max_size : ℕ
rtu_max_size = 256

abbrev pub rtu_exception_size : ℕ
rtu_exception_size = 5

pub record RtuPackager : Type 0 where
  pub slave_id : ℕ

unfoldable pub set_slaver_id : RtuPackager → ℕ → RtuPackager
set_slaver_id mb slave_id = record mb { slave_id = slave_id }

unfoldable pub encode : RtuPackager → Pdu → Outcome (List ℕ)
encode mb pdu =
    let size = length pdu.payload + 4 in
    let body = mb.slave_id ∷ pdu.function_code ∷ pdu.payload in
    let checksum = value (push_bytes reset body) in
    if ltb rtu_max_size size
    then err (Error.data_too_long size)
    else ok (body ++ (u8 checksum ∷ u8 (checksum >>> 8) ∷ []))

unfoldable pub verify : List ℕ → List ℕ → Outcome (Unit {0})
verify adu_request adu_response = do
  let size = length adu_response
  fail_if (ltb size rtu_min_size) (Error.response_too_short size)
  response_id ← index adu_response 0
  request_id ← index adu_request 0
  fail_if (response_id != request_id) (Error.slave_mismatch response_id request_id)

-- The real length of a frame: a response to a read says how long it is.
unfoldable pub real_length : List ℕ → Outcome ℕ
real_length adu =
    let size = length adu in
    let real_len = get_or adu 2 0 + 5 in
    if ltb 1 size && ltb (get_or adu 1 0) 5
    then if ltb size 3
      then err (Error.length_below_min size)
      else if ltb size real_len
      then err (Error.length_below_real size real_len)
      else ok real_len
    else ok size

-- The checksum and the fields of a frame of the given length.
unfoldable pub decode_frame : List ℕ → ℕ → Outcome Pdu
decode_frame adu size = do
  body_end ← minus size 2
  body ← slice adu 0 body_end
  last ← index adu (size - 1)
  before_last ← index adu (size - 2)
  let checksum = bit_or (u16 (last <<< 8)) before_last
  let expected = value (push_bytes reset body)
  fail_if (checksum != expected) (Error.checksum_mismatch checksum expected)
  function_code ← index adu 1
  payload ← slice adu 2 body_end
  ok (record { function_code = function_code; payload = payload })

unfoldable pub decode : List ℕ → Outcome Pdu
decode adu = do size ← real_length adu; decode_frame adu size
