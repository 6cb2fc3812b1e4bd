-- ===== src/Enhanced.antt =====
-- enhancement-tcp_packager.go, enhancement-rtu_packager.go and their transporters, over the
-- operations of a connection.
pub mod Tcp
pub mod Rtu
pub mod Unpack
pub mod Scan
pub mod Delivery
use gomodbus.Prelude.{
  ℕ, ◌+◌, ◌-◌, ◌*◌, ◌/◌, ◌%◌, ◌^◌, List, [], ◌∷◌, ◌++◌, length, u8, u16, ◌<<<◌, ◌>>>◌, bit_and,
  bit_or,
}
use gomodbus.Prelude.{ltb, ◌==◌, ◌!=◌, ◌||◌, if◌then◌else◌}
use gomodbus.Go.{
  Outcome, ok, err, panic, Error, ◌>>=◌, ◌>>◌, fail_if, index, minus, slice, slice_from, uint16,
  put_uint16,
}
use gomodbus.Crc.BitLoop.{crc16}

-- `TCPPackager.Pack`
unfoldable pub tcp_pack : ℕ → ℕ → List ℕ → List ℕ
tcp_pack transaction_id unit_id pdu =
    put_uint16 transaction_id
    ++ (put_uint16 0 ++ (put_uint16 (u16 (length pdu + 1)) ++ (unit_id ∷ pdu)))

-- `TCPPackager.Unpack`
unfoldable pub tcp_unpack : List ℕ → Outcome (ℕ × ℕ × List ℕ)
tcp_unpack frame = do
  fail_if (ltb (length frame) 7) (Error.response_too_short (length frame))
  transaction_id ← uint16 frame
  protocol_field ← slice frame 2 4
  protocol_id ← uint16 protocol_field
  length_field ← slice frame 4 6
  size ← uint16 length_field
  unit_id ← index frame 6
  pdu ← slice_from frame 7
  fail_if (protocol_id != 0) (Error.protocol_mismatch protocol_id 0)
  fail_if (size != u16 (length pdu + 1)) (Error.length_mismatch size (u16 (length pdu + 1)))
  ok (transaction_id, unit_id, pdu)

-- `RTUPackager.Pack`
unfoldable pub rtu_pack : ℕ → List ℕ → List ℕ
rtu_pack slave_id pdu =
    let crc = crc16 (slave_id ∷ pdu) in (slave_id ∷ pdu) ++ (u8 (crc >>> 8) ∷ bit_and crc 0xff ∷ [])

-- `RTUPackager.Unpack`
unfoldable pub rtu_unpack : List ℕ → Outcome (ℕ × List ℕ)
rtu_unpack frame = do
  let size = length frame
  fail_if (ltb size 3) (Error.response_too_short size)
  last ← index frame (size - 1)
  before_last ← index frame (size - 2)
  let received_crc = bit_or (u16 (last <<< 8)) before_last
  body ← slice frame 0 (size - 2)
  fail_if (received_crc != crc16 body) (Error.checksum_mismatch received_crc (crc16 body))
  slave_id ← index frame 0
  pdu ← slice frame 1 (size - 2)
  ok (slave_id, pdu)
