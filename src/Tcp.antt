-- ===== src/Tcp.antt =====
-- tcpclient.go: the TCP packager. The transporter is in Tcp/Transport.
pub mod Transport
pub mod Frame
pub mod Total
pub mod Delivery
use gomodbus.Prelude.{ℕ, ◌+◌, ◌-◌, ◌*◌, ◌/◌, ◌%◌, ◌^◌, List, [], ◌∷◌, ◌++◌, length, u8, u16}
use gomodbus.Prelude.{ltb, leb, ◌!=◌, ◌||◌, if◌then◌else◌}
use gomodbus.Go.{
  Outcome, ok, err, panic, Error, ◌>>=◌, ◌>>◌, fail_if, index, slice_from, uint16, put_uint16,
}
use gomodbus.Pdu.{Pdu}

abbrev pub tcp_protocol_identifier : ℕ
tcp_protocol_identifier = 0x0000

abbrev pub tcp_header_size : ℕ
tcp_header_size = 7

abbrev pub tcp_max_length : ℕ
tcp_max_length = 260

pub record TcpPackager : Type 0 where
  pub transaction_id : ℕ
  pub slave_id : ℕ

unfoldable pub set_slaver_id : TcpPackager → ℕ → TcpPackager
set_slaver_id mb slave_id = record mb { slave_id = slave_id }

-- The packager counts its transactions, in 32 bits.
unfoldable pub encode : Pdu → TcpPackager → Outcome (List ℕ) × TcpPackager
encode pdu mb =
    let transaction_id = (mb.transaction_id + 1) % 2 ^ 32 in
    let size = u16 (1 + 1 + length pdu.payload) in
    (
      ok (
          put_uint16 (u16 transaction_id)
          ++ (put_uint16 tcp_protocol_identifier
              ++ (put_uint16 size ++ (mb.slave_id ∷ pdu.function_code ∷ pdu.payload)))),
      record mb { transaction_id = transaction_id },
    )

unfoldable pub verify : List ℕ → List ℕ → Outcome (Unit {0})
verify adu_request adu_response = do
  response_id ← uint16 adu_response
  request_id ← uint16 adu_request
  fail_if (response_id != request_id) (Error.transaction_mismatch response_id request_id)
  response_tail ← slice_from adu_response 2
  response_protocol ← uint16 response_tail
  request_tail ← slice_from adu_request 2
  request_protocol ← uint16 request_tail
  fail_if (response_protocol != request_protocol)
      (Error.protocol_mismatch response_protocol request_protocol)
  response_unit ← index adu_response 6
  request_unit ← index adu_request 6
  fail_if (response_unit != request_unit) (Error.unit_mismatch response_unit request_unit)

-- `length-1` is computed in 16 bits; the length of the unit may be negative, and is refused then.
unfoldable pub decode : List ℕ → Outcome Pdu
decode adu = do
  field ← slice_from adu 4
  size ← uint16 field
  let pdu_length = length adu - tcp_header_size
  fail_if (leb (length adu) tcp_header_size || pdu_length != (size + 65535) % 65536)
      (Error.length_mismatch ((size + 65535) % 65536) pdu_length)
  function_code ← index adu tcp_header_size
  payload ← slice_from adu (tcp_header_size + 1)
  ok (record { function_code = function_code; payload = payload })
