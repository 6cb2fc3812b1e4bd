-- ===== src/Handler/Session.antt =====
-- enhancement_handler.go over enhancement-tcp_transporter.go: a read of registers from the request to
-- the values.
use gomodbus.Prelude.{
  ℕ, ◌*◌, ◌%◌, ◌≤◌, ◌≡◌, refl, arith, false, List, [], ◌∷◌, ◌++◌, length, take_all,
}
use gomodbus.Prelude.{All, IsByte, IsWord, ◌!=◌, ltb, ◌&&◌, suc}
use gomodbus.Go.{ok, index, slice, put_uint16}
use gomodbus.Client.Backend.{check, ◌>>=◌}
use gomodbus.Tcp.Transport.{stream_conn}
use gomodbus.Enhanced.{tcp_pack}
use gomodbus.Enhanced.Tcp.{tcp_transport}
use gomodbus.Enhanced.Delivery.{receive-tcp_pack}
use gomodbus.Handler.Checks.{check_function, counted_bytes}
use gomodbus.Handler.Reads.{unpack_words-pack_words}
use gomodbus.Handler.{
  build_request_pdu, pack_words, send_and_receive, read_modbus_data, read_holding_registers,
}

length-pack_words : (vs : List ℕ) → length (pack_words vs) ≡ 2 * length vs
unfolding pack_words
length-pack_words [] = refl
length-pack_words (v ∷ vs) = omega (arith, length-pack_words vs)

counted_bytes-counted :
    (function_code : ℕ) (xs : List ℕ)
    → counted_bytes function_code (function_code ∷ length xs ∷ xs) ≡ ok xs
unfolding counted_bytes check_function index slice
counted_bytes-counted f xs = ground (arith, take_all (length xs) xs)

-- A device answers a read of holding registers over TCP with up to 125 values of 16 bits, in a frame
-- with any transaction number: the read returns these values, it has written one frame with the
-- request, and what follows the answer stays in the connection.
pub read_holding_registers-served :
    (transmission_id transaction_id slave start_address quantity : ℕ) (vs later out : List ℕ)
    → IsWord transaction_id
    → IsByte slave
    → length vs ≤ 125
    → All IsWord vs
    → read_holding_registers
        (tcp_transport stream_conn transmission_id)
        slave
        start_address
        quantity
        (record {
          incoming =
              tcp_pack transaction_id slave (3 ∷ length (pack_words vs) ∷ pack_words vs) ++ later;
          outgoing = out;
        })
      ≡ (
        ok vs,
        record {
          incoming = later;
          outgoing =
              out
              ++ tcp_pack transmission_id slave
                  (3 ∷ (put_uint16 start_address ++ put_uint16 quantity));
        },
      )
unfolding read_holding_registers read_modbus_data send_and_receive build_request_pdu ◌>>=◌ check
    gomodbus.Enhanced.Tcp.send
read_holding_registers-served tid t slave a q vs later out ht hs small hv =
    let bytes = pack_words vs in
    let address : slave % 256 ≡ slave = omega arith in
    let same : (slave != slave) ≡ false = ground arith in
    let even : (length bytes % 2 != 0) ≡ false = ground (arith, length-pack_words vs) in
    let delivered =
      receive-tcp_pack t slave (3 ∷ length bytes ∷ bytes) later
        (out ++ tcp_pack tid slave (3 ∷ (put_uint16 a ++ put_uint16 q))) ht
        (omega (arith, length-pack_words vs)) in
    let normal : (ltb 0 (suc (suc (length bytes))) && false) ≡ false = ground arith in
    rw
      (
        address,
        delivered,
        same,
        normal,
        counted_bytes-counted 3 bytes,
        even,
        unpack_words-pack_words vs hv,
      )
      refl
