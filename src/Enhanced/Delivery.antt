-- ===== src/Enhanced/Delivery.antt =====
-- enhancement-tcp_transporter.go: a frame that the peer packs is received.
use gomodbus.Prelude.{
  ℕ, ◌+◌, ◌-◌, ◌*◌, ◌/◌, ◌≤◌, ◌≡◌, refl, arith, false, List, [], ◌∷◌, ◌++◌, length, IsWord, u8, u16,
  ltb, ◌==◌,
}
use gomodbus.Go.{ok, index, slice, uint16, put_uint16}
use gomodbus.Go.Word.{word_of_bytes}
use gomodbus.Client.Backend.{check, ◌>>=◌}
use gomodbus.Tcp.Transport.{Stream, stream_conn}
use gomodbus.Tcp.Delivery.{rest_read}
use gomodbus.Enhanced.{tcp_pack}
use gomodbus.Enhanced.Tcp.{receive, receive_pdu, read_pdu}

abbrev at : List ℕ → List ℕ → Stream
at xs out = record { incoming = xs; outgoing = out }

read_pdu-whole :
    (pdu later out : List ℕ)
    → read_pdu stream_conn (length pdu) (at (pdu ++ later) out) ≡ (ok pdu, at later out)
read_pdu-whole [] later out = refl
read_pdu-whole (x ∷ xs) later out = rest_read (x ∷ xs) later out

-- What `Receive` does behind the fields of the header.
tail_received :
    (t u size : ℕ) (pdu later out : List ℕ)
    → size ≡ length pdu + 1
    → length pdu ≤ 259
    → receive_pdu stream_conn t u size (at (pdu ++ later) out) ≡ (ok (t, u, pdu), at later out)
unfolding ◌>>=◌ check
tail_received t u size pdu later out h small =
    let count : size - 1 ≡ length pdu = omega arith in
    let nonzero : (size == 0) ≡ false = ground arith in
    let fits : ltb 260 size ≡ false = ground arith in
    rw (nonzero, fits, count, read_pdu-whole pdu later out) refl

-- A frame that the peer packs with a transaction number of 16 bits and a unit of at most 259 bytes is
-- received whole, with its numbers, and what follows it stays in the connection.
pub receive-tcp_pack :
    (transaction_id unit_id : ℕ) (pdu later out : List ℕ)
    → IsWord transaction_id
    → length pdu ≤ 259
    → receive stream_conn
        (record { incoming = tcp_pack transaction_id unit_id pdu ++ later; outgoing = out })
      ≡ (ok (transaction_id, unit_id, pdu), record { incoming = later; outgoing = out })
unfolding receive tcp_pack slice uint16 index ◌>>=◌ check
receive-tcp_pack t u pdu later out ht small =
    let size = u16 (length pdu + 1) in
    let header = put_uint16 t ++ (0 ∷ 0 ∷ (put_uint16 size ++ (u ∷ []))) in
    let number : u8 (t / 256) * 256 + u8 t ≡ t = word_of_bytes t ht in
    rw (rest_read header (pdu ++ later) out, number)
      (tail_received t u (u8 (size / 256) * 256 + u8 size) pdu later out (omega arith) small)
