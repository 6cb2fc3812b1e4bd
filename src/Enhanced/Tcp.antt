-- ===== src/Enhanced/Tcp.antt =====
-- enhancement-tcp_transporter.go: sending and receiving over a connection.
use gomodbus.Prelude.{ℕ, suc, zero, ◌-◌, ◌≤◌, ◌≡◌, arith, List, [], length, IsWord, ltb, ◌==◌, ◌!=◌}
use gomodbus.Go.{ok, Error, index, slice, slice_from, uint16}
use gomodbus.Client.Backend.{Action, lift, check, pure, ◌>>=◌, ◌>>◌}
use gomodbus.Tcp.Transport.{Conn}
use gomodbus.Handler.{Transport}
use gomodbus.Enhanced.{tcp_pack, tcp_unpack}

module _ {C : Type 0} (conn : Conn C) where
  unfoldable pub send : ℕ → ℕ → List ℕ → Action C (Unit {0})
  send transaction_id unit_id pdu = do
    conn.set_deadline
    conn.write (tcp_pack transaction_id unit_id pdu)

  -- A read of no bytes is left out.
  abbrev pub read_pdu : ℕ → Action C (List ℕ)
  read_pdu zero = pure []
  read_pdu (suc n) = conn.read_full (suc n)

  -- What `Receive` does when the header is read.
  abbrev pub receive_pdu : ℕ → ℕ → ℕ → Action C (ℕ × ℕ × List ℕ)
  receive_pdu transaction_id unit_id size = do
    check (size == 0) Error.zero_length
    check (ltb 260 size) (Error.length_too_large size)
    pdu ← read_pdu (size - 1)
    pure (transaction_id, unit_id, pdu)

  unfoldable pub receive : Action C (ℕ × ℕ × List ℕ)
  receive = do
    conn.set_deadline
    header ← conn.read_full 7
    transaction_field ← lift (slice header 0 2)
    transaction_id ← lift (uint16 transaction_field)
    protocol_field ← lift (slice header 2 4)
    protocol_id ← lift (uint16 protocol_field)
    length_field ← lift (slice header 4 6)
    size ← lift (uint16 length_field)
    unit_id ← lift (index header 6)
    check (protocol_id != 0) (Error.protocol_mismatch protocol_id 0)
    receive_pdu transaction_id unit_id size

  -- The transport of a handler in the mode TCP, whose transaction number never changes.
  abbrev pub tcp_transport : ℕ → Transport C
  tcp_transport transmission_id = record {
    send = send transmission_id;
    receive = receive >>= λ r. pure (r.1, r.2);
  }

-- `Unpack` gives back what `Pack` was given, when the transaction number has 16 bits and the unit is
-- at most 65534 bytes long.
pub tcp_unpack-tcp_pack :
    (transaction_id unit_id : ℕ) (pdu : List ℕ)
    → IsWord transaction_id
    → length pdu ≤ 65534
    → tcp_unpack (tcp_pack transaction_id unit_id pdu) ≡ ok (transaction_id, unit_id, pdu)
unfolding tcp_unpack tcp_pack slice slice_from index uint16
tcp_unpack-tcp_pack t u pdu ht h = ground arith
