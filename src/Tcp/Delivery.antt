-- ===== src/Tcp/Delivery.antt =====
-- A frame that the peer sends is received whole, whatever it sends after it.
use gomodbus.Prelude.{ℕ, ◌+◌, ◌-◌, ◌*◌, ◌/◌, ◌≤◌, ◌≡◌, refl, arith, true, false}
use gomodbus.Prelude.{
  List, [], ◌∷◌, ◌++◌, length, length-append, ltb, leb, ◌==◌, u8, take-length, drop-length,
}
use gomodbus.Go.{ok, Error, slice_from, uint16, put_uint16}
use gomodbus.Pdu.{Pdu}
use gomodbus.Client.Backend.{pure, ◌>>=◌, ◌>>◌}
use gomodbus.Tcp.Transport.{Conn, stream_conn, stream_read, refuse, send}
use gomodbus.Tcp.Frame.{framed}

-- The second read, when the length in the header is right.
pub rest_read :
    (xs later out : List ℕ)
    → stream_read (length xs) (record { incoming = xs ++ later; outgoing = out })
      ≡ (ok xs, record { incoming = later; outgoing = out })
rest_read xs later out =
    let fits : leb (length xs) (length (xs ++ later)) ≡ true =
      ground (arith, length-append xs later) in
    rw (fits, take-length xs later, drop-length xs later) refl

-- A connection on which some bytes have arrived.
module _ {C : Type 0} (conn : Conn C) (at : List ℕ → C)
    (reads : (xs later : List ℕ)
      → conn.read_full (length xs) (at (xs ++ later)) ≡ (ok xs, at later)) where
  -- What `Send` does behind the header.
  tail_read :
      (size : ℕ) (header xs later : List ℕ)
      → size ≡ length xs + 1
      → length xs ≤ 253
      → (refuse conn (size == 0) Error.zero_length
            >> (refuse conn (ltb 254 size) (Error.length_too_large size)
                >> (conn.read_full (size + 6 - 7) >>= λ rest. pure (header ++ rest))))
          (at (xs ++ later))
        ≡ (ok (header ++ xs), at later)
  unfolding ◌>>=◌ refuse
  tail_read size header xs later h small =
      let count : size + 6 - 7 ≡ length xs = omega arith in
      let nonzero : (size == 0) ≡ false = ground arith in
      let fits : ltb 254 size ≡ false = ground arith in
      rw (nonzero, fits, count, reads xs later) refl

  -- When a frame with a unit of at most 253 bytes has arrived after the request was written, `Send`
  -- returns that frame and leaves what follows it.
  pub send-arrived :
      (adu later : List ℕ) (a b c d slave : ℕ) (pdu : Pdu) (s : C)
      → conn.connect s ≡ (ok tt, s)
      → conn.set_deadline s ≡ (ok tt, s)
      → conn.write adu s ≡ (ok tt, at (framed a b c d slave pdu ++ later))
      → length pdu.payload ≤ 252
      → send conn adu s ≡ (ok (framed a b c d slave pdu), at later)
  unfolding send slice_from uint16 ◌>>=◌
  send-arrived adu later a b c d slave pdu s connected deadline written h =
      let header = a ∷ b ∷ c ∷ d ∷ (put_uint16 (length pdu.payload + 2) ++ (slave ∷ [])) in
      rw (connected, deadline, written, reads header (pdu.function_code ∷ (pdu.payload ++ later)))
        (tail_read (u8 ((length pdu.payload + 2) / 256) * 256 + u8 (length pdu.payload + 2)) header
          (pdu.function_code ∷ pdu.payload) later (omega arith) (omega arith))

-- `Send` over a stream whose next bytes are a frame with a unit of at most 253 bytes returns that
-- frame, has written the request, and leaves what follows the frame.
pub send-framed :
    (adu later out : List ℕ) (a b c d slave : ℕ) (pdu : Pdu)
    → length pdu.payload ≤ 252
    → send stream_conn adu (record { incoming = framed a b c d slave pdu ++ later; outgoing = out })
      ≡ (ok (framed a b c d slave pdu), record { incoming = later; outgoing = out ++ adu })
send-framed adu later out a b c d slave pdu h =
    send-arrived stream_conn (λ xs. record { incoming = xs; outgoing = out ++ adu })
      (λ xs more. rest_read xs more (out ++ adu)) adu later a b c d slave pdu _ refl refl refl h
