-- ===== src/Enhanced/Rtu.antt =====
-- enhancement-rtu_transporter.go: sending and receiving over a serial port.
use gomodbus.Prelude.{ℕ, ◌≤◌, ◌≡◌, ◌⊎◌, refl, ap, ◌∙◌, arith, true, false}
use gomodbus.Prelude.{
  List, [], ◌∷◌, ◌++◌, append_assoc, length, All, IsByte, IsWord, u8, ◌>>>◌, bit_and, ◌==◌, ◌!=◌,
  ◌||◌, if◌then◌else◌,
}
use gomodbus.Go.{ok, err, Error, index, slice_from, uint16}
use gomodbus.Bits.Mask.{and_low}
use gomodbus.Crc.BitLoop.{crc16}
use gomodbus.Crc.Equivalence.{crc16-eq-value, checksum-IsWord}
use gomodbus.Client.Backend.{Action, lift, check, pure, ◌>>=◌, ◌>>◌}
use gomodbus.Tcp.Transport.{Conn, Stream, stream_conn}
use gomodbus.Tcp.Delivery.{rest_read}
use gomodbus.Handler.{Transport}
use gomodbus.Enhanced.{rtu_pack}

module _ {C : Type 0} (port : Conn C) where
  unfoldable pub send : ℕ → List ℕ → Action C (Unit {0})
  send slave_id pdu = port.write (rtu_pack slave_id pdu)

  -- The cases of the switch: what is read behind the header.
  unfoldable pub read_payload : ℕ → Action C (List ℕ)
  read_payload function_code =
      if function_code == 1 || (function_code == 2 || (function_code == 3 || function_code == 4))
      then (do
        count_byte ← port.read_full 1
        count ← lift (index count_byte 0)
        payload ← port.read_full count
        pure (count_byte ++ payload))
      else if function_code == 5
          || (function_code == 6 || (function_code == 15 || function_code == 16))
      then port.read_full 4
      else if function_code == 7
      then port.read_full 1
      else lift (err (Error.unexpected_function function_code 0))

  unfoldable pub receive : Action C (ℕ × List ℕ)
  receive = do
    header ← port.read_full 2
    slave_id ← lift (index header 0)
    function_code ← lift (index header 1)
    payload ← read_payload function_code
    crc_bytes ← port.read_full 2
    received_crc ← lift (uint16 crc_bytes)
    check (received_crc != crc16 (header ++ payload))
        (Error.checksum_mismatch received_crc (crc16 (header ++ payload)))
    pdu ← lift (slice_from (header ++ payload) 1)
    pure (slave_id, pdu)

  -- The transport of a handler in the mode RTU.
  abbrev pub rtu_transport : Transport C
  rtu_transport = record { send = send; receive = receive }

-- The units that the switch knows.
pub data IsReceivable : List ℕ → Type 0 where
  counted : (f : ℕ) (xs : List ℕ) → 1 ≤ f → f ≤ 4 → IsReceivable (f ∷ length xs ∷ xs)
  echoed :
      (f a b c d : ℕ)
      → (f ≡ 5) ⊎ (f ≡ 6) ⊎ (f ≡ 15) ⊎ (f ≡ 16)
      → IsReceivable (f ∷ a ∷ b ∷ c ∷ d ∷ [])
  status_byte : (x : ℕ) → IsReceivable (7 ∷ x ∷ [])

pub crc16-IsWord : (bs : List ℕ) → All IsByte bs → IsWord (crc16 bs)
crc16-IsWord bs h = let sum = checksum-IsWord bs h in omega (arith, crc16-eq-value bs h)

-- The two bytes that `Pack` writes behind the unit.
abbrev sums : List ℕ → List ℕ
sums body = u8 (crc16 body >>> 8) ∷ bit_and (crc16 body) 0xff ∷ []

sums-word : (body : List ℕ) → IsWord (crc16 body) → uint16 (sums body) ≡ ok (crc16 body)
unfolding uint16
sums-word body h = ground (arith, and_low 8 (crc16 body))

abbrev at : List ℕ → Stream
at xs = record { incoming = xs; outgoing = [] }

-- What the switch reads.
counted_read :
    (f : ℕ) (xs later : List ℕ)
    → 1 ≤ f
    → f ≤ 4
    → read_payload stream_conn f (at (length xs ∷ (xs ++ later))) ≡ (ok (length xs ∷ xs), at later)
unfolding read_payload index ◌>>=◌
counted_read f xs later h k =
    let known : (f == 1 || (f == 2 || (f == 3 || f == 4))) ≡ true = ground arith in
    rw (known, rest_read (length xs ∷ []) (xs ++ later) [], rest_read xs later []) refl

echoed_read :
    (f a b c d : ℕ) (later : List ℕ)
    → (f ≡ 5) ⊎ (f ≡ 6) ⊎ (f ≡ 15) ⊎ (f ≡ 16)
    → read_payload stream_conn f (at (a ∷ b ∷ c ∷ d ∷ later)) ≡ (ok (a ∷ b ∷ c ∷ d ∷ []), at later)
unfolding read_payload
echoed_read f a b c d later h =
    let other : (f == 1 || (f == 2 || (f == 3 || f == 4))) ≡ false = ground arith in
    let known : (f == 5 || (f == 6 || (f == 15 || f == 16))) ≡ true = ground arith in
    rw (other, known, rest_read (a ∷ b ∷ c ∷ d ∷ []) later []) refl

status_read :
    (x : ℕ) (later : List ℕ) → read_payload stream_conn 7 (at (x ∷ later)) ≡ (ok (x ∷ []), at later)
unfolding read_payload
status_read x later = rest_read (x ∷ []) later []

pub slice_tail : (x : ℕ) (xs : List ℕ) → slice_from (x ∷ xs) 1 ≡ ok xs
unfolding slice_from
slice_tail x xs = ground arith

-- The part of `Receive` behind the header.
received_tail :
    (slave f : ℕ) (payload later : List ℕ)
    → read_payload stream_conn f (at (payload ++ (sums (slave ∷ f ∷ payload) ++ later)))
      ≡ (ok payload, at (sums (slave ∷ f ∷ payload) ++ later))
    → IsWord (crc16 (slave ∷ f ∷ payload))
    → receive stream_conn (at (slave ∷ f ∷ (payload ++ (sums (slave ∷ f ∷ payload) ++ later))))
      ≡ (ok (slave, f ∷ payload), at later)
unfolding receive index ◌>>=◌ check
received_tail slave f payload later read word =
    let header = slave ∷ f ∷ [] in
    let body = slave ∷ f ∷ payload in
    let same : (crc16 body != crc16 body) ≡ false = ground arith in
    rw
      (
        rest_read header (payload ++ (sums body ++ later)) [],
        read,
        rest_read (sums body) later [],
        sums-word body word,
        same,
        slice_tail slave (f ∷ payload),
      )
      refl

-- The bytes of a packed frame, with the sums apart.
framed :
    (slave f : ℕ) (payload later : List ℕ)
    → rtu_pack slave (f ∷ payload) ++ later
      ≡ slave ∷ f ∷ (payload ++ (sums (slave ∷ f ∷ payload) ++ later))
unfolding rtu_pack
framed slave f payload later =
    ap (λ t. slave ∷ f ∷ t) (append_assoc payload (sums (slave ∷ f ∷ payload)) later)

-- A frame that a device packs is received, and nothing behind it is read: its unit is a response
-- whose size the function code or a byte count tells, of bytes, and the slave address is a byte.
pub receive-rtu_pack :
    (slave : ℕ) {pdu : List ℕ} (later : List ℕ)
    → IsReceivable pdu
    → IsByte slave
    → All IsByte pdu
    → receive stream_conn (at (rtu_pack slave pdu ++ later)) ≡ (ok (slave, pdu), at later)
receive-rtu_pack slave later (counted f xs h k) hs hp =
    ap (λ t. receive stream_conn (at t)) (framed slave f (length xs ∷ xs) later)
    ∙ received_tail slave f (length xs ∷ xs) later (counted_read f xs _ h k)
        (crc16-IsWord (slave ∷ f ∷ length xs ∷ xs) (hs, hp))
receive-rtu_pack slave later (echoed f a b c d e) hs hp =
    ap (λ t. receive stream_conn (at t)) (framed slave f (a ∷ b ∷ c ∷ d ∷ []) later)
    ∙ received_tail slave f (a ∷ b ∷ c ∷ d ∷ []) later (echoed_read f a b c d _ e)
        (crc16-IsWord (slave ∷ f ∷ a ∷ b ∷ c ∷ d ∷ []) (hs, hp))
receive-rtu_pack slave later (status_byte x) hs hp =
    ap (λ t. receive stream_conn (at t)) (framed slave 7 (x ∷ []) later)
    ∙ received_tail slave 7 (x ∷ []) later (status_read x _)
        (crc16-IsWord (slave ∷ 7 ∷ x ∷ []) (hs, hp))
