-- ===== src/Rtu/Delivery.antt =====
-- The length that the transporter waits for, and what it returns when a response comes in parts.
use gomodbus.Prelude.{ℕ, ◌+◌, ◌-◌, ◌*◌, ◌/◌, ◌≤◌, ◌<◌, ◌≡◌, refl, ap, ◌∙◌, arith, true, false}
use gomodbus.Prelude.{
  List, [], ◌∷◌, ◌++◌, append-nil, length, get_or, take, drop, take-length, drop-length,
  length-append, bit_and, ltb, leb, ◌==◌, if◌then◌else◌,
}
use gomodbus.Bits.Mask.{and_bit}
use gomodbus.Go.{ok, err, Error, index, slice_from, uint16}
use gomodbus.Pdu.{Pdu}
use gomodbus.Client.Backend.{pure, ◌>>=◌}
use gomodbus.Client.Payload.{data_block, data_block_suffix}
use gomodbus.Client.Total.{Request}
use gomodbus.Client.Exchange.{request_pdu, IsWithinLimits}
use gomodbus.Rtu.{RtuPackager, encode}
use gomodbus.Rtu.RoundTrip.{sum_bytes}
use gomodbus.Rtu.Length.{calculate_response_length}
use gomodbus.Rtu.Transport.{Port, read_rest, send}

-- The number of payload bytes of the response to a request, by the protocol, for the requests for
-- which the request determines it.
abbrev pub payload_size : Request → ℕ
payload_size (Request.coils a q) = 1 + (q + 7) / 8
payload_size (Request.discrete_inputs a q) = 1 + (q + 7) / 8
payload_size (Request.holding_registers a q) = 1 + 2 * q
payload_size (Request.input_registers a q) = 1 + 2 * q
payload_size (Request.masked a m n) = 6
payload_size (Request.read_write a q b w v) = 1 + 2 * q
payload_size (Request.fifo a) = 0
payload_size (Request.custom c a q) = 0
payload_size _ = 4

abbrev pub IsDetermined : Request → Type 0
IsDetermined (Request.fifo a) = ⊥
IsDetermined (Request.custom c a q) = ⊥
IsDetermined _ = Unit {0}

-- The cases of the switch on a request of the client, whatever stands behind its payload.
length_at :
    (slave : ℕ) (q : Request) (sums : List ℕ)
    → IsWithinLimits q
    → IsDetermined q
    → calculate_response_length
        (slave ∷ (request_pdu q).function_code ∷ ((request_pdu q).payload ++ sums))
      ≡ ok (payload_size q + 4)
unfolding calculate_response_length index slice_from uint16 data_block data_block_suffix
length_at slave (Request.coils a q) sums h d = ground arith
length_at slave (Request.discrete_inputs a q) sums h d = ground arith
length_at slave (Request.holding_registers a q) sums h d = ground arith
length_at slave (Request.input_registers a q) sums h d = ground arith
length_at slave (Request.single_coil a v) sums h d = refl
length_at slave (Request.single_register a v) sums h d = refl
length_at slave (Request.multiple_coils a q v) sums h d = refl
length_at slave (Request.multiple_registers a q v) sums h d = refl
length_at slave (Request.masked a m n) sums h d = refl
length_at slave (Request.read_write a q b w v) sums h d = ground arith
length_at slave (Request.fifo a) sums h d = absurd d
length_at slave (Request.custom c a q) sums h d = absurd d

encoded_parts :
    (mb : RtuPackager) (pdu : Pdu) (adu : List ℕ)
    → encode mb pdu ≡ ok adu
    → (sums : List ℕ) × (length sums ≡ 2)
      × (adu ≡ mb.slave_id ∷ pdu.function_code ∷ (pdu.payload ++ sums))
unfolding encode
encoded_parts mb pdu adu e =
    (sum_bytes (mb.slave_id ∷ pdu.function_code ∷ pdu.payload), refl, ground arith)

-- For an encoded request of the client, within the limits of the protocol, that determines the size
-- of its response, the transporter waits for the bytes of exactly that response: the payload that
-- the protocol prescribes, the slave address, the function code and the checksum.
pub calculate_response_length-encode :
    (mb : RtuPackager) (q : Request) (adu : List ℕ)
    → IsWithinLimits q
    → IsDetermined q
    → encode mb (request_pdu q) ≡ ok adu
    → calculate_response_length adu ≡ ok (payload_size q + 4)
calculate_response_length-encode mb q adu h d e =
    let (sums, two, parts) = encoded_parts mb (request_pdu q) adu e in
    ap calculate_response_length parts ∙ length_at mb.slave_id q sums h d

-- A port on which the first read returns some bytes, and others are there for the second.
pub record Parts : Type 0 where
  pub first : List ℕ
  pub second : List ℕ
  pub written : List ℕ

abbrev pub parts_port : Port Parts
parts_port = record {
  connect = pure tt;
  write = λ bytes s. (ok tt, record s { written = s.written ++ bytes });
  delay = λ chars. pure tt;
  read_at_least = λ limit n s.
      if ltb (length s.first) n
      then (err (Error.io_error n), record s { first = [] })
      else (ok s.first, record s { first = [] });
  read_full = λ n s.
      if ltb (length s.second) n
      then (err (Error.io_error n), record s { second = [] })
      else (ok (take n s.second), record s { second = drop n s.second });
}

==_refl : (n : ℕ) → (n == n) ≡ true
==_refl n = ground arith

-- A port on which some bytes have arrived.
module _ {P : Type 0} (port : Port P) (at : List ℕ → P)
    (reads : (xs later : List ℕ)
      → port.read_full (length xs) (at (xs ++ later)) ≡ (ok xs, at later)) where
  -- The second read of a response, of which some bytes are left.
  rest_of :
      (function fail size : ℕ) (start rest later : List ℕ)
      → get_or start 1 0 ≡ function
      → 5 ≤ size
      → size ≤ 256
      → length start + length rest ≡ size
      → read_rest port function fail size start (at (rest ++ later))
        ≡ (ok (start ++ rest), at later)
  unfolding read_rest ◌>>=◌
  rest_of function fail size start [] later e h k l =
      let same : (get_or start 1 0 == function) ≡ true = rw e (==_refl function) in
      let whole : ltb (length start) size ≡ false = ground arith in
      rw (same, whole, append-nil start) refl
  rest_of function fail size start (x ∷ rest) later e h k l =
      let same : (get_or start 1 0 == function) ≡ true = rw e (==_refl function) in
      let part : ltb (length start) size ≡ true = ground arith in
      let large : ltb 4 size ≡ true = ground arith in
      let fits : leb size 256 ≡ true = ground arith in
      let left : size - length start ≡ length (x ∷ rest) = omega arith in
      rw (same, part, large, fits, left, reads (x ∷ rest) later) refl

  -- When the first read after the request was written returns at least four bytes of a response of
  -- the expected function code and size, `Send` returns the whole response.
  pub send-arrived :
      (adu start rest later : List ℕ) (function size : ℕ) (s t : P)
      → port.connect s ≡ (ok tt, s)
      → port.write adu s ≡ (ok tt, t)
      → ((n : ℕ) → port.delay n t ≡ (ok tt, t))
      → port.read_at_least 256 4 t ≡ (ok start, at (rest ++ later))
      → index adu 1 ≡ ok function
      → calculate_response_length adu ≡ ok size
      → 5 ≤ size
      → size ≤ 256
      → get_or start 1 0 ≡ function
      → length start + length rest ≡ size
      → send port adu s ≡ (ok (start ++ rest), at later)
  unfolding send ◌>>=◌
  send-arrived adu start rest later function size s t connected written delayed first i c h k e m =
      rw (connected, written, i, c, delayed _, first)
        (rest_of function (bit_and function 0x80) size start rest later e h k m)

-- A response of the expected function code and size, which is 5 to 256 bytes, is received whole when
-- it comes in two parts, of which the first has at least four bytes; the second may be empty.
pub send-parts :
    (adu start rest : List ℕ) (function size : ℕ)
    → index adu 1 ≡ ok function
    → calculate_response_length adu ≡ ok size
    → 5 ≤ size
    → size ≤ 256
    → 4 ≤ length start
    → get_or start 1 0 ≡ function
    → length start + length rest ≡ size
    → send parts_port adu (record { first = start; second = rest; written = [] })
      ≡ (ok (start ++ rest), record { first = []; second = []; written = adu })
send-parts adu start rest function size i c h k l e m =
    let enough : ltb (length start) 4 ≡ false = ground arith in
    send-arrived parts_port (λ xs. record { first = []; second = xs; written = adu }) reads adu
      start rest [] function size _ (record { first = start; second = rest; written = adu }) refl
      refl (λ n. refl) (rw (enough, append-nil rest) refl) i c h k e m
  where
    reads :
        (xs later : List ℕ)
        → parts_port.read_full
            (length xs)
            (record { first = []; second = xs ++ later; written = adu })
          ≡ (ok xs, record { first = []; second = later; written = adu })
    reads xs later =
        let enough : ltb (length (xs ++ later)) (length xs) ≡ false =
          ground (arith, length-append xs later) in
        rw (enough, take-length xs later, drop-length xs later) refl

-- An exception response whose fifth byte comes later than the first four is cut: the function code
-- that announces it is not the one that the transporter looks for. The function code of the request
-- is below 128.
pub send-exception_cut :
    (adu : List ℕ) (function size slave code low high : ℕ)
    → function < 128
    → index adu 1 ≡ ok function
    → calculate_response_length adu ≡ ok size
    → send parts_port adu (record {
      first = slave ∷ (function + 128) ∷ code ∷ low ∷ [];
      second = high ∷ [];
      written = [];
    })
      ≡ (
        ok (slave ∷ (function + 128) ∷ code ∷ low ∷ []),
        record { first = []; second = high ∷ []; written = adu },
      )
unfolding send ◌>>=◌ read_rest
send-exception_cut adu function size slave code low high h i c =
    let other : ((function + 128) == function) ≡ false = ground arith in
    let missed : ((function + 128) == bit_and function 0x80) ≡ false =
      ground (arith, and_bit 7 function) in
    rw (i, c, other, missed) refl
