-- ===== src/Handler/Reads.antt =====
-- What the reads of the handler return.
use gomodbus.Prelude.{ℕ, ◌*◌, ◌%◌, ◌≡◌, refl, sym, ap, ◌∙◌, arith, Bool, true, false}
use gomodbus.Prelude.{List, [], ◌∷◌, ◌++◌, length, take_all, All, IsByte, IsWord, u8, ◌!=◌}
use gomodbus.Go.{Outcome, ok, panic, Error, index, slice, put_uint16}
use gomodbus.Client.Backend.{pure, check, ◌>>=◌, ◌>>◌}
use gomodbus.Client.Sent.{bind-ok}
use gomodbus.Handler.Checks.{check_function, counted_bytes}
use gomodbus.Handler.{
  Transport, build_request_pdu, unpack_words, pack_words, send_and_receive, read_modbus_data,
  read_holding_registers, read_input_registers,
}

counted_bytes_ok :
    (function_code : ℕ) (pdu xs : List ℕ)
    → counted_bytes function_code pdu ≡ ok xs
    → pdu ≡ function_code ∷ length xs ∷ xs
unfolding counted_bytes check_function index slice
counted_bytes_ok f [] xs e = absurd (ground arith)
counted_bytes_ok f (x ∷ []) xs e = absurd (ground arith)
counted_bytes_ok f (x ∷ n ∷ pdu) xs e = ground (arith, take_all n pdu)

-- Words and their bytes.
pack_words-unpack_words :
    (xs : List ℕ)
    → All IsByte xs
    → (length xs % 2 != 0) ≡ false
    → (pack_words (unpack_words xs) ≡ xs) × (length xs ≡ 2 * length (unpack_words xs))
unfolding pack_words unpack_words
pack_words-unpack_words [] h e = (refl, refl)
pack_words-unpack_words (x ∷ []) h e = absurd (ground arith)
pack_words-unpack_words (x ∷ y ∷ xs) (hx, (hy, h)) e =
    let (bytes, size) = pack_words-unpack_words xs h (ground arith) in (ground arith, omega arith)

-- The words that a write sends are read back from its bytes.
pub unpack_words-pack_words : (vs : List ℕ) → All IsWord vs → unpack_words (pack_words vs) ≡ vs
unfolding pack_words unpack_words
unpack_words-pack_words [] h = refl
unpack_words-pack_words (v ∷ vs) (hv, h) = ground (arith, unpack_words-pack_words vs h)

same_list : (xs ys : List ℕ) → ◌≡◌ {A = Outcome (List ℕ)} (ok xs) (ok ys) → xs ≡ ys
same_list xs ys e = cc

settled :
    {S : Type 0} (b c : Bool) (e f : Error) (pdu resp : List ℕ) (s t : S)
    → (check b e >> (check c f >> pure pdu)) s ≡ (ok resp, t)
    → (b ≡ false) × (pdu ≡ resp) × (s ≡ t)
unfolding ◌>>=◌ check
settled true c e f pdu resp s t g = cc
settled false true e f pdu resp s t g = cc
settled false false e f pdu resp s t g =
    (refl, same_list pdu resp (ap (λ p. p.0) g), ap (λ p. p.1) g)

registers_checked :
    {S : Type 0} (b : Bool) (bytes values : List ℕ) (s t : S)
    → (check b (Error.odd_register_bytes (length bytes)) >> pure (unpack_words bytes)) s
      ≡ (ok values, t)
    → (b ≡ false) × (unpack_words bytes ≡ values) × (s ≡ t)
unfolding ◌>>=◌ check
registers_checked true bytes values s t g = cc
registers_checked false bytes values s t g =
    (refl, same_list _ values (ap (λ p. p.0) g), ap (λ p. p.1) g)

-- The end of a read of registers.
registers_end :
    {S : Type 0} (bytes values : List ℕ) (s t : S)
    → (check (length bytes % 2 != 0) (Error.odd_register_bytes (length bytes))
          >> pure (unpack_words bytes))
        s
      ≡ (ok values, t)
    → ((length bytes % 2 != 0) ≡ false) × (unpack_words bytes ≡ values) × (s ≡ t)
registers_end bytes values s t g = registers_checked (length bytes % 2 != 0) bytes values s t g

same_slave : (a b : ℕ) → (a != b) ≡ false → a ≡ b
same_slave a b e = ground arith

module _ {S : Type 0} (h : Transport S) where
  -- A transport that receives bytes.
  abbrev pub ReceivesBytes : Type 0
  ReceivesBytes = (s t : S) (r : ℕ × List ℕ) → h.receive s ≡ (ok r, t) → All IsByte r.1

  -- An exchange of a unit with a slave that ended with a response from it.
  pub record Received (slave_id : ℕ) (req_pdu resp_pdu : List ℕ) (s t : S) : Type 0 where
    pub sent : h.send slave_id req_pdu s ≡ (ok tt, (h.send slave_id req_pdu s).1)
    pub received : h.receive (h.send slave_id req_pdu s).1 ≡ (ok (slave_id, resp_pdu), t)

  send_and_receive-Received :
      (slave_id : ℕ) (req resp : List ℕ) (s t : S)
      → send_and_receive h slave_id req s ≡ (ok resp, t)
      → Received slave_id req resp s t
  unfolding send_and_receive
  send_and_receive-Received slave_id req resp s t g =
      let (_, sent, rest) = bind-ok (h.send slave_id req) _ s t resp g in
      let (r, received, checks) = bind-ok h.receive _ _ t resp rest in
      let (same, unit, state) = settled _ _ _ _ r.1 resp _ t checks in
      record {
        sent = sent;
        received = received ∙ (λ i. (ok (same_slave r.0 slave_id same i, unit i), state i));
      }

  -- A read of registers by either function code.
  registers_at :
      (function_code slave_id start_address quantity : ℕ) (s t : S) (values : List ℕ)
      → ReceivesBytes
      → (read_modbus_data h function_code slave_id start_address quantity >>= λ bytes.
            check (length bytes % 2 != 0) (Error.odd_register_bytes (length bytes))
            >> pure (unpack_words bytes))
          s
        ≡ (ok values, t)
      → Received
          (u8 slave_id)
          (function_code ∷ (put_uint16 start_address ++ put_uint16 quantity))
          (function_code ∷ (2 * length values) ∷ pack_words values)
          s
          t
  unfolding read_modbus_data build_request_pdu
  registers_at f slave a q s t values bytes g =
      let (xs, got, end) = bind-ok (read_modbus_data h f slave a q) _ s t values g in
      let (even, words, state) = registers_end xs values _ t end in
      let (resp, exchanged, checked) =
        bind-ok (send_and_receive h (u8 slave) (f ∷ (put_uint16 a ++ put_uint16 q))) _ s _ xs got in
      let unit = counted_bytes_ok f resp xs (ap (λ x. x.0) checked) in
      let exchange =
        send_and_receive-Received (u8 slave) _ resp s t
          (exchanged ∙ ap (λ m. (ok resp, m)) (ap (λ x. x.1) checked ∙ state)) in
      let resp_bytes = rw unit at (bytes _ t (u8 slave, resp) exchange.received) in
      let (packed, size) = pack_words-unpack_words xs resp_bytes.1.1 even in
      let count : length xs ≡ 2 * length values = size ∙ ap (λ v. 2 * length v) words in
      let content : xs ≡ pack_words values = sym packed ∙ ap pack_words words in
      rw (unit ∙ (λ i. f ∷ count i ∷ content i)) at exchange

  -- When a read of holding registers returns values, one exchange was made with the slave, and its
  -- response was the function code, the number of the bytes, and the values with their high bytes
  -- first. The transport receives bytes.
  pub read_holding_registers-Received :
      (slave_id start_address quantity : ℕ) (s t : S) (values : List ℕ)
      → ReceivesBytes
      → read_holding_registers h slave_id start_address quantity s ≡ (ok values, t)
      → Received
          (u8 slave_id)
          (3 ∷ (put_uint16 start_address ++ put_uint16 quantity))
          (3 ∷ (2 * length values) ∷ pack_words values)
          s
          t
  unfolding read_holding_registers
  read_holding_registers-Received slave_id a q s t values bytes g =
      registers_at 3 slave_id a q s t values bytes g

  -- When a read of input registers returns values, one exchange was made with the slave, and its
  -- response was the function code, the number of the bytes, and the values with their high bytes
  -- first. The transport receives bytes.
  pub read_input_registers-Received :
      (slave_id start_address quantity : ℕ) (s t : S) (values : List ℕ)
      → ReceivesBytes
      → read_input_registers h slave_id start_address quantity s ≡ (ok values, t)
      → Received
          (u8 slave_id)
          (4 ∷ (put_uint16 start_address ++ put_uint16 quantity))
          (4 ∷ (2 * length values) ∷ pack_words values)
          s
          t
  unfolding read_input_registers
  read_input_registers-Received slave_id a q s t values bytes g =
      registers_at 4 slave_id a q s t values bytes g

  -- A response from the right slave that has no bytes at all makes a read panic: the message of the
  -- error about its function code reads its first byte.
  pub read_modbus_data-empty :
      (function_code slave_id start_address quantity : ℕ) (s m t : S)
      → h.send (u8 slave_id) (function_code ∷ (put_uint16 start_address ++ put_uint16 quantity)) s
        ≡ (ok tt, m)
      → h.receive m ≡ (ok (u8 slave_id, []), t)
      → read_modbus_data h function_code slave_id start_address quantity s ≡ (panic, t)
  unfolding read_modbus_data send_and_receive build_request_pdu counted_bytes check_function index
      ◌>>=◌ check
  read_modbus_data-empty f slave a q s m t sent received =
      let same : (u8 slave != u8 slave) ≡ false = ground arith in rw (sent, received, same) refl
