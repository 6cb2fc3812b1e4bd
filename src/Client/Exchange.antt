-- ===== src/Client/Exchange.antt =====
-- What each request sends, which arguments it refuses, and which responses it accepts.
use gomodbus.Prelude.{ℕ, ◌+◌, ◌≤◌, ◌<◌, ◌≡◌, ◌⊎◌, inl, inr, refl, ap, ◌∙◌, arith, Bool, true, false}
use gomodbus.Prelude.{List, [], ◌∷◌, ◌++◌, length, All, IsByte, Bool-cases, ltb, ◌||◌}
use gomodbus.Go.{Outcome, ok, err, Error, put_uint16}
use gomodbus.Pdu.{Pdu}
use gomodbus.Client.Backend.{Action, Link, lift, check, ◌>>=◌, ◌>>◌}
use gomodbus.Client.Payload.{
  data_block, data_block_suffix, counted, echoed, echoed_masks, fifo_values,
}
use gomodbus.Client.Sent.{Sent, send-Sent, bind-ok}
use gomodbus.Client.Total.{Request, run}
use gomodbus.Client.Responses.{counted_back, echoed_back, masks_back, fifo_back}
use gomodbus.Client.{
  send, read_coils, read_discrete_inputs, read_holding_registers, read_input_registers,
  write_single_coil, write_single_register, write_multiple_coils, write_multiple_registers,
  mask_write_register, read_write_multiple_registers, read_fifo_queue, read_with_custom_function,
}

-- The data unit of a request.
abbrev pub request_pdu : Request → Pdu
request_pdu (Request.coils a q) = record { function_code = 1; payload = data_block (a ∷ q ∷ []) }
request_pdu (Request.discrete_inputs a q) = record {
  function_code = 2;
  payload = data_block (a ∷ q ∷ []);
}
request_pdu (Request.holding_registers a q) = record {
  function_code = 3;
  payload = data_block (a ∷ q ∷ []);
}
request_pdu (Request.input_registers a q) = record {
  function_code = 4;
  payload = data_block (a ∷ q ∷ []);
}
request_pdu (Request.single_coil a v) = record {
  function_code = 5;
  payload = data_block (a ∷ v ∷ []);
}
request_pdu (Request.single_register a v) = record {
  function_code = 6;
  payload = data_block (a ∷ v ∷ []);
}
request_pdu (Request.multiple_coils a q v) = record {
  function_code = 15;
  payload = data_block_suffix v (a ∷ q ∷ []);
}
request_pdu (Request.multiple_registers a q v) = record {
  function_code = 16;
  payload = data_block_suffix v (a ∷ q ∷ []);
}
request_pdu (Request.masked a m n) = record {
  function_code = 22;
  payload = data_block (a ∷ m ∷ n ∷ []);
}
request_pdu (Request.read_write a q b w v) = record {
  function_code = 23;
  payload = data_block_suffix v (a ∷ q ∷ b ∷ w ∷ []);
}
request_pdu (Request.fifo a) = record { function_code = 24; payload = data_block (a ∷ []) }
request_pdu (Request.custom c a q) = record { function_code = c; payload = data_block (a ∷ q ∷ []) }

-- What the client demands of the arguments: a quantity within the limits that the protocol sets for
-- the function, and a coil value that is on or off. It demands nothing of the address, nor that
-- the length of the values fits the quantity.
abbrev pub IsWithinLimits : Request → Type 0
IsWithinLimits (Request.coils a q) = (1 ≤ q) × (q ≤ 2000)
IsWithinLimits (Request.discrete_inputs a q) = (1 ≤ q) × (q ≤ 2000)
IsWithinLimits (Request.holding_registers a q) = (1 ≤ q) × (q ≤ 125)
IsWithinLimits (Request.input_registers a q) = (1 ≤ q) × (q ≤ 125)
IsWithinLimits (Request.single_coil a v) = (v ≡ 0xff00) ⊎ (v ≡ 0)
IsWithinLimits (Request.single_register a v) = Unit {0}
IsWithinLimits (Request.multiple_coils a q v) = (1 ≤ q) × (q ≤ 1968)
IsWithinLimits (Request.multiple_registers a q v) = (1 ≤ q) × (q ≤ 123)
IsWithinLimits (Request.masked a m n) = Unit {0}
IsWithinLimits (Request.read_write a q b w v) = ((1 ≤ q) × (q ≤ 125)) × ((1 ≤ w) × (w ≤ 121))
IsWithinLimits (Request.fifo a) = Unit {0}
IsWithinLimits (Request.custom c a q) = (1 ≤ q) × (q ≤ 125)

-- A response payload that the client accepts for a request, and the result that it returns for it: the
-- echo of what was written, or a byte count and as many bytes. For a read the client does not
-- compare their number with the quantity; for the FIFO queue it takes the byte count for one more
-- than the protocol does.
abbrev pub IsAccepted : Request → List ℕ → List ℕ → Type 0
IsAccepted (Request.single_coil a v) xs results =
    (xs ≡ put_uint16 a ++ put_uint16 v) × (results ≡ put_uint16 v)
IsAccepted (Request.single_register a v) xs results =
    (xs ≡ put_uint16 a ++ put_uint16 v) × (results ≡ put_uint16 v)
IsAccepted (Request.multiple_coils a q v) xs results =
    (xs ≡ put_uint16 a ++ put_uint16 q) × (results ≡ put_uint16 q)
IsAccepted (Request.multiple_registers a q v) xs results =
    (xs ≡ put_uint16 a ++ put_uint16 q) × (results ≡ put_uint16 q)
IsAccepted (Request.masked a m n) xs results =
    (xs ≡ put_uint16 a ++ results) × (results ≡ put_uint16 m ++ put_uint16 n)
IsAccepted (Request.fifo a) xs results =
    (length results + 3 < 65536)
    × ((n : ℕ) × (n ≤ 31) × (xs ≡ put_uint16 (length results + 3) ++ (put_uint16 n ++ results)))
IsAccepted _ xs results = xs ≡ length results ∷ results

module _ {S : Type 0} (mb : Link S) where
  -- A guard that was passed, and the exchange behind it.
  pub guard-ok :
      (b : Bool) (e : Error) (k : Action S (List ℕ)) (s t : S) (results : List ℕ)
      → (check b e >> k) s ≡ (ok results, t)
      → (b ≡ false) × (k s ≡ (ok results, t))
  unfolding check ◌>>=◌
  guard-ok true e k s t results h = cc
  guard-ok false e k s t results h = (refl, h)

  -- An exchange whose response has a payload of a kind.
  pub record Exchanged (request : Pdu) (s t : S) (IsAnswer : List ℕ → Type 0) : Type 0 where
    pub response : Pdu
    pub sent : Sent mb request response s t
    pub answer : IsAnswer response.payload

  -- A decoder that yields bytes.
  abbrev pub DecodesBytes : Type 0
  DecodesBytes = (adu : List ℕ) (r : Pdu) → mb.decode adu ≡ ok r → All IsByte r.payload

  in_range : (q limit : ℕ) → (ltb q 1 || ltb limit q) ≡ false → (1 ≤ q) × (q ≤ limit)
  in_range q limit h = (ground arith, ground arith)

  module _ (bytes : DecodesBytes) where
    -- An exchange whose response passed a check that accepts one kind of payload only.
    exchange-ok :
        (request : Pdu) (c : Pdu → Outcome (List ℕ)) (IsAnswer : List ℕ → Type 0) (s t : S)
        (results : List ℕ)
        → ((r : Pdu) → All IsByte r.payload → c r ≡ ok results → IsAnswer r.payload)
        → (send mb request >>= λ r. lift (c r)) s ≡ (ok results, t)
        → Exchanged request s t IsAnswer
    exchange-ok request c IsAnswer s t results back h =
        let (response, e, checked) = bind-ok (send mb request) _ s t results h in
        let sent =
          send-Sent mb request response s t
            (e ∙ ap (λ x. (ok response, x)) (ap (λ p. p.1) checked)) in
        record {
          response = response;
          sent = sent;
          answer =
              back response (bytes sent.adu_response response sent.decoded) (ap (λ p. p.0) checked);
        }

    counting :
        (q limit : ℕ) (e : Error) (request : Pdu) (s t : S) (results : List ℕ)
        → (check (ltb q 1 || ltb limit q) e >> (send mb request >>= λ r. lift (counted r))) s
          ≡ (ok results, t)
        → ((1 ≤ q) × (q ≤ limit)) × Exchanged request s t (λ xs. xs ≡ length results ∷ results)
    counting q limit e request s t results h =
        let (passed, rest) = guard-ok _ e _ s t results h in
        (
          in_range q limit passed,
          exchange-ok request counted _ s t results
              (λ r _. counted_back r.function_code r.payload results) rest,
        )

    echoing :
        (a v : ℕ) (request : Pdu) (s t : S) (results : List ℕ)
        → (send mb request >>= λ r. lift (echoed a v r)) s ≡ (ok results, t)
        → Exchanged request s t
            (λ xs. (xs ≡ put_uint16 a ++ put_uint16 v) × (results ≡ put_uint16 v))
    echoing a v request s t results =
        exchange-ok request (echoed a v) _ s t results
          (λ r. echoed_back r.function_code a v r.payload results)

    -- What a request that returned a result went through.
    pub run-IsAccepted :
        (q : Request) (s t : S) (results : List ℕ)
        → run mb q s ≡ (ok results, t)
        → IsWithinLimits q × Exchanged (request_pdu q) s t (λ xs. IsAccepted q xs results)
    unfolding run read_coils read_discrete_inputs read_holding_registers read_input_registers
        write_single_coil write_single_register write_multiple_coils write_multiple_registers
        mask_write_register read_write_multiple_registers read_fifo_queue read_with_custom_function
    run-IsAccepted (Request.coils a q) s t results h = counting q 2000 _ _ s t results h
    run-IsAccepted (Request.discrete_inputs a q) s t results h = counting q 2000 _ _ s t results h
    run-IsAccepted (Request.holding_registers a q) s t results h = counting q 125 _ _ s t results h
    run-IsAccepted (Request.input_registers a q) s t results h = counting q 125 _ _ s t results h
    run-IsAccepted (Request.single_coil a v) s t results h =
        let (passed, rest) = guard-ok _ _ _ s t results h in
        (ground arith, echoing a v _ s t results rest)
    run-IsAccepted (Request.single_register a v) s t results h = (tt, echoing a v _ s t results h)
    run-IsAccepted (Request.multiple_coils a q v) s t results h =
        let (passed, rest) = guard-ok _ _ _ s t results h in
        (in_range q 1968 passed, echoing a q _ s t results rest)
    run-IsAccepted (Request.multiple_registers a q v) s t results h =
        let (passed, rest) = guard-ok _ _ _ s t results h in
        (in_range q 123 passed, echoing a q _ s t results rest)
    run-IsAccepted (Request.masked a m n) s t results h = (
      tt,
      exchange-ok _ (echoed_masks a m n) _ s t results
          (λ r. masks_back r.function_code a m n r.payload results) h,
    )
    run-IsAccepted (Request.read_write a q b w v) s t results h =
        let (passed, rest) = guard-ok _ _ _ s t results h in
        let (legal, answer) = counting w 121 _ _ s t results rest in
        ((in_range q 125 passed, legal), answer)
    run-IsAccepted (Request.fifo a) s t results h = (
      tt,
      exchange-ok _ fifo_values _ s t results (λ r. fifo_back r.function_code r.payload results) h,
    )
    run-IsAccepted (Request.custom c a q) s t results h = counting q 125 _ _ s t results h

  pub passed :
      (b : Bool) (e : Error) (k : Action S (List ℕ)) (s : S) → b ≡ false → (check b e >> k) s ≡ k s
  unfolding check ◌>>=◌
  passed true e k s h = cc
  passed false e k s h = refl

  -- What a request with illegal arguments does.
  refused :
      (b : Bool) (e : Error) (k : Action S (List ℕ)) (s : S)
      → b ≡ true
      → (check b e >> k) s ≡ (err e, s)
  unfolding check ◌>>=◌
  refused true e k s h = refl
  refused false e k s h = cc

  out_of_range : (q limit : ℕ) → ¬ ((1 ≤ q) × (q ≤ limit)) → (ltb q 1 || ltb limit q) ≡ true
  out_of_range q limit h = ground arith

  -- A request whose quantity is outside the limits that the protocol sets for its function, or whose
  -- coil value is neither on nor off, returns an error and sends nothing: the state of the packager
  -- and of the connection stays as it is. Nothing else is demanded of the arguments.
  pub run_refused :
      (q : Request) (s : S) → ¬ IsWithinLimits q → (e : Error) × (run mb q s ≡ (err e, s))
  unfolding run read_coils read_discrete_inputs read_holding_registers read_input_registers
      write_single_coil write_single_register write_multiple_coils write_multiple_registers
      mask_write_register read_write_multiple_registers read_fifo_queue read_with_custom_function
  run_refused (Request.coils a q) s h = (_, refused _ _ _ s (out_of_range q 2000 h))
  run_refused (Request.discrete_inputs a q) s h = (_, refused _ _ _ s (out_of_range q 2000 h))
  run_refused (Request.holding_registers a q) s h = (_, refused _ _ _ s (out_of_range q 125 h))
  run_refused (Request.input_registers a q) s h = (_, refused _ _ _ s (out_of_range q 125 h))
  run_refused (Request.single_coil a v) s h = (_, refused _ _ _ s (ground arith))
  run_refused (Request.single_register a v) s h = absurd (h tt)
  run_refused (Request.multiple_coils a q v) s h = (_, refused _ _ _ s (out_of_range q 1968 h))
  run_refused (Request.multiple_registers a q v) s h = (_, refused _ _ _ s (out_of_range q 123 h))
  run_refused (Request.masked a m n) s h = absurd (h tt)
  run_refused (Request.read_write a q b w v) s h = elim (Bool-cases (ltb q 1 || ltb 125 q)) [
    | inl e ↦ (_, refused _ _ _ s e)
    | inr e ↦
        (_, passed _ _ _ s e ∙ refused _ _ _ s (out_of_range w 121 (λ l. h (in_range q 125 e, l))))
  ]
  run_refused (Request.fifo a) s h = absurd (h tt)
  run_refused (Request.custom c a q) s h = (_, refused _ _ _ s (out_of_range q 125 h))
