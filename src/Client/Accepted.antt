-- ===== src/Client/Accepted.antt =====
-- client.go: exactly when a request returns which result.
use gomodbus.Prelude.{
  ℕ, ◌≤◌, ◌≡◌, ◌↔◌, ◌⊎◌, inl, inr, refl, ap, ◌∙◌, arith, false, List, ◌∷◌, ◌++◌, length, IsWord,
  ltb, ◌||◌, ◌&&◌, ◌!=◌,
}
use gomodbus.Go.{Outcome, ok, put_uint16}
use gomodbus.Pdu.{Pdu}
use gomodbus.Client.Backend.{Link, lift, ◌>>=◌}
use gomodbus.Client.Payload.{counted, echoed, echoed_masks, fifo_values}
use gomodbus.Client.Sent.{Sent-send}
use gomodbus.Client.Total.{Request, run}
use gomodbus.Client.Responses.{counted_there, echoed_there, masks_there, fifo_there}
use gomodbus.Client.Exchange.{
  request_pdu, IsWithinLimits, IsAccepted, Exchanged, DecodesBytes, passed, run-IsAccepted,
}
use gomodbus.Client.{
  send, read_coils, read_discrete_inputs, read_holding_registers, read_input_registers,
  write_single_coil, write_single_register, write_multiple_coils, write_multiple_registers,
  mask_write_register, read_write_multiple_registers, read_fifo_queue, read_with_custom_function,
}

-- The arguments that a response repeats have 16 bits.
abbrev pub HasWords : Request → Type 0
HasWords (Request.single_coil a v) = IsWord a × IsWord v
HasWords (Request.single_register a v) = IsWord a × IsWord v
HasWords (Request.multiple_coils a q v) = IsWord a × IsWord q
HasWords (Request.multiple_registers a q v) = IsWord a × IsWord q
HasWords (Request.masked a m n) = IsWord a × IsWord m × IsWord n
HasWords _ = Unit {0}

-- The payload of a response decides what a check says of it.
by_payload :
    (c : Pdu → Outcome (List ℕ)) (r : Pdu) (xs results : List ℕ)
    → r.payload ≡ xs
    → c (record { function_code = r.function_code; payload = xs }) ≡ ok results
    → c r ≡ ok results
by_payload c r xs results e h =
    ap (λ ys. c (record { function_code = r.function_code; payload = ys })) e ∙ h

outside : (q limit : ℕ) → (1 ≤ q) × (q ≤ limit) → (ltb q 1 || ltb limit q) ≡ false
outside q limit (h, k) = ground arith

on_or_off : (v : ℕ) → (v ≡ 0xff00) ⊎ (v ≡ 0) → (v != 0xff00 && v != 0x0000) ≡ false
on_or_off v (inl e) = ground arith
on_or_off v (inr e) = ground arith

module _ {S : Type 0} (mb : Link S) where
  exchange-run :
      (request : Pdu) (c : Pdu → Outcome (List ℕ)) (IsAnswer : List ℕ → Type 0) (s t : S)
      (results : List ℕ)
      → ((r : Pdu) → IsAnswer r.payload → c r ≡ ok results)
      → Exchanged mb request s t IsAnswer
      → (send mb request >>= λ r. lift (c r)) s ≡ (ok results, t)
  unfolding ◌>>=◌
  exchange-run request c IsAnswer s t results there x =
      rw (Sent-send mb request x.response s t x.sent, there x.response x.answer) refl

  counting :
      (request : Pdu) (s t : S) (results : List ℕ)
      → Exchanged mb request s t (λ xs. xs ≡ length results ∷ results)
      → (send mb request >>= λ r. lift (counted r)) s ≡ (ok results, t)
  counting request s t results =
      exchange-run request counted _ s t results
        (λ r e. by_payload counted r _ results e (counted_there r.function_code results))

  echoing :
      (a v : ℕ) (request : Pdu) (s t : S) (results : List ℕ)
      → IsWord a
      → IsWord v
      → Exchanged mb request s t
          (λ xs. (xs ≡ put_uint16 a ++ put_uint16 v) × (results ≡ put_uint16 v))
      → (send mb request >>= λ r. lift (echoed a v r)) s ≡ (ok results, t)
  echoing a v request s t results ha hv = exchange-run request (echoed a v) _ s t results (λ r e.
      by_payload (echoed a v) r _ results e.0 (rw e.1 (echoed_there r.function_code a v ha hv)))

  accepted-run :
      (q : Request) (s t : S) (results : List ℕ)
      → HasWords q
      → IsWithinLimits q
      → Exchanged mb (request_pdu q) s t (λ xs. IsAccepted q xs results)
      → run mb q s ≡ (ok results, t)
  unfolding run read_coils read_discrete_inputs read_holding_registers read_input_registers
      write_single_coil write_single_register write_multiple_coils write_multiple_registers
      mask_write_register read_write_multiple_registers read_fifo_queue read_with_custom_function
  accepted-run (Request.coils a q) s t results w l x =
      passed mb _ _ _ s (outside q 2000 l) ∙ counting _ s t results x
  accepted-run (Request.discrete_inputs a q) s t results w l x =
      passed mb _ _ _ s (outside q 2000 l) ∙ counting _ s t results x
  accepted-run (Request.holding_registers a q) s t results w l x =
      passed mb _ _ _ s (outside q 125 l) ∙ counting _ s t results x
  accepted-run (Request.input_registers a q) s t results w l x =
      passed mb _ _ _ s (outside q 125 l) ∙ counting _ s t results x
  accepted-run (Request.single_coil a v) s t results w l x =
      passed mb _ _ _ s (on_or_off v l) ∙ echoing a v _ s t results w.0 w.1 x
  accepted-run (Request.single_register a v) s t results w l x = echoing a v _ s t results w.0 w.1 x
  accepted-run (Request.multiple_coils a q v) s t results w l x =
      passed mb _ _ _ s (outside q 1968 l) ∙ echoing a q _ s t results w.0 w.1 x
  accepted-run (Request.multiple_registers a q v) s t results w l x =
      passed mb _ _ _ s (outside q 123 l) ∙ echoing a q _ s t results w.0 w.1 x
  accepted-run (Request.masked a m n) s t results w l x =
      exchange-run _ (echoed_masks a m n) _ s t results
        (λ r e.
          by_payload (echoed_masks a m n) r _ results e.0
            (rw e.1 (masks_there r.function_code a m n w.0 w.1 w.2)))
        x
  accepted-run (Request.read_write a q b k v) s t results w l x =
      passed mb _ _ _ s (outside q 125 l.0)
      ∙ (passed mb _ _ _ s (outside k 121 l.1) ∙ counting _ s t results x)
  accepted-run (Request.fifo a) s t results w l x =
      exchange-run _ fifo_values _ s t results
        (λ r e.
          by_payload fifo_values r _ results e.1.2
            (fifo_there r.function_code e.1.0 results e.0 e.1.1))
        x
  accepted-run (Request.custom c a q) s t results w l x =
      passed mb _ _ _ s (outside q 125 l) ∙ counting _ s t results x

  -- A request returns a result exactly when its arguments are those that the client lets pass (a
  -- quantity within the limits of the protocol for the function, a coil value that is on or off), and
  -- one exchange was made with the data unit of the request, whose response has the function of the
  -- request and a payload that the client accepts with that result: the echo of the address and of what
  -- was written, or a byte count and as many bytes, which are the result. That their number fits the
  -- quantity that was asked for is not demanded, and of the FIFO queue a byte count is demanded that is
  -- one more than the protocol's. The decoder yields bytes, and the arguments that a response repeats
  -- have 16 bits.
  pub run-ok_iff :
      (q : Request) (s t : S) (results : List ℕ)
      → DecodesBytes mb
      → HasWords q
      → (run mb q s ≡ (ok results, t))
        ↔ (IsWithinLimits q × Exchanged mb (request_pdu q) s t (λ xs. IsAccepted q xs results))
  run-ok_iff q s t results bytes w =
      (run-IsAccepted mb bytes q s t results, λ h. accepted-run q s t results w h.0 h.1)
