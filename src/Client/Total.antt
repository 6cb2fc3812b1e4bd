-- ===== src/Client/Total.antt =====
-- The twelve requests that read and write data do not panic when the packager and the transporter do
-- not.
use gomodbus.Prelude.{ℕ, ◌≤◌, ◌≡◌, ◌≢◌, refl, arith, Bool, true, false}
use gomodbus.Prelude.{List, [], ◌∷◌, length, ◌==◌, ◌!=◌}
use gomodbus.Go.{Outcome, ok, err, panic, Error, fail_if, index, slice_from, uint16}
use gomodbus.Pdu.{Pdu}
use gomodbus.Client.Backend.{Action, Link, pure, lift, check, continue, ◌>>=◌, ◌>>◌}
use gomodbus.Client.Payload.{
  data_block, data_block_suffix, counted, echoed, echoed_masks, fifo_values, response_error,
}
use gomodbus.Client.Sent.{send-Sent, settle}
use gomodbus.Client.{
  send, read_coils, read_discrete_inputs, read_holding_registers, read_input_registers,
  write_single_coil, write_single_register, write_multiple_coils, write_multiple_registers,
  mask_write_register, read_write_multiple_registers, read_fifo_queue, read_with_custom_function,
}

-- The twelve kinds of request that read and write data, with their arguments; the identification of a
-- device is in Client/Identification.
pub data Request : Type 0 where
  coils discrete_inputs holding_registers input_registers : ℕ → ℕ → Request
  single_coil single_register : ℕ → ℕ → Request
  multiple_coils multiple_registers : ℕ → ℕ → List ℕ → Request
  masked : ℕ → ℕ → ℕ → Request
  read_write : ℕ → ℕ → ℕ → ℕ → List ℕ → Request
  fifo : ℕ → Request
  custom : ℕ → ℕ → ℕ → Request

module _ {S : Type 0} (mb : Link S) where
  -- The method of the client for a request.
  unfoldable pub run : Request → Action S (List ℕ)
  run (coils a q) = read_coils mb a q
  run (discrete_inputs a q) = read_discrete_inputs mb a q
  run (holding_registers a q) = read_holding_registers mb a q
  run (input_registers a q) = read_input_registers mb a q
  run (single_coil a v) = write_single_coil mb a v
  run (single_register a v) = write_single_register mb a v
  run (multiple_coils a q v) = write_multiple_coils mb a q v
  run (multiple_registers a q v) = write_multiple_registers mb a q v
  run (masked a m n) = mask_write_register mb a m n
  run (read_write a q b r v) = read_write_multiple_registers mb a q b r v
  run (fifo a) = read_fifo_queue mb a
  run (custom c a q) = read_with_custom_function mb c a q

  -- A packager and a transporter that return on what they give one another, for requests of at least
  -- two bytes of data.
  pub record IsTotal : Type 0 where
    pub encode_total : (pdu : Pdu) (s : S) → (mb.encode pdu s).0 ≢ panic
    pub transmit_total :
        (pdu : Pdu) (s s' t : S) (request : List ℕ)
        → 2 ≤ length pdu.payload
        → mb.encode pdu s ≡ (ok request, s')
        → (mb.transmit request t).0 ≢ panic
    pub verify_total :
        (pdu : Pdu) (s s' t t' : S) (request response : List ℕ)
        → mb.encode pdu s ≡ (ok request, s')
        → mb.transmit request t ≡ (ok response, t')
        → mb.verify request response ≢ panic
    pub decode_total :
        (t t' : S) (request response : List ℕ)
        → mb.transmit request t ≡ (ok response, t')
        → mb.verify request response ≡ ok tt
        → mb.decode response ≢ panic

module _ {S : Type 0} {A B : Type 0} where
  continue-ne-panic :
      (k : A → Action S B) (o : Outcome A) (s : S)
      → o ≢ panic
      → ((a : A) → o ≡ ok a → (k a s).0 ≢ panic)
      → (continue k o s).0 ≢ panic
  continue-ne-panic k (ok a) s h f = f a refl
  continue-ne-panic k (err e) s h f = λ p. cc
  continue-ne-panic k panic s h f = absurd (h refl)

  pub bind-ne-panic :
      (m : Action S A) (k : A → Action S B) (s : S)
      → (m s).0 ≢ panic
      → ((a : A) → m s ≡ (ok a, (m s).1) → (k a (m s).1).0 ≢ panic)
      → ((m >>= k) s).0 ≢ panic
  unfolding ◌>>=◌
  bind-ne-panic m k s h f = continue-ne-panic k (m s).0 (m s).1 h (λ a e. f a (λ i. (e i, (m s).1)))

-- Nothing but the check stands between a guard and what follows it.
pub guard-ne-panic :
    {S A : Type 0} (b : Bool) (e : Error) (k : Action S A) (s : S)
    → (k s).0 ≢ panic
    → ((check b e >> k) s).0 ≢ panic
unfolding ◌>>=◌ check
guard-ne-panic true e k s h = λ p. cc
guard-ne-panic false e k s h = h

fail_if-ne-panic : (b : Bool) (e : Error) → fail_if b e ≢ panic
fail_if-ne-panic true e = λ p. cc
fail_if-ne-panic false e = λ p. cc

-- The checks of a response index only what they have tested the length of.
module _ (f : ℕ) where
  abbrev with_payload : List ℕ → Pdu
  with_payload xs = record { function_code = f; payload = xs }

  counted_at : (xs : List ℕ) → xs ≢ [] → counted (with_payload xs) ≢ panic
  unfolding counted index slice_from
  counted_at [] h = absurd (h refl)
  counted_at (x ∷ xs) h = λ p. ground arith

  echoed_at : (a v : ℕ) (xs : List ℕ) → echoed a v (with_payload xs) ≢ panic
  unfolding echoed slice_from uint16
  echoed_at a v [] = λ p. cc
  echoed_at a v (x ∷ []) = λ p. cc
  echoed_at a v (x ∷ y ∷ []) = λ p. cc
  echoed_at a v (x ∷ y ∷ z ∷ []) = λ p. cc
  echoed_at a v (x ∷ y ∷ z ∷ w ∷ xs) = λ p. ground arith

  echoed_masks_at : (a m n : ℕ) (xs : List ℕ) → echoed_masks a m n (with_payload xs) ≢ panic
  unfolding echoed_masks slice_from uint16
  echoed_masks_at a m n [] = λ p. cc
  echoed_masks_at a m n (x ∷ []) = λ p. cc
  echoed_masks_at a m n (x ∷ y ∷ []) = λ p. cc
  echoed_masks_at a m n (x ∷ y ∷ z ∷ []) = λ p. cc
  echoed_masks_at a m n (x ∷ y ∷ z ∷ w ∷ []) = λ p. cc
  echoed_masks_at a m n (x ∷ y ∷ z ∷ w ∷ u ∷ []) = λ p. cc
  echoed_masks_at a m n (x ∷ y ∷ z ∷ w ∷ u ∷ t ∷ xs) = λ p. ground arith

  fifo_at : (xs : List ℕ) → fifo_values (with_payload xs) ≢ panic
  unfolding fifo_values slice_from uint16
  fifo_at [] = λ p. cc
  fifo_at (x ∷ []) = λ p. cc
  fifo_at (x ∷ y ∷ []) = λ p. cc
  fifo_at (x ∷ y ∷ z ∷ []) = λ p. cc
  fifo_at (x ∷ y ∷ z ∷ w ∷ xs) = λ p. ground arith

settle-ne-panic :
    {S : Type 0} (request : Pdu) (v : Outcome (Unit {0})) (d : Outcome Pdu) (s : S)
    → v ≢ panic
    → (v ≡ ok tt → d ≢ panic)
    → (settle request v d s).0 ≢ panic
unfolding settle ◌>>=◌ check
settle-ne-panic request (ok u) (ok r) s h k =
    guard-ne-panic (r.function_code != request.function_code) (response_error r) _ s
      (guard-ne-panic (length r.payload == 0) Error.empty_data (pure r) s (λ p. cc))
settle-ne-panic request (ok u) (err e) s h k = λ p. cc
settle-ne-panic request (ok u) panic s h k = absurd (k refl refl)
settle-ne-panic request (err e) d s h k = λ p. cc
settle-ne-panic request panic d s h k = absurd (h refl)

-- A request has at least the two bytes of an address.
block_size : (v : ℕ) (vs : List ℕ) → 2 ≤ length (data_block (v ∷ vs))
unfolding data_block
block_size v vs = omega arith

suffix_size :
    (suffix : List ℕ) (v : ℕ) (vs : List ℕ) → 2 ≤ length (data_block_suffix suffix (v ∷ vs))
unfolding data_block_suffix data_block
suffix_size suffix v vs = omega arith

module _ {S : Type 0} (mb : Link S) (total : IsTotal mb) where
  send-ne-panic :
      (request : Pdu) (s : S) → 2 ≤ length request.payload → (send mb request s).0 ≢ panic
  unfolding send settle
  send-ne-panic request s size =
      bind-ne-panic (mb.encode request) _ s (total.encode_total request s) λ adu e.
        bind-ne-panic (mb.transmit adu) _ _ (total.transmit_total request s _ _ adu size e)
          λ response f.
            settle-ne-panic request (mb.verify adu response) (mb.decode response) _
              (total.verify_total request s _ _ _ adu response e f)
              (total.decode_total _ _ adu response f)

  -- A request whose response is checked without a panic.
  answered :
      (request : Pdu) (check : Pdu → Outcome (List ℕ)) (s : S)
      → 2 ≤ length request.payload
      → ((r : Pdu) → r.payload ≢ [] → check r ≢ panic)
      → ((send mb request >>= λ r. lift (check r)) s).0 ≢ panic
  answered request check s size safe =
      bind-ne-panic (send mb request) _ s (send-ne-panic request s size)
        λ r e. safe r (send-Sent mb request r s _ e).nonempty

  -- The same behind a guard.
  guarded :
      (b : Bool) (e : Error) (request : Pdu) (c : Pdu → Outcome (List ℕ)) (s : S)
      → 2 ≤ length request.payload
      → ((r : Pdu) → r.payload ≢ [] → c r ≢ panic)
      → ((check b e >> (send mb request >>= λ r. lift (c r))) s).0 ≢ panic
  guarded b e request c s size safe = guard-ne-panic b e _ s (answered request c s size safe)

  counting : (r : Pdu) → r.payload ≢ [] → counted r ≢ panic
  counting r = counted_at r.function_code r.payload

  echoing : (a v : ℕ) (r : Pdu) → r.payload ≢ [] → echoed a v r ≢ panic
  echoing a v r h = echoed_at r.function_code a v r.payload

  -- Over a packager and a transporter that do not panic on what they give one another, none of
  -- these requests panics, whatever its arguments are and whatever the device answers.
  pub run-ne-panic : (request : Request) (s : S) → (run mb request s).0 ≢ panic
  unfolding run read_coils read_discrete_inputs read_holding_registers read_input_registers
      write_single_coil write_single_register write_multiple_coils write_multiple_registers
      mask_write_register read_write_multiple_registers read_fifo_queue read_with_custom_function
  run-ne-panic (coils a q) s = guarded _ _ _ counted s (block_size _ _) counting
  run-ne-panic (discrete_inputs a q) s = guarded _ _ _ counted s (block_size _ _) counting
  run-ne-panic (holding_registers a q) s = guarded _ _ _ counted s (block_size _ _) counting
  run-ne-panic (input_registers a q) s = guarded _ _ _ counted s (block_size _ _) counting
  run-ne-panic (single_coil a v) s = guarded _ _ _ (echoed a v) s (block_size _ _) (echoing a v)
  run-ne-panic (single_register a v) s = answered _ (echoed a v) s (block_size _ _) (echoing a v)
  run-ne-panic (multiple_coils a q v) s =
      guarded _ _ _ (echoed a q) s (suffix_size v _ _) (echoing a q)
  run-ne-panic (multiple_registers a q v) s =
      guarded _ _ _ (echoed a q) s (suffix_size v _ _) (echoing a q)
  run-ne-panic (masked a m n) s =
      answered _ (echoed_masks a m n) s (block_size _ _)
        (λ r h. echoed_masks_at r.function_code a m n r.payload)
  run-ne-panic (read_write a q b w v) s =
      guard-ne-panic _ _ _ s (guarded _ _ _ counted s (suffix_size v _ _) counting)
  run-ne-panic (fifo a) s =
      answered _ fifo_values s (block_size _ _) (λ r h. fifo_at r.function_code r.payload)
  run-ne-panic (custom c a q) s = guarded _ _ _ counted s (block_size _ _) counting
