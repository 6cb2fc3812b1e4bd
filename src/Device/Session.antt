-- ===== src/Device/Session.antt =====
-- The client and a device behind any packager and transporter that deliver its answers.
use gomodbus.Prelude.{
  ℕ, ◌*◌, ◌≡◌, refl, ap, ◌∙◌, arith, false, List, [], ◌∷◌, length, All, IsWord, ltb, ◌||◌,
}
use gomodbus.Go.{ok, index, slice_from, uint16}
use gomodbus.Go.Word.{word_of_bytes}
use gomodbus.Pdu.{Pdu}
use gomodbus.Client.Backend.{Action, Link, pure, check, ◌>>=◌}
use gomodbus.Client.Payload.{data_block, counted, echoed}
use gomodbus.Client.{send, read_holding_registers, write_single_register, write_multiple_registers}
use gomodbus.Client.Total.{run}
use gomodbus.Group.Values.{image, length-image}
use gomodbus.Device.{
  Memory, Command, read, write, write_many, to_request, IsValid, after, result, response,
  command_pdu, IsServer, all_results, all_after,
}

-- Between two exchanges the connection is ready; an exchange gives the request to the device and
-- returns its response.
pub record Wire {S D : Type 0} (mb : Link S) (answer : Pdu → D → Pdu × D) : Type 1 where
  pub device : S → D
  pub IsReady : S → Type 0
  pub exchange :
      (c : Command) (m : Memory) (s : S) (d : D)
      → IsValid c
      → IsReady s
      → answer (command_pdu c) (device s) ≡ (response c m, d)
      → (t : S) × (send mb (command_pdu c) s ≡ (ok (response c m), t)) × IsReady t × (device t ≡ d)

counted-image :
    (m : Memory) (a q : ℕ)
    → counted (record { function_code = 3; payload = 2 * q ∷ image m a q }) ≡ ok (image m a q)
unfolding counted index slice_from
counted-image m a q = ground (arith, length-image m a q)

echoed-words :
    (f a v : ℕ)
    → IsWord a
    → IsWord v
    → echoed a v (record { function_code = f; payload = data_block (a ∷ v ∷ []) })
      ≡ ok (data_block (v ∷ []))
unfolding echoed slice_from uint16 data_block
echoed-words f a v ha hv = ground (arith, word_of_bytes a ha, word_of_bytes v hv)

module _ {S : Type 0} (mb : Link S) where
  -- The method of the client returns what the response says.
  pub run-response :
      (c : Command) (m : Memory) (s t : S)
      → IsValid c
      → send mb (command_pdu c) s ≡ (ok (response c m), t)
      → run mb (to_request c) s ≡ (ok (result c m), t)
  unfolding run read_holding_registers write_single_register write_multiple_registers ◌>>=◌ check
  run-response (read a q) m s t (low, high, fits) e =
      let legal : (ltb q 1 || ltb 125 q) ≡ false = ground arith in
      rw (legal, e, counted-image m a q) refl
  run-response (write a v) m s t (ha, hv) e = rw (e, echoed-words 6 a v ha hv) refl
  run-response (write_many a vs) m s t (low, high, fits, words) e =
      let legal : (ltb (length vs) 1 || ltb 123 (length vs)) ≡ false = ground arith in
      rw (legal, e, echoed-words 16 a (length vs) (omega arith) (omega arith)) refl

  -- Commands one after the other; an error ends them.
  unfoldable pub run_commands : List Command → Action S (List (List ℕ))
  run_commands [] = pure []
  run_commands (c ∷ cs) = do
    first ← run mb (to_request c)
    others ← run_commands cs
    pure (first ∷ others)

  module _ {D : Type 0} (answer : Pdu → D → Pdu × D) (memory : D → Memory) where
    -- What is left after some commands were run.
    pub record Ran (wire : Wire mb answer) (cs : List Command) (s t : S) : Type 0 where
      pub returned : run_commands cs s ≡ (ok (all_results cs (memory (wire.device s))), t)
      pub ready : wire.IsReady t
      pub registers : memory (wire.device t) ≡ all_after cs (memory (wire.device s))

    -- Over any such connection, valid commands return what they return on the registers alone, and
    -- leave the registers as they do there.
    pub run_commands-Ran :
        (wire : Wire mb answer) (cs : List Command) (s : S)
        → IsServer answer memory
        → All IsValid cs
        → wire.IsReady s
        → (t : S) × Ran wire cs s t
    unfolding run_commands ◌>>=◌
    run_commands-Ran wire [] s server h r =
        (s, record { returned = refl; ready = r; registers = refl })
    run_commands-Ran wire (c ∷ cs) s server (hc, h) r =
        let (d, answered, changed) = server.serves c (wire.device s) hc in
        let (m, e, ready, at) = wire.exchange c (memory (wire.device s)) s d hc r answered in
        let now : memory (wire.device m) ≡ after c (memory (wire.device s)) =
          ap memory at ∙ changed in
        let (t, rest) = run_commands-Ran wire cs m server h ready in
        let first = run-response c (memory (wire.device s)) s m hc e in
        (
          t,
          record {
            returned = rw (first, rest.returned, now) refl;
            ready = rest.ready;
            registers = rest.registers ∙ ap (all_after cs) now;
          },
        )
