-- ===== src/Tests/Handlers.antt =====
-- The handler over a transport on which one slave answers with a fixed unit.
use gomodbus.Prelude.{ℕ, ◌*◌, ◌<◌, ◌≡◌, refl, ap, arith, List, [], ◌∷◌, ◌++◌, length, All, IsByte}
use mathlib.Core.Path.{subst}
use gomodbus.Go.{Outcome, ok, err, panic, put_uint16}
use gomodbus.Handler.{Transport, pack_words, unpack_words, read_modbus_data}
use gomodbus.Handler.Reads.{Received, read_holding_registers-Received}

abbrev answering : List ℕ → Transport (Unit {0})
answering pdu = record { send = λ slave req s. (ok tt, s); receive = λ s. (ok (9, pdu), s) }

abbrev two_registers : List ℕ
two_registers = 4 ∷ 1 ∷ 2 ∷ 3 ∷ 4 ∷ []

abbrev two_values : List ℕ
two_values = 0x102 ∷ 0x304 ∷ []

received_bytes :
    (f : ℕ)
    → f < 256
    → (s t : Unit {0}) (r : ℕ × List ℕ) → (answering (f ∷ two_registers)).receive s ≡ (ok r, t)
    → All IsByte r.1
received_bytes f h s t (slave, pdu) e =
    let fixed : All IsByte (f ∷ two_registers) =
      (h, (omega arith, (omega arith, (omega arith, (omega arith, (omega arith, tt)))))) in
    subst (All IsByte) (same_pdu slave pdu (ap (λ x. x.0) e)) fixed
  where
    same_pdu :
        (slave : ℕ) (pdu : List ℕ)
        → ◌≡◌ {A = Outcome (ℕ × List ℕ)} (ok (9, f ∷ two_registers)) (ok (slave, pdu))
        → f ∷ two_registers ≡ pdu
    same_pdu slave pdu e = cc

read_holding_registers-Received_example :
    Received
      (answering (3 ∷ two_registers))
      9
      (3 ∷ (put_uint16 7 ++ put_uint16 2))
      (3 ∷ (2 * length two_values) ∷ pack_words two_values)
      tt
      tt
unfolding gomodbus.Handler.read_holding_registers gomodbus.Client.Backend.◌>>=◌ read_modbus_data
    gomodbus.Handler.send_and_receive gomodbus.Client.Backend.check
    gomodbus.Handler.Checks.counted_bytes gomodbus.Handler.Checks.check_function gomodbus.Go.index
    gomodbus.Go.slice unpack_words
read_holding_registers-Received_example =
    read_holding_registers-Received (answering (3 ∷ two_registers)) 9 7 2 tt tt (0x102 ∷ 0x304 ∷ [])
      (received_bytes 3 (omega arith)) refl
