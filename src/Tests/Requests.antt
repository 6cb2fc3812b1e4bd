-- ===== src/Tests/Requests.antt =====
-- The client over a packager and a transporter that answer one fixed frame.
use gomodbus.Prelude.{ℕ, suc, ◌≡◌, ◌↔◌, refl, arith, List, [], ◌∷◌, All, IsByte}
use gomodbus.Go.{Outcome, ok, err, panic, Error, put_uint16}
use gomodbus.Pdu.{Pdu}
use gomodbus.Client.Backend.{Link, lift}
use gomodbus.Client.Payload.{fifo_values}
use gomodbus.Client.Total.{Request, IsTotal, run}
use gomodbus.Client.Accepted.{run-ok_iff}
use gomodbus.Client.Exchange.{request_pdu, IsWithinLimits, IsAccepted, Exchanged, run_refused}

-- The device holds one register; the state counts the requests that it has received.
abbrev answer : Pdu
answer = record { function_code = 3; payload = 2 ∷ 0x12 ∷ 0x34 ∷ [] }

abbrev device : Link ℕ
device = record {
  encode = λ pdu s. (ok (pdu.function_code ∷ pdu.payload), s);
  verify = λ request response. ok tt;
  decode = λ adu. ok answer;
  transmit = λ adu s. (ok (answer.function_code ∷ answer.payload), suc s);
}

run_read : run device (Request.holding_registers 7 1) 0 ≡ (ok (0x12 ∷ 0x34 ∷ []), 1)
unfolding run gomodbus.Client.read_holding_registers gomodbus.Client.Backend.◌>>=◌
    gomodbus.Client.Backend.check gomodbus.Client.send gomodbus.Client.Payload.counted
    gomodbus.Go.index gomodbus.Go.slice_from
run_read = refl

answer_bytes : (adu : List ℕ) (r : Pdu) → device.decode adu ≡ ok r → All IsByte r.payload
answer_bytes adu r e = ground arith

device_total : IsTotal device
device_total = record {
  encode_total = λ pdu s p. cc;
  transmit_total = λ pdu s s' t request size e p. cc;
  verify_total = λ pdu s s' t t' request response e f p. cc;
  decode_total = λ t t' request response e f p. cc;
}

run-ok_iff_example : (run device (Request.holding_registers 7 1) 0 ≡ (ok (0x12 ∷ 0x34 ∷ []), 1)) ↔ (
    IsWithinLimits (Request.holding_registers 7 1)
    × Exchanged device
        (request_pdu (Request.holding_registers 7 1))
        0
        1
        (λ xs. IsAccepted (Request.holding_registers 7 1) xs (0x12 ∷ 0x34 ∷ [])))
run-ok_iff_example =
    run-ok_iff device (Request.holding_registers 7 1) 0 1 (0x12 ∷ 0x34 ∷ []) answer_bytes tt

-- One register is accepted as the answer for two.
run_short : run device (Request.holding_registers 7 2) 0 ≡ (ok (0x12 ∷ 0x34 ∷ []), 1)
unfolding run gomodbus.Client.read_holding_registers gomodbus.Client.Backend.◌>>=◌
    gomodbus.Client.Backend.check gomodbus.Client.send gomodbus.Client.Payload.counted
    gomodbus.Go.index gomodbus.Go.slice_from
run_short = refl

run_refused_example : (e : Error) × (run device (Request.holding_registers 7 126) 0 ≡ (err e, 0))
run_refused_example =
    run_refused device (Request.holding_registers 7 126) 0 (λ h. absurd (omega (arith, h.1)))
