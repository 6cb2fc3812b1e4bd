-- ===== src/Rtu/Safety.antt =====
-- A response that `Verify` accepts is decoded without a panic.
use gomodbus.Prelude.{ℕ, ◌≤◌, ◌≡◌, ◌≢◌, refl, arith}
use gomodbus.Prelude.{List, length}
use gomodbus.Go.{Outcome, ok, err, panic, ◌>>=◌}
use gomodbus.Pdu.{Pdu}
use gomodbus.Rtu.{verify, decode, decode_frame, real_length}
use gomodbus.Rtu.Size.{real_length-Sized}
use gomodbus.Rtu.Frame.{checked}
use gomodbus.Rtu.Cut.{IsCut-of_size, decode_frame-cut, Sized-bounds}

verify_length :
    (adu_request adu_response : List ℕ)
    → verify adu_request adu_response ≡ ok tt
    → 4 ≤ length adu_response
unfolding verify
verify_length q r e = ground arith

checked-ne-panic : (lo hi slave : ℕ) (pdu : Pdu) → checked lo hi slave pdu ≢ panic
checked-ne-panic lo hi slave pdu = λ e. ground arith

real_length-ne-panic : (adu : List ℕ) → real_length adu ≢ panic
unfolding real_length
real_length-ne-panic adu = λ e. ground arith

decode_frame-ne-panic :
    (adu : List ℕ) (size : ℕ) → 4 ≤ size → size ≤ length adu → decode_frame adu size ≢ panic
decode_frame-ne-panic adu size lo hi =
    let c = IsCut-of_size adu size lo hi in
    rw (decode_frame-cut c) (checked-ne-panic c.low c.high c.slave c.pdu)

after_size :
    (adu : List ℕ) (size : Outcome ℕ)
    → 4 ≤ length adu
    → real_length adu ≡ size
    → (size >>= decode_frame adu) ≢ panic
after_size adu (ok size) h e =
    let (lo, hi) = Sized-bounds adu size h (real_length-Sized adu size e) in
    decode_frame-ne-panic adu size lo hi
after_size adu (err x) h e = λ p. cc
after_size adu panic h e = absurd (real_length-ne-panic adu e)

-- Whatever bytes a device answers, a response that `Verify` accepts makes `Decode` return: a data
-- unit or an error, never an index out of range.
pub decode-ne-panic_of_verify :
    (adu_request adu_response : List ℕ)
    → verify adu_request adu_response ≡ ok tt
    → decode adu_response ≢ panic
unfolding decode
decode-ne-panic_of_verify q r e = after_size r (real_length r) (verify_length q r e) refl
