-- ===== src/Rtu/Total.antt =====
-- rtuclient.go: the client with its packager and its transporter.
use gomodbus.Prelude.{
  ℕ, ◌-◌, ◌≤◌, ◌≡◌, ◌≢◌, refl, ap, arith, Bool, true, false, Bool-cases, inl, inr, List, [], ◌∷◌,
  ◌++◌, length, get_or, ltb, leb, ◌==◌, ◌&&◌, if◌then◌else◌,
}
use mathlib.Core.Path.{subst}
use gomodbus.Go.{Outcome, ok, err, panic, Error, index, slice_from, uint16}
use gomodbus.Pdu.{Pdu}
use gomodbus.Client.Backend.{Action, Link, pure, lift}
use gomodbus.Client.Total.{Request, run, IsTotal, run-ne-panic, bind-ne-panic}
use gomodbus.Rtu.{
  RtuPackager, encode, verify, decode, rtu_max_size, rtu_min_size, rtu_exception_size,
}
use gomodbus.Rtu.Length.{calculate_response_length}
use gomodbus.Rtu.Safety.{decode-ne-panic_of_verify}
use gomodbus.Rtu.Transport.{Port, read_rest, send}

-- The packager and the transporter together.
abbrev pub rtu_link : {P : Type 0} → Port P → Link (RtuPackager × P)
rtu_link port = record {
  encode = λ pdu s. (encode s.0 pdu, s);
  verify = verify;
  decode = decode;
  transmit = λ adu s. let r = send port adu s.1 in (r.0, (s.0, r.1));
}

-- A port whose operations return.
pub record IsTotalPort {P : Type 0} (port : Port P) : Type 0 where
  pub connect_total : (s : P) → (port.connect s).0 ≢ panic
  pub write_total : (xs : List ℕ) (s : P) → (port.write xs s).0 ≢ panic
  pub delay_total : (n : ℕ) (s : P) → (port.delay n s).0 ≢ panic
  pub read_at_least_total : (n m : ℕ) (s : P) → (port.read_at_least n m s).0 ≢ panic
  pub read_full_total : (n : ℕ) (s : P) → (port.read_full n s).0 ≢ panic

-- A request of six bytes has all that the length of its response is computed from.
response_length-ne-panic :
    (a b c d x y : ℕ) (rest : List ℕ)
    → calculate_response_length (a ∷ b ∷ c ∷ d ∷ x ∷ y ∷ rest) ≢ panic
unfolding calculate_response_length index slice_from uint16
response_length-ne-panic a b c d x y rest = λ p. ground arith

-- A frame of six bytes or more.
pub record IsLong (adu : List ℕ) : Type 0 where
  pub a : ℕ
  pub b : ℕ
  pub c : ℕ
  pub d : ℕ
  pub x : ℕ
  pub y : ℕ
  pub rest : List ℕ
  pub parts : adu ≡ a ∷ b ∷ c ∷ d ∷ x ∷ y ∷ rest

six_bytes :
    (slave code lo hi : ℕ) (xs : List ℕ)
    → 2 ≤ length xs
    → IsLong (slave ∷ code ∷ (xs ++ (lo ∷ hi ∷ [])))
six_bytes slave code lo hi [] h = absurd (omega arith)
six_bytes slave code lo hi (x ∷ []) h = absurd (omega arith)
six_bytes slave code lo hi (x ∷ y ∷ []) h = record {
  a = slave;
  b = code;
  c = x;
  d = y;
  x = lo;
  y = hi;
  rest = [];
  parts = refl;
}
six_bytes slave code lo hi (x ∷ y ∷ z ∷ []) h = record {
  a = slave;
  b = code;
  c = x;
  d = y;
  x = z;
  y = lo;
  rest = hi ∷ [];
  parts = refl;
}
six_bytes slave code lo hi (x ∷ y ∷ z ∷ w ∷ xs) h = record {
  a = slave;
  b = code;
  c = x;
  d = y;
  x = z;
  y = w;
  rest = xs ++ (lo ∷ hi ∷ []);
  parts = refl;
}

unless_failed :
    (failed : Bool) (e : Error) (xs ys : List ℕ)
    → ◌≡◌ {A = Outcome (List ℕ)} (if failed then err e else ok xs) (ok ys)
    → xs ≡ ys
unless_failed true e xs ys h = cc
unless_failed false e xs ys h = cc

encode-IsLong :
    (mb : RtuPackager) (pdu : Pdu) (adu : List ℕ)
    → 2 ≤ length pdu.payload
    → encode mb pdu ≡ ok adu
    → IsLong adu
unfolding encode
encode-IsLong mb pdu adu h e =
    subst IsLong (unless_failed _ _ _ adu e)
      (six_bytes mb.slave_id pdu.function_code _ _ pdu.payload h)

second-ne-panic : (a b : ℕ) (xs : List ℕ) → index (a ∷ b ∷ xs) 1 ≢ panic
unfolding index
second-ne-panic a b xs = λ p. cc

module _ {P : Type 0} (port : Port P) (laws : IsTotalPort port) where
  -- One of the two branches that read on.
  more-ne-panic :
      (b : Bool) (n : ℕ) (start : List ℕ) (s : P)
      → ((if b
            then gomodbus.Client.Backend.◌>>=◌ (port.read_full n) (λ rest. pure (start ++ rest))
            else pure start)
          s).0
        ≢ panic
  more-ne-panic true n start s =
      bind-ne-panic (port.read_full n) _ s (laws.read_full_total n s) λ rest e p. cc
  more-ne-panic false n start s = λ p. cc

  read_rest-ne-panic :
      (function function_fail n : ℕ) (start : List ℕ) (s : P)
      → (read_rest port function function_fail n start s).0 ≢ panic
  unfolding read_rest
  read_rest-ne-panic function function_fail n start s =
      elim (Bool-cases (get_or start 1 0 == function)) [
        | inl e ↦
            rw (e, read_rest)
              (more-ne-panic
                (ltb (length start) n
                  && (ltb rtu_min_size n && (leb n rtu_max_size && ltb (length start) n)))
                (n - length start) start s)
        | inr e ↦
            rw (e, read_rest)
              (more-ne-panic
                (get_or start 1 0 == function_fail && ltb (length start) rtu_exception_size)
                (rtu_exception_size - length start) start s)
      ]

  send-ne-panic : (adu : List ℕ) (s : P) → IsLong adu → (send port adu s).0 ≢ panic
  unfolding send
  send-ne-panic adu s l = rw l.parts (
      bind-ne-panic port.connect _ s (laws.connect_total s) λ _ e1.
        bind-ne-panic (port.write _) _ _ (laws.write_total _ _) λ _ e2.
          bind-ne-panic (lift (index _ 1)) _ _ (second-ne-panic l.a l.b _) λ function e3.
            bind-ne-panic (lift (calculate_response_length _)) _ _
              (response_length-ne-panic l.a l.b l.c l.d l.x l.y l.rest)
              λ size e4. bind-ne-panic (port.delay _) _ _ (laws.delay_total _ _) λ _ e5.
                bind-ne-panic (port.read_at_least rtu_max_size rtu_min_size) _ _
                  (laws.read_at_least_total _ _ _)
                  λ start e6. read_rest-ne-panic function _ size start _)

verify_at : (a : ℕ) (rest response : List ℕ) → verify (a ∷ rest) response ≢ panic
unfolding verify index
verify_at a rest [] = λ p. cc
verify_at a rest (x ∷ response) = λ p. ground arith

verify-ne-panic :
    (mb : RtuPackager) (pdu : Pdu) (request response : List ℕ)
    → encode mb pdu ≡ ok request
    → verify request response ≢ panic
unfolding encode
verify-ne-panic mb pdu request response e =
    subst (λ adu. verify adu response ≢ panic) (unless_failed _ _ _ request e)
      (verify_at mb.slave_id _ response)

encode-ne-panic : (mb : RtuPackager) (pdu : Pdu) → encode mb pdu ≢ panic
unfolding encode
encode-ne-panic mb pdu = λ p. ground arith

module _ {P : Type 0} (port : Port P) (laws : IsTotalPort port) where
  rtu_link-IsTotal : IsTotal (rtu_link port)
  rtu_link-IsTotal = record {
    encode_total = λ pdu s. encode-ne-panic s.0 pdu;
    transmit_total = λ pdu s s' t request size e.
        send-ne-panic port laws request t.1 (encode-IsLong s.0 pdu request size (ap (λ x. x.0) e));
    verify_total = λ pdu s s' t t' request response e f.
        verify-ne-panic s.0 pdu request response (ap (λ x. x.0) e);
    decode_total = λ t t' request response f v. decode-ne-panic_of_verify request response v;
  }

  -- Over a serial port none of the twelve requests that read and write coils, discrete inputs and
  -- registers, the read of a FIFO queue and the one with a custom function among them, panics, whatever
  -- its arguments are and whatever the port delivers, if the operations of the port return. The
  -- identification of the device and the raw exchange are not among the twelve.
  pub run_rtu-ne-panic :
      (request : Request) (s : RtuPackager × P) → (run (rtu_link port) request s).0 ≢ panic
  run_rtu-ne-panic = run-ne-panic (rtu_link port) rtu_link-IsTotal
