-- ===== src/Tcp/Total.antt =====
-- What the transporter returns, and the client over TCP.
use gomodbus.Prelude.{ℕ, ◌+◌, ◌-◌, ◌*◌, ◌≤◌, ◌≡◌, ◌≢◌, refl, ap, arith, Bool, true, false}
use gomodbus.Prelude.{List, [], ◌∷◌, ◌++◌, length, length-drop, ltb, ◌==◌}
use gomodbus.Go.{Outcome, ok, panic, Error, index, slice_from, uint16}
use gomodbus.Pdu.{Pdu}
use gomodbus.Client.Backend.{Link, lift}
use gomodbus.Client.Sent.{bind-ok}
use gomodbus.Client.Total.{Request, run, IsTotal, run-ne-panic, bind-ne-panic}
use gomodbus.Tcp.{TcpPackager, encode, verify, decode}
use gomodbus.Tcp.Transport.{Conn, IsConn, refuse, send}

-- A frame whose header says how long it is.
pub record IsReceived (adu : List ℕ) : Type 0 where
  pub t0 : ℕ
  pub t1 : ℕ
  pub p0 : ℕ
  pub p1 : ℕ
  pub l0 : ℕ
  pub l1 : ℕ
  pub slave : ℕ
  pub rest : List ℕ
  pub parts : adu ≡ t0 ∷ t1 ∷ p0 ∷ p1 ∷ l0 ∷ l1 ∷ slave ∷ rest
  pub counted : l0 * 256 + l1 ≡ length rest + 1
  pub small : length rest ≤ 253

received :
    (header rest field : List ℕ) (size : ℕ)
    → length header ≡ 7
    → slice_from header 4 ≡ ok field
    → uint16 field ≡ ok size
    → (size == 0) ≡ false
    → ltb 254 size ≡ false
    → length rest ≡ size + 6 - 7
    → IsReceived (header ++ rest)
unfolding slice_from uint16
received (a ∷ b ∷ c ∷ d ∷ x ∷ y ∷ slave ∷ []) rest field size h f g nonzero fits k = record {
  t0 = a;
  t1 = b;
  p0 = c;
  p1 = d;
  l0 = x;
  l1 = y;
  slave = slave;
  rest = rest;
  parts = refl;
  counted = ground arith;
  small = ground arith;
}
received [] rest field size h f g nonzero fits k = absurd (omega arith)
received (a ∷ []) rest field size h f g nonzero fits k = absurd (omega arith)
received (a ∷ b ∷ []) rest field size h f g nonzero fits k = absurd (omega arith)
received (a ∷ b ∷ c ∷ []) rest field size h f g nonzero fits k = absurd (omega arith)
received (a ∷ b ∷ c ∷ d ∷ []) rest field size h f g nonzero fits k = absurd (omega arith)
received (a ∷ b ∷ c ∷ d ∷ x ∷ []) rest field size h f g nonzero fits k = absurd (omega arith)
received (a ∷ b ∷ c ∷ d ∷ x ∷ y ∷ []) rest field size h f g nonzero fits k = absurd (omega arith)
received (a ∷ b ∷ c ∷ d ∷ x ∷ y ∷ z ∷ w ∷ xs) rest field size h f g nonzero fits k =
    absurd (omega arith)

slice-ne-panic : (header : List ℕ) → length header ≡ 7 → slice_from header 4 ≢ panic
unfolding slice_from
slice-ne-panic header h = λ p. ground arith

field_length :
    (header field : List ℕ) → length header ≡ 7 → slice_from header 4 ≡ ok field → length field ≡ 3
unfolding slice_from
field_length header field h e = ground (arith, length-drop 4 header)

uint16-ne-panic : (field : List ℕ) → length field ≡ 3 → uint16 field ≢ panic
unfolding uint16
uint16-ne-panic [] h = absurd (omega arith)
uint16-ne-panic (x ∷ []) h = absurd (omega arith)
uint16-ne-panic (x ∷ y ∷ xs) h = λ p. cc

ok_inverse : (xs ys : List ℕ) → ◌≡◌ {A = Outcome (List ℕ)} (ok xs) (ok ys) → xs ≡ ys
ok_inverse xs ys e = cc

ok-injective :
    {S : Type 0} (xs ys : List ℕ) (s t : S)
    → ◌≡◌ {A = Outcome (List ℕ) × S} (ok xs, s) (ok ys, t)
    → xs ≡ ys
ok-injective xs ys s t h = ok_inverse xs ys (ap (λ x. x.0) h)

module _ {C : Type 0} (conn : Conn C) (laws : IsConn conn) where
  refuse-ok :
      (b : Bool) (e : Error) (s t : C) (u : Unit {0}) → refuse conn b e s ≡ (ok u, t) → b ≡ false
  unfolding refuse
  refuse-ok true e s t u h = cc
  refuse-ok false e s t u h = refl

  refuse-ne-panic : (b : Bool) (e : Error) (s : C) → (refuse conn b e s).0 ≢ panic
  unfolding refuse
  refuse-ne-panic true e s = λ p. cc
  refuse-ne-panic false e s = λ p. cc

  -- What `Send` returns without an error is a whole frame by the length in its header, of at most 260
  -- bytes, if a read returns as many bytes as it was asked for and the connection does not panic.
  pub send-IsReceived :
      (adu_request adu_response : List ℕ) (s t : C)
      → send conn adu_request s ≡ (ok adu_response, t)
      → IsReceived adu_response
  unfolding send
  send-IsReceived adu_request adu s t h =
      let (_, e1, r1) = bind-ok conn.connect _ s t adu h in
      let (_, e2, r2) = bind-ok conn.set_deadline _ _ t adu r1 in
      let (_, e3, r3) = bind-ok (conn.write adu_request) _ _ t adu r2 in
      let (header, e4, r4) = bind-ok (conn.read_full 7) _ _ t adu r3 in
      let (field, e5, r5) = bind-ok (lift (slice_from header 4)) _ _ t adu r4 in
      let (size, e6, r6) = bind-ok (lift (uint16 field)) _ _ t adu r5 in
      let (_, e7, r7) = bind-ok (refuse conn (size == 0) _) _ _ t adu r6 in
      let (_, e8, r8) = bind-ok (refuse conn (ltb 254 size) _) _ _ t adu r7 in
      let (rest, e9, r9) = bind-ok (conn.read_full (size + 6 - 7)) _ _ t adu r8 in
      rw (ok-injective _ adu _ t r9) at (
        received header rest field size (laws.read_length 7 _ _ header e4) (ap (λ x. x.0) e5)
          (ap (λ x. x.0) e6) (refuse-ok _ _ _ _ _ e7) (refuse-ok _ _ _ _ _ e8)
          (laws.read_length _ _ _ rest e9))

  send-ne-panic : (adu_request : List ℕ) (s : C) → (send conn adu_request s).0 ≢ panic
  unfolding send
  send-ne-panic adu_request s = bind-ne-panic conn.connect _ s (laws.connect_total s) λ _ e1.
      bind-ne-panic conn.set_deadline _ _ (laws.set_deadline_total _) λ _ e2.
        bind-ne-panic (conn.write adu_request) _ _ (laws.write_total _ _) λ _ e3.
          bind-ne-panic (conn.read_full 7) _ _ (laws.read_total 7 _) λ header e4.
            bind-ne-panic (lift (slice_from header 4)) _ _
              (slice-ne-panic header (laws.read_length 7 _ _ header e4))
              λ field e5.
                bind-ne-panic (lift (uint16 field)) _ _
                  (uint16-ne-panic field (
                    field_length header field (laws.read_length 7 _ _ header e4)
                      (ap (λ x. x.0) e5)))
                  λ size e6.
                    bind-ne-panic (refuse conn (size == 0) _) _ _ (refuse-ne-panic _ _ _) λ _ e7.
                      bind-ne-panic (refuse conn (ltb 254 size) _) _ _ (refuse-ne-panic _ _ _)
                        λ _ e8.
                          bind-ne-panic (conn.read_full (size + 6 - 7)) _ _ (laws.read_total _ _)
                            λ rest e9 p. cc

-- The packager and the transporter together.
abbrev pub tcp_link : {C : Type 0} → Conn C → Link (TcpPackager × C)
tcp_link conn = record {
  encode = λ pdu s. ((encode pdu s.0).0, ((encode pdu s.0).1, s.1));
  verify = verify;
  decode = decode;
  transmit = λ adu s. ((send conn adu s.1).0, (s.0, (send conn adu s.1).1));
}

-- `Verify` indexes the seven bytes of the header only, and `Decode` one more if there is one.
verify_at :
    (a b c d x y u : ℕ) (xs : List ℕ) (a' b' c' d' x' y' u' : ℕ) (xs' : List ℕ)
    → verify (a ∷ b ∷ c ∷ d ∷ x ∷ y ∷ u ∷ xs) (a' ∷ b' ∷ c' ∷ d' ∷ x' ∷ y' ∷ u' ∷ xs') ≢ panic
unfolding verify index slice_from uint16
verify_at a b c d x y u xs a' b' c' d' x' y' u' xs' = λ p. ground arith

decode_at : (a b c d x y u : ℕ) (xs : List ℕ) → decode (a ∷ b ∷ c ∷ d ∷ x ∷ y ∷ u ∷ xs) ≢ panic
unfolding decode index slice_from uint16
decode_at a b c d x y u [] = λ p. ground arith
decode_at a b c d x y u (f ∷ xs) = λ p. ground arith

-- Whatever the packager encodes has a header.
encoded_header :
    (pdu : Pdu) (mb : TcpPackager) (request : List ℕ)
    → (encode pdu mb).0 ≡ ok request
    → (response : List ℕ) → IsReceived response
    → verify request response ≢ panic
unfolding encode
encoded_header pdu mb request e response r =
    rw (r.parts, ← ok_inverse _ request e) (verify_at _ _ _ _ _ _ _ _ _ _ _ _ _ _ _ _)

module _ {C : Type 0} (conn : Conn C) (laws : IsConn conn) where
  pub tcp_link-IsTotal : IsTotal (tcp_link conn)
  unfolding encode
  tcp_link-IsTotal = record {
    encode_total = λ pdu s p. cc;
    transmit_total = λ pdu s s' t request size e. send-ne-panic conn laws request t.1;
    verify_total = λ pdu s s' t t' request response e f.
        encoded_header pdu s.0 request (ap (λ x. x.0) e) response
          (send-IsReceived conn laws request response t.1 t'.1 (exchanged request response t t' f));
    decode_total = λ t t' request response f v.
        let r =
          send-IsReceived conn laws request response t.1 t'.1 (exchanged request response t t' f) in
        rw r.parts (decode_at _ _ _ _ _ _ _ _);
  }
    where
      exchanged :
          (request response : List ℕ) (t t' : TcpPackager × C)
          → (tcp_link conn).transmit request t ≡ (ok response, t')
          → send conn request t.1 ≡ (ok response, t'.1)
      exchanged request response t t' f = λ i. ((f i).0, (f i).1.1)

  -- Over TCP none of the twelve requests that read and write coils, discrete inputs and registers, the
  -- read of a FIFO queue and the one with a custom function among them, panics, whatever its arguments are
  -- and whatever the connection delivers, if reads return as many bytes as they were asked for or an
  -- error, and the connection itself does not panic. The identification of the device and the raw
  -- exchange are not among the twelve.
  pub run_tcp-ne-panic :
      (request : Request) (s : TcpPackager × C) → (run (tcp_link conn) request s).0 ≢ panic
  run_tcp-ne-panic = run-ne-panic (tcp_link conn) tcp_link-IsTotal
