-- ===== src/Enhanced/Scan.antt =====
-- enhancement_handler.go over enhancement-rtu_transporter.go: the scan for slaves over a serial port.
use gomodbus.Prelude.{
  ℕ, suc, zero, ◌+◌, ◌-◌, ◌≤◌, ◌≡◌, ◌≢◌, inl, inr, refl, sym, ap, ◌∙◌, arith, Bool, true, false,
  Bool-cases, bit_and, List, [], ◌∷◌, ◌++◌, length, get_or, Option, ltb, u8, ◌==◌, ◌!=◌, ◌&&◌, ◌||◌,
}
use gomodbus.Go.{Outcome, ok, err, panic, Error, index, slice_from, uint16}
use gomodbus.Client.Backend.{lift, pure, check, ◌>>=◌, ◌>>◌}
use gomodbus.Client.Sent.{bind-ok}
use gomodbus.Client.Total.{bind-ne-panic}
use gomodbus.Tcp.Transport.{Conn, IsConn}
use gomodbus.Handler.{build_request_pdu, send_and_receive}
use gomodbus.Handler.Scan.{read_raw_device_identity, scan_loop, scan_slaves}
use gomodbus.Crc.BitLoop.{crc16}
use gomodbus.Enhanced.Rtu.{slice_tail, send, read_payload, receive, rtu_transport}

ok_inverse : {A : Type 0} (x y : A) → ok x ≡ ok y → x ≡ y
ok_inverse x y e = cc

two_index :
    (header : List ℕ) (f : ℕ)
    → length header ≡ 2
    → index header 1 ≡ ok f
    → (slave : ℕ) × (header ≡ slave ∷ f ∷ [])
unfolding index
two_index [] f n h = absurd (omega (arith, n))
two_index (a ∷ []) f n h = absurd (omega (arith, n))
two_index (a ∷ b ∷ []) f n h = (a, ap (λ t. a ∷ t ∷ []) (ok_inverse b f h))
two_index (a ∷ b ∷ c ∷ xs) f n h = absurd (omega (arith, n))

raw_checked :
    {S : Type 0} (b : Bool) (e : Error) (pdu resp : List ℕ) (s t : S)
    → (check b e >> pure pdu) s ≡ (ok resp, t)
    → (b ≡ false) × (pdu ≡ resp)
unfolding ◌>>=◌ check
raw_checked true e pdu resp s t g = cc
raw_checked false e pdu resp s t g = (refl, same pdu resp (ap (λ p. p.0) g))
  where
    same : (xs ys : List ℕ) → ◌≡◌ {A = Outcome (List ℕ)} (ok xs) (ok ys) → xs ≡ ys
    same xs ys p = cc

-- An outcome that is neither a panic nor a value is an error.
must_fail :
    {A : Type 0} (o : Outcome A) → o ≢ panic → ((a : A) → o ≢ ok a) → (e : Error) × (o ≡ err e)
must_fail (ok a) p n = absurd (n a refl)
must_fail (err e) p n = (e, refl)
must_fail panic p n = absurd (p refl)

first_total : (xs : List ℕ) (n : ℕ) → length xs ≡ suc n → index xs 0 ≢ panic
unfolding index
first_total [] n h = absurd (omega (arith, h))
first_total (x ∷ xs) n h = λ p. cc

second_total : (xs : List ℕ) → length xs ≡ 2 → index xs 1 ≢ panic
unfolding index
second_total [] h = absurd (omega (arith, h))
second_total (x ∷ []) h = absurd (omega (arith, h))
second_total (x ∷ y ∷ xs) h = λ p. cc

word_total : (xs : List ℕ) → length xs ≡ 2 → uint16 xs ≢ panic
unfolding uint16
word_total [] h = absurd (omega (arith, h))
word_total (x ∷ []) h = absurd (omega (arith, h))
word_total (x ∷ y ∷ xs) h = λ p. cc

tail_total : (xs ys : List ℕ) → length xs ≡ 2 → slice_from (xs ++ ys) 1 ≢ panic
tail_total [] ys h = absurd (omega (arith, h))
tail_total (x ∷ xs) ys h = rw (slice_tail x (xs ++ ys)) (λ p. cc)

unit_known :
    (header payload unit pdu : List ℕ) (f slave_id slave : ℕ)
    → length header ≡ 2
    → index header 1 ≡ ok f
    → slice_from (header ++ payload) 1 ≡ ok unit
    → ◌≡◌ {A = Outcome (ℕ × List ℕ)} (ok (slave_id, unit)) (ok (slave, pdu))
    → f ≢ 0x11
    → get_or pdu 0 0 ≢ 0x11
unit_known header payload unit pdu f slave_id slave n e g k other h =
    let (a, two) = two_index header f n e in
    let tail : unit ≡ f ∷ payload =
      ok_inverse unit (f ∷ payload)
        (sym g ∙ (ap (λ x. slice_from (x ++ payload) 1) two ∙ slice_tail a (f ∷ payload))) in
    let same : unit ≡ pdu = ap (λ x. x.1) (ok_inverse (slave_id, unit) (slave, pdu) k) in
    other (sym (ap (λ x. get_or x 0 0) (sym same ∙ tail)) ∙ h)

check-ne-panic : {S : Type 0} (b : Bool) (e : Error) (s : S) → (check b e s).0 ≢ panic
unfolding check
check-ne-panic true e s = λ p. cc
check-ne-panic false e s = λ p. cc

module _ {C : Type 0} (port : Conn C) (laws : IsConn port) where
  -- The switch of `Receive` has no case for the identity of a device.
  payload-known :
      (f : ℕ) (payload : List ℕ) (s t : C) → read_payload port f s ≡ (ok payload, t) → f ≢ 0x11
  unfolding read_payload
  payload-known f payload s t h e = absurd (clash (rw e at h))
    where
      clash : {x : Error} → ◌≡◌ {A = Outcome (List ℕ) × C} (err x, s) (ok payload, t) → ⊥
      clash p = cc

  -- What `Receive` returns does not start with the code of an identity.
  receive-known :
      (slave : ℕ) (pdu : List ℕ) (s t : C)
      → receive port s ≡ (ok (slave, pdu), t)
      → get_or pdu 0 0 ≢ 0x11
  unfolding receive
  receive-known slave pdu s t h =
      let (header, e1, r1) = bind-ok (port.read_full 2) _ s t (slave, pdu) h in
      let (slave_id, e2, r2) = bind-ok (lift (index header 0)) _ _ t (slave, pdu) r1 in
      let (f, e3, r3) = bind-ok (lift (index header 1)) _ _ t (slave, pdu) r2 in
      let (payload, e4, r4) = bind-ok (read_payload port f) _ _ t (slave, pdu) r3 in
      let (crc_bytes, e5, r5) = bind-ok (port.read_full 2) _ _ t (slave, pdu) r4 in
      let (crc, e6, r6) = bind-ok (lift (uint16 crc_bytes)) _ _ t (slave, pdu) r5 in
      let (u, e7, r7) =
        bind-ok (check (crc != crc16 (header ++ payload)) _) _ _ t (slave, pdu) r6 in
      let (unit, e8, r8) =
        bind-ok (lift (slice_from (header ++ payload) 1)) _ _ t (slave, pdu) r7 in
      unit_known header payload unit pdu f slave_id slave (laws.read_length 2 s _ header e1)
        (ap (λ x. x.0) e3) (ap (λ x. x.0) e8) (ap (λ x. x.0) r8) (payload-known f payload _ _ e4)

  counted-ne-panic :
      (s : C)
      → ((port.read_full 1 >>= λ count_byte. lift (index count_byte 0) >>= λ count.
            port.read_full count >>= λ payload. pure (count_byte ++ payload))
          s).0
        ≢ panic
  counted-ne-panic s = bind-ne-panic (port.read_full 1) _ s (laws.read_total 1 s) λ count_byte e1.
      bind-ne-panic (lift (index count_byte 0)) _ _
        (first_total count_byte 0 (laws.read_length 1 s _ count_byte e1))
        λ count e2.
          bind-ne-panic (port.read_full count) _ _ (laws.read_total count _) λ payload e3 p. cc

  payload-ne-panic : (f : ℕ) (s : C) → (read_payload port f s).0 ≢ panic
  unfolding read_payload
  payload-ne-panic f s = elim (Bool-cases (f == 1 || (f == 2 || (f == 3 || f == 4)))) [
    | inl e ↦ rw (e, read_payload) (counted-ne-panic s)
    | inr e ↦ elim (Bool-cases (f == 5 || (f == 6 || (f == 15 || f == 16)))) [
      | inl e' ↦ rw (e, e', read_payload) (laws.read_total 4 s)
      | inr e' ↦ elim (Bool-cases (f == 7)) [
        | inl e'' ↦ rw (e, e', e'', read_payload) (laws.read_total 1 s)
        | inr e'' ↦ rw (e, e', e'', read_payload) (λ p. cc)
      ]
    ]
  ]

  receive-ne-panic : (s : C) → (receive port s).0 ≢ panic
  unfolding receive
  receive-ne-panic s = bind-ne-panic (port.read_full 2) _ s (laws.read_total 2 s) λ header e1.
      bind-ne-panic (lift (index header 0)) _ _
        (first_total header 1 (laws.read_length 2 s _ header e1))
        λ slave e2.
          bind-ne-panic (lift (index header 1)) _ _
            (second_total header (laws.read_length 2 s _ header e1))
            λ f e3. bind-ne-panic (read_payload port f) _ _ (payload-ne-panic f _) λ payload e4.
              bind-ne-panic (port.read_full 2) _ _ (laws.read_total 2 _) λ crc_bytes e5.
                bind-ne-panic (lift (uint16 crc_bytes)) _ _
                  (word_total crc_bytes (laws.read_length 2 _ _ crc_bytes e5))
                  λ crc e6.
                    bind-ne-panic (check (crc != crc16 (header ++ payload)) _) _ _
                      (check-ne-panic _ _ _)
                      λ u e7.
                        bind-ne-panic (lift (slice_from (header ++ payload) 1)) _ _
                          (tail_total header payload (laws.read_length 2 s _ header e1))
                          λ unit e8 p. cc

  exchange-ne-panic :
      (slave : ℕ) (req : List ℕ) (s : C)
      → (send_and_receive (rtu_transport port) slave req s).0 ≢ panic
  unfolding send_and_receive send
  exchange-ne-panic slave req s =
      bind-ne-panic (send port slave req) _ s (laws.write_total _ s) λ u e1.
        bind-ne-panic (receive port) _ _ (receive-ne-panic _) λ received e2.
          bind-ne-panic (check (received.0 != slave) _) _ _ (check-ne-panic _ _ _) λ v e3.
            bind-ne-panic
              (check (ltb 0 (length received.1) && bit_and (get_or received.1 0 0) 0x80 != 0) _) _ _
              (check-ne-panic _ _ _) λ w e4 p. cc

  identity-ne-panic :
      (id : ℕ) (s : C) → (read_raw_device_identity (rtu_transport port) id s).0 ≢ panic
  unfolding read_raw_device_identity
  identity-ne-panic id s =
      bind-ne-panic (send_and_receive (rtu_transport port) (u8 id) (build_request_pdu 0x11 [])) _ s
        (exchange-ne-panic _ _ s)
        λ pdu e.
          bind-ne-panic (check (ltb (length pdu) 1 || get_or pdu 0 0 != 0x11) _) _ _
            (check-ne-panic _ _ _) λ u e2 p. cc

  exchange-known :
      (slave : ℕ) (req resp : List ℕ) (s t : C)
      → send_and_receive (rtu_transport port) slave req s ≡ (ok resp, t)
      → get_or resp 0 0 ≢ 0x11
  unfolding send_and_receive
  exchange-known slave req resp s t h =
      let (u, e1, r1) = bind-ok (send port slave req) _ s t resp h in
      let (received, e2, r2) = bind-ok (receive port) _ _ t resp r1 in
      let (v, e3, r3) = bind-ok (check (received.0 != slave) _) _ _ t resp r2 in
      let (w, e4, r4) =
        bind-ok (check (ltb 0 (length received.1) && bit_and (get_or received.1 0 0) 0x80 != 0) _) _
          _ t resp r3 in
      let same : received.1 ≡ resp = ok_inverse received.1 resp (ap (λ x. x.0) r4) in
      rw (← same) (receive-known received.0 received.1 _ _ e2)

  identity-ne-ok :
      (id : ℕ) (s t : C) (resp : List ℕ)
      → read_raw_device_identity (rtu_transport port) id s ≢ (ok resp, t)
  unfolding read_raw_device_identity
  identity-ne-ok id s t resp h =
      let (pdu, sent, rest) =
        bind-ok (send_and_receive (rtu_transport port) (u8 id) (build_request_pdu 0x11 [])) _ s t
          resp h in
      let (passed, same) = raw_checked _ _ pdu resp _ t rest in
      exchange-known (u8 id) (build_request_pdu 0x11 []) pdu s _ sent (ground (arith, passed))

  -- A request for the identity of a slave fails.
  identity-fails :
      (id : ℕ) (s : C)
      → (e : Error) × (t : C) × (read_raw_device_identity (rtu_transport port) id s ≡ (err e, t))
  identity-fails id s =
      let r = read_raw_device_identity (rtu_transport port) id s in
      let (e, h) =
        must_fail r.0 (identity-ne-panic id s)
          (λ resp k. identity-ne-ok id s r.1 resp (λ i. (k i, r.1))) in
      (e, r.1, λ i. (h i, r.1))

  scan_loop-empty :
      (callback : Option (ℕ → List ℕ → C → C)) (n id : ℕ) (s : C)
      → (t : C) × (scan_loop (rtu_transport port) callback id n s ≡ (ok [], t))
  unfolding scan_loop ◌>>=◌
  scan_loop-empty callback zero id s = (s, refl)
  scan_loop-empty callback (suc n) id s =
      let (e, t, g) = identity-fails id s in
      let (u, rest) = scan_loop-empty callback n (id + 1) t in (u, rw (g, rest) refl)

  -- A scan over a serial port never finds a slave, whatever slaves there are and whatever they answer: it
  -- goes over the range without an error and returns no address, since `Receive` refuses every frame
  -- with the code of an identity. A read returns as many bytes as it was asked for or an error, and
  -- the port does not panic.
  pub scan_slaves_rtu :
      (start_id end_id : ℕ) (callback : Option (ℕ → List ℕ → C → C)) (s : C)
      → 1 ≤ start_id
      → start_id ≤ end_id
      → end_id ≤ 247
      → (t : C) × (scan_slaves (rtu_transport port) start_id end_id callback s ≡ (ok [], t))
  unfolding scan_slaves ◌>>=◌ check
  scan_slaves_rtu start_id end_id callback s low order high =
      let valid : (ltb start_id 1 || (ltb 247 end_id || ltb end_id start_id)) ≡ false =
        ground arith in
      rw valid (scan_loop-empty callback (end_id + 1 - start_id) start_id s)
