-- ===== src/Device/Rtu.antt =====
-- The client, the packager and the transporter of rtuclient.go, and a device behind a serial line that
-- answers each frame with a frame of the same slave. What arrives is read in two parts, cut anywhere
-- behind the fourth byte.
use gomodbus.Prelude.{
  ◌⊎◌, ℕ, suc, ◌+◌, ◌-◌, ◌*◌, ◌≤◌, ◌≡◌, refl, sym, ap, ◌∙◌, arith, false, inl, inr, List, [], ◌∷◌,
  ◌++◌, append-nil, length, length-append, All, IsByte, ltb, ◌!=◌, take, drop, take-length,
  drop-length, take-append-drop, get_or, if◌then◌else◌,
}
use gomodbus.Go.{Outcome, ok, err, Error, index}
use gomodbus.Pdu.{Pdu}
use gomodbus.Client.Backend.{pure}
use gomodbus.Client.Payload.{data_block, data_block_suffix}
use gomodbus.Client.{send}
use gomodbus.Client.Sent.{Sent, Sent-send}
use gomodbus.Group.Values.{image, length-image}
use gomodbus.Rtu.{RtuPackager, encode, verify, decode}
use gomodbus.Rtu.Frame.{covered}
use gomodbus.Rtu.RoundTrip.{sum_bytes, IsPdu, decode-encode}
use gomodbus.Rtu.Total.{rtu_link}
use gomodbus.Rtu.Transport.{Port}
use gomodbus.Rtu.Delivery.{send-arrived, calculate_response_length-encode}
use gomodbus.Device.{
  response-IsByte, same_function, has_payload, length-response, Memory, Command, read, write,
  write_many, to_request, IsValid, response, command_pdu, IsServer, all_results, all_after,
}
use gomodbus.Device.Session.{Wire, run_commands, run_commands-Ran}

-- The device, and the bytes that it has sent.
pub record Line (D : Type 0) : Type 0 where
  pub device : D
  pub incoming : List ℕ

-- A frame by its parts.
abbrev pub rtu_frame : ℕ → Pdu → List ℕ
rtu_frame slave pdu = covered slave pdu ++ sum_bytes (covered slave pdu)

module _ {D : Type 0} (answer : Pdu → D → Pdu × D) (cut : ℕ) where
  abbrev pub deliver : List ℕ → Line D → Line D
  deliver (slave ∷ code ∷ xs) p =
      let r =
        answer (record { function_code = code; payload = take (length xs - 2) xs }) p.device in
      record { device = r.1; incoming = p.incoming ++ rtu_frame slave r.0 }
  deliver _ p = p

  abbrev pub line_port : Port (Line D)
  line_port = record {
    connect = pure tt;
    write = λ bytes p. (ok tt, deliver bytes p);
    delay = λ n. pure tt;
    read_at_least = λ limit n p.
        if ltb (length p.incoming) n
        then (err (Error.io_error n), record p { incoming = [] })
        else (ok (take (n + cut) p.incoming), record p { incoming = drop (n + cut) p.incoming });
    read_full = λ n p.
        if ltb (length p.incoming) n
        then (err (Error.io_error n), record p { incoming = [] })
        else (ok (take n p.incoming), record p { incoming = drop n p.incoming });
  }

  line_read :
      (d : D) (xs later : List ℕ)
      → line_port.read_full (length xs) (record { device = d; incoming = xs ++ later })
        ≡ (ok xs, record { device = d; incoming = later })
  line_read d xs later =
      let enough : ltb (length (xs ++ later)) (length xs) ≡ false =
        ground (arith, length-append xs later) in
      rw (enough, take-length xs later, drop-length xs later) refl

  -- A frame that has arrived is received whole, when it has the expected size.
  line-received :
      (adu : List ℕ) (d d' : D) (slave size : ℕ) (pdu : Pdu)
      → deliver adu (record { device = d; incoming = [] })
        ≡ record { device = d'; incoming = rtu_frame slave pdu }
      → index adu 1 ≡ ok pdu.function_code
      → gomodbus.Rtu.Length.calculate_response_length adu ≡ ok size
      → size ≡ length pdu.payload + 4
      → 1 ≤ length pdu.payload
      → length pdu.payload ≤ 252
      → gomodbus.Rtu.Transport.send line_port adu (record { device = d; incoming = [] })
        ≡ (ok (rtu_frame slave pdu), record { device = d'; incoming = [] })
  line-received adu d d' slave size pdu arrived i c e low high =
      let frame = rtu_frame slave pdu in
      let start = take (4 + cut) frame in
      let rest = drop (4 + cut) frame in
      let whole : start ++ rest ≡ frame = take-append-drop (4 + cut) frame in
      let total : length frame ≡ length pdu.payload + 4 =
        omega (arith, length-append (covered slave pdu) (sum_bytes (covered slave pdu))) in
      let enough : ltb (length frame) 4 ≡ false = ground (arith, total) in
      send-arrived line_port (λ xs. record { device = d'; incoming = xs }) (line_read d') adu start
        rest [] pdu.function_code size _ (record { device = d'; incoming = frame }) refl
        (ap (λ p. (ok tt, p)) arrived) (λ n. refl) (rw (enough, append-nil rest) refl) i c
        (omega arith) (omega arith) second
        (sym (length-append start rest) ∙ ap length whole ∙ omega (arith, total))
      ∙ ap (λ t. (ok t, record { device = d'; incoming = [] })) whole
    where
      second : get_or (take (4 + cut) (rtu_frame slave pdu)) 1 0 ≡ pdu.function_code
      second = head_at (2 + cut) (4 + cut) (omega arith)
        where
          head_at :
              (k n : ℕ)
              → n ≡ suc (suc k)
              → get_or (take n (rtu_frame slave pdu)) 1 0 ≡ pdu.function_code
          head_at k n e = rw e refl

encode-rtu_frame :
    (mb : RtuPackager) (pdu : Pdu)
    → length pdu.payload ≤ 252
    → encode mb pdu ≡ ok (rtu_frame mb.slave_id pdu)
unfolding encode
encode-rtu_frame mb pdu h = ground arith

same_frame : (xs ys : List ℕ) → ◌≡◌ {A = Outcome (List ℕ)} (ok xs) (ok ys) → xs ≡ ys
same_frame xs ys e = cc

-- The sizes that the two sides of an exchange expect.
length-command : (c : Command) → IsValid c → length (command_pdu c).payload ≤ 252
unfolding data_block data_block_suffix
length-command (read a q) h = omega arith
length-command (write a v) h = omega arith
length-command (write_many a vs) (low, high, fits, words) = omega (arith, length-data_block vs)
  where
    length-data_block : (vs : List ℕ) → length (data_block vs) ≡ 2 * length vs
    length-data_block [] = refl
    length-data_block (v ∷ vs) = omega (arith, length-data_block vs)

expected_size :
    (c : Command) (m : Memory) (mb : RtuPackager)
    → IsValid c
    → gomodbus.Rtu.Length.calculate_response_length (rtu_frame mb.slave_id (command_pdu c))
      ≡ ok (length (response c m).payload + 4)
unfolding data_block
expected_size (read a q) m mb (low, high, fits) =
    calculate_response_length-encode mb (to_request (read a q)) _ (low, high) tt
      (encode-rtu_frame mb (command_pdu (read a q)) (omega arith))
    ∙ ap ok (omega (arith, length-image m a q))
expected_size (write a v) m mb h =
    calculate_response_length-encode mb (to_request (write a v)) _ tt tt
      (encode-rtu_frame mb (command_pdu (write a v)) (omega arith))
expected_size (write_many a vs) m mb (low, high, fits, words) =
    calculate_response_length-encode mb (to_request (write_many a vs)) _ (low, high) tt
      (encode-rtu_frame mb (command_pdu (write_many a vs))
        (length-command (write_many a vs) (low, high, fits, words)))

decode-response :
    (c : Command) (m : Memory) (mb : RtuPackager)
    → IsByte mb.slave_id
    → IsValid c
    → decode (rtu_frame mb.slave_id (response c m)) ≡ ok (response c m)
decode-response c m mb hs h =
    let small : length (response c m).payload ≤ 252 = omega (arith, length-response c m h) in
    let bytes = response-IsByte c m h in
    let (adu, e, d) =
      decode-encode mb (response c m) hs (record { code = bytes.0; bytes = bytes.1 }) small
        (kind c h) in
    ap decode (same_frame _ _ (sym (encode-rtu_frame mb (response c m) small) ∙ e)) ∙ d
  where
    kind :
        (c : Command)
        → IsValid c
        → (5 ≤ (response c m).function_code)
          ⊎ (((response c m).function_code ≤ 4) × gomodbus.Rtu.RoundTrip.IsCounted (response c m))
    kind (read a q) h =
        inr (omega arith, (image m a q, ap (λ n. n ∷ image m a q) (sym (length-image m a q))))
    kind (write a v) h = inl (omega arith)
    kind (write_many a vs) h = inl (omega arith)

verify_frames :
    (slave : ℕ) (request answered : Pdu)
    → verify (rtu_frame slave request) (rtu_frame slave answered) ≡ ok tt
unfolding verify index
verify_frames slave request answered =
    let size : length (rtu_frame slave answered) ≡ length answered.payload + 4 =
      omega (arith, length-append (covered slave answered) (sum_bytes (covered slave answered))) in
    let long : ltb (length (rtu_frame slave answered)) 4 ≡ false = ground (arith, size) in
    let same : (slave != slave) ≡ false = ground arith in rw (long, same) refl

take-payload : (xs ys : List ℕ) → length ys ≡ 2 → take (length (xs ++ ys) - 2) (xs ++ ys) ≡ xs
take-payload xs ys h =
    let n : length (xs ++ ys) - 2 ≡ length xs = omega (arith, length-append xs ys) in
    rw n (take-length xs ys)

module _ {D : Type 0} (answer : Pdu → D → Pdu × D) (cut : ℕ) where
  pub exchange-Sent :
      (c : Command) (m : Memory) (mb : RtuPackager) (d d' : D)
      → IsByte mb.slave_id
      → IsValid c
      → answer (command_pdu c) d ≡ (response c m, d')
      → Sent
          (rtu_link (line_port answer cut))
          (command_pdu c)
          (response c m)
          (mb, record { device = d; incoming = [] })
          (mb, record { device = d'; incoming = [] })
  unfolding index data_block
  exchange-Sent c m mb d d' hs h e =
      let request = command_pdu c in
      let slave = mb.slave_id in
      let unit : take (length (request.payload ++ sum_bytes (covered slave request)) - 2)
            (request.payload ++ sum_bytes (covered slave request))
          ≡ request.payload =
        take-payload request.payload (sum_bytes (covered slave request)) refl in
      let arrived : deliver answer cut (rtu_frame slave request)
            (record { device = d; incoming = [] })
          ≡ record { device = d'; incoming = rtu_frame slave (response c m) } =
        rw (unit, e) refl in
      record {
        adu_request = rtu_frame slave request;
        adu_response = rtu_frame slave (response c m);
        middle = (mb, record { device = d; incoming = [] });
        encoded =
            ap (λ o. (o, (mb, record { device = d; incoming = [] })))
              (encode-rtu_frame mb request (length-command c h));
        transmitted =
            ap (λ (r : Outcome (List ℕ) × Line D). (r.0, (mb, r.1)))
              (line-received answer cut (rtu_frame slave request) d d' slave _ (response c m)
                arrived (ap ok (sym (same_function c m))) (expected_size c m mb h) refl
                (omega (arith, nonempty c m h)) (omega (arith, length-response c m h)));
        verified = verify_frames slave request (response c m);
        decoded = decode-response c m mb hs h;
        same_function = same_function c m;
        nonempty = has_payload c m;
      }
    where
      nonempty : (c : Command) (m : Memory) → IsValid c → 1 ≤ length (response c m).payload
      nonempty (read a q) m h = omega arith
      nonempty (write a v) m h = omega arith
      nonempty (write_many a vs) m h = omega arith

  -- RTU delivers the requests to the device and its responses back.
  abbrev pub rtu_wire : Wire (rtu_link (line_port answer cut)) answer
  rtu_wire = record {
    device = λ s. s.1.device;
    IsReady = λ s. (s.1.incoming ≡ []) × IsByte s.0.slave_id;
    exchange = λ c m s d h r e.
        let sent = exchange-Sent c m s.0 s.1.device d r.1 h e in
        let from : (s.0, record { device = s.1.device; incoming = [] }) ≡ s =
          λ i. (s.0, record { device = s.1.device; incoming = sym r.0 i }) in
        (
          (s.0, record { device = d; incoming = [] }),
          ap (send (rtu_link (line_port answer cut)) (command_pdu c)) (sym from)
              ∙ Sent-send (rtu_link (line_port answer cut)) (command_pdu c) (response c m) _ _ sent,
          (refl, r.1),
          refl,
        );
  }

  module _ (memory : D → Memory) where
    -- Reads and writes of registers through the whole client over RTU are reads and writes of the
    -- registers of the device, wherever its responses are cut into two reads behind their fourth
    -- byte: any valid commands one after the other return what they return on its registers, leave the
    -- registers as they do there, and leave nothing behind on the line. The slave address is a byte.
    pub run_commands-refines_rtu :
        (cs : List Command) (s : RtuPackager × Line D)
        → IsServer answer memory
        → All IsValid cs
        → s.1.incoming ≡ []
        → IsByte s.0.slave_id
        → (t : RtuPackager × Line D) × (run_commands (rtu_link (line_port answer cut)) cs s
            ≡ (ok (all_results cs (memory s.1.device)), t))
          × (t.1.incoming ≡ [])
          × (memory t.1.device ≡ all_after cs (memory s.1.device))
    run_commands-refines_rtu cs s server h r hs =
        let (t, ran) =
          run_commands-Ran (rtu_link (line_port answer cut)) answer memory rtu_wire cs s server h
            (r, hs) in
        (t, ran.returned, ran.ready.0, ran.registers)
