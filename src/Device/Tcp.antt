-- ===== src/Device/Tcp.antt =====
-- The client, the packager and the transporter of tcpclient.go, and a device behind a connection that
-- answers each frame with a frame of the same transaction and unit.
use gomodbus.Prelude.{
  ◌^◌, ◌≢◌, ℕ, ◌+◌, ◌/◌, ◌%◌, ◌≤◌, ◌≡◌, refl, sym, ap, ◌∙◌, arith, List, [], ◌∷◌, ◌++◌, append-nil,
  length, All, u8, u16,
}
use gomodbus.Go.{Outcome, ok, put_uint16, index, slice_from, uint16}
use gomodbus.Pdu.{Pdu}
use gomodbus.Client.Backend.{pure}
use gomodbus.Client.{send}
use gomodbus.Client.Sent.{Sent, Sent-send}
use gomodbus.Tcp.{TcpPackager, encode, verify, decode}
use gomodbus.Tcp.Frame.{framed}
use gomodbus.Tcp.Transport.{Conn, stream_read}
use gomodbus.Tcp.Delivery.{rest_read, send-arrived}
use gomodbus.Tcp.Total.{tcp_link}
use gomodbus.Device.{
  same_function, has_payload, length-response, Memory, Command, IsValid, response, command_pdu,
  IsServer, all_results, all_after,
}
use gomodbus.Device.Session.{Wire, run_commands, run_commands-Ran}

-- The device, and the bytes that it has sent.
pub record Peer (D : Type 0) : Type 0 where
  pub device : D
  pub incoming : List ℕ

module _ {D : Type 0} (answer : Pdu → D → Pdu × D) where
  abbrev pub deliver : List ℕ → Peer D → Peer D
  deliver (a ∷ b ∷ c ∷ d ∷ e ∷ f ∷ slave ∷ code ∷ xs) p =
      let r = answer (record { function_code = code; payload = xs }) p.device in
      record { device = r.1; incoming = p.incoming ++ framed a b c d slave r.0 }
  deliver _ p = p

  abbrev pub served : Conn (Peer D)
  served = record {
    connect = pure tt;
    set_deadline = pure tt;
    write = λ bytes p. (ok tt, deliver bytes p);
    read_full = λ n p.
        let r = stream_read n (record { incoming = p.incoming; outgoing = [] }) in
        (r.0, record p { incoming = r.1.incoming });
    flush = λ p. record p { incoming = [] };
  }

  served_read :
      (d : D) (xs later : List ℕ)
      → served.read_full (length xs) (record { device = d; incoming = xs ++ later })
        ≡ (ok xs, record { device = d; incoming = later })
  served_read d xs later =
      ap
        (λ (r : Outcome (List ℕ) × gomodbus.Tcp.Transport.Stream).
          (r.0, record { device = d; incoming = r.1.incoming }))
        (rest_read xs later [])

  abbrev pub IsWaiting : TcpPackager × Peer D → Type 0
  IsWaiting s = s.1.incoming ≡ []

  pub exchange-Sent :
      (request answered : Pdu) (pk : TcpPackager) (d d' : D)
      → answer request d ≡ (answered, d')
      → answered.function_code ≡ request.function_code
      → answered.payload ≢ []
      → length answered.payload ≤ 252
      → Sent
          (tcp_link served)
          request
          answered
          (pk, record { device = d; incoming = [] })
          ((encode request pk).1, record { device = d'; incoming = [] })
  unfolding encode verify decode index slice_from uint16
  exchange-Sent request answered pk d d' e same some_data small =
      let t = (pk.transaction_id + 1) % 2 ^ 32 in
      let a = u8 (u16 t / 256) in
      let b = u8 (u16 t) in
      let adu =
        put_uint16 (u16 t)
        ++ (put_uint16 0
            ++ (put_uint16 (u16 (1 + 1 + length request.payload))
                ++ (pk.slave_id ∷ request.function_code ∷ request.payload))) in
      let arrived : deliver adu (record { device = d; incoming = [] })
          ≡ record { device = d'; incoming = framed a b 0 0 pk.slave_id answered ++ [] } =
        rw (e, append-nil (framed a b 0 0 pk.slave_id answered)) refl in
      record {
        adu_request = adu;
        adu_response = framed a b 0 0 pk.slave_id answered;
        middle = ((encode request pk).1, record { device = d; incoming = [] });
        encoded = refl;
        transmitted =
            ap (λ (r : Outcome (List ℕ) × Peer D). (r.0, ((encode request pk).1, r.1)))
              (send-arrived served (λ xs. record { device = d'; incoming = xs }) (served_read d')
                adu [] a b 0 0 pk.slave_id answered (record { device = d; incoming = [] }) refl refl
                (ap (λ p. (ok tt, p)) arrived) small);
        verified = ground arith;
        decoded = ground arith;
        same_function = same;
        nonempty = some_data;
      }

  -- TCP delivers the requests to the device and its responses back.
  abbrev pub tcp_wire : Wire (tcp_link served) answer
  tcp_wire = record {
    device = λ s. s.1.device;
    IsReady = IsWaiting;
    exchange = λ c m s d h r e.
        let sent =
          exchange-Sent (command_pdu c) (response c m) s.0 s.1.device d e (same_function c m)
            (has_payload c m) (omega (arith, length-response c m h)) in
        let from : (s.0, record { device = s.1.device; incoming = [] }) ≡ s =
          λ i. (s.0, record { device = s.1.device; incoming = sym r i }) in
        (
          ((encode (command_pdu c) s.0).1, record { device = d; incoming = [] }),
          ap (send (tcp_link served) (command_pdu c)) (sym from)
              ∙ Sent-send (tcp_link served) (command_pdu c) (response c m) _ _ sent,
          refl,
          refl,
        );
  }

  module _ (memory : D → Memory) where
    -- Reads and writes of registers through the whole client over TCP are reads and writes of the
    -- registers of the device: any valid commands one after the other return what they return on its
    -- registers, leave the registers as they do there, and leave nothing behind in the connection.
    pub run_commands-refines_tcp :
        (cs : List Command) (s : TcpPackager × Peer D)
        → IsServer answer memory
        → All IsValid cs
        → s.1.incoming ≡ []
        → (t : TcpPackager × Peer D) × (run_commands (tcp_link served) cs s
            ≡ (ok (all_results cs (memory s.1.device)), t))
          × (t.1.incoming ≡ [])
          × (memory t.1.device ≡ all_after cs (memory s.1.device))
    run_commands-refines_tcp cs s server h r =
        let (t, ran) = run_commands-Ran (tcp_link served) answer memory tcp_wire cs s server h r in
        (t, ran.returned, ran.ready, ran.registers)
