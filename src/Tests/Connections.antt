-- ===== src/Tests/Connections.antt =====
-- TCP frames, and the transporters over connections that deliver a few bytes.
use gomodbus.Prelude.{
  ℕ, ◌≤◌, ◌≡◌, ◌≢◌, refl, ap, arith, List, [], ◌∷◌, ◌++◌, length, length-take, take, leb, sym, ◌∙◌,
  Bool-cases, ◌⊎◌, inl, inr,
}
use gomodbus.Go.{Outcome, ok, err, panic, Error}
use gomodbus.Pdu.{Pdu}
use gomodbus.Client.Total.{Request, run}
use gomodbus.Tcp.{TcpPackager}
use gomodbus.Tcp
use gomodbus.Tcp.Transport.{IsConn, Stream, stream_conn, stream_read}
use gomodbus.Tcp.Frame.{framed, decode-encode_tcp, decode_sound}
use gomodbus.Tcp.Total.{tcp_link, run_tcp-ne-panic}

abbrev packager : TcpPackager
packager = record { transaction_id = 0xffff_ffff; slave_id = 17 }

abbrev answer : Pdu
answer = record { function_code = 3; payload = 2 ∷ 0x12 ∷ 0x34 ∷ [] }

abbrev answer_frame : List ℕ
answer_frame = framed 0 0 0 0 17 answer

decode-encode_tcp_example :
    (adu : List ℕ) × ((Tcp.encode answer packager).0 ≡ ok adu) × (Tcp.decode adu ≡ ok answer)
decode-encode_tcp_example = decode-encode_tcp packager answer (omega arith)

decode_sound_example :
    (a : ℕ) × (b : ℕ) × (c : ℕ) × (d : ℕ) × (slave : ℕ) × (answer_frame
      ≡ framed a b c d slave answer)
unfolding Tcp.decode gomodbus.Go.slice_from gomodbus.Go.uint16 gomodbus.Go.index
decode_sound_example = decode_sound answer_frame answer (ground arith) refl

read_cases :
    (n : ℕ) (s : Stream)
    → ((stream_read n s).0 ≡ err (Error.io_error n))
      ⊎ (((stream_read n s).0 ≡ ok (take n s.incoming)) × (n ≤ length s.incoming))
read_cases n s = elim (Bool-cases (leb n (length s.incoming))) [
  | inl e ↦ inr (rw e refl, ground arith)
  | inr e ↦ inl (rw e refl)
]

read-ne-panic : (n : ℕ) (s : Stream) → (stream_read n s).0 ≢ panic
read-ne-panic n s = elim (read_cases n s) [ inl e ↦ λ p. cc | inr (e, fits) ↦ λ p. cc ]

ok_inverse : (xs ys : List ℕ) → ◌≡◌ {A = Outcome (List ℕ)} (ok xs) (ok ys) → xs ≡ ys
ok_inverse xs ys e = cc

read_count :
    (n : ℕ) (s : Stream) (bytes : List ℕ) → (stream_read n s).0 ≡ ok bytes → length bytes ≡ n
read_count n s bytes h = elim (read_cases n s) [
  | inl e ↦ absurd (ok-ne-err (sym h ∙ e))
  | inr (e, fits) ↦
      ap length (ok_inverse bytes (take n s.incoming) (sym h ∙ e)) ∙ count n s.incoming fits
]
  where
    ok-ne-err : ◌≢◌ {A = Outcome (List ℕ)} (ok bytes) (err (Error.io_error n))
    ok-ne-err p = cc

    count : (n : ℕ) (xs : List ℕ) → n ≤ length xs → length (take n xs) ≡ n
    count n xs h = omega (arith, length-take n xs)

pub stream_laws : IsConn stream_conn
stream_laws = record {
  connect_total = λ s p. cc;
  set_deadline_total = λ s p. cc;
  write_total = λ bytes s p. cc;
  read_total = read-ne-panic;
  read_length = λ n s t bytes e. read_count n s bytes (ap (λ x. x.0) e);
}

abbrev stream : Stream
stream = record { incoming = answer_frame ++ (7 ∷ 7 ∷ []); outgoing = [] }

run_tcp-ne-panic_example :
    (run (tcp_link stream_conn) (Request.holding_registers 7 1) (packager, stream)).0 ≢ panic
run_tcp-ne-panic_example =
    run_tcp-ne-panic stream_conn stream_laws (Request.holding_registers 7 1) (packager, stream)

-- A request for one holding register, with its checksum.
abbrev request_frame : List ℕ
request_frame = 1 ∷ 3 ∷ 0 ∷ 7 ∷ 0 ∷ 1 ∷ 0x35 ∷ 0xcb ∷ []
