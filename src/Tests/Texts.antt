-- ===== src/Tests/Texts.antt =====
-- ASCII frames, and ports that hand them over in parts.
use gomodbus.Prelude.{ℕ, ◌≡◌, refl, arith, List, [], ◌∷◌, ◌++◌, flat, some}
use gomodbus.Go.{Outcome, ok, err, Error}
use gomodbus.Pdu.{Pdu}
use gomodbus.Ascii.{AsciiPackager, lrc_of, encode, verify, decode}
use gomodbus.Ascii.Frame.{IsBytes, frame}
use gomodbus.Ascii.Transport.{Returns, send, send-Returns}
use gomodbus.Ascii.Delivery.{chunk_port}
use gomodbus.Ascii.Message.{send-encode}
use gomodbus.Ascii.Checked.{decode-changed}

abbrev packager : AsciiPackager
packager = record { slave_id = 17 }

abbrev unit : Pdu
unit = record { function_code = 3; payload = 2 ∷ 171 ∷ 205 ∷ [] }

abbrev other_unit : Pdu
other_unit = record { function_code = 3; payload = 2 ∷ 172 ∷ 205 ∷ [] }

unit-IsBytes : IsBytes 17 unit
unit-IsBytes = record {
  slave_byte = omega arith;
  function_byte = omega arith;
  payload_bytes = (omega arith, (omega arith, (omega arith, tt)));
}

other_unit-IsBytes : IsBytes 17 other_unit
other_unit-IsBytes = record {
  slave_byte = omega arith;
  function_byte = omega arith;
  payload_bytes = (omega arith, (omega arith, (omega arith, tt)));
}

-- The frame `:110302ABCD72` with its end, in three parts.
abbrev start : List ℕ
start = 58 ∷ 49 ∷ 49 ∷ 48 ∷ []

abbrev parts : List (List ℕ)
parts = (51 ∷ 48 ∷ 50 ∷ 65 ∷ 66 ∷ []) ∷ (67 ∷ 68 ∷ 55 ∷ 50 ∷ 13 ∷ 10 ∷ []) ∷ []

encode_run : encode packager unit ≡ ok (start ++ flat parts)
unfolding encode gomodbus.Ascii.write_hex gomodbus.Go.index gomodbus.Lrc.value
    gomodbus.Lrc.push_bytes gomodbus.Lrc.push_byte
encode_run = refl

verify_run : verify (58 ∷ 49 ∷ 49 ∷ []) (start ++ flat parts) ≡ ok tt
unfolding verify gomodbus.Go.slice gomodbus.Go.Text.same_string gomodbus.Go.minus
    gomodbus.Go.slice_from gomodbus.Ascii.read_hex gomodbus.Ascii.hex_decode gomodbus.Ascii.from_hex
    gomodbus.Go.index
verify_run = refl

send-encode_example :
    (send chunk_port
        (1 ∷ [])
        (record { incoming = start ∷ (parts ++ ((9 ∷ []) ∷ [])); outgoing = [] })
      ≡ some (ok (start ++ flat parts), record { incoming = (9 ∷ []) ∷ []; outgoing = 1 ∷ [] }))
    × (decode (start ++ flat parts) ≡ ok unit)
send-encode_example =
    send-encode packager unit (1 ∷ []) start parts ((9 ∷ []) ∷ []) [] unit-IsBytes (omega arith)
      encode_run (tt, (tt, (tt, tt)))

send-Returns_example :
    Returns (send chunk_port (1 ∷ []) (record { incoming = parts; outgoing = [] }))
send-Returns_example = send-Returns chunk_port (1 ∷ []) (record { incoming = parts; outgoing = [] })

decode-changed_example :
    decode (frame 17 3 (2 ∷ 172 ∷ 205 ∷ []) (lrc_of 17 unit))
    ≡ err (Error.checksum_mismatch (lrc_of 17 unit) (lrc_of 17 other_unit))
decode-changed_example =
    decode-changed 17 3 171 172 (2 ∷ []) (205 ∷ []) unit-IsBytes other_unit-IsBytes (omega arith)
      (omega arith) (λ p. omega (arith, p))
