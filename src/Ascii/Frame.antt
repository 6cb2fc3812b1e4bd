-- ===== src/Ascii/Frame.antt =====
-- What the ASCII packager writes, and that it reads it back.
use gomodbus.Prelude.{
  ℕ, ◌+◌, ◌*◌, ◌≡◌, refl, ap, ◌∙◌, arith, false, List, [], ◌∷◌, ◌++◌, length, length-append,
  drop-length,
}
use gomodbus.Prelude.{All, IsByte, ◌!=◌}
use gomodbus.Go.{ok, Error, ◌>>=◌, ◌>>◌, fail_if, minus, slice, slice_from}
use gomodbus.Go.Slice.{slice_middle, slice_from_in, minus_le}
use gomodbus.Pdu.{Pdu}
use gomodbus.Lrc.{value}
use gomodbus.Ascii.{AsciiPackager, lrc_of, encode, decode}
use gomodbus.Ascii.Hex.{hex_text, write_hex-text, hex_decode-text, read_hex-text, length-hex_text}

pub value-IsByte : (slave : ℕ) (pdu : Pdu) → IsByte (lrc_of slave pdu)
unfolding value
value-IsByte slave pdu = omega arith

-- The characters behind the data.
abbrev pub ending : ℕ → List ℕ
ending lrc = hex_text (lrc ∷ []) ++ (13 ∷ 10 ∷ [])

abbrev pub frame : ℕ → ℕ → List ℕ → ℕ → List ℕ
frame slave function payload lrc =
    58 ∷ (hex_text (slave ∷ function ∷ []) ++ (hex_text payload ++ ending lrc))

pub record IsBytes (slave : ℕ) (pdu : Pdu) : Type 0 where
  pub slave_byte : IsByte slave
  pub function_byte : IsByte pdu.function_code
  pub payload_bytes : All IsByte pdu.payload

pub encode-frame :
    (mb : AsciiPackager) (pdu : Pdu)
    → IsBytes mb.slave_id pdu
    → encode mb pdu ≡ ok (frame mb.slave_id pdu.function_code pdu.payload (lrc_of mb.slave_id pdu))
unfolding encode
encode-frame mb pdu h =
    rw
      (
        write_hex-text (mb.slave_id ∷ pdu.function_code ∷ []) (h.slave_byte, (h.function_byte, tt)),
        write_hex-text pdu.payload h.payload_bytes,
        write_hex-text (lrc_of mb.slave_id pdu ∷ []) (value-IsByte mb.slave_id pdu, tt),
      )
      refl

pub length-frame :
    (slave function : ℕ) (payload : List ℕ) (lrc : ℕ)
    → length (frame slave function payload lrc) ≡ 2 * length payload + 9
length-frame slave function payload lrc =
    omega (arith, length-append (hex_text payload) (ending lrc), length-hex_text payload)

-- Of a frame with any checksum, the fields are read and the checksum is compared.
pub decode-frame :
    (slave : ℕ) (pdu : Pdu) (lrc : ℕ)
    → IsBytes slave pdu
    → IsByte lrc
    → decode (frame slave pdu.function_code pdu.payload lrc) ≡ (
        fail_if (lrc != lrc_of slave pdu) (Error.checksum_mismatch lrc (lrc_of slave pdu))
        >> ok pdu)
unfolding decode
decode-frame slave pdu lrc h hl =
    let function = pdu.function_code in
    let text = hex_text pdu.payload in
    let adu = frame slave function pdu.payload lrc in
    let front = 58 ∷ hex_text (slave ∷ function ∷ []) in
    let size : length adu ≡ 2 * length pdu.payload + 9 =
      length-frame slave function pdu.payload lrc in
    let text_size : length text ≡ 2 * length pdu.payload = length-hex_text pdu.payload in
    let data_end = length (front ++ text) in
    let address_field = slice_from_in adu 1 (omega (arith, size)) in
    let function_field = slice_from_in adu 3 (omega (arith, size)) in
    let end_at : minus (length adu) 4 ≡ ok data_end =
      minus_le (length adu) 4 (omega (arith, size)) ∙ ap ok (omega (arith, size, text_size)) in
    let data_field : slice adu 5 data_end ≡ ok text =
      slice_middle front text (ending lrc) 5 data_end refl (length-append front text) in
    let lrc_field : slice_from adu data_end ≡ ok (ending lrc) =
      slice_from_in adu data_end (omega (arith, size, text_size))
      ∙ ap ok (drop-length (front ++ text) (ending lrc)) in
    rw
      (
        address_field,
        read_hex-text slave (hex_text (function ∷ []) ++ (text ++ ending lrc)) h.slave_byte,
        function_field,
        read_hex-text function (text ++ ending lrc) h.function_byte,
        end_at,
        data_field,
        hex_decode-text pdu.payload h.payload_bytes,
        lrc_field,
        read_hex-text lrc (13 ∷ 10 ∷ []) hl,
      )
      refl

-- `Decode` gives back the unit that `Encode` was given, of any length, when its parts and the slave
-- address are bytes.
pub decode-encode_ascii :
    (mb : AsciiPackager) (pdu : Pdu) → IsBytes mb.slave_id pdu → (encode mb pdu >>= decode) ≡ ok pdu
decode-encode_ascii mb pdu h =
    let lrc = lrc_of mb.slave_id pdu in
    let same : (lrc != lrc) ≡ false = ground arith in
    ap (λ o. o >>= decode) (encode-frame mb pdu h)
    ∙ decode-frame mb.slave_id pdu lrc h (value-IsByte mb.slave_id pdu)
    ∙ rw same refl
