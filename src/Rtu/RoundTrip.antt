-- ===== src/Rtu/RoundTrip.antt =====
-- `Decode` reads back what `Encode` wrote, and accepts nothing else.
use gomodbus.Prelude.{◌⊎◌, inl, inr, append-nil, sym, ap, ◌∙◌}
use gomodbus.Prelude.{ℕ, ◌+◌, ◌/◌, ◌≤◌, ◌≡◌, ap, ◌∙◌, arith}
use gomodbus.Prelude.{List, [], ◌∷◌, ◌++◌, append_assoc, length, length-append, All, IsByte, IsWord}
use gomodbus.Prelude.{bit_or, u8, u16, ◌<<<◌, ◌>>>◌, !=_refl}
use gomodbus.Go.{ok}
use gomodbus.Go.Word.{join_bytes}
use gomodbus.Pdu.{Pdu}
use gomodbus.Crc.{reset, push_bytes, value}
use gomodbus.Crc.Equivalence.{checksum-IsWord}
use gomodbus.Rtu.{RtuPackager, encode, decode, real_length}
use gomodbus.Rtu.Size.{real_length_other, real_length_read}
use gomodbus.Rtu.Frame.{covered, checked, decode_frame-split}

-- The bytes of an RTU frame are bytes.
pub record IsPdu (pdu : Pdu) : Type 0 where
  pub code : IsByte pdu.function_code
  pub bytes : All IsByte pdu.payload

-- The two checksum bytes of a frame.
abbrev pub sum_bytes : List ℕ → List ℕ
sum_bytes body =
    let checksum = value (push_bytes reset body) in u8 checksum ∷ u8 (checksum >>> 8) ∷ []

-- The payload says how long it is, as that of a response to a read does.
abbrev pub IsCounted : Pdu → Type 0
IsCounted pdu = (rest : List ℕ) × (pdu.payload ≡ length rest ∷ rest)

join_sum : (v : ℕ) → IsWord v → bit_or (u16 (u8 (v >>> 8) <<< 8)) (u8 v) ≡ v
join_sum v h = omega (arith, join_bytes (u8 (v / 256)) (u8 v) (omega arith) (omega arith))

pub checked_sum :
    (slave : ℕ) (pdu : Pdu)
    → IsByte slave
    → IsPdu pdu
    → let v = value (push_bytes reset (covered slave pdu)) in
      checked (u8 v) (u8 (v >>> 8)) slave pdu ≡ ok pdu
checked_sum slave pdu hs hp =
    let v = value (push_bytes reset (covered slave pdu)) in
    let word : IsWord v = checksum-IsWord (covered slave pdu) (hs, (hp.code, hp.bytes)) in
    rw (join_sum v word, !=_refl v)

-- A frame, and what stands behind it, as `decode_frame-split` cuts them.
frame_join :
    (slave : ℕ) (pdu : Pdu) (junk : List ℕ)
    → (covered slave pdu ++ sum_bytes (covered slave pdu)) ++ junk
      ≡ covered slave pdu ++ (sum_bytes (covered slave pdu) ++ junk)
frame_join slave pdu junk = append_assoc (covered slave pdu) (sum_bytes (covered slave pdu)) junk

decode_sized :
    (slave : ℕ) (pdu : Pdu) (junk : List ℕ)
    → IsByte slave
    → IsPdu pdu
    → real_length (covered slave pdu ++ (sum_bytes (covered slave pdu) ++ junk))
      ≡ ok (length pdu.payload + 4)
    → decode (covered slave pdu ++ (sum_bytes (covered slave pdu) ++ junk)) ≡ ok pdu
unfolding decode
decode_sized slave pdu junk hs hp e =
    rw e (decode_frame-split slave _ _ pdu junk ∙ checked_sum slave pdu hs hp)

-- The real length of such a frame, for the two kinds of function code.
size_other :
    (s f : ℕ) (xs : List ℕ) (lo hi : ℕ)
    → 5 ≤ f
    → real_length (s ∷ f ∷ (xs ++ (lo ∷ hi ∷ []))) ≡ ok (length xs + 4)
size_other s f xs lo hi h =
    real_length_other s f (xs ++ (lo ∷ hi ∷ [])) h
    ∙ ap ok (omega (arith, length-append xs (lo ∷ hi ∷ [])))

pub size_counted :
    (s f : ℕ) (xs rest : List ℕ) (lo hi : ℕ) (junk : List ℕ)
    → f ≤ 4
    → xs ≡ length rest ∷ rest
    → real_length (s ∷ f ∷ (xs ++ (lo ∷ hi ∷ junk))) ≡ ok (length xs + 4)
size_counted s f xs rest lo hi junk h e = rw (e) (
    real_length_read s f (length rest) (rest ++ (lo ∷ hi ∷ junk)) h
      (omega (arith, length-append rest (lo ∷ hi ∷ junk)))
    ∙ ap ok (omega arith))

-- `Encode` succeeds and `Decode` gives back the unit that it was given, when the slave address, the
-- function code and the payload are bytes, the payload has at most 252 of them, and the function
-- code is 5 or more.
decode-encode_other :
    (mb : RtuPackager) (pdu : Pdu)
    → IsByte mb.slave_id
    → IsPdu pdu
    → length pdu.payload ≤ 252
    → 5 ≤ pdu.function_code
    → (adu : List ℕ) × (encode mb pdu ≡ ok adu) × (decode adu ≡ ok pdu)
unfolding encode
decode-encode_other mb pdu hs hp small other = (
  covered mb.slave_id pdu ++ sum_bytes (covered mb.slave_id pdu),
  ground arith,
  decode_sized mb.slave_id pdu [] hs hp
      (size_other mb.slave_id pdu.function_code pdu.payload _ _ other),
)

-- For the codes up to 4, `Encode` succeeds and `Decode` gives back the unit whatever was received
-- behind the frame, when the address, the code and the payload are bytes, the payload has at most
-- 252 of them, and its first byte counts the others.
pub decode-encode_counted :
    (mb : RtuPackager) (pdu : Pdu) (junk : List ℕ)
    → IsByte mb.slave_id
    → IsPdu pdu
    → length pdu.payload ≤ 252
    → pdu.function_code ≤ 4
    → IsCounted pdu
    → (adu : List ℕ) × (encode mb pdu ≡ ok adu) × (decode (adu ++ junk) ≡ ok pdu)
unfolding encode
decode-encode_counted mb pdu junk hs hp small reads (rest, e) = (
  covered mb.slave_id pdu ++ sum_bytes (covered mb.slave_id pdu),
  ground arith,
  rw (frame_join mb.slave_id pdu junk) (
      decode_sized mb.slave_id pdu junk hs hp
        (size_counted mb.slave_id pdu.function_code pdu.payload rest _ _ junk reads e)),
)

-- `Encode` succeeds and `Decode` gives back the unit that it was given, when the slave address, the
-- function code and the payload are bytes, the payload has at most 252 of them, and the function
-- code is 5 or more, or it is at most 4 and the first byte of the payload counts the others.
pub decode-encode :
    (mb : RtuPackager) (pdu : Pdu)
    → IsByte mb.slave_id
    → IsPdu pdu
    → length pdu.payload ≤ 252
    → (5 ≤ pdu.function_code) ⊎ ((pdu.function_code ≤ 4) × IsCounted pdu)
    → (adu : List ℕ) × (encode mb pdu ≡ ok adu) × (decode adu ≡ ok pdu)
decode-encode mb pdu hs hp small (inl other) = decode-encode_other mb pdu hs hp small other
decode-encode mb pdu hs hp small (inr (reads, counted)) =
    let (adu, e, d) = decode-encode_counted mb pdu [] hs hp small reads counted in
    (adu, e, ap decode (sym (append-nil adu)) ∙ d)

pub frame_size :
    (slave : ℕ) (pdu : Pdu) (junk : List ℕ)
    → length (covered slave pdu ++ (sum_bytes (covered slave pdu) ++ junk))
      ≡ length pdu.payload + 4 + length junk
frame_size slave pdu junk =
    omega (arith, length-append (covered slave pdu) (sum_bytes (covered slave pdu) ++ junk))
