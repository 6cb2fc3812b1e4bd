-- ===== src/Rtu/Corruption.antt =====
-- A frame that was damaged in two neighbouring bytes is not decoded.
use gomodbus.Prelude.{ℕ, ◌+◌, ◌≡◌, ◌≢◌, ◌⊎◌, inl, inr, refl, sym, ap, ◌∙◌, arith}
use gomodbus.Prelude.{
  List, [], ◌∷◌, ◌++◌, length, All, All-append, All-append_left, All-append_right, u8, ◌>>>◌,
}
use gomodbus.Prelude.{IsByte}
use gomodbus.Go.{Outcome, ok}
use gomodbus.Pdu.{Pdu}
use mathlib.Core.Path.{subst}
use gomodbus.Bits.Xor.{xor_self, xor-zero}
use gomodbus.Crc.{reset, push_byte, push_bytes, value}
use gomodbus.Crc.Table.{crc_low_bytes, crc_high_bytes}
use gomodbus.Crc.Equivalence.{reset-IsCrc, push_bytes-IsCrc, value-eq-remainder}
use gomodbus.Crc.Detection.{push_bytes-append, checksum-ne_of_burst}
use gomodbus.Rtu.{decode, real_length}
use gomodbus.Rtu.Frame.{covered}
use gomodbus.Rtu.Cut.{empty_of_length}
use gomodbus.Rtu.RoundTrip.{sum_bytes, size_counted, frame_size}
use gomodbus.Rtu.Sound.{IsFrameOf, decode-IsFrameOf}

push_byte-zero :
    (h l : ℕ) → push_byte (record { high = h; low = l }) l ≡ record { high = 0; low = h }
unfolding push_byte crc_low_bytes crc_high_bytes
push_byte-zero h l = rw (xor_self l, xor-zero h) refl

-- The two checksum bytes bring the remainder to zero.
residue :
    (body : List ℕ)
    → All IsByte body
    → push_bytes reset (body ++ sum_bytes body) ≡ record { high = 0; low = 0 }
unfolding push_bytes
residue body h =
    let c = push_bytes reset body in
    let (high, low) = push_bytes-IsCrc body reset reset-IsCrc h in
    let e = value-eq-remainder c (high, low) in
    let first : u8 (value c) ≡ c.low = rw e (omega (arith, low)) in
    let second : u8 (value c >>> 8) ≡ c.high = rw e (omega (arith, high, low)) in
    push_bytes-append body (sum_bytes body) reset
    ∙ rw (first, second)
        (ap (λ d. push_byte d c.high) (push_byte-zero c.high c.low) ∙ push_byte-zero 0 c.high)

ok-injective : (a b : ℕ) → ◌≡◌ {A = Outcome ℕ} (ok a) (ok b) → a ≡ b
ok-injective a b e = cc

-- A frame that is read to its end has nothing behind it.
no_junk :
    {adu : List ℕ} {pdu : Pdu}
    → real_length adu ≡ ok (length adu)
    → (f : IsFrameOf pdu adu) → f.junk ≡ []
no_junk {adu} {pdu} h f = elim f.extent [
  | inl (big, none_left) ↦ none_left
  | inr (low, (rest, e)) ↦
      let counted : ok (length adu) ≡ ok (length pdu.payload + 4) =
        sym h
        ∙ ap real_length f.frame
        ∙ size_counted f.slave pdu.function_code pdu.payload rest _ _ f.junk low e in
      empty_of_length f.junk
        (omega (arith, ok-injective _ _ counted, ap length f.frame, frame_size f.slave pdu f.junk))
]

-- A frame of bytes in which two neighbouring bytes were damaged, of which at least one has changed,
-- is not decoded to any data unit, if its real length is still the number of bytes received. The two
-- stand anywhere in the frame, in its body, in its checksum or one in each, and the damaged ones are
-- bytes as well.
pub decode-ne-ok_of_burst :
    (body before : List ℕ) (x y x' y' : ℕ) (after : List ℕ) (pdu : Pdu)
    → body ++ sum_bytes body ≡ before ++ (x ∷ y ∷ after)
    → All IsByte body
    → IsByte x' × IsByte y'
    → (x ≢ x') ⊎ (y ≢ y')
    → real_length (before ++ (x' ∷ y' ∷ after)) ≡ ok (length (before ++ (x' ∷ y' ∷ after)))
    → decode (before ++ (x' ∷ y' ∷ after)) ≢ ok pdu
decode-ne-ok_of_burst body before x y x' y' after pdu e bytes damaged differ sized decoded =
    checksum-ne_of_burst before x y x' y' after front ((rest.0, rest.1.0), damaged) rest.1.1 differ
      same_sums
  where
    sum_bytes-IsByte : (bs : List ℕ) → All IsByte (sum_bytes bs)
    sum_bytes-IsByte bs = (omega arith, (omega arith, tt))

    sent_bytes : All IsByte (before ++ (x ∷ y ∷ after))
    sent_bytes = subst (All IsByte) e (All-append IsByte body _ bytes (sum_bytes-IsByte body))

    front : All IsByte before
    front = All-append_left IsByte before _ sent_bytes

    rest : All IsByte (x ∷ y ∷ after)
    rest = All-append_right IsByte before _ sent_bytes

    received_bytes : All IsByte (before ++ (x' ∷ y' ∷ after))
    received_bytes = All-append IsByte before _ front (damaged.0, (damaged.1, rest.1.1))

    frame : IsFrameOf pdu (before ++ (x' ∷ y' ∷ after))
    frame = decode-IsFrameOf _ pdu received_bytes decoded

    covered_bytes : List ℕ
    covered_bytes = covered frame.slave pdu

    whole : before ++ (x' ∷ y' ∷ after) ≡ covered_bytes ++ sum_bytes covered_bytes
    whole =
        frame.frame
        ∙ ap (λ t. covered_bytes ++ (sum_bytes covered_bytes ++ t)) (no_junk sized frame)

    received_residue : push_bytes reset (before ++ (x' ∷ y' ∷ after)) ≡ record { high = 0; low = 0 }
    received_residue =
        ap (push_bytes reset) whole
        ∙ residue covered_bytes
            (All-append_left IsByte covered_bytes _ (subst (All IsByte) whole received_bytes))

    same_sums :
        value (push_bytes reset (before ++ (x ∷ y ∷ after)))
        ≡ value (push_bytes reset (before ++ (x' ∷ y' ∷ after)))
    same_sums =
        ap value (ap (push_bytes reset) (sym e) ∙ (residue body bytes ∙ sym received_residue))
