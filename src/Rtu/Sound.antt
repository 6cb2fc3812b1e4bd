-- ===== src/Rtu/Sound.antt =====
-- Whatever `Decode` accepts is a frame with a correct checksum.
use gomodbus.Prelude.{ℕ, ◌+◌, ◌≤◌, ◌<◌, ◌≡◌, ◌⊎◌, inl, inr, refl, sym, ap, ◌∙◌, arith}
use gomodbus.Prelude.{
  List, [], ◌∷◌, ◌++◌, get_or, drop, length, length-append, All, All-append_right, IsByte,
}
use gomodbus.Prelude.{u8, ◌>>>◌}
use native.Mathlib.Decide.{dec_le}
use gomodbus.Go.{Outcome, ok, err, panic, ◌>>=◌}
use gomodbus.Go.Word.{join_bytes}
use gomodbus.Pdu.{Pdu}
use gomodbus.Crc.{reset, push_bytes, value}
use gomodbus.Rtu.{decode, decode_frame, real_length}
use gomodbus.Rtu.Size.{Sized, short, other, read, real_length-Sized}
use gomodbus.Rtu.Frame.{covered, checked}
use gomodbus.Rtu.Cut.{
  IsCut, IsCut-of_size, decode_frame-cut, Sized-bounds, decode_frame_short, empty_of_length,
}
use gomodbus.Rtu.RoundTrip.{sum_bytes, IsCounted}

-- `adu` begins with the frame of `pdu` for some slave; what is left over is read only as far as
-- the function code allows.
pub record IsFrameOf (pdu : Pdu) (adu : List ℕ) : Type 0 where
  pub slave : ℕ
  pub junk : List ℕ
  pub frame : adu ≡ covered slave pdu ++ (sum_bytes (covered slave pdu) ++ junk)
  pub extent : ((5 ≤ pdu.function_code) × (junk ≡ [])) ⊎ ((pdu.function_code ≤ 4) × IsCounted pdu)

-- Checksum bytes that pass the comparison are those of the covered bytes.
checked-sum :
    (lo hi slave : ℕ) (pdu got : Pdu)
    → lo < 256
    → hi < 256
    → checked lo hi slave pdu ≡ ok got
    → (pdu ≡ got)
      × (lo ≡ u8 (value (push_bytes reset (covered slave pdu))))
      × (hi ≡ u8 (value (push_bytes reset (covered slave pdu)) >>> 8))
checked-sum lo hi slave pdu got hl hh e =
    (ground arith, ground (arith, join_bytes hi lo hh hl), ground (arith, join_bytes hi lo hh hl))

counted_payload :
    (n : ℕ) (xs payload tail : List ℕ)
    → n ∷ xs ≡ payload ++ tail
    → length payload ≡ n + 1
    → (rest : List ℕ) × (payload ≡ length rest ∷ rest)
counted_payload n xs [] tail e h = absurd (omega arith)
counted_payload n xs (m ∷ rest) tail e h = (rest, ap (λ t. t ∷ rest) head)
  where
    head : m ≡ length rest
    head = ground arith

-- What `decode_frame` accepts carries the sum of its bytes.
module _ (adu : List ℕ) (size : ℕ) (pdu : Pdu) (c : IsCut adu size) (bytes : All IsByte adu)
    (accepted : decode_frame adu size ≡ ok pdu) where
  tail_bytes : All IsByte (c.low ∷ c.high ∷ c.junk)
  tail_bytes =
      All-append_right IsByte (covered c.slave c.pdu) (c.low ∷ c.high ∷ c.junk)
        (rw c.parts at bytes)

  same :
      (c.pdu ≡ pdu)
      × (c.low ≡ u8 (value (push_bytes reset (covered c.slave c.pdu))))
      × (c.high ≡ u8 (value (push_bytes reset (covered c.slave c.pdu)) >>> 8))
  same =
      checked-sum c.low c.high c.slave c.pdu pdu tail_bytes.0 tail_bytes.1.0
        (sym (decode_frame-cut c) ∙ accepted)

  cut_frame : adu ≡ covered c.slave pdu ++ (sum_bytes (covered c.slave pdu) ++ c.junk)
  cut_frame =
      c.parts
      ∙ rw (same.1, same.2) refl
      ∙ ap (λ t. covered c.slave t ++ (sum_bytes (covered c.slave t) ++ c.junk)) same.0

  cut_size : size ≡ length pdu.payload + 4
  cut_size = c.size_lem ∙ ap (λ (t : Pdu). length t.payload + 4) same.0

  cut_length : length adu ≡ size + length c.junk
  cut_length =
      ap length cut_frame
      ∙ rw
          (
            cut_size,
            length-append (covered c.slave pdu),
            length-append (sum_bytes (covered c.slave pdu)),
          )
          (omega arith)

  framed_size : 4 ≤ length adu → Sized adu size → IsFrameOf pdu adu
  framed_size h (short few e) = absurd (omega arith)
  framed_size h (other s f xs p big e) = record {
    slave = c.slave;
    junk = c.junk;
    frame = cut_frame;
    extent = inl (
      omega (arith, ap (λ (t : List ℕ). get_or t 1 0) (sym p ∙ cut_frame)),
      empty_of_length c.junk (omega (arith, cut_length, ap length p)),
    );
  }
  framed_size h (read s f n xs p low fits e) = record {
    slave = c.slave;
    junk = c.junk;
    frame = cut_frame;
    extent = inr (
      omega (arith, ap (λ (t : List ℕ). get_or t 1 0) (sym p ∙ cut_frame)),
      counted_payload n xs pdu.payload (sum_bytes (covered c.slave pdu) ++ c.junk)
          (ap (drop 2) (sym p ∙ cut_frame)) (omega (arith, cut_size)),
    );
  }

small_size : (adu : List ℕ) (size : ℕ) → length adu ≤ 3 → Sized adu size → size ≡ length adu
small_size adu size h (short few e) = e
small_size adu size h (other s f xs p big e) = omega (arith, ap length p)
small_size adu size h (read s f n xs p low fits e) = absurd (omega (arith, ap length p))

sound_at :
    (adu : List ℕ) (size : Outcome ℕ) (pdu : Pdu)
    → All IsByte adu
    → real_length adu ≡ size
    → (size >>= decode_frame adu) ≡ ok pdu
    → IsFrameOf pdu adu
sound_at adu (ok size) pdu bytes e d =
    let sized = real_length-Sized adu size e in
    elim (dec_le 4 (length adu)) [
      | yes h ↦
          let (lo, hi) = Sized-bounds adu size h sized in
          framed_size adu size pdu (IsCut-of_size adu size lo hi) bytes d h sized
      | no h ↦
          let few : length adu ≤ 3 = omega arith in
          absurd (decode_frame_short adu pdu few (rw (small_size adu size few sized) at d))
    ]
sound_at adu (err x) pdu bytes e d = absurd (ground arith)
sound_at adu panic pdu bytes e d = absurd (ground arith)

-- Whatever bytes `Decode` accepts are the frame of the data unit that it returns: the address and
-- the unit followed by their checksum, with nothing behind it for the codes from 5, and with a
-- correct byte count in the unit for the codes up to 4.
pub decode-IsFrameOf :
    (adu : List ℕ) (pdu : Pdu) → All IsByte adu → decode adu ≡ ok pdu → IsFrameOf pdu adu
unfolding decode
decode-IsFrameOf adu pdu bytes e = sound_at adu (real_length adu) pdu bytes refl e
