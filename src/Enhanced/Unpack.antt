-- ===== src/Enhanced/Unpack.antt =====
-- enhancement-rtu_packager.go: which frames `Unpack` accepts.
use gomodbus.Prelude.{ℕ, suc, ◌+◌, ◌-◌, ◌*◌, ◌/◌, ◌%◌, ◌≡◌, ◌↔◌, refl, arith, false}
use gomodbus.Prelude.{
  List, [], ◌∷◌, ◌++◌, length, length-append, All, IsByte, u8, u16, ◌>>>◌, ◌<<<◌, bit_and, bit_or,
  ltb, ◌!=◌,
}
use gomodbus.Go.{Outcome, ok, Error, ◌>>◌, fail_if, index, slice}
use gomodbus.Go.Slice.{get_elem?-seam, get_elem?-after_seam, index-some, slice_middle}
use gomodbus.Go.Word.{join_bytes}
use gomodbus.Bits.Mask.{and_low}
use gomodbus.Crc.BitLoop.{crc16}
use gomodbus.Enhanced.{rtu_pack, rtu_unpack}
use gomodbus.Enhanced.Rtu.{crc16-IsWord}

-- What is left of `Unpack` when the parts of the frame are known.
abbrev checked : ℕ → ℕ → ℕ → List ℕ → Outcome (ℕ × List ℕ)
checked x y slave pdu =
    fail_if (bit_or (u16 (y <<< 8)) x != crc16 (slave ∷ pdu))
      (Error.checksum_mismatch (bit_or (u16 (y <<< 8)) x) (crc16 (slave ∷ pdu)))
    >> ok (slave, pdu)

unpack-split :
    (slave x y : ℕ) (pdu : List ℕ)
    → rtu_unpack ((slave ∷ pdu) ++ (x ∷ y ∷ [])) ≡ checked x y slave pdu
unfolding rtu_unpack
unpack-split slave x y pdu =
    let body = slave ∷ pdu in
    let whole = body ++ (x ∷ y ∷ []) in
    let size : length whole ≡ length pdu + 3 = omega (arith, length-append body (x ∷ y ∷ [])) in
    let long : ltb (length pdu + 3) 3 ≡ false = ground arith in
    let last_at : length pdu + 3 - 1 ≡ suc (length body) = omega arith in
    let before_at : length pdu + 3 - 2 ≡ length body = omega arith in
    let last : index whole (suc (length body)) ≡ ok y =
      index-some whole _ y (get_elem?-after_seam body x y []) in
    let before : index whole (length body) ≡ ok x =
      index-some whole _ x (get_elem?-seam body x (y ∷ [])) in
    let front : slice whole 0 (length body) ≡ ok body =
      slice_middle [] body (x ∷ y ∷ []) 0 _ refl (omega arith) in
    let unit : slice whole 1 (length body) ≡ ok pdu =
      slice_middle (slave ∷ []) pdu (x ∷ y ∷ []) 1 _ refl (omega arith) in
    rw (size, long, last_at, before_at, last, before, front, index-some whole 0 slave refl, unit)
      refl

checked_iff :
    (x y slave : ℕ) (pdu : List ℕ)
    → IsByte x
    → IsByte y
    → crc16 (slave ∷ pdu) ≡ x * 256 + y
    → (checked x y slave pdu ≡ ok (slave, pdu))
      ↔ (crc16 (slave ∷ pdu) / 256 ≡ crc16 (slave ∷ pdu) % 256)
checked_iff x y slave pdu hx hy e =
    (λ h. ground (arith, join_bytes y x hy hx), λ h. ground (arith, join_bytes y x hy hx))

-- `Unpack` accepts a frame of `Pack` exactly when the two bytes of its checksum are the same: it
-- reads them in the other order. The slave address and the unit are bytes.
pub rtu_unpack-rtu_pack_iff :
    (slave : ℕ) (pdu : List ℕ)
    → IsByte slave
    → All IsByte pdu
    → (rtu_unpack (rtu_pack slave pdu) ≡ ok (slave, pdu))
      ↔ (crc16 (slave ∷ pdu) / 256 ≡ crc16 (slave ∷ pdu) % 256)
unfolding rtu_pack
rtu_unpack-rtu_pack_iff slave pdu hs hp =
    let word = crc16-IsWord (slave ∷ pdu) (hs, hp) in
    rw
      (unpack-split slave (u8 (crc16 (slave ∷ pdu) >>> 8)) (bit_and (crc16 (slave ∷ pdu)) 0xff) pdu)
      (checked_iff _ _ slave pdu (omega arith) (omega (arith, and_low 8 (crc16 (slave ∷ pdu))))
        (omega (arith, and_low 8 (crc16 (slave ∷ pdu)))))
