-- ===== src/Rtu/Frame.antt =====
-- An RTU frame in the terms of its parts, and `decode_frame` on a list that is cut into them.
use gomodbus.Prelude.{ℕ, suc, ◌+◌, ◌-◌, ◌≡◌, refl, arith, List, [], ◌∷◌, ◌++◌}
use gomodbus.Prelude.{length, bit_or, u16, ◌<<<◌, ◌!=◌, if◌then◌else◌}
use gomodbus.Go.{Outcome, ok, err, Error, index, slice}
use gomodbus.Go.Slice.{get_elem?-seam, get_elem?-after_seam, index-some, minus_le, slice_middle}
use gomodbus.Pdu.{Pdu}
use gomodbus.Crc.{reset, push_bytes, value}
use gomodbus.Rtu.{decode_frame}

-- What the checksum covers.
abbrev pub covered : ℕ → Pdu → List ℕ
covered slave pdu = slave ∷ pdu.function_code ∷ pdu.payload

-- The outcome of comparing the two checksum bytes of a frame.
abbrev pub checked : ℕ → ℕ → ℕ → Pdu → Outcome Pdu
checked lo hi slave pdu =
    let received = bit_or (u16 (hi <<< 8)) lo in
    let expected = value (push_bytes reset (covered slave pdu)) in
    if received != expected then err (Error.checksum_mismatch received expected) else ok pdu

module _ (slave lo hi : ℕ) (pdu : Pdu) (junk : List ℕ) where
  abbrev whole : List ℕ
  whole = covered slave pdu ++ (lo ∷ hi ∷ junk)

  body_part : slice whole 0 (length pdu.payload + 4 - 2) ≡ ok (covered slave pdu)
  body_part = slice_middle [] (covered slave pdu) (lo ∷ hi ∷ junk) 0 _ refl (omega arith)

  payload_part : slice whole 2 (length pdu.payload + 4 - 2) ≡ ok pdu.payload
  payload_part =
      slice_middle (slave ∷ pdu.function_code ∷ []) pdu.payload (lo ∷ hi ∷ junk) 2 _ refl
        (omega arith)

  low_part : index whole (length pdu.payload + 4 - 2) ≡ ok lo
  low_part =
      let at : length pdu.payload + 4 - 2 ≡ length (covered slave pdu) = omega arith in
      rw at (index-some whole _ lo (get_elem?-seam (covered slave pdu) lo (hi ∷ junk)))

  high_part : index whole (length pdu.payload + 4 - 1) ≡ ok hi
  high_part =
      let at : length pdu.payload + 4 - 1 ≡ suc (length (covered slave pdu)) = omega arith in
      rw at (index-some whole _ hi (get_elem?-after_seam (covered slave pdu) lo hi junk))

  -- `decode_frame` cuts a list of four bytes or more into these parts, and checks the sum.
  pub decode_frame-split : decode_frame whole (length pdu.payload + 4) ≡ checked lo hi slave pdu
  unfolding decode_frame
  decode_frame-split =
      rw
        (
          minus_le (length pdu.payload + 4) 2 (omega arith),
          body_part,
          high_part,
          low_part,
          index-some whole 1 pdu.function_code refl,
          payload_part,
        )
        ground arith
