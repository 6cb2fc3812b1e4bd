-- ===== src/Tcp/Frame.antt =====
-- The fields of a TCP frame, which `Encode` writes and `Verify` and `Decode` read.
use gomodbus.Prelude.{ℕ, ◌+◌, ◌%◌, ◌≤◌, ◌≡◌, ◌↔◌, refl, arith}
use gomodbus.Prelude.{List, [], ◌∷◌, ◌++◌, length, All, IsByte}
use gomodbus.Go.{ok, put_uint16, index, slice_from, uint16}
use gomodbus.Pdu.{Pdu}
use gomodbus.Tcp.{TcpPackager, encode, verify, decode}

-- A frame by its fields: the transaction and the protocol, two bytes each, and what follows the
-- length.
abbrev pub framed : ℕ → ℕ → ℕ → ℕ → ℕ → Pdu → List ℕ
framed a b c d slave pdu =
    a
    ∷ b
    ∷ c
    ∷ d
    ∷ (put_uint16 (length pdu.payload + 2) ++ (slave ∷ pdu.function_code ∷ pdu.payload))

-- `Encode` succeeds and `Decode` gives back the unit that it was given, when the payload has at most
-- 65533 bytes, which is the length that the header can hold.
pub decode-encode_tcp :
    (mb : TcpPackager) (pdu : Pdu)
    → length pdu.payload ≤ 65533
    → (adu : List ℕ) × ((encode pdu mb).0 ≡ ok adu) × (decode adu ≡ ok pdu)
unfolding encode decode index slice_from uint16
decode-encode_tcp mb pdu h = (_, refl, ground arith)

-- `Verify` accepts a response of a device that sends with a transaction counter and a unit of its
-- own exactly when the units are the same and the counters agree in their low 16 bits.
pub verify-encode_iff :
    (mb device : TcpPackager) (request response : Pdu) (adu_request adu_response : List ℕ)
    → (encode request mb).0 ≡ ok adu_request
    → (encode response device).0 ≡ ok adu_response
    → (verify adu_request adu_response ≡ ok tt) ↔ (
        (device.transaction_id % 65536 ≡ mb.transaction_id % 65536)
        × (device.slave_id ≡ mb.slave_id))
unfolding encode verify index slice_from uint16
verify-encode_iff mb device request response adu_request adu_response e f =
    (λ v. ground arith, λ p. ground arith)

-- Whatever bytes `Decode` accepts are a frame of the unit that it returns, with the length in its header.
pub decode_sound :
    (adu : List ℕ) (pdu : Pdu)
    → All IsByte adu
    → decode adu ≡ ok pdu
    → (a : ℕ) × (b : ℕ) × (c : ℕ) × (d : ℕ) × (slave : ℕ) × (adu ≡ framed a b c d slave pdu)
unfolding decode index slice_from uint16
decode_sound (a ∷ b ∷ c ∷ d ∷ x ∷ y ∷ slave ∷ f ∷ xs) pdu h e = (a, b, c, d, slave, ground arith)
decode_sound [] pdu h e = absurd (ground arith)
decode_sound (a ∷ []) pdu h e = absurd (ground arith)
decode_sound (a ∷ b ∷ []) pdu h e = absurd (ground arith)
decode_sound (a ∷ b ∷ c ∷ []) pdu h e = absurd (ground arith)
decode_sound (a ∷ b ∷ c ∷ d ∷ []) pdu h e = absurd (ground arith)
decode_sound (a ∷ b ∷ c ∷ d ∷ x ∷ []) pdu h e = absurd (ground arith)
decode_sound (a ∷ b ∷ c ∷ d ∷ x ∷ y ∷ []) pdu h e = absurd (ground arith)
decode_sound (a ∷ b ∷ c ∷ d ∷ x ∷ y ∷ slave ∷ []) pdu h e = absurd (ground arith)
