-- ===== src/Ascii/Message.antt =====
-- asciiclient.go: the loop of `Send` knows the end of a frame that the packager wrote.
use gomodbus.Prelude.{ℕ, ◌+◌, ◌-◌, ◌*◌, ◌%◌, ◌/◌, ◌≤◌, ◌≡◌, ◌≢◌, refl, sym, ap, ◌∙◌, arith, true}
use gomodbus.Prelude.{
  List, [], ◌∷◌, ◌++◌, append_assoc, flat, length, length-append, take, drop, take-append-drop,
  drop-length, All, All-append,
}
use gomodbus.Prelude.{some}
use mathlib.Core.Path.{subst}
use gomodbus.Go.{Outcome, ok, ◌>>=◌}
use gomodbus.Go.Text.{same_string, same_string-eq}
use gomodbus.Pdu.{Pdu}
use gomodbus.Ascii.{AsciiPackager, lrc_of, encode, decode}
use gomodbus.Ascii.Hex.{hex_digit, hex_text, length-hex_text}
use gomodbus.Ascii.Frame.{IsBytes, frame, encode-frame, decode-encode_ascii}
use gomodbus.Ascii.Transport.{is_ended, send}
use gomodbus.Ascii.Delivery.{chunk_port, IsMessage, IsFilled, send-whole}

-- Not the first of the two characters at the end.
abbrev IsInner : ℕ → Type 0
IsInner c = c ≢ 13

digit-IsInner : (n : ℕ) → IsInner (hex_digit n)
digit-IsInner n = ground arith

hex_text-IsInner : (vs : List ℕ) → All IsInner (hex_text vs)
hex_text-IsInner [] = tt
hex_text-IsInner (v ∷ vs) = (digit-IsInner (v / 16), (digit-IsInner (v % 16), hex_text-IsInner vs))

-- Nothing follows the first two end characters of a text.
end_unique :
    (front back body : List ℕ)
    → All IsInner body
    → front ++ (13 ∷ 10 ∷ back) ≡ body ++ (13 ∷ 10 ∷ [])
    → back ≡ []
end_unique [] back [] h e = cc
end_unique [] back (b ∷ body) (hb, h) e = absurd (hb cc)
end_unique (x ∷ front) back [] h e =
    absurd (omega (arith, ap length e, length-append front (13 ∷ 10 ∷ back)))
end_unique (x ∷ front) back (b ∷ body) (hb, h) e = end_unique front back body h cc

is_ended-split :
    (xs : List ℕ) → is_ended xs ≡ true → (front : List ℕ) × (xs ≡ front ++ (13 ∷ 10 ∷ []))
unfolding is_ended
is_ended-split xs e =
    let last = same_string-eq (drop (length xs - 2) xs) (13 ∷ 10 ∷ []) e in
    (
      take (length xs - 2) xs,
      sym (take-append-drop (length xs - 2) xs) ∙ ap (λ t. take (length xs - 2) xs ++ t) last,
    )

is_ended-append : (front : List ℕ) → is_ended (front ++ (13 ∷ 10 ∷ [])) ≡ true
unfolding is_ended same_string
is_ended-append front =
    let size : length (front ++ (13 ∷ 10 ∷ [])) - 2 ≡ length front =
      omega (arith, length-append front (13 ∷ 10 ∷ [])) in
    rw (size, drop-length front (13 ∷ 10 ∷ [])) refl

inner-IsMessage :
    (body : List ℕ)
    → All IsInner body
    → 2 ≤ length body
    → length body ≤ 511
    → IsMessage (body ++ (13 ∷ 10 ∷ []))
inner-IsMessage body h some_inner short = record {
  long = omega (arith, length-append body (13 ∷ 10 ∷ []));
  short = omega (arith, length-append body (13 ∷ 10 ∷ []));
  ended = is_ended-append body;
  early = λ front back e x.
      let (start, s) = is_ended-split front x in
      end_unique start back body h
        (sym (append_assoc start (13 ∷ 10 ∷ []) back) ∙ ap (λ t. t ++ back) (sym s) ∙ sym e);
}

abbrev inner : ℕ → ℕ → List ℕ → ℕ → List ℕ
inner slave function payload lrc =
    58 ∷ (hex_text (slave ∷ function ∷ []) ++ (hex_text payload ++ hex_text (lrc ∷ [])))

inner-frame :
    (slave function : ℕ) (payload : List ℕ) (lrc : ℕ)
    → inner slave function payload lrc ++ (13 ∷ 10 ∷ []) ≡ frame slave function payload lrc
inner-frame slave function payload lrc =
    ap (λ t. 58 ∷ (hex_text (slave ∷ function ∷ []) ++ t))
      (append_assoc (hex_text payload) (hex_text (lrc ∷ [])) (13 ∷ 10 ∷ []))

frame-IsMessage :
    (slave function : ℕ) (payload : List ℕ) (lrc : ℕ)
    → length payload ≤ 252
    → IsMessage (frame slave function payload lrc)
frame-IsMessage slave function payload lrc small =
    let size : length (inner slave function payload lrc) ≡ 2 * length payload + 7 =
      omega
        (arith, length-append (hex_text payload) (hex_text (lrc ∷ [])), length-hex_text payload) in
    subst IsMessage (inner-frame slave function payload lrc) (
      inner-IsMessage (inner slave function payload lrc)
        (
          λ p. cc,
          All-append IsInner (hex_text (slave ∷ function ∷ []))
              (hex_text payload ++ hex_text (lrc ∷ [])) (hex_text-IsInner (slave ∷ function ∷ []))
              (All-append IsInner (hex_text payload) (hex_text (lrc ∷ []))
                (hex_text-IsInner payload) (hex_text-IsInner (lrc ∷ []))),
        )
        (omega (arith, size)) (omega (arith, size)))

-- A device answers with a unit of at most 252 bytes of data, as the packager encodes it, and the port
-- hands the frame over in chunks that are not empty, cut anywhere: `Send` returns the whole frame,
-- has written the request and leaves what follows the frame, and `Decode` gives the unit. The parts of
-- the unit and the slave address are bytes.
pub send-encode :
    (mb : AsciiPackager) (pdu : Pdu) (adu_request : List ℕ) (c : List ℕ) (cs later : List (List ℕ))
    (out : List ℕ)
    → IsBytes mb.slave_id pdu
    → length pdu.payload ≤ 252
    → encode mb pdu ≡ ok (c ++ flat cs)
    → All IsFilled (c ∷ cs)
    → (send chunk_port adu_request (record { incoming = c ∷ (cs ++ later); outgoing = out })
        ≡ some (ok (c ++ flat cs), record { incoming = later; outgoing = out ++ adu_request }))
      × (decode (c ++ flat cs) ≡ ok pdu)
send-encode mb pdu adu_request c cs later out h small e hc =
    let lrc = lrc_of mb.slave_id pdu in
    let adu : frame mb.slave_id pdu.function_code pdu.payload lrc ≡ c ++ flat cs =
      same (sym (encode-frame mb pdu h) ∙ e) in
    (
      send-whole adu_request c cs later out
          (subst IsMessage adu
            (frame-IsMessage mb.slave_id pdu.function_code pdu.payload lrc small))
          hc,
      ap (λ o. o >>= decode) (sym e) ∙ decode-encode_ascii mb pdu h,
    )
  where
    same : {xs ys : List ℕ} → ◌≡◌ {A = Outcome (List ℕ)} (ok xs) (ok ys) → xs ≡ ys
    same p = cc
