-- ===== src/Rtu/Cut.antt =====
-- Every list of four bytes or more is a frame with some checksum bytes; `decode_frame` on it.
use gomodbus.Prelude.{ℕ, ◌+◌, ◌-◌, ◌≤◌, ◌≡◌, ◌≢◌, refl, ap, ◌∙◌, arith}
use gomodbus.Prelude.{List, [], ◌∷◌, ◌++◌, length, length-append}
use gomodbus.Go.{ok, minus, slice, index}
use gomodbus.Go.Slice.{cut}
use gomodbus.Pdu.{Pdu}
use gomodbus.Rtu.{decode_frame}
use gomodbus.Rtu.Size.{Sized, short, other, read}
use gomodbus.Rtu.Frame.{covered, checked, decode_frame-split}

pub record IsCut (adu : List ℕ) (size : ℕ) : Type 0 where
  pub slave : ℕ
  pub pdu : Pdu
  pub low : ℕ
  pub high : ℕ
  pub junk : List ℕ
  pub parts : adu ≡ covered slave pdu ++ (low ∷ high ∷ junk)
  pub size_lem : size ≡ length pdu.payload + 4

at_least_two :
    (xs : List ℕ) → 2 ≤ length xs → (a : ℕ) × (b : ℕ) × (rest : List ℕ) × (xs ≡ a ∷ b ∷ rest)
at_least_two [] h = absurd (omega arith)
at_least_two (a ∷ []) h = absurd (omega arith)
at_least_two (a ∷ b ∷ rest) h = (a, b, rest, refl)

pub empty_of_length : (xs : List ℕ) → length xs ≡ 0 → xs ≡ []
empty_of_length [] h = refl
empty_of_length (x ∷ xs) h = absurd (omega arith)

join_parts :
    (slave code low high : ℕ) (middle : List ℕ) {adu before after none_left junk : List ℕ}
    → adu ≡ before ++ (middle ++ after)
    → before ≡ slave ∷ code ∷ none_left
    → none_left ≡ []
    → after ≡ low ∷ high ∷ junk
    → adu ≡ slave ∷ code ∷ (middle ++ (low ∷ high ∷ junk))
join_parts slave code low high middle e p r q = e ∙ rw (p, r, q) refl

pub IsCut-of_size : (adu : List ℕ) (size : ℕ) → 4 ≤ size → size ≤ length adu → IsCut adu size
IsCut-of_size adu size lo hi =
    let (before, middle, after, e, b, m) = cut adu 2 (size - 4) (omega arith) in
    let (slave, code, none_left, p) = at_least_two before (omega arith) in
    let (low, high, junk, q) = at_least_two after (
      omega
        (arith, ap length e, length-append before (middle ++ after), length-append middle after)) in
    let r = empty_of_length none_left (omega (arith, ap length p)) in
    record {
      slave = slave;
      pdu = record { function_code = code; payload = middle };
      low = low;
      high = high;
      junk = junk;
      parts = join_parts slave code low high middle e p r q;
      size_lem = omega arith;
    }

pub decode_frame-cut :
    {adu : List ℕ} {size : ℕ} (c : IsCut adu size)
    → decode_frame adu size ≡ checked c.low c.high c.slave c.pdu
decode_frame-cut c = rw (c.parts, c.size_lem) (decode_frame-split c.slave c.low c.high c.pdu c.junk)

pub Sized-bounds :
    (adu : List ℕ) (size : ℕ) → 4 ≤ length adu → Sized adu size → (4 ≤ size) × (size ≤ length adu)
Sized-bounds adu size h (short few e) = absurd (omega arith)
Sized-bounds adu size h (other s f xs p big e) =
    (omega (arith, ap length p), omega (arith, ap length p))
Sized-bounds adu size h (read s f n xs p low fits e) =
    (omega (arith, ap length p), omega (arith, ap length p))

-- Below four bytes nothing is decoded.
pub decode_frame_short :
    (adu : List ℕ) (pdu : Pdu) → length adu ≤ 3 → decode_frame adu (length adu) ≢ ok pdu
unfolding decode_frame minus slice index
decode_frame_short [] pdu h = λ e. cc
decode_frame_short (a ∷ []) pdu h = λ e. cc
decode_frame_short (a ∷ b ∷ []) pdu h = λ e. ground arith
decode_frame_short (a ∷ b ∷ c ∷ []) pdu h = λ e. ground arith
decode_frame_short (a ∷ b ∷ c ∷ d ∷ xs) pdu h = absurd (omega arith)
