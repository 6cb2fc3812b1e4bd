-- ===== src/Crc/Equivalence.antt =====
-- The table-driven remainder and the bit-by-bit remainder agree.
use gomodbus.Prelude.{
  ℕ, zero, suc, ◌+◌, ◌*◌, ◌/◌, ◌%◌, ◌^◌, ◌<◌, ◌≡◌, refl, sym, ap, ap₂, ◌∙◌, arith,
}
use gomodbus.Prelude.{List, [], ◌∷◌, All, IsByte, IsWord, get_or, bit_and, bit_xor}
use gomodbus.Prelude.{equal_below, equal_at, holds_below, holds_at, ltb, ltb→lt, inl, inr, ◌⊎◌}
use gomodbus.Crc.{Crc, reset, push_byte, push_bytes, value}
use gomodbus.Bits.Xor.{
  xor_comm, xor_assoc, xor-zero, xor_half, xor_parity, xor_low_byte, xor_high_byte, xor-lt,
}
use gomodbus.Bits.Mask.{and-one, and_low, or_fields}
use native.Mathlib.Nat.{pow-suc}
use gomodbus.Crc.Table.{crc_high_bytes, crc_low_bytes}
use gomodbus.Crc.BitLoop.{shift_once, shift_loop, crc16_loop, crc16}

-- The remainder as the 16-bit number that the bit loop keeps.
abbrev pub remainder : Crc → ℕ
remainder c = c.high * 256 + c.low

abbrev pub IsCrc : Crc → Type 0
IsCrc c = (c.high < 256) × (c.low < 256)

unfoldable pub high_at : ℕ → ℕ
high_at i = get_or crc_high_bytes i 0

unfoldable pub low_at : ℕ → ℕ
low_at i = get_or crc_low_bytes i 0

-- Entry `i` of the two tables is what eight rounds make of `i`.
pub entries : (i : ℕ) → i < 256 → shift_loop 8 i ≡ low_at i * 256 + high_at i
unfolding equal_below low_at high_at shift_loop shift_once crc_high_bytes crc_low_bytes
entries i h = equal_at (shift_loop 8) (λ i. low_at i * 256 + high_at i) 256 i refl h

pub high_at-IsByte : (i : ℕ) → i < 256 → IsByte (high_at i)
unfolding holds_below high_at crc_high_bytes
high_at-IsByte i h = ltb→lt _ 256 (holds_at (λ i. ltb (high_at i) 256) 256 i refl h)

pub low_at-IsByte : (i : ℕ) → i < 256 → IsByte (low_at i)
unfolding holds_below low_at crc_low_bytes
low_at-IsByte i h = ltb→lt _ 256 (holds_at (λ i. ltb (low_at i) 256) 256 i refl h)

parity : (a : ℕ) → (a % 2 ≡ 0) ⊎ (a % 2 ≡ 1)
parity a = omega arith

-- One round is linear: it adds the polynomial when the lowest bit falls out.
abbrev feedback : ℕ → ℕ
feedback a = (a % 2) * 0xa001

shift_once_lem : (a : ℕ) → shift_once a ≡ bit_xor (a / 2) (feedback a)
unfolding shift_once
shift_once_lem a = elim (parity a) [
  | inl even ↦ rw (and-one a, even) (sym (xor-zero (a / 2)))
  | inr odd ↦ rw (and-one a, odd) refl
]

feedback-xor : (a b : ℕ) → feedback (bit_xor a b) ≡ bit_xor (feedback a) (feedback b)
feedback-xor a b = rw (xor_parity a b) (elim (parity a) [
  | inl p ↦ elim (parity b) [
    | inl q ↦ let r : (a + b) % 2 ≡ 0 = omega arith in rw (p, q, r)
    | inr q ↦ let r : (a + b) % 2 ≡ 1 = omega arith in rw (p, q, r)
  ]
  | inr p ↦ elim (parity b) [
    | inl q ↦ let r : (a + b) % 2 ≡ 1 = omega arith in rw (p, q, r)
    | inr q ↦ let r : (a + b) % 2 ≡ 0 = omega arith in rw (p, q, r)
  ]
])

xor_middle :
    (a b c d : ℕ) → bit_xor (bit_xor a b) (bit_xor c d) ≡ bit_xor (bit_xor a c) (bit_xor b d)
xor_middle a b c d =
    xor_assoc a b (bit_xor c d)
    ∙ ap (bit_xor a)
        (sym (xor_assoc b c d) ∙ ap (λ t. bit_xor t d) (xor_comm b c) ∙ xor_assoc c b d)
    ∙ sym (xor_assoc a c (bit_xor b d))

shift_once-xor : (a b : ℕ) → shift_once (bit_xor a b) ≡ bit_xor (shift_once a) (shift_once b)
shift_once-xor a b =
    rw
      (
        shift_once_lem (bit_xor a b),
        shift_once_lem a,
        shift_once_lem b,
        xor_half a b,
        feedback-xor a b,
      )
      (xor_middle (a / 2) (b / 2) (feedback a) (feedback b))

shift_loop-xor :
    (n a b : ℕ) → shift_loop n (bit_xor a b) ≡ bit_xor (shift_loop n a) (shift_loop n b)
unfolding shift_loop
shift_loop-xor zero a b = refl
shift_loop-xor (suc n) a b =
    rw (shift_once-xor a b) (shift_loop-xor n (shift_once a) (shift_once b))

shift_once-double : (m : ℕ) → shift_once (2 * m) ≡ m
shift_once-double m =
    let half : 2 * m / 2 ≡ m = omega arith in
    let even : 2 * m % 2 ≡ 0 = omega arith in rw (shift_once_lem (2 * m), half, even) (xor-zero m)

shift_loop-pow : (n h : ℕ) → shift_loop n (h * 2 ^ n) ≡ h
unfolding shift_loop
shift_loop-pow zero h = omega arith
shift_loop-pow (suc n) h =
    let double : h * 2 ^ suc n ≡ 2 * (h * 2 ^ n) =
      omega (arith, ap (λ (t : ℕ). h * t) (pow-suc 2 n)) in
    rw (double, shift_once-double (h * 2 ^ n)) (shift_loop-pow n h)

-- A step of the table loop is eight rounds of the bit loop.
pub remainder-push_byte :
    (c : Crc) (b : ℕ)
    → IsCrc c
    → IsByte b
    → shift_loop 8 (bit_xor (remainder c) b) ≡ remainder (push_byte c b)
unfolding push_byte high_at low_at
remainder-push_byte c b (hh, hl) hb =
    let idx = bit_xor c.low b in
    let small : idx < 256 = xor-lt 8 c.low b hl hb in
    ap (shift_loop 8) (xor_low_byte c.high c.low b hl hb ∙ sym (xor_high_byte c.high idx small))
    ∙ shift_loop-xor 8 (c.high * 256) idx
    ∙ ap₂ bit_xor (shift_loop-pow 8 c.high) (entries idx small)
    ∙ xor_comm c.high (low_at idx * 256 + high_at idx)
    ∙ xor_low_byte (low_at idx) (high_at idx) c.high (high_at-IsByte idx small) hh
    ∙ ap (λ t. low_at idx * 256 + t) (xor_comm (high_at idx) c.high)

pub push_byte-IsCrc : (c : Crc) (b : ℕ) → IsCrc c → IsByte b → IsCrc (push_byte c b)
unfolding push_byte high_at low_at
push_byte-IsCrc c b (hh, hl) hb =
    let small = xor-lt 8 c.low b hl hb in
    (low_at-IsByte _ small, xor-lt 8 c.high _ hh (high_at-IsByte _ small))

pub push_bytes-IsCrc : (bs : List ℕ) (c : Crc) → IsCrc c → All IsByte bs → IsCrc (push_bytes c bs)
unfolding push_bytes
push_bytes-IsCrc [] c hc hb = hc
push_bytes-IsCrc (b ∷ bs) c hc hb =
    push_bytes-IsCrc bs (push_byte c b) (push_byte-IsCrc c b hc hb.0) hb.1

remainder-push_bytes :
    (bs : List ℕ) (c : Crc)
    → IsCrc c
    → All IsByte bs
    → crc16_loop (remainder c) bs ≡ remainder (push_bytes c bs)
unfolding crc16_loop push_bytes
remainder-push_bytes [] c hc hb = refl
remainder-push_bytes (b ∷ bs) c hc hb =
    rw (remainder-push_byte c b hc hb.0)
      (remainder-push_bytes bs (push_byte c b) (push_byte-IsCrc c b hc hb.0) hb.1)

pub value-eq-remainder : (c : Crc) → IsCrc c → value c ≡ remainder c
unfolding value
value-eq-remainder c (hh, hl) =
    let fits : c.high * 256 % 65536 ≡ c.high * 256 = omega arith in
    rw fits (or_fields 8 c.high c.low hl)

abbrev pub swap_bytes : ℕ → ℕ
swap_bytes w = w % 256 * 256 + w / 256

crc16-swap :
    (bs : List ℕ) → crc16_loop 0xffff bs < 65536 → crc16 bs ≡ swap_bytes (crc16_loop 0xffff bs)
unfolding crc16
crc16-swap bs h =
    let w = crc16_loop 0xffff bs in
    let low : bit_and w 0xff ≡ w % 256 = and_low 8 w in
    let high : bit_and (w / 256) 0xff ≡ w / 256 = omega (arith, and_low 8 (w / 256)) in
    let fits : w % 256 * 256 % 65536 ≡ w % 256 * 256 = omega arith in
    rw (low, high, fits) (or_fields 8 (w % 256) (w / 256) (omega arith))

pub reset-IsCrc : IsCrc reset
unfolding reset
reset-IsCrc = (omega arith, omega arith)

pub checksum-IsWord : (bs : List ℕ) → All IsByte bs → IsWord (value (push_bytes reset bs))
checksum-IsWord bs hb =
    let c = push_bytes-IsCrc bs reset reset-IsCrc hb in
    rw (value-eq-remainder (push_bytes reset bs) c) (remainder_bound _ c)
  where
    remainder_bound : (c : Crc) → IsCrc c → remainder c < 65536
    remainder_bound c (hh, hl) = omega arith

-- The bit loop ends in the value of the table-driven checksum.
pub crc16_loop-eq-value :
    (bs : List ℕ) → All IsByte bs → crc16_loop 0xffff bs ≡ value (push_bytes reset bs)
unfolding reset
crc16_loop-eq-value bs hb =
    remainder-push_bytes bs reset reset-IsCrc hb
    ∙ sym (value-eq-remainder _ (push_bytes-IsCrc bs reset reset-IsCrc hb))

-- `CRC16` is the value of the table-driven checksum with its two bytes exchanged.
pub crc16-eq-value :
    (bs : List ℕ) → All IsByte bs → crc16 bs ≡ swap_bytes (value (push_bytes reset bs))
crc16-eq-value bs hb =
    let word = crc16_loop-eq-value bs hb in
    crc16-swap bs (rw word (checksum-IsWord bs hb)) ∙ ap swap_bytes word
