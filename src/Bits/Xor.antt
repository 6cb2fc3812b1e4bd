-- ===== src/Bits/Xor.antt =====
-- Exclusive or: a commutative group of exponent two, and its action on the fields of a number.
use gomodbus.Prelude.{
  ℕ, zero, suc, ◌+◌, ◌*◌, ◌/◌, ◌%◌, ◌^◌, ◌≤◌, ◌<◌, ◌≡◌, refl, sym, ap, ◌∙◌, arith,
}
use gomodbus.Prelude.{bit_xor}
use gomodbus.Bits.Step.{bit_xor_step}
use Prim.Native.Nat.{bit_xor-bitwise}
use native.Mathlib.Nat.{pow-suc}

-- Each law is proved for numbers below a bound, which a halving lowers.
comm_below : (n a b : ℕ) → a + b ≤ n → bit_xor a b ≡ bit_xor b a
comm_below zero zero zero h = refl
comm_below zero (suc a) b h = absurd (omega arith)
comm_below zero zero (suc b) h = absurd (omega arith)
comm_below (suc n) zero zero h = refl
comm_below (suc n) (suc a) b h = omega (
  arith,
  bit_xor_step (suc a) b,
  bit_xor_step b (suc a),
  comm_below n (suc a / 2) (b / 2) (omega arith),
)
comm_below (suc n) zero (suc b) h = omega (
  arith,
  bit_xor_step zero (suc b),
  bit_xor_step (suc b) zero,
  comm_below n zero (suc b / 2) (omega arith),
)

pub xor_comm : (a b : ℕ) → bit_xor a b ≡ bit_xor b a
xor_comm a b = comm_below (a + b) a b (omega arith)

self_below : (n a : ℕ) → a ≤ n → bit_xor a a ≡ 0
self_below n zero h = refl
self_below zero (suc a) h = absurd (omega arith)
self_below (suc n) (suc a) h =
    omega (arith, bit_xor_step (suc a) (suc a), self_below n (suc a / 2) (omega arith))

pub xor_self : (a : ℕ) → bit_xor a a ≡ 0
xor_self a = self_below a a (omega arith)

pub zero-xor : (a : ℕ) → bit_xor 0 a ≡ a
zero-xor a = bit_xor-bitwise 0 a

pub xor-zero : (a : ℕ) → bit_xor a 0 ≡ a
xor-zero a = xor_comm a 0 ∙ zero-xor a

pub xor_half : (a b : ℕ) → bit_xor a b / 2 ≡ bit_xor (a / 2) (b / 2)
xor_half a b = omega (arith, bit_xor_step a b)

pub xor_parity : (a b : ℕ) → bit_xor a b % 2 ≡ (a + b) % 2
xor_parity a b = omega (arith, bit_xor_step a b)

-- Two numbers with the same half and the same parity are equal.
eq_of_half : (a b : ℕ) → a / 2 ≡ b / 2 → a % 2 ≡ b % 2 → a ≡ b
eq_of_half a b p q = omega arith

assoc_parity : (a b c : ℕ) → bit_xor (bit_xor a b) c % 2 ≡ bit_xor a (bit_xor b c) % 2
assoc_parity a b c =
    omega (
      arith,
      xor_parity (bit_xor a b) c,
      xor_parity a b,
      xor_parity a (bit_xor b c),
      xor_parity b c,
    )

assoc_half :
    (a b c : ℕ)
    → bit_xor (bit_xor (a / 2) (b / 2)) (c / 2) ≡ bit_xor (a / 2) (bit_xor (b / 2) (c / 2))
    → bit_xor (bit_xor a b) c / 2 ≡ bit_xor a (bit_xor b c) / 2
assoc_half a b c h =
    rw (xor_half (bit_xor a b) c, xor_half a b, xor_half a (bit_xor b c), xor_half b c) h

assoc_below : (n a b c : ℕ) → a ≤ n → bit_xor (bit_xor a b) c ≡ bit_xor a (bit_xor b c)
assoc_below n zero b c h = rw (zero-xor b, zero-xor (bit_xor b c))
assoc_below zero (suc a) b c h = absurd (omega arith)
assoc_below (suc n) (suc a) b c h =
    eq_of_half _ _
      (assoc_half (suc a) b c (assoc_below n (suc a / 2) (b / 2) (c / 2) (omega arith)))
      (assoc_parity (suc a) b c)

pub xor_assoc : (a b c : ℕ) → bit_xor (bit_xor a b) c ≡ bit_xor a (bit_xor b c)
xor_assoc a b c = assoc_below a a b c (omega arith)

-- A second exclusive or by the same number undoes the first.
pub xor_undo : (a b : ℕ) → bit_xor (bit_xor a b) b ≡ a
xor_undo a b = xor_assoc a b b ∙ ap (bit_xor a) (xor_self b) ∙ xor-zero a

pub xor_undo_left : (a b : ℕ) → bit_xor a (bit_xor a b) ≡ b
xor_undo_left a b = xor_comm a (bit_xor a b) ∙ ap (λ t. bit_xor t a) (xor_comm a b) ∙ xor_undo b a

pub xor_cancel_left : (a b c : ℕ) → bit_xor a b ≡ bit_xor a c → b ≡ c
xor_cancel_left a b c h = sym (xor_undo_left a b) ∙ ap (bit_xor a) h ∙ xor_undo_left a c

mul-two-pow : (p k : ℕ) → p * 2 ^ suc k ≡ 2 * (p * 2 ^ k)
mul-two-pow p k = omega (arith, ap (λ (t : ℕ). p * t) (pow-suc 2 k))

pub xor-lt : (k a b : ℕ) → a < 2 ^ k → b < 2 ^ k → bit_xor a b < 2 ^ k
xor-lt zero zero zero ha hb = omega arith
xor-lt zero zero (suc b) ha hb = absurd (omega arith)
xor-lt zero (suc a) b ha hb = absurd (omega arith)
xor-lt (suc k) a b ha hb = omega (
  arith,
  pow-suc 2 k,
  bit_xor_step a b,
  xor-lt k (a / 2) (b / 2) (omega (arith, pow-suc 2 k)) (omega (arith, pow-suc 2 k)),
)

-- The fields above and below bit `k` do not mix.
pub xor_fields :
    (k p q r s : ℕ)
    → r < 2 ^ k
    → s < 2 ^ k
    → bit_xor (p * 2 ^ k + r) (q * 2 ^ k + s) ≡ bit_xor p q * 2 ^ k + bit_xor r s
xor_fields zero p q r s hr hs =
    let r0 : r ≡ 0 = omega arith in
    let s0 : s ≡ 0 = omega arith in
    let p1 : p * 2 ^ 0 + r ≡ p = omega arith in
    let q1 : q * 2 ^ 0 + s ≡ q = omega arith in rw (p1, q1) (omega (arith, xor-lt 0 r s hr hs))
xor_fields (suc k) p q r s hr hs = ground (
  arith,
  bit_xor_step (p * 2 ^ suc k + r) (q * 2 ^ suc k + s),
  bit_xor_step r s,
  mul-two-pow p k,
  mul-two-pow q k,
  mul-two-pow (bit_xor p q) k,
  pow-suc 2 k,
  xor_fields k p q (r / 2) (s / 2),
)

-- The same, where one side has only a low byte.
pub xor_low_byte : (h l b : ℕ) → l < 256 → b < 256 → bit_xor (h * 256 + l) b ≡ h * 256 + bit_xor l b
xor_low_byte h l b hl hb = ground (arith, xor_fields 8 h 0 l b hl hb, xor-zero h)

pub xor_high_byte : (h b : ℕ) → b < 256 → bit_xor (h * 256) b ≡ h * 256 + b
xor_high_byte h b hb = ground (arith, xor_fields 8 h 0 0 b (omega arith) hb, xor-zero h, zero-xor b)
