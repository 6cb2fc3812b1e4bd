-- ===== src/Bits/Mask.antt =====
-- `|` of disjoint fields, `&` with a single bit, and `&` with a mask of low bits, as arithmetic.
use gomodbus.Prelude.{ℕ, zero, suc, ◌+◌, ◌-◌, ◌*◌, ◌/◌, ◌%◌, ◌^◌, ◌≤◌, ◌<◌, ◌≡◌, refl, ap, arith}
use gomodbus.Prelude.{bit_and, bit_or}
use gomodbus.Bits.Step.{bit_and_step, bit_or_step}
use gomodbus.Prelude.{◌∙◌}
use native.Mathlib.Nat.{pow-suc, one-le-pow, div-add-mod, mod-lt, mod-eq_of_lt}
use native.Mathlib.Nat.{mul-add-mod_self_left, div-div-eq-div-mul, mul_assoc, mul_left_comm}

or_zero_below : (n a : ℕ) → a ≤ n → bit_or a 0 ≡ a
or_zero_below n zero h = refl
or_zero_below zero (suc a) h = absurd (omega arith)
or_zero_below (suc n) (suc a) h =
    omega (arith, bit_or_step (suc a) 0, or_zero_below n (suc a / 2) (omega arith))

pub or-zero : (a : ℕ) → bit_or a 0 ≡ a
or-zero a = or_zero_below a a (omega arith)

and_zero_below : (n a : ℕ) → a ≤ n → bit_and a 0 ≡ 0
and_zero_below n zero h = refl
and_zero_below zero (suc a) h = absurd (omega arith)
and_zero_below (suc n) (suc a) h =
    omega (arith, bit_and_step (suc a) 0, and_zero_below n (suc a / 2) (omega arith))

pub and-zero : (a : ℕ) → bit_and a 0 ≡ 0
and-zero a = and_zero_below a a (omega arith)

-- `a & 1`.
pub and-one : (a : ℕ) → bit_and a 1 ≡ a % 2
and-one a = omega (arith, bit_and_step a 1, and-zero (a / 2))

double-pow : (a k : ℕ) → a * 2 ^ suc k ≡ a * 2 ^ k * 2
double-pow a k = omega (arith, ap (λ (t : ℕ). a * t) (pow-suc 2 k))

-- `(hi << k) | lo` is a sum when `lo` fits `k` bits.
pub or_fields : (k hi lo : ℕ) → lo < 2 ^ k → bit_or (hi * 2 ^ k) lo ≡ hi * 2 ^ k + lo
or_fields zero hi lo h =
    let none_low : lo ≡ 0 = omega arith in rw none_low (omega (arith, or-zero (hi * 2 ^ 0)))
or_fields (suc k) hi lo h =
    ground (
      arith,
      pow-suc 2 k,
      double-pow hi k,
      bit_or_step (hi * 2 ^ suc k) lo,
      or_fields k hi (lo / 2),
    )

halve_double : (m : ℕ) → 2 * m / 2 ≡ m
halve_double m = omega arith

mod-double : (m a : ℕ) → 0 < m → a % (2 * m) ≡ a / 2 % m * 2 + a % 2
mod-double m a h =
    let low = a / 2 % m * 2 + a % 2 in
    let split : a ≡ 2 * m * (a / 2 / m) + low =
      omega (arith, ap (λ (t : ℕ). 2 * t) (div-add-mod (a / 2) m)) in
    let small : low < 2 * m = omega (arith, mod-lt (a / 2) h) in
    ap (λ t. t % (2 * m)) split ∙ mul-add-mod_self_left (2 * m) (a / 2 / m) low ∙ mod-eq_of_lt small

-- `a & (1 << k)` is bit `k`, in its place.
pub and_bit : (k a : ℕ) → bit_and a (2 ^ k) ≡ a / 2 ^ k % 2 * 2 ^ k
and_bit zero a = omega (arith, and-one a)
and_bit (suc k) a =
    let exponent : 2 ^ suc k ≡ 2 * 2 ^ k = omega (arith, pow-suc 2 k) in
    rw (exponent, ← div-div-eq-div-mul a 2 (2 ^ k))
      (omega (
        arith,
        bit_and_step a (2 * 2 ^ k),
        halve_double (2 ^ k),
        ap (λ (t : ℕ). bit_and (a / 2) t) (halve_double (2 ^ k)),
        and_bit k (a / 2),
        mul_assoc (a / 2 / 2 ^ k % 2) 2 (2 ^ k),
        mul_left_comm (a / 2 / 2 ^ k % 2) 2 (2 ^ k),
      ))

-- `a & (2 ^ k - 1)` keeps the `k` low bits.
pub and_low : (k a : ℕ) → bit_and a (2 ^ k - 1) ≡ a % 2 ^ k
and_low zero a = omega (arith, and-zero a)
and_low (suc k) a =
    let exponent : 2 ^ suc k ≡ 2 * 2 ^ k = omega (arith, pow-suc 2 k) in
    let positive : 0 < 2 ^ k = one-le-pow k 2 (omega arith) in
    let half : (2 * 2 ^ k - 1) / 2 ≡ 2 ^ k - 1 = omega arith in
    rw (exponent, mod-double (2 ^ k) a positive)
      (omega (
        arith,
        bit_and_step a (2 * 2 ^ k - 1),
        ap (λ (t : ℕ). bit_and (a / 2) t) half,
        and_low k (a / 2),
      ))
