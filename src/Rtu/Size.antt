-- ===== src/Rtu/Size.antt =====
-- The real length of a frame, for the two kinds of function code.
use gomodbus.Prelude.{ℕ, ◌+◌, ◌≤◌, ◌≡◌, inl, inr, arith, List, [], ◌∷◌, length}
use gomodbus.Prelude.{refl, Bool-cases, ltb}
use gomodbus.Go.{ok}
use gomodbus.Rtu.{real_length}

pub real_length_other :
    (s f : ℕ) (xs : List ℕ) → 5 ≤ f → real_length (s ∷ f ∷ xs) ≡ ok (length xs + 2)
unfolding real_length
real_length_other s f xs h = ground arith

pub real_length_read :
    (s f n : ℕ) (xs : List ℕ)
    → f ≤ 4
    → n + 2 ≤ length xs
    → real_length (s ∷ f ∷ n ∷ xs) ≡ ok (n + 5)
unfolding real_length
real_length_read s f n xs h k = ground arith

-- How `real_length` came to its result.
pub data Sized (adu : List ℕ) (size : ℕ) : Type 0 where
  short : length adu ≤ 1 → size ≡ length adu → Sized adu size
  other : (s f : ℕ) (xs : List ℕ) → adu ≡ s ∷ f ∷ xs → 5 ≤ f → size ≡ length xs + 2 → Sized adu size
  read :
      (s f n : ℕ) (xs : List ℕ)
      → adu ≡ s ∷ f ∷ n ∷ xs
      → f ≤ 4
      → n + 2 ≤ length xs
      → size ≡ n + 5
      → Sized adu size

pub real_length-Sized : (adu : List ℕ) (size : ℕ) → real_length adu ≡ ok size → Sized adu size
unfolding real_length
real_length-Sized [] size e = short (omega arith) (ground arith)
real_length-Sized (s ∷ []) size e = short (omega arith) (ground arith)
real_length-Sized (s ∷ f ∷ []) size e = elim (Bool-cases (ltb f 5)) [
  | inl r ↦ absurd (ground arith)
  | inr o ↦ other s f [] refl (ground arith) (ground arith)
]
real_length-Sized (s ∷ f ∷ n ∷ xs) size e = elim (Bool-cases (ltb f 5)) [
  | inl r ↦ read s f n xs refl (ground arith) (ground arith) (ground arith)
  | inr o ↦ other s f (n ∷ xs) refl (ground arith) (ground arith)
]
