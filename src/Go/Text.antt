-- ===== src/Go/Text.antt =====
-- Equality of strings.
use gomodbus.Prelude.{ℕ, ◌≡◌, refl, ap₂, Bool, true, false, arith, List, [], ◌∷◌, ◌==◌, ◌&&◌}

unfoldable pub same_string : List ℕ → List ℕ → Bool
same_string [] [] = true
same_string [] (y ∷ ys) = false
same_string (x ∷ xs) [] = false
same_string (x ∷ xs) (y ∷ ys) = x == y && same_string xs ys

pub same_string_refl : (xs : List ℕ) → same_string xs xs ≡ true
unfolding same_string
same_string_refl [] = refl
same_string_refl (x ∷ xs) = ground (arith, same_string_refl xs)

pub same_string-eq : (xs ys : List ℕ) → same_string xs ys ≡ true → xs ≡ ys
unfolding same_string
same_string-eq [] [] h = refl
same_string-eq [] (y ∷ ys) h = cc
same_string-eq (x ∷ xs) [] h = cc
same_string-eq (x ∷ xs) (y ∷ ys) h =
    ap₂ (λ a t. a ∷ t) (ground arith) (same_string-eq xs ys (ground arith))
