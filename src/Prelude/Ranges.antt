-- ===== src/Prelude/Ranges.antt =====
-- A statement about every number below a bound, checked by evaluation.
use Prim.Native.Nat.{ℕ, zero, suc, ◌<◌}
use mathlib.Core.Path.{◌≡◌}
use mathlib.Core.Bool.{Bool, true, ◌&&◌}
use native.Mathlib.Omega.{arith}
use gomodbus.Prelude.Tests.{◌==◌, ==_iff}

unfoldable pub holds_below : (ℕ → Bool) → ℕ → Bool
holds_below p zero = true
holds_below p (suc n) = p n && holds_below p n

pub holds_at : (p : ℕ → Bool) (n i : ℕ) → holds_below p n ≡ true → i < n → p i ≡ true
unfolding holds_below
holds_at p zero i e h = absurd (omega arith)
holds_at p (suc n) i e h = ground (arith, holds_at p n i)

-- Two functions that a test finds equal below a bound.
unfoldable pub equal_below : (ℕ → ℕ) → (ℕ → ℕ) → ℕ → Bool
unfolding holds_below
equal_below f g n = holds_below (λ i. f i == g i) n

pub equal_at : (f g : ℕ → ℕ) (n i : ℕ) → equal_below f g n ≡ true → i < n → f i ≡ g i
unfolding equal_below
equal_at f g n i e h = (==_iff (f i) (g i)).0 (holds_at (λ i. f i == g i) n i e h)
