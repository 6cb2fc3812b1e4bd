-- ===== src/Go/Slice.antt =====
-- Reading a concatenation at its seam, and cutting a list there.
use gomodbus.Prelude.{ℕ, suc, ◌+◌, ◌-◌, ◌≤◌, ◌<◌, ◌≡◌, refl, arith, List, [], ◌∷◌, ◌++◌, length}
use gomodbus.Prelude.{
  some, get_elem?, take, drop, ap, sym, ◌∙◌, length-take, length-drop, take-append-drop,
  get_elem?_in, get_elem?_out, length-append, take-length, drop-length,
}
use gomodbus.Go.Defs.{ok, panic, minus, index, slice, slice_from}

module _ {ℓ} {A : Type ℓ} where
  pub get_elem?-seam :
      (xs : List A) (y : A) (ys : List A) → get_elem? (xs ++ (y ∷ ys)) (length xs) ≡ some y
  get_elem?-seam [] y ys = refl
  get_elem?-seam (x ∷ xs) y ys = get_elem?-seam xs y ys

  pub get_elem?-after_seam :
      (xs : List A) (y z : A) (ys : List A)
      → get_elem? (xs ++ (y ∷ z ∷ ys)) (suc (length xs)) ≡ some z
  get_elem?-after_seam [] y z ys = refl
  get_elem?-after_seam (x ∷ xs) y z ys = get_elem?-after_seam xs y z ys

pub index-some : (xs : List ℕ) (i x : ℕ) → get_elem? xs i ≡ some x → index xs i ≡ ok x
unfolding index
index-some xs i x e = rw (e, index)

pub index_in : (xs : List ℕ) (i : ℕ) → i < length xs → (x : ℕ) × (index xs i ≡ ok x)
index_in xs i h = let (x, e) = get_elem?_in xs i h in (x, index-some xs i x e)

pub index_out : (xs : List ℕ) (i : ℕ) → length xs ≤ i → index xs i ≡ panic
unfolding index
index_out xs i h = rw (get_elem?_out xs i h, index)

pub minus_le : (a b : ℕ) → b ≤ a → minus a b ≡ ok (a - b)
unfolding minus
minus_le a b h = ground arith

pub slice_in :
    (xs : List ℕ) (a b : ℕ) → a ≤ b → b ≤ length xs → slice xs a b ≡ ok (take (b - a) (drop a xs))
unfolding slice
slice_in xs a b h k = ground arith

pub slice_from_in : (xs : List ℕ) (a : ℕ) → a ≤ length xs → slice_from xs a ≡ ok (drop a xs)
unfolding slice_from
slice_from_in xs a h = ground arith

-- The part of a list between two others.
pub slice_middle :
    (xs ys zs : List ℕ) (a b : ℕ)
    → a ≡ length xs
    → b ≡ length xs + length ys
    → slice (xs ++ (ys ++ zs)) a b ≡ ok ys
slice_middle xs ys zs a b ha hb =
    slice_in (xs ++ (ys ++ zs)) a b (omega arith)
      (rw (length-append xs, length-append ys) (omega arith))
    ∙ ap ok (rw (ha, drop-length xs (ys ++ zs), count) (take-length ys zs))
  where
    count : b - length xs ≡ length ys
    count = omega arith

-- A list of `n + m` elements at least, cut after `n` and after `n + m`.
pub cut :
    (xs : List ℕ) (n m : ℕ)
    → n + m ≤ length xs
    → (before : List ℕ) × (middle : List ℕ) × (after : List ℕ) × (xs ≡ before ++ (middle ++ after))
      × (length before ≡ n)
      × (length middle ≡ m)
cut xs n m h = (
  take n xs,
  take m (drop n xs),
  drop m (drop n xs),
  sym (ap (λ t. take n xs ++ t) (take-append-drop m (drop n xs)) ∙ take-append-drop n xs),
  omega (arith, length-take n xs),
  omega (arith, length-take m (drop n xs), length-drop n xs),
)
