-- ===== src/Register/Order.antt =====
-- The byte orders, on data of their width.
use gomodbus.Prelude.{
  ℕ, ◌≤◌, ◌<◌, ◌≡◌, ◌⊎◌, inl, inr, refl, ap, ◌∙◌, arith, List, [], ◌∷◌, length, take,
}
use native.Mathlib.Decide.{dec_le}
use gomodbus.Register.{
  DataOrder, order_a, order_ab, order_ba, order_abcd, order_dcba, order_badc, order_cdab,
  order_abcdefgh, order_hgfedcba, order_badcfehg, order_ghefcdab, other_order, reorder_bytes,
}

-- The number of bytes that an order is written for.
abbrev pub order_width : DataOrder → ℕ
order_width order_a = 1
order_width order_ab = 2
order_width order_ba = 2
order_width order_abcd = 4
order_width order_dcba = 4
order_width order_badc = 4
order_width order_cdab = 4
order_width order_abcdefgh = 8
order_width order_hgfedcba = 8
order_width order_badcfehg = 8
order_width order_ghefcdab = 8
order_width (other_order s) = 0

one : (xs : List ℕ) → 1 ≤ length xs → (x : ℕ) × (t : List ℕ) × (xs ≡ x ∷ t)
one [] h = absurd (omega arith)
one (x ∷ t) h = (x, t, refl)

two : (xs : List ℕ) → 2 ≤ length xs → (x : ℕ) × (y : ℕ) × (t : List ℕ) × (xs ≡ x ∷ y ∷ t)
two xs h =
    let (x, t, e) = one xs (omega arith) in
    let (y, u, f) = one t (omega (arith, ap length e)) in (x, y, u, e ∙ ap (λ r. x ∷ r) f)

four :
    (xs : List ℕ)
    → 4 ≤ length xs
    → (x : ℕ) × (y : ℕ) × (z : ℕ) × (w : ℕ) × (t : List ℕ) × (xs ≡ x ∷ y ∷ z ∷ w ∷ t)
four xs h =
    let (x, y, t, e) = two xs (omega arith) in
    let (z, w, u, f) = two t (omega (arith, ap length e)) in
    (x, y, z, w, u, e ∙ ap (λ r. x ∷ y ∷ r) f)

eight :
    (xs : List ℕ)
    → 8 ≤ length xs
    → (x : ℕ) × (y : ℕ) × (z : ℕ) × (w : ℕ) × (x' : ℕ) × (y' : ℕ) × (z' : ℕ) × (w' : ℕ) × (t : List
        ℕ)
      × (xs ≡ x ∷ y ∷ z ∷ w ∷ x' ∷ y' ∷ z' ∷ w' ∷ t)
eight xs h =
    let (x, y, z, w, t, e) = four xs (omega arith) in
    let (x', y', z', w', u, f) = four t (omega (arith, ap length e)) in
    (x, y, z, w, x', y', z', w', u, e ∙ ap (λ r. x ∷ y ∷ z ∷ w ∷ r) f)

-- Reordering twice by the same order gives back the first bytes, as many as the order is written
-- for: each order undoes itself. The order is a known one and the data is at least as wide.
pub reorder_bytes-reorder_bytes :
    (xs : List ℕ) (order : DataOrder)
    → 1 ≤ order_width order
    → order_width order ≤ length xs
    → reorder_bytes (reorder_bytes xs order) order ≡ take (order_width order) xs
unfolding reorder_bytes
reorder_bytes-reorder_bytes xs order_a h k = let (x, t, e) = one xs k in rw e (ground arith)
reorder_bytes-reorder_bytes xs order_ab h k = let (x, y, t, e) = two xs k in rw e (ground arith)
reorder_bytes-reorder_bytes xs order_ba h k = let (x, y, t, e) = two xs k in rw e (ground arith)
reorder_bytes-reorder_bytes xs order_abcd h k =
    let (x, y, z, w, t, e) = four xs k in rw e (ground arith)
reorder_bytes-reorder_bytes xs order_dcba h k =
    let (x, y, z, w, t, e) = four xs k in rw e (ground arith)
reorder_bytes-reorder_bytes xs order_badc h k =
    let (x, y, z, w, t, e) = four xs k in rw e (ground arith)
reorder_bytes-reorder_bytes xs order_cdab h k =
    let (x, y, z, w, t, e) = four xs k in rw e (ground arith)
reorder_bytes-reorder_bytes xs order_abcdefgh h k =
    let (x, y, z, w, x', y', z', w', t, e) = eight xs k in rw e (ground arith)
reorder_bytes-reorder_bytes xs order_hgfedcba h k =
    let (x, y, z, w, x', y', z', w', t, e) = eight xs k in rw e (ground arith)
reorder_bytes-reorder_bytes xs order_badcfehg h k =
    let (x, y, z, w, x', y', z', w', t, e) = eight xs k in rw e (ground arith)
reorder_bytes-reorder_bytes xs order_ghefcdab h k =
    let (x, y, z, w, x', y', z', w', t, e) = eight xs k in rw e (ground arith)
reorder_bytes-reorder_bytes xs (other_order s) h k = absurd (omega arith)

-- Data as wide as the order keeps its length, and wider data is cut; other data stays.
pub length-reorder_bytes :
    (xs : List ℕ) (order : DataOrder)
    → ((order_width order ≡ 0) × (reorder_bytes xs order ≡ xs))
      ⊎ ((length xs < order_width order) × (reorder_bytes xs order ≡ xs))
      ⊎ ((order_width order ≤ length xs) × (length (reorder_bytes xs order) ≡ order_width order))
unfolding reorder_bytes
length-reorder_bytes xs order_a = elim (dec_le 1 (length xs)) [
  | yes k ↦ let (x, t, e) = one xs k in inr (inr (k, rw e (ground arith)))
  | no k ↦ inr (inl (omega arith, ground arith))
]
length-reorder_bytes xs order_ab = elim (dec_le 2 (length xs)) [
  | yes k ↦ let (x, y, t, e) = two xs k in inr (inr (k, rw e (ground arith)))
  | no k ↦ inr (inl (omega arith, ground arith))
]
length-reorder_bytes xs order_ba = elim (dec_le 2 (length xs)) [
  | yes k ↦ let (x, y, t, e) = two xs k in inr (inr (k, rw e (ground arith)))
  | no k ↦ inr (inl (omega arith, ground arith))
]
length-reorder_bytes xs order_abcd = elim (dec_le 4 (length xs)) [
  | yes k ↦ let (x, y, z, w, t, e) = four xs k in inr (inr (k, rw e (ground arith)))
  | no k ↦ inr (inl (omega arith, ground arith))
]
length-reorder_bytes xs order_dcba = elim (dec_le 4 (length xs)) [
  | yes k ↦ let (x, y, z, w, t, e) = four xs k in inr (inr (k, rw e (ground arith)))
  | no k ↦ inr (inl (omega arith, ground arith))
]
length-reorder_bytes xs order_badc = elim (dec_le 4 (length xs)) [
  | yes k ↦ let (x, y, z, w, t, e) = four xs k in inr (inr (k, rw e (ground arith)))
  | no k ↦ inr (inl (omega arith, ground arith))
]
length-reorder_bytes xs order_cdab = elim (dec_le 4 (length xs)) [
  | yes k ↦ let (x, y, z, w, t, e) = four xs k in inr (inr (k, rw e (ground arith)))
  | no k ↦ inr (inl (omega arith, ground arith))
]
length-reorder_bytes xs order_abcdefgh = elim (dec_le 8 (length xs)) [
  | yes k ↦
      let (x, y, z, w, x', y', z', w', t, e) = eight xs k in inr (inr (k, rw e (ground arith)))
  | no k ↦ inr (inl (omega arith, ground arith))
]
length-reorder_bytes xs order_hgfedcba = elim (dec_le 8 (length xs)) [
  | yes k ↦
      let (x, y, z, w, x', y', z', w', t, e) = eight xs k in inr (inr (k, rw e (ground arith)))
  | no k ↦ inr (inl (omega arith, ground arith))
]
length-reorder_bytes xs order_badcfehg = elim (dec_le 8 (length xs)) [
  | yes k ↦
      let (x, y, z, w, x', y', z', w', t, e) = eight xs k in inr (inr (k, rw e (ground arith)))
  | no k ↦ inr (inl (omega arith, ground arith))
]
length-reorder_bytes xs order_ghefcdab = elim (dec_le 8 (length xs)) [
  | yes k ↦
      let (x, y, z, w, x', y', z', w', t, e) = eight xs k in inr (inr (k, rw e (ground arith)))
  | no k ↦ inr (inl (omega arith, ground arith))
]
length-reorder_bytes xs (other_order s) = inl (refl, refl)
