-- ===== src/Go/Defs.antt =====
-- The errors, the results and the slice operations.
use gomodbus.Prelude.{ℕ, ◌+◌, ◌-◌, ◌*◌, ◌/◌, Bool, true, false, List, [], ◌∷◌}
use gomodbus.Prelude.{none, some, length, get_elem?, take, drop, leb, if◌then◌else◌, u8, ◌&&◌}

-- The errors of the package, one constructor for each message, with the values that it prints.
pub data Error : Type 0 where
  -- crc and lrc packagers
  data_too_long response_too_short odd_length length_below_min : ℕ → Error
  length_below_real checksum_mismatch slave_mismatch : ℕ → ℕ → Error
  bad_start bad_end bad_hex : Error
  -- TCP packager and transporter
  transaction_mismatch protocol_mismatch unit_mismatch length_mismatch : ℕ → ℕ → Error
  zero_length : Error
  length_too_large : ℕ → Error
  -- client
  quantity_out_of_range : ℕ → ℕ → ℕ → Error
  bad_state : ℕ → Error
  size_mismatch count_mismatch address_mismatch value_mismatch : ℕ → ℕ → Error
  and_mask_mismatch or_mask_mismatch size_below : ℕ → ℕ → Error
  fifo_too_long : ℕ → Error
  empty_data : Error
  modbus_error : ℕ → ℕ → Error
  bad_data_length no_mandatory_objects : Error
  bad_conformity : ℕ → Error
  -- handler
  unexpected_function unexpected_length : ℕ → ℕ → Error
  bad_scan_range : ℕ → ℕ → Error
  odd_register_bytes : ℕ → Error
  no_register : Error
  -- what the connection reports
  io_error : ℕ → Error

pub data Outcome {ℓ} (A : Type ℓ) : Type ℓ where
  ok : A → Outcome A
  err : Error → Outcome A
  panic : Outcome A

infixl 5 ◌>>=◌ ◌>>◌
abbrev pub ◌>>=◌ {ℓ κ} : {A : Type ℓ} {B : Type κ} → Outcome A → (A → Outcome B) → Outcome B
ok a >>= f = f a
err e >>= f = err e
panic >>= f = panic

abbrev pub ◌>>◌ {ℓ} : {B : Type ℓ} → Outcome (Unit {0}) → Outcome B → Outcome B
m >> k = m >>= λ _. k

-- `if b { err = e; return }`
abbrev pub fail_if : Bool → Error → Outcome (Unit {0})
fail_if true e = err e
fail_if false e = ok tt

-- `xs[i]`
unfoldable pub index : List ℕ → ℕ → Outcome ℕ
index xs i = elim (get_elem? xs i) [ none ↦ panic | some x ↦ ok x ]

-- `a - b` as an index, which must not be negative.
unfoldable pub minus : ℕ → ℕ → Outcome ℕ
minus a b = if leb b a then ok (a - b) else panic

-- `xs[a:b]`
unfoldable pub slice : List ℕ → ℕ → ℕ → Outcome (List ℕ)
slice xs a b = if leb a b && leb b (length xs) then ok (take (b - a) (drop a xs)) else panic

-- `xs[a:]`
unfoldable pub slice_from : List ℕ → ℕ → Outcome (List ℕ)
slice_from xs a = if leb a (length xs) then ok (drop a xs) else panic

-- `binary.BigEndian.Uint16(xs)`
unfoldable pub uint16 : List ℕ → Outcome ℕ
uint16 [] = panic
uint16 (x ∷ []) = panic
uint16 (x ∷ y ∷ xs) = ok (x * 256 + y)

-- The two bytes that `binary.BigEndian.PutUint16` writes.
abbrev pub put_uint16 : ℕ → List ℕ
put_uint16 v = u8 (v / 256) ∷ u8 v ∷ []
