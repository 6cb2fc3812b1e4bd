-- ===== src/Register/Decode.antt =====
-- `DecodeValue`: when it succeeds, and that it reads back what was stored.
use gomodbus.Prelude.{ℕ, ◌-◌, ◌/◌, ◌^◌, ◌≤◌, ◌<◌, ◌≡◌, ◌↔◌, inl, inr, refl, ap, ◌∙◌, arith}
use gomodbus.Prelude.{
  List, [], ◌∷◌, length, take, ltb, u8, Bool, true, false, not, ◌&&◌, Option, none, ℤ, pos, negsuc,
  signed, unsigned, Bool-cases,
}
use gomodbus.Go.{Outcome, ok, index, ◌>>=◌}
use gomodbus.Register.{
  DataType, DataOrder, DeviceRegister, RegisterError, Floats, Value, DecodedValue, a_signed,
  big_endian, get_required_bytes, reorder_bytes, with_bytes, is_text, interpret, decode_checked,
  decode_value,
}
use gomodbus.Register.Order.{order_width, reorder_bytes-reorder_bytes, length-reorder_bytes}

-- The types that a value can be decoded as.
abbrev pub IsDecodable : DataType → Type 0
IsDecodable DataType.uint64 = ⊥
IsDecodable (DataType.other_type s) = ⊥
IsDecodable _ = Unit {0}

-- The four bytes of a word, the high one first.
abbrev pub put_uint32 : ℕ → List ℕ
put_uint32 v = u8 (v / 16777216) ∷ u8 (v / 65536) ∷ u8 (v / 256) ∷ u8 v ∷ []

-- The range of the integers of `w` bits.
abbrev pub IsSigned : ℕ → ℤ → Type 0
IsSigned w (pos n) = n < 2 ^ (w - 1)
IsSigned w (negsuc n) = n < 2 ^ (w - 1)

signed-unsigned : (z : ℤ) → IsSigned 32 z → signed 32 (unsigned 32 z) ≡ z
signed-unsigned (pos n) h = ground arith
signed-unsigned (negsuc n) h = ground arith

unsigned_lt : (z : ℤ) → IsSigned 32 z → unsigned 32 z < 2 ^ 32
unsigned_lt (pos n) h = omega arith
unsigned_lt (negsuc n) h = omega arith

big_endian-put_uint32 : (v : ℕ) → v < 2 ^ 32 → big_endian 0 (take 4 (put_uint32 v)) ≡ v
big_endian-put_uint32 v h = ground arith

module _ {F32 F64 : Type 0} (floats : Floats F32 F64) where
  -- A result without an error.
  abbrev pub Succeeds : Outcome (DecodedValue F32 F64 × Option RegisterError) → Type 0
  Succeeds (ok (d, none)) = Unit {0}
  Succeeds _ = ⊥

  abbrev pub Returns : Outcome (DecodedValue F32 F64 × Option RegisterError) → Type 0
  Returns (ok x) = Unit {0}
  Returns _ = ⊥

  with_bytes_iff :
      (n : ℕ) (xs : List ℕ) (v : Value F32 F64) (f : F64)
      → Succeeds (with_bytes floats n xs v f) ↔ (n ≤ length xs)
  with_bytes_iff n xs v f = elim (Bool-cases (ltb (length xs) n)) [
    | inl e ↦ rw e (λ h. absurd h, λ k. absurd (omega (arith, ltb_lt e)))
    | inr e ↦ rw e (λ h. long_enough e, λ k. tt)
  ]
    where
      ltb_lt : {a b : ℕ} → ltb a b ≡ true → a < b
      ltb_lt e = ground arith

      long_enough : {a b : ℕ} → ltb a b ≡ false → b ≤ a
      long_enough e = ground arith

  -- The first byte, where the source reads it without a test.
  first_iff :
      (xs : List ℕ) (v : ℕ → Value F32 F64) (f : ℕ → F64)
      → Succeeds
          (index xs 0 >>= λ x. ok (record { raw = xs; float64_value = f x; as_type = v x }, none))
        ↔ (1 ≤ length xs)
  unfolding index
  first_iff [] v f = (λ h. absurd h, λ k. absurd (omega arith))
  first_iff (x ∷ xs) v f = (λ h. omega arith, λ k. tt)

  with_unit : {A B : Type 0} → (A ↔ B) → A ↔ (Unit {0} × B)
  with_unit e = (λ a. (tt, e.0 a), λ b. e.1 b.1)

  interpret_iff :
      (r : DeviceRegister F64) (t : DataType) (xs : List ℕ)
      → Succeeds (interpret floats r t xs)
        ↔ (IsDecodable t × ((get_required_bytes t).0 ≤ length xs))
  unfolding interpret get_required_bytes
  interpret_iff r DataType.bitfield xs = with_unit (with_bytes_iff 2 xs _ _)
  interpret_iff r DataType.bool xs = with_unit (with_bytes_iff 2 xs _ _)
  interpret_iff r DataType.uint16 xs = with_unit (with_bytes_iff 2 xs _ _)
  interpret_iff r DataType.int16 xs = with_unit (with_bytes_iff 2 xs _ _)
  interpret_iff r DataType.uint32 xs = with_unit (with_bytes_iff 4 xs _ _)
  interpret_iff r DataType.int32 xs = with_unit (with_bytes_iff 4 xs _ _)
  interpret_iff r DataType.float32 xs = with_unit (with_bytes_iff 4 xs _ _)
  interpret_iff r DataType.float64 xs = with_unit (with_bytes_iff 8 xs _ _)
  interpret_iff r DataType.byte xs = with_unit (first_iff xs _ _)
  interpret_iff r DataType.uint8 xs = with_unit (first_iff xs _ _)
  interpret_iff r DataType.int8 xs = with_unit (first_iff xs _ _)
  interpret_iff r DataType.text xs = (λ h. (tt, omega arith), λ k. tt)
  interpret_iff r DataType.uint64 xs = (λ h. absurd h, λ k. absurd k.0)
  interpret_iff r (DataType.other_type n) xs = (λ h. absurd h, λ k. absurd k.0)

  shorter : (xs : List ℕ) (order : DataOrder) → length (reorder_bytes xs order) ≤ length xs
  shorter xs order = elim (length-reorder_bytes xs order) [
    | inl (w, e) ↦ omega (arith, ap length e)
    | inr (inl (w, e)) ↦ omega (arith, ap length e)
    | inr (inr (w, e)) ↦ omega arith
  ]

  -- The test in front of the switch refuses nothing that the switch would have accepted.
  checked_iff :
      (r : DeviceRegister F64) (required : ℕ)
      → (Succeeds (interpret floats r r.data_type (reorder_bytes r.value r.data_order))
          → required ≤ length (reorder_bytes r.value r.data_order))
      → Succeeds (decode_checked floats r (required, none))
        ↔ Succeeds (interpret floats r r.data_type (reorder_bytes r.value r.data_order))
  checked_iff r required enough =
      elim (Bool-cases (ltb (length r.value) required && not (is_text floats r.data_type))) [
        | inl e ↦ rw e (
          λ h. absurd h,
          λ h. absurd (
              omega (
                arith,
                refused (length r.value) required (not (is_text floats r.data_type)) e,
                enough h,
                shorter r.value r.data_order,
              )),
        )
        | inr e ↦ rw e (λ h. h, λ h. h)
      ]
    where
      refused : (a b : ℕ) (c : Bool) → (ltb a b && c) ≡ true → a < b
      refused a b c e = ground arith

  through :
      (r : DeviceRegister F64) (t : DataType) (n : ℕ)
      → n ≡ (get_required_bytes t).0
      → Succeeds (decode_checked floats (record r { data_type = t }) (n, none))
        ↔ (IsDecodable t × (n ≤ length (reorder_bytes r.value r.data_order)))
  through r t n e =
      let at = interpret_iff (record r { data_type = t }) t (reorder_bytes r.value r.data_order) in
      let checked =
        checked_iff (record r { data_type = t }) n (λ h. omega (arith, e, (at.0 h).1)) in
      (
        λ h. let p = at.0 (checked.0 h) in (p.0, omega (arith, e, p.1)),
        λ k. checked.1 (at.1 (k.0, omega (arith, e, k.1))),
      )

  decodable_iff :
      (r : DeviceRegister F64) (t : DataType)
      → Succeeds (decode_value floats (record r { data_type = t }))
        ↔ (IsDecodable t × ((get_required_bytes t).0 ≤ length (reorder_bytes r.value r.data_order)))
  unfolding decode_value get_required_bytes
  decodable_iff r DataType.bitfield = through r DataType.bitfield 2 refl
  decodable_iff r DataType.bool = through r DataType.bool 2 refl
  decodable_iff r DataType.uint16 = through r DataType.uint16 2 refl
  decodable_iff r DataType.int16 = through r DataType.int16 2 refl
  decodable_iff r DataType.uint32 = through r DataType.uint32 4 refl
  decodable_iff r DataType.int32 = through r DataType.int32 4 refl
  decodable_iff r DataType.float32 = through r DataType.float32 4 refl
  decodable_iff r DataType.float64 = through r DataType.float64 8 refl
  decodable_iff r DataType.byte = through r DataType.byte 1 refl
  decodable_iff r DataType.uint8 = through r DataType.uint8 1 refl
  decodable_iff r DataType.int8 = through r DataType.int8 1 refl
  decodable_iff r DataType.text = through r DataType.text 0 refl
  decodable_iff r DataType.uint64 = through r DataType.uint64 8 refl
  decodable_iff r (DataType.other_type n) = (λ h. absurd h, λ k. absurd k.0)

  -- A register is decoded without an error exactly when its type is one that can be decoded and the
  -- bytes that are left after reordering are as many as the type needs.
  pub decode_value_iff :
      (r : DeviceRegister F64)
      → Succeeds (decode_value floats r) ↔ (
          IsDecodable r.data_type
          × ((get_required_bytes r.data_type).0 ≤ length (reorder_bytes r.value r.data_order)))
  decode_value_iff r = decodable_iff r r.data_type

  stored_bytes :
      (v : ℕ) (order : DataOrder)
      → order_width order ≡ 4
      → reorder_bytes (reorder_bytes (put_uint32 v) order) order ≡ put_uint32 v
  stored_bytes v order h =
      reorder_bytes-reorder_bytes (put_uint32 v) order (omega arith) (omega arith) ∙ rw h refl

  stored_length :
      (v : ℕ) (order : DataOrder)
      → order_width order ≡ 4
      → length (reorder_bytes (put_uint32 v) order) ≡ 4
  stored_length v order h = elim (length-reorder_bytes (put_uint32 v) order) [
    | inl (w, e) ↦ absurd (omega arith)
    | inr (inl (w, e)) ↦ absurd (omega arith)
    | inr (inr (w, e)) ↦ e ∙ h
  ]

  -- An integer of 32 bits that was stored in one of the four orders for four bytes is read back
  -- from a register of that order and of type int32, and scaled by the weight.
  pub decode_value-stored_int32 :
      (r : DeviceRegister F64) (z : ℤ)
      → IsSigned 32 z
      → order_width r.data_order ≡ 4
      → decode_value floats (record r {
        data_type = DataType.int32;
        value = reorder_bytes (put_uint32 (unsigned 32 z)) r.data_order;
      })
        ≡ ok (
          record {
            raw = put_uint32 (unsigned 32 z);
            float64_value = floats.times (floats.of_signed z) r.weight;
            as_type = a_signed z;
          },
          none,
        )
  unfolding decode_value get_required_bytes interpret
  decode_value-stored_int32 r z h w =
      let v = unsigned 32 z in
      let sign : signed 32 (big_endian 0 (take 4 (put_uint32 v))) ≡ z =
        ap (signed 32) (big_endian-put_uint32 v (unsigned_lt z h)) ∙ signed-unsigned z h in
      rw (stored_length v r.data_order w, stored_bytes v r.data_order w, sign) refl
