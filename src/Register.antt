-- ===== src/Register.antt =====
-- enhancement-register.go: the registers of a device and how their bytes are read.
pub mod Order
pub mod Decode
use gomodbus.Prelude.{
  ℕ, ◌+◌, ◌-◌, ◌*◌, ◌^◌, Bool, true, false, List, [], ◌∷◌, length, take, get_or, bit_and, u16,
  ◌<<<◌,
}
use gomodbus.Prelude.{ltb, leb, ◌!=◌, ◌&&◌, not, if◌then◌else◌, Option, none, some, ℤ, signed}
use gomodbus.Go.{Error, Outcome, ok, err, panic, ◌>>=◌, index}

-- The type names that the code compares with, and any other string.
pub data DataType : Type 0 where
  bitfield bool byte uint8 int8 uint16 int16 uint32 int32 uint64 float32 float64 text : DataType
  other_type : ℕ → DataType

-- The byte orders, and any other string.
pub data DataOrder : Type 0 where
  order_a order_ab order_ba order_abcd order_dcba order_badc order_cdab order_abcdefgh : DataOrder
  order_hgfedcba order_badcfehg order_ghefcdab : DataOrder
  other_order : ℕ → DataOrder

pub data RegisterError : Type 0 where
  unknown_type unsupported_type : RegisterError
  not_enough_bytes : ℕ → ℕ → RegisterError

-- `Status`, by what its text says.
pub data Status : Type 0 where
  no_status valid_status : Status
  read_failed : Error → Status
  out_of_bounds : ℕ → ℕ → ℕ → Status

-- The fields that the code reads or writes; `F` stands for `float64`, a tag is its bytes.
pub record DeviceRegister (F : Type 0) : Type 0 where
  pub tag : List ℕ
  pub slaver_id : ℕ
  pub function : ℕ
  pub read_address : ℕ
  pub read_quantity : ℕ
  pub data_type : DataType
  pub data_order : DataOrder
  pub bit_position : ℕ
  pub bit_mask : ℕ
  pub weight : F
  pub value : List ℕ
  pub status : Status

-- `CheckBit`
unfoldable pub check_bit : ℕ → ℕ → Bool
check_bit num i = if ltb 15 i then false else bit_and num (u16 (1 <<< i)) != 0

-- `getRequiredBytes`
unfoldable pub get_required_bytes : DataType → ℕ × Option RegisterError
get_required_bytes bitfield = (2, none)
get_required_bytes bool = (2, none)
get_required_bytes uint16 = (2, none)
get_required_bytes int16 = (2, none)
get_required_bytes uint32 = (4, none)
get_required_bytes int32 = (4, none)
get_required_bytes float32 = (4, none)
get_required_bytes uint64 = (8, none)
get_required_bytes float64 = (8, none)
get_required_bytes byte = (1, none)
get_required_bytes uint8 = (1, none)
get_required_bytes int8 = (1, none)
get_required_bytes text = (0, none)
get_required_bytes (other_type s) = (0, some unknown_type)

-- The bytes at some positions.
abbrev pub pick : List ℕ → List ℕ → List ℕ
pick xs [] = []
pick xs (i ∷ is) = get_or xs i 0 ∷ pick xs is

-- `reorderBytes`; an order that is unknown or wider than the data leaves the data as it is.
unfoldable pub reorder_bytes : List ℕ → DataOrder → List ℕ
reorder_bytes xs order_a = if leb 1 (length xs) then take 1 xs else xs
reorder_bytes xs order_ab = if leb 2 (length xs) then take 2 xs else xs
reorder_bytes xs order_ba = if leb 2 (length xs) then pick xs (1 ∷ 0 ∷ []) else xs
reorder_bytes xs order_abcd = if leb 4 (length xs) then take 4 xs else xs
reorder_bytes xs order_dcba = if leb 4 (length xs) then pick xs (3 ∷ 2 ∷ 1 ∷ 0 ∷ []) else xs
reorder_bytes xs order_badc = if leb 4 (length xs) then pick xs (1 ∷ 0 ∷ 3 ∷ 2 ∷ []) else xs
reorder_bytes xs order_cdab = if leb 4 (length xs) then pick xs (2 ∷ 3 ∷ 0 ∷ 1 ∷ []) else xs
reorder_bytes xs order_abcdefgh = if leb 8 (length xs) then take 8 xs else xs
reorder_bytes xs order_hgfedcba =
    if leb 8 (length xs) then pick xs (7 ∷ 6 ∷ 5 ∷ 4 ∷ 3 ∷ 2 ∷ 1 ∷ 0 ∷ []) else xs
reorder_bytes xs order_badcfehg =
    if leb 8 (length xs) then pick xs (1 ∷ 0 ∷ 3 ∷ 2 ∷ 5 ∷ 4 ∷ 7 ∷ 6 ∷ []) else xs
reorder_bytes xs order_ghefcdab =
    if leb 8 (length xs) then pick xs (6 ∷ 7 ∷ 4 ∷ 5 ∷ 2 ∷ 3 ∷ 0 ∷ 1 ∷ []) else xs
reorder_bytes xs (other_order s) = xs

-- `binary.BigEndian` on the first bytes of a list.
abbrev pub big_endian : ℕ → List ℕ → ℕ
big_endian n [] = n
big_endian n (x ∷ xs) = big_endian (n * 256 + x) xs

-- What the code uses of floating point numbers.
pub record Floats (F32 F64 : Type 0) : Type 0 where
  pub zero_float : F64
  pub one_float : F64
  pub of_unsigned : ℕ → F64
  pub of_signed : ℤ → F64
  pub of_float32 : F32 → F64
  pub times : F64 → F64 → F64
  pub float32_from_bits : ℕ → F32
  pub float64_from_bits : ℕ → F64

-- `AsType` with its dynamic type.
pub data Value (F32 F64 : Type 0) : Type 0 where
  no_value : Value F32 F64
  an_unsigned : ℕ → Value F32 F64
  a_signed : ℤ → Value F32 F64
  a_bool : Bool → Value F32 F64
  a_float32 : F32 → Value F32 F64
  a_float64 : F64 → Value F32 F64
  a_string : List ℕ → Value F32 F64

pub record DecodedValue (F32 F64 : Type 0) : Type 0 where
  pub raw : List ℕ
  pub float64_value : F64
  pub as_type : Value F32 F64

module _ {F32 F64 : Type 0} (floats : Floats F32 F64) where
  -- A case of the switch: it needs some bytes, and returns the raw bytes without them.
  abbrev pub with_bytes :
      ℕ → List ℕ → Value F32 F64 → F64 → Outcome (DecodedValue F32 F64 × Option RegisterError)
  with_bytes n xs as_type float =
      if ltb (length xs) n
      then ok (
        record { raw = xs; float64_value = floats.zero_float; as_type = no_value },
        some (not_enough_bytes (length xs) n),
      )
      else ok (record { raw = xs; float64_value = float; as_type = as_type }, none)

  -- The switch on the type, over the reordered bytes.
  unfoldable pub interpret :
      DeviceRegister F64 → DataType → List ℕ → Outcome (DecodedValue F32 F64 × Option RegisterError)
  interpret r bitfield xs =
      let v = bit_and (big_endian 0 (take 2 xs)) r.bit_mask in
      with_bytes 2 xs (an_unsigned v) (floats.times (floats.of_unsigned v) r.weight)
  interpret r bool xs =
      let v = check_bit (big_endian 0 (take 2 xs)) r.bit_position in
      with_bytes 2 xs (a_bool v) (if v then floats.one_float else floats.zero_float)
  interpret r byte xs = do
    x ← index xs 0
    ok (record { raw = xs; float64_value = floats.of_unsigned x; as_type = an_unsigned x }, none)
  interpret r uint8 xs = do
    x ← index xs 0
    let float = floats.times (floats.of_unsigned x) r.weight
    ok (record { raw = xs; float64_value = float; as_type = an_unsigned x }, none)
  interpret r int8 xs = do
    x ← index xs 0
    let float = floats.times (floats.of_signed (signed 8 x)) r.weight
    ok (record { raw = xs; float64_value = float; as_type = a_signed (signed 8 x) }, none)
  interpret r uint16 xs =
      let v = big_endian 0 (take 2 xs) in
      with_bytes 2 xs (an_unsigned v) (floats.times (floats.of_unsigned v) r.weight)
  interpret r int16 xs =
      let v = signed 16 (big_endian 0 (take 2 xs)) in
      with_bytes 2 xs (a_signed v) (floats.times (floats.of_signed v) r.weight)
  interpret r uint32 xs =
      let v = big_endian 0 (take 4 xs) in
      with_bytes 4 xs (an_unsigned v) (floats.times (floats.of_unsigned v) r.weight)
  interpret r int32 xs =
      let v = signed 32 (big_endian 0 (take 4 xs)) in
      with_bytes 4 xs (a_signed v) (floats.times (floats.of_signed v) r.weight)
  interpret r float32 xs =
      let v = floats.float32_from_bits (big_endian 0 (take 4 xs)) in
      with_bytes 4 xs (a_float32 v) (floats.times (floats.of_float32 v) r.weight)
  interpret r float64 xs =
      let v = floats.float64_from_bits (big_endian 0 (take 8 xs)) in
      with_bytes 8 xs (a_float64 v) (floats.times v r.weight)
  interpret r text xs =
      ok (record { raw = xs; float64_value = floats.zero_float; as_type = a_string xs }, none)
  interpret r uint64 xs = ok (
    record { raw = xs; float64_value = floats.zero_float; as_type = no_value },
    some unsupported_type,
  )
  interpret r (other_type s) xs = ok (
    record { raw = xs; float64_value = floats.zero_float; as_type = no_value },
    some unsupported_type,
  )

  abbrev pub is_text : DataType → Bool
  is_text text = true
  is_text _ = false

  -- The two checks in front of the switch.
  abbrev pub decode_checked :
      DeviceRegister F64
      → ℕ × Option RegisterError
      → Outcome (DecodedValue F32 F64 × Option RegisterError)
  decode_checked r (required, some e) =
      ok (record { raw = r.value; float64_value = floats.zero_float; as_type = no_value }, some e)
  decode_checked r (required, none) =
      if ltb (length r.value) required && not (is_text r.data_type)
      then ok (
        record { raw = r.value; float64_value = floats.zero_float; as_type = no_value },
        some (not_enough_bytes (length r.value) required),
      )
      else interpret r r.data_type (reorder_bytes r.value r.data_order)

  unfoldable pub decode_value :
      DeviceRegister F64 → Outcome (DecodedValue F32 F64 × Option RegisterError)
  decode_value r = decode_checked r (get_required_bytes r.data_type)
