-- ===== src/Tests/Registers.antt =====
-- Registers in their byte orders, with integers for the floating point numbers.
use gomodbus.Prelude.{ℕ, ◌≤◌, ◌↔◌, List, [], ◌∷◌, length}
use gomodbus.Prelude.{ℤ, pos}
use gomodbus.Register.{
  Status, DataType, DataOrder, DeviceRegister, Floats, reorder_bytes, get_required_bytes,
  decode_value,
}
use gomodbus.Register.Decode.{IsDecodable, Succeeds, decode_value_iff}

abbrev word : List ℕ
word = 1 ∷ 2 ∷ 3 ∷ 4 ∷ 5 ∷ []

-- Numbers and weights that are integers.
abbrev whole : Floats ℕ ℤ
whole = record {
  zero_float = pos 0;
  one_float = pos 1;
  of_unsigned = pos;
  of_signed = λ z. z;
  of_float32 = pos;
  times = λ a b. a;
  float32_from_bits = λ n. n;
  float64_from_bits = pos;
}

abbrev register : DeviceRegister ℤ
register = record {
  tag = 116 ∷ [];
  slaver_id = 1;
  function = 3;
  read_address = 0;
  read_quantity = 2;
  data_type = DataType.int32;
  data_order = DataOrder.order_badc;
  bit_position = 0;
  bit_mask = 0;
  weight = pos 1;
  value = 1 ∷ 2 ∷ 3 ∷ [];
  status = Status.no_status;
}

decode_value_iff_example : Succeeds whole (decode_value whole register) ↔ (
    IsDecodable DataType.int32
    × ((get_required_bytes DataType.int32).0
        ≤ length (reorder_bytes (1 ∷ 2 ∷ 3 ∷ []) DataOrder.order_badc)))
decode_value_iff_example = decode_value_iff whole register
