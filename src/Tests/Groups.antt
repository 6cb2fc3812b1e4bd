-- ===== src/Tests/Groups.antt =====
-- Registers in blocks with an insertion sort, and blocks of a device that answers from a memory.
use mathlib.Core.List.{Perm, Permᴰ}
use mathlib.Core.List.Permᴰ
use gomodbus.Prelude.{ℕ, ◌*◌, ◌≡◌, refl, arith, Bool, false, Bool-cases, inl, inr}
use gomodbus.Prelude.{List, [], ◌∷◌, map, length, All, ℤ, pos, none, if◌then◌else◌}
use gomodbus.Go.{ok}
use gomodbus.Register.{DeviceRegister, DataType, DataOrder, Status}
use gomodbus.Group.{Runtime, group_device_register, split, split_loop, is_continued}
use gomodbus.Prelude.{flat}
use gomodbus.Group.Split.{IsBlock, IsRegister}
use gomodbus.Group.Blocks.{
  by_address, IsOrdered, IsOrderedFrom, IsRuntime, group_device_register-perm,
  group_device_register-IsBlock,
}
use gomodbus.Group.Concurrent.{System, Reach, IsDirected, AreSame, requests-IsDirected_iff}
use gomodbus.Prelude.{◌↔◌}
use gomodbus.Group.Read.{Reader, read_group}
use gomodbus.Group.Values.{image, loaded, read_group-loaded}

abbrev pub Reg : Type 0
Reg = DeviceRegister ℤ

abbrev insert : (Reg → Reg → Bool) → Reg → List Reg → List Reg
insert less r [] = r ∷ []
insert less r (s ∷ rs) = let rest = insert less r rs in if less r s then r ∷ s ∷ rs else s ∷ rest

abbrev sort_by : (Reg → Reg → Bool) → List Reg → List Reg
sort_by less [] = []
sort_by less (r ∷ rs) = insert less r (sort_by less rs)

insert-perm : (r : Reg) (rs : List Reg) → Permᴰ (insert by_address r rs) (r ∷ rs)
insert-perm r [] = Permᴰ.refl (r ∷ [])
insert-perm r (s ∷ rs) = elim (Bool-cases (by_address r s)) [
  | inl e ↦ rw e (Permᴰ.refl (r ∷ s ∷ rs))
  | inr e ↦ rw e (Permᴰ.trans (Permᴰ.cons refl (insert-perm r rs)) (Permᴰ.swap refl refl))
]

sort_by-perm : (rs : List Reg) → Permᴰ (sort_by by_address rs) rs
sort_by-perm [] = Permᴰ.nil
sort_by-perm (r ∷ rs) =
    Permᴰ.trans (insert-perm r (sort_by by_address rs)) (Permᴰ.cons refl (sort_by-perm rs))

insert-IsOrderedFrom :
    (x r : Reg) (rs : List Reg)
    → by_address r x ≡ false
    → IsOrderedFrom x rs
    → IsOrderedFrom x (insert by_address r rs)
insert-IsOrderedFrom x r [] h o = (h, tt)
insert-IsOrderedFrom x r (s ∷ rs) h (k, o) = elim (Bool-cases (by_address r s)) [
  | inl e ↦ rw (e, IsOrderedFrom) (h, (ground arith, o))
  | inr e ↦ rw (e, IsOrderedFrom) (k, insert-IsOrderedFrom s r rs e o)
]

insert-IsOrdered : (r : Reg) (rs : List Reg) → IsOrdered rs → IsOrdered (insert by_address r rs)
insert-IsOrdered r [] o = tt
insert-IsOrdered r (s ∷ rs) o = elim (Bool-cases (by_address r s)) [
  | inl e ↦ rw (e, IsOrdered) (ground arith, o)
  | inr e ↦ rw (e, IsOrdered) (insert-IsOrderedFrom s r rs e o)
]

sort_by-IsOrdered : (rs : List Reg) → IsOrdered (sort_by by_address rs)
sort_by-IsOrdered [] = tt
sort_by-IsOrdered (r ∷ rs) = insert-IsOrdered r (sort_by by_address rs) (sort_by-IsOrdered rs)

abbrev pub go : Runtime ℤ
go = record { sort_slice = sort_by; map_order = λ m. m }

pub go-IsRuntime : IsRuntime go
go-IsRuntime = record {
  sort_perm = sort_by-perm;
  sort_order = sort_by-IsOrdered;
  map_perm = Permᴰ.refl;
}

abbrev pub register : ℕ → ℕ → ℕ → ℕ → Reg
register slave function address quantity = record {
  tag = address ∷ [];
  slaver_id = slave;
  function = function;
  read_address = address;
  read_quantity = quantity;
  data_type = DataType.uint16;
  data_order = DataOrder.order_ab;
  bit_position = 0;
  bit_mask = 0;
  weight = pos 1;
  value = [];
  status = Status.no_status;
}

abbrev pub some_registers : List Reg
some_registers = register 1 3 12 1 ∷ register 2 3 0 1 ∷ register 1 3 10 2 ∷ register 1 3 40 1 ∷ []

pub some_registers-IsRegister : All IsRegister some_registers
some_registers-IsRegister = (
  record { address_word = omega arith; quantity_word = omega arith },
  (
    record { address_word = omega arith; quantity_word = omega arith },
    (
      record { address_word = omega arith; quantity_word = omega arith },
      (record { address_word = omega arith; quantity_word = omega arith }, tt),
    ),
  ),
)

group_device_register_run : map length (group_device_register go some_registers) ≡ 2 ∷ 1 ∷ 1 ∷ []
unfolding group_device_register gomodbus.Group.process_groups gomodbus.Group.slaver_groups
    gomodbus.Group.add_register split gomodbus.Group.sort_by_read_address split_loop is_continued
group_device_register_run = refl

group_device_register-perm_example :
    Perm (flat (group_device_register go some_registers)) some_registers
group_device_register-perm_example = group_device_register-perm go go-IsRuntime some_registers

group_device_register-IsBlock_example : All IsBlock (group_device_register go some_registers)
group_device_register-IsBlock_example =
    group_device_register-IsBlock go go-IsRuntime some_registers some_registers-IsRegister

-- A device with a number for its memory: register `a` holds `a * 3`.
abbrev memory : ℕ → ℕ
memory a = a * 3

-- A client of that device, whose state is the slave that it talks to; it answers a read of coils with
-- one bit for each.
abbrev device : Reader ℕ
device = record {
  set_slave_id = λ slave s. slave;
  read_coils = λ a n s. (ok (image memory 0 0), s);
  read_discrete_inputs = λ a n s. (ok [], s);
  read_holding_registers = λ a n s. (ok (image memory a n), s);
  read_input_registers = λ a n s. (ok (image memory a n), s);
}

abbrev bits_device : Reader ℕ
bits_device = record device { read_coils = λ a n s. (ok (5 ∷ 1 ∷ []), s) }

two_linked : IsBlock (register 1 3 10 2 ∷ register 1 3 12 1 ∷ [])
two_linked = (record { same_slaver = refl; wide = omega arith; adjacent = refl }, tt)

read_group-loaded_example :
    read_group device (register 1 3 10 2 ∷ register 1 3 12 1 ∷ []) 0
    ≡ (ok (map (loaded memory) (register 1 3 10 2 ∷ register 1 3 12 1 ∷ []), none), 1)
read_group-loaded_example =
    read_group-loaded device memory (register 1 3 10 2) (register 1 3 12 1 ∷ []) 0 1 two_linked
      (omega arith) refl refl

-- Two blocks of slave 4 and one of slave 6.
requests-IsDirected_iff_example :
    ((s : System) → Reach 0 (4 ∷ 6 ∷ 4 ∷ []) s → All IsDirected s.workers)
    ↔ AreSame (4 ∷ 6 ∷ 4 ∷ [])
requests-IsDirected_iff_example = requests-IsDirected_iff 0 (4 ∷ 6 ∷ 4 ∷ [])
