-- ===== src/Group.antt =====
-- enhancement-group.go: registers in blocks of adjacent addresses, and the read of a block.
pub mod Split
pub mod Blocks
pub mod Read
pub mod Values
pub mod Concurrent
pub mod Pipeline
pub mod Collect
use gomodbus.Prelude.{
  ℕ, ◌+◌, ◌*◌, Bool, true, false, List, [], ◌∷◌, ◌++◌, u16, ltb, ◌==◌, if◌then◌else◌,
}
use gomodbus.Register.{DeviceRegister}

module _ {F : Type 0} where
  -- `append(m[slaverId], r)`: a map is a list of its keys with their values.
  unfoldable pub add_register :
      DeviceRegister F → List (ℕ × List (DeviceRegister F)) → List (ℕ × List (DeviceRegister F))
  add_register r [] = (r.slaver_id, r ∷ []) ∷ []
  add_register r ((k, rs) ∷ m) =
      if k == r.slaver_id then (k, rs ++ (r ∷ [])) ∷ m else (k, rs) ∷ add_register r m

  -- The loop of the first step.
  unfoldable pub slaver_groups :
      List (ℕ × List (DeviceRegister F))
      → List (DeviceRegister F)
      → List (ℕ × List (DeviceRegister F))
  slaver_groups m [] = m
  slaver_groups m (r ∷ rs) = slaver_groups (add_register r m) rs

  -- The test whether a register goes on where the one before it ends.
  unfoldable pub is_continued : DeviceRegister F → DeviceRegister F → Bool
  is_continued prev r =
      if prev.read_quantity == 0
      then false
      else r.read_address == u16 (prev.read_address + prev.read_quantity)

  -- The loop of the third step, with the current group and its last register.
  unfoldable pub split_loop :
      List (DeviceRegister F)
      → DeviceRegister F
      → List (DeviceRegister F)
      → List (List (DeviceRegister F))
  split_loop current prev [] = current ∷ []
  split_loop current prev (r ∷ rs) = elim (is_continued prev r) [
    | true ↦ split_loop (current ++ (r ∷ [])) r rs
    | false ↦ current ∷ split_loop (r ∷ []) r rs
  ]

  unfoldable pub split : List (DeviceRegister F) → List (List (DeviceRegister F))
  split [] = []
  split (r ∷ rs) = split_loop (r ∷ []) r rs

-- What the code uses of Go: `sort.Slice`, and the order in which a map is passed through.
pub record Runtime (F : Type 0) : Type 0 where
  pub sort_slice :
      (DeviceRegister F → DeviceRegister F → Bool)
      → List (DeviceRegister F)
      → List (DeviceRegister F)
  pub map_order : List (ℕ × List (DeviceRegister F)) → List (ℕ × List (DeviceRegister F))

module _ {F : Type 0} (go : Runtime F) where
  unfoldable pub sort_by_read_address : List (DeviceRegister F) → List (DeviceRegister F)
  sort_by_read_address = go.sort_slice (λ a b. ltb a.read_address b.read_address)

  -- The second step, over the slavers that are left.
  unfoldable pub process_groups :
      List (ℕ × List (DeviceRegister F)) → List (List (DeviceRegister F))
  process_groups [] = []
  process_groups ((k, regs) ∷ m) = split (sort_by_read_address regs) ++ process_groups m

  -- `GroupDeviceRegisterWithLogicalContinuity`
  unfoldable pub group_device_register : List (DeviceRegister F) → List (List (DeviceRegister F))
  group_device_register [] = []
  group_device_register (r ∷ rs) = process_groups (go.map_order (slaver_groups [] (r ∷ rs)))
