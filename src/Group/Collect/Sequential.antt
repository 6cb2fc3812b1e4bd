-- ===== src/Group/Collect/Sequential.antt =====
-- enhancement-group.go: `ReadGroupedDataConcurrently` against `ReadGroupedDataSequential`.
use gomodbus.Prelude.{◌≡◌, Option, List, [], ◌∷◌}
use mathlib.Core.List.Permᴰ
use gomodbus.Go.{ok}
use gomodbus.Register.{DeviceRegister}
use gomodbus.Group.Read.{Reader, GroupError, add_error, read_group}

module _ {F S : Type 0} (client : Reader S) where
  -- What the read of a block gives does not hang on the state of the client.
  abbrev pub IsSteady :
      (List (DeviceRegister F) → List (DeviceRegister F) × Option GroupError)
      → List (DeviceRegister F)
      → Type 0
  IsSteady outcome group = (s : S) → (read_group client group s).0 ≡ ok (outcome group)

  unfoldable pub errors_of : List (List (DeviceRegister F) × Option GroupError) → List GroupError
  errors_of [] = []
  errors_of (o ∷ os) = add_error o.1 (errors_of os)
