-- ===== src/Group/Read.antt =====
-- enhancement-group.go: the read of one block and of all blocks in turn.
use gomodbus.Prelude.{
  ℕ, ◌+◌, ◌*◌, List, [], ◌∷◌, length, take, drop, u16, ltb, ◌==◌, Option, none, some, if◌then◌else◌,
}
use gomodbus.Go.{Outcome, ok, err, panic, Error}
use gomodbus.Client.Backend.{Action}
use gomodbus.Register.{DeviceRegister, valid_status, read_failed, out_of_bounds}

-- What the code uses of a client.
pub record Reader (S : Type 0) : Type 0 where
  pub set_slave_id : ℕ → S → S
  pub read_coils : ℕ → ℕ → Action S (List ℕ)
  pub read_discrete_inputs : ℕ → ℕ → Action S (List ℕ)
  pub read_holding_registers : ℕ → ℕ → Action S (List ℕ)
  pub read_input_registers : ℕ → ℕ → Action S (List ℕ)

pub data GroupError : Type 0 where
  empty_group : GroupError
  unsupported_function : ℕ → GroupError
  read_error : ℕ → ℕ → Error → GroupError
  data_out_of_bounds : ℕ → ℕ → ℕ → GroupError

module _ {S : Type 0} (client : Reader S) where
  -- The function of the first register says how the block is read.
  abbrev pub read_function : ℕ → ℕ → ℕ → Option (Action S (List ℕ))
  read_function function start quantity =
      if function == 1
      then some (client.read_coils start quantity)
      else if function == 2
      then some (client.read_discrete_inputs start quantity)
      else if function == 3
      then some (client.read_holding_registers start quantity)
      else if function == 4
      then some (client.read_input_registers start quantity)
      else none

abbrev pub add_error : Option GroupError → List GroupError → List GroupError
add_error none es = es
add_error (some e) es = e ∷ es

module _ {F : Type 0} where
  -- `totalQuantity`, which wraps around at 16 bits.
  unfoldable pub total_quantity : ℕ → List (DeviceRegister F) → ℕ
  total_quantity total [] = total
  total_quantity total (r ∷ rs) = total_quantity (u16 (total + r.read_quantity)) rs

  unfoldable pub mark_failed : Error → List (DeviceRegister F) → List (DeviceRegister F)
  mark_failed e [] = []
  mark_failed e (r ∷ rs) = record r { status = read_failed e } ∷ mark_failed e rs

  -- The loop that gives each register its bytes, from an offset on.
  unfoldable pub fill :
      List ℕ → ℕ → List (DeviceRegister F) → List (DeviceRegister F) × Option GroupError
  fill bytes offset [] = ([], none)
  fill bytes offset (r ∷ rs) =
      let expected = u16 (r.read_quantity * 2) in
      let rest = fill bytes (offset + expected) rs in
      if ltb (length bytes) (offset + expected)
      then (
        record r { status = out_of_bounds offset expected (length bytes) } ∷ rs,
        some (data_out_of_bounds offset expected (length bytes)),
      )
      else (
        record r { value = take expected (drop offset bytes); status = valid_status } ∷ rest.0,
        rest.1,
      )

  -- What `readGroup` does with the outcome of the read.
  abbrev pub finish :
      List (DeviceRegister F)
      → ℕ
      → ℕ
      → Outcome (List ℕ)
      → Outcome (List (DeviceRegister F) × Option GroupError)
  finish group slaver start (ok bytes) = ok (fill bytes 0 group)
  finish group slaver start (err e) = ok (mark_failed e group, some (read_error slaver start e))
  finish group slaver start panic = panic

  module _ {S : Type 0} (client : Reader S) where
    abbrev pub run_read :
        List (DeviceRegister F)
        → DeviceRegister F
        → Option (Action S (List ℕ))
        → S
        → Outcome (List (DeviceRegister F) × Option GroupError) × S
    run_read group r none s = (ok ([], some (unsupported_function r.function)), s)
    run_read group r (some m) s =
        let result = m s in (finish group r.slaver_id r.read_address result.0, result.1)

    unfoldable pub read_group :
        List (DeviceRegister F) → S → Outcome (List (DeviceRegister F) × Option GroupError) × S
    read_group [] s = (ok ([], some empty_group), s)
    read_group (r ∷ rs) s =
        run_read (r ∷ rs) r
          (read_function client r.function r.read_address (total_quantity 0 (r ∷ rs)))
          (client.set_slave_id r.slaver_id s)

    -- `ReadGroupedDataSequential`; a panic ends it.
    unfoldable pub read_grouped_data_sequential :
        List (List (DeviceRegister F))
        → S
        → Outcome (List (List (DeviceRegister F)) × List GroupError) × S
    read_grouped_data_sequential [] s = (ok ([], []), s)
    read_grouped_data_sequential (group ∷ groups) s =
        let first = read_group group s in
        let rest = read_grouped_data_sequential groups first.1 in
        elim first.0 [
          | ok (filled, e) ↦ elim rest.0 [
            | ok (result, es) ↦ (ok (filled ∷ result, add_error e es), rest.1)
            | err x ↦ (err x, rest.1)
            | panic ↦ (panic, rest.1)
          ]
          | err x ↦ (err x, first.1)
          | panic ↦ (panic, first.1)
        ]
