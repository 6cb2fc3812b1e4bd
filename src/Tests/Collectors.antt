-- ===== src/Tests/Collectors.antt =====
-- The concurrent read of two groups, of which the second one has no function and ends first.
use gomodbus.Prelude.{◌≡◌, ◌++◌, refl, true, Option, none, List, [], ◌∷◌, map, arith}
use gomodbus.Go.{ok, err, panic}
use gomodbus.Group.Read.{Reader, GroupError, read_group}
use gomodbus.Group.Collect.{
  report, Step, System, Goroutine, start, finish, store, started, Steps, here, next,
}
use gomodbus.Group.Collect.Returned.{store_ready}
use gomodbus.Tests.Groups.{Reg, register}

-- A client that answers each read of a register with 258.
abbrev client : Reader (Unit {0})
client = record {
  set_slave_id = λ k s. tt;
  read_coils = λ a q s. (ok [], tt);
  read_discrete_inputs = λ a q s. (ok [], tt);
  read_holding_registers = λ a q s. (ok (1 ∷ 2 ∷ []), tt);
  read_input_registers = λ a q s. (ok [], tt);
}

abbrev outcome : List Reg → List Reg × Option GroupError
outcome g = elim (read_group client g tt).0 [ ok o ↦ o | err e ↦ ([], none) | panic ↦ ([], none) ]

abbrev first : List Reg
first = register 1 3 10 1 ∷ []

abbrev second : List Reg
second = register 1 7 20 1 ∷ []

-- The error of the second group is in the channel when the first one ends.
stored :
    (s : System Reg GroupError) × Steps (started (map outcome (first ∷ second ∷ []))) s
    × (s.goroutines ≡ start (outcome first) ∷ finish (start (outcome second)) ∷ [])
unfolding gomodbus.Group.Collect.report read_group gomodbus.Group.Read.fill
stored = (
  _,
  next here
      (store (start (outcome first) ∷ []) (start (outcome second)) [] refl refl (omega arith)),
  refl,
)

store_ready_example :
    (t : System Reg GroupError) × Step stored.0 t
    × (t.goroutines
        ≡ [] ++ (finish (start (outcome first)) ∷ (finish (start (outcome second)) ∷ [])))
    × (t.channel ≡ stored.0.channel ++ report 0 (outcome first).1)
    × ((u : System Reg GroupError) × Steps t u × (u.returned ≡ true))
store_ready_example =
    store_ready (map outcome (first ∷ second ∷ [])) [] (start (outcome first))
      (finish (start (outcome second)) ∷ []) stored.1 stored.2 refl
