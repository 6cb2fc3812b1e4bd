-- ===== src/Manager.antt =====
-- enhancement-register-manager.go and the scheduler of enhancement-poller.go: loading registers. The
-- goroutines of the manager are in Manager/Queue.
pub mod Queue
pub mod Deadlock
pub mod Load
use gomodbus.Prelude.{
  ℕ, Bool, true, false, List, [], ◌∷◌, ◌==◌, ◌&&◌, ◌||◌, Option, none, some, if◌then◌else◌,
}
use gomodbus.Go.Text.{same_string}
use gomodbus.Register.{DeviceRegister}
use gomodbus.Group.{Runtime, group_device_register}

-- `tagMap[tag]`, over the tags that the map holds.
unfoldable pub has_tag : List (List ℕ) → List ℕ → Bool
has_tag [] tag = false
has_tag (t ∷ ts) tag = same_string t tag || has_tag ts tag

module _ {F : Type 0} where
  -- The loop over the registers: the first tag that occurs again.
  unfoldable pub find_duplicate : List (List ℕ) → List (DeviceRegister F) → Option (List ℕ)
  find_duplicate seen [] = none
  find_duplicate seen (r ∷ rs) =
      let rest = find_duplicate (r.tag ∷ seen) rs in if has_tag seen r.tag then some r.tag else rest

-- `RegisterScheduler`: its groups.
pub record Scheduler (F : Type 0) : Type 0 where
  pub groups : List (List (DeviceRegister F))

-- `RegisterManager`: its groups, and whether there is a callback for errors.
pub record Manager (F : Type 0) : Type 0 where
  pub grouped_registers : List (List (DeviceRegister F))
  pub has_on_error : Bool

-- The result of loading: the error names the tag; calling a callback that is nil panics.
pub data Loaded : Type 0 where
  loaded panicked : Loaded
  duplicate_tag : List ℕ → Loaded

module _ {F : Type 0} (go : Runtime F) where
  -- `RegisterScheduler.Load`
  unfoldable pub load : List (DeviceRegister F) → Scheduler F → Loaded × Scheduler F
  load registers s = elim (find_duplicate [] registers) [
    | none ↦ (loaded, record { groups = group_device_register go registers })
    | some tag ↦ (duplicate_tag tag, s)
  ]

  -- `RegisterManager.LoadRegisters`
  unfoldable pub load_registers : List (DeviceRegister F) → Manager F → Loaded × Manager F
  load_registers registers m = elim (find_duplicate [] registers) [
    | none ↦ (loaded, record m { grouped_registers = group_device_register go registers })
    | some tag ↦ (if m.has_on_error then duplicate_tag tag else panicked, m)
  ]
