-- ===== src/Tests/Managers.antt =====
-- A manager with a short channel, and registers with and without the same tag.
use gomodbus.Prelude.{false}
use gomodbus.Prelude.{ℕ, ℤ, ◌≡◌, refl, arith, ◌⊎◌, List, [], ◌∷◌}
use gomodbus.Group.{group_device_register}
use gomodbus.Manager.{
  Scheduler, Manager, Loaded, loaded, panicked, duplicate_tag, load, load_registers,
}
use gomodbus.Manager.Queue.{
  System, Step, Reach, started, by_reader, sending, received, begin, hand, here, next, IsConsistent,
  Reach-IsConsistent,
}
use gomodbus.Manager.Deadlock.{stuck, deadlock_reachable}
use gomodbus.Manager.Load.{AreDistinct, RepeatsFirst, load_cases}
use gomodbus.Tests.Groups.{Reg, go, register}

-- A read of two groups has handed the first one to the goroutine.
abbrev handed : System
handed = record started { lock = by_reader; reading = sending 1; consumer = received }

handed-Reach : Reach 1 2 handed
handed-Reach = next (next here (begin refl refl)) (hand 1 refl refl refl)

Reach-IsConsistent_example : IsConsistent 1 handed
Reach-IsConsistent_example = Reach-IsConsistent handed-Reach

deadlock_reachable_example :
    (n : ℕ) × Reach 1 4 (stuck 1 n) × ¬ ((t : System) × Step 1 4 (stuck 1 n) t)
deadlock_reachable_example = deadlock_reachable 1 4 (omega arith)

abbrev empty_scheduler : Scheduler ℤ
empty_scheduler = record { groups = [] }

abbrev silent_manager : Manager ℤ
silent_manager = record { grouped_registers = []; has_on_error = false }

abbrev repeated : List Reg
repeated = register 1 3 7 1 ∷ register 1 3 8 1 ∷ register 1 3 7 2 ∷ register 1 3 8 2 ∷ []

load_cases_example :
    (AreDistinct [] repeated
      × (load go repeated empty_scheduler
          ≡ (loaded, record { groups = group_device_register go repeated }))
      × (load_registers go repeated silent_manager ≡ (
        loaded,
        record silent_manager { grouped_registers = group_device_register go repeated },
      )))
    ⊎ ((tag : List ℕ) × RepeatsFirst [] repeated tag
        × (load go repeated empty_scheduler ≡ (duplicate_tag tag, empty_scheduler))
        × (load_registers go repeated silent_manager ≡ (panicked, silent_manager)))
load_cases_example = load_cases go repeated empty_scheduler silent_manager

load_duplicate :
    load go (register 1 3 7 1 ∷ register 1 3 7 2 ∷ []) empty_scheduler
    ≡ (duplicate_tag (7 ∷ []), empty_scheduler)
unfolding load gomodbus.Manager.find_duplicate gomodbus.Manager.has_tag gomodbus.Go.Text.same_string
load_duplicate = refl
