-- ===== src/Tests/Pipelines.antt =====
-- Registers read in blocks from the device of Tests/Servers, and a block that is too long.
use mathlib.Core.List.{Perm}
use gomodbus.Prelude.{◌*◌, ◌≡◌, refl, arith, List, [], ◌∷◌, map, flat, All, some}
use gomodbus.Go.{ok, Error}
use gomodbus.Group.{group_device_register}
use gomodbus.Group.Read.{read_group, read_grouped_data_sequential, read_error}
use gomodbus.Group.Values.{loaded}
use gomodbus.Group.Pipeline.{IsReadable, client_reader, with_failure, read_group_too_long}
use gomodbus.Tcp.{TcpPackager}
use gomodbus.Tcp.Total.{tcp_link}
use gomodbus.Device.{Memory}
use gomodbus.Device.Tcp.{Peer, served}
use gomodbus.Device.Grouped.{set_tcp, read_grouped_tcp}
use gomodbus.Tests.Groups.{
  Reg, go, go-IsRuntime, register, some_registers, some_registers-IsRegister,
}
use gomodbus.Tests.Servers.{registers, registers-IsServer}

abbrev tripled : Memory
tripled a = a * 3

abbrev connected : TcpPackager × Peer Memory
connected =
    (record { transaction_id = 0; slave_id = 1 }, record { device = tripled; incoming = [] })

some_registers-IsReadable : All IsReadable (group_device_register go some_registers)
unfolding group_device_register gomodbus.Group.process_groups gomodbus.Group.slaver_groups
    gomodbus.Group.add_register gomodbus.Group.split gomodbus.Group.sort_by_read_address
    gomodbus.Group.split_loop gomodbus.Group.is_continued
some_registers-IsReadable = (
  (refl, omega arith, omega arith, omega arith),
  (
    (refl, omega arith, omega arith, omega arith),
    ((refl, omega arith, omega arith, omega arith), tt),
  ),
)

read_grouped_tcp_example :
    (result : List (List Reg)) × (t : TcpPackager × Peer Memory) × (read_grouped_data_sequential
        (client_reader (tcp_link (served registers)) set_tcp)
        (group_device_register go some_registers)
        connected
      ≡ (ok (result, []), t))
    × Perm (flat result) (map (loaded tripled) some_registers)
read_grouped_tcp_example =
    read_grouped_tcp go registers (λ m. m) some_registers connected go-IsRuntime registers-IsServer
      some_registers-IsRegister some_registers-IsReadable refl

read_group_too_long_example :
    read_group
      (client_reader (tcp_link (served registers)) set_tcp)
      (register 1 3 0 100 ∷ register 1 3 100 100 ∷ [])
      connected
    ≡ (
      ok (
        map
            (with_failure (Error.quantity_out_of_range 200 1 125))
            (register 1 3 0 100 ∷ register 1 3 100 100 ∷ []),
        some (read_error 1 0 (Error.quantity_out_of_range 200 1 125)),
      ),
      set_tcp 1 connected,
    )
read_group_too_long_example =
    read_group_too_long (tcp_link (served registers)) set_tcp (register 1 3 0 100)
      (register 1 3 100 100 ∷ []) connected refl (omega arith) (omega arith)
