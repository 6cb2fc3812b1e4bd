-- ===== src/Tests/Enhanced.antt =====
-- Frames of the packagers of the handler, and connections that deliver them.
use gomodbus.Prelude.{ℕ, ◌/◌, ◌%◌, ◌≡◌, ◌↔◌, arith, List, [], ◌∷◌, ◌++◌, All, IsByte}
use gomodbus.Go.{ok}
use gomodbus.Crc.BitLoop.{crc16}
use gomodbus.Tcp.Transport.{stream_conn}
use gomodbus.Enhanced.{rtu_pack, rtu_unpack}
use gomodbus.Enhanced.Rtu.{receive, counted, receive-rtu_pack}
use gomodbus.Enhanced.Unpack.{rtu_unpack-rtu_pack_iff}

abbrev registers_unit : List ℕ
registers_unit = 3 ∷ 2 ∷ 1 ∷ 44 ∷ []

registers_unit-All : All IsByte registers_unit
registers_unit-All = (omega arith, (omega arith, (omega arith, (omega arith, tt))))

receive-rtu_pack_example :
    receive stream_conn (record { incoming = rtu_pack 9 registers_unit ++ (7 ∷ []); outgoing = [] })
    ≡ (ok (9, registers_unit), record { incoming = 7 ∷ []; outgoing = [] })
receive-rtu_pack_example =
    receive-rtu_pack 9 (7 ∷ []) (counted 3 (1 ∷ 44 ∷ []) (omega arith) (omega arith)) (omega arith)
      registers_unit-All

rtu_unpack-rtu_pack_iff_example :
    (rtu_unpack (rtu_pack 9 registers_unit) ≡ ok (9, registers_unit))
    ↔ (crc16 (9 ∷ registers_unit) / 256 ≡ crc16 (9 ∷ registers_unit) % 256)
rtu_unpack-rtu_pack_iff_example =
    rtu_unpack-rtu_pack_iff 9 registers_unit (omega arith) registers_unit-All
