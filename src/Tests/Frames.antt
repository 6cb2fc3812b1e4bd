-- ===== src/Tests/Frames.antt =====
-- The checksums and the RTU frames on the messages that the tests of the repository use.
use gomodbus.Prelude.{inl}
use gomodbus.Prelude.{ℕ, ◌≡◌, ◌≢◌, inl, refl, arith, List, [], ◌∷◌}
use gomodbus.Go.{Outcome, ok, err, panic, Error}
use gomodbus.Pdu.{Pdu}
use gomodbus.Crc.{reset, push_bytes, value}
use gomodbus.Crc.BitLoop.{crc16}
use gomodbus.Crc.Equivalence.{crc16-eq-value, swap_bytes}
use gomodbus.Rtu.Delay.{calculate_delay, calculate_delay_bounds}
use gomodbus.Prelude.{pos, ◌+◌, ◌*◌, ◌^◌, ◌≤◌, ◌<◌}
use gomodbus.Rtu.{RtuPackager, encode, verify, decode, real_length}
use gomodbus.Rtu.RoundTrip.{decode-encode}
use gomodbus.Rtu.Sound.{IsFrameOf, decode-IsFrameOf}
use gomodbus.Rtu.Corruption.{decode-ne-ok_of_burst}

abbrev packager : RtuPackager
packager = record { slave_id = 1 }

abbrev write_pdu : Pdu
write_pdu = record { function_code = 16; payload = 0x5f ∷ 0x01 ∷ 0x00 ∷ [] }

abbrev write_frame : List ℕ
write_frame = 1 ∷ 16 ∷ 0x5f ∷ 0x01 ∷ 0x00 ∷ 0x2c ∷ 0x82 ∷ []

abbrev read_pdu : Pdu
read_pdu = record { function_code = 3; payload = 2 ∷ 0x12 ∷ 0x34 ∷ [] }

abbrev coil_bytes : List ℕ
coil_bytes = 0x02 ∷ 0x07 ∷ []

crc_of_coil_bytes : value (push_bytes reset coil_bytes) ≡ 0x1241
unfolding value push_bytes gomodbus.Crc.push_byte gomodbus.Crc.Table.crc_low_bytes reset
    gomodbus.Crc.Table.crc_high_bytes
crc_of_coil_bytes = refl

crc16_of_coil_bytes : crc16 coil_bytes ≡ 0x4112
unfolding crc16 gomodbus.Crc.BitLoop.crc16_loop gomodbus.Crc.BitLoop.shift_loop
    gomodbus.Crc.BitLoop.shift_once
crc16_of_coil_bytes = refl

encode_write : encode packager write_pdu ≡ ok write_frame
unfolding encode value push_bytes gomodbus.Crc.push_byte gomodbus.Crc.Table.crc_low_bytes reset
    gomodbus.Crc.Table.crc_high_bytes
encode_write = refl

-- `TestCRC` and the same message under `CRC16`.
crc16-eq-value_example : crc16 coil_bytes ≡ swap_bytes (value (push_bytes reset coil_bytes))
crc16-eq-value_example = crc16-eq-value coil_bytes (omega arith, (omega arith, tt))

decode-encode_example :
    (adu : List ℕ) × (encode packager write_pdu ≡ ok adu) × (decode adu ≡ ok write_pdu)
decode-encode_example =
    decode-encode packager write_pdu (omega arith)
      (record { code = omega arith; bytes = (omega arith, (omega arith, (omega arith, tt))) })
      (omega arith) (inl (omega arith))

decode-IsFrameOf_example : IsFrameOf write_pdu write_frame
unfolding decode real_length gomodbus.Rtu.decode_frame gomodbus.Go.minus gomodbus.Go.slice
    gomodbus.Go.index value push_bytes gomodbus.Crc.push_byte gomodbus.Crc.Table.crc_low_bytes reset
    gomodbus.Crc.Table.crc_high_bytes
decode-IsFrameOf_example =
    decode-IsFrameOf write_frame write_pdu
      (
        omega arith,
        (
          omega arith,
          (omega arith, (omega arith, (omega arith, (omega arith, (omega arith, tt))))),
        ),
      )
      refl

-- The last byte of the body and the first one of the checksum are damaged.
decode-ne-ok_of_burst_example : decode (1 ∷ 16 ∷ 0x5f ∷ 1 ∷ 7 ∷ 0x99 ∷ 0x82 ∷ []) ≢ ok write_pdu
unfolding real_length value push_bytes gomodbus.Crc.push_byte gomodbus.Crc.Table.crc_low_bytes reset
    gomodbus.Crc.Table.crc_high_bytes
decode-ne-ok_of_burst_example =
    decode-ne-ok_of_burst (1 ∷ 16 ∷ 0x5f ∷ 1 ∷ 0 ∷ []) (1 ∷ 16 ∷ 0x5f ∷ 1 ∷ []) 0 0x2c 7 0x99
      (0x82 ∷ []) write_pdu refl
      (omega arith, (omega arith, (omega arith, (omega arith, (omega arith, tt)))))
      (omega arith, omega arith) (inl (omega arith)) refl

-- A request of 8 bytes and a response of 7 at 9600 baud.
calculate_delay_run : calculate_delay (pos 9600) 15 ≡ 27075
unfolding calculate_delay gomodbus.Rtu.Delay.delays
calculate_delay_run = refl

calculate_delay_bounds_example :
    (750 * 15 + 1750 ≤ calculate_delay (pos 9600) 15)
    × (calculate_delay (pos 9600) 15 * 1000 < 2 ^ 63)
calculate_delay_bounds_example = calculate_delay_bounds (pos 9600) 15 (omega arith)
