-- ===== src/Handler.antt =====
-- enhancement_handler.go: the requests of the handler over a transport that sends a unit to a slave
-- and receives one. What it logs is left out.
pub mod Checks
pub mod Reads
pub mod Session
pub mod Scan
use Checks.{check_function, counted_bytes, echoed_words}
use gomodbus.Prelude.{
  ℕ, suc, zero, ◌+◌, ◌-◌, ◌*◌, ◌/◌, ◌%◌, ◌^◌, Bool, true, false, not, List, [], ◌∷◌, ◌++◌, length,
  get_or, take, replicate, bit_and, bit_or, u8, u16, ◌<<<◌,
}
use gomodbus.Prelude.{ltb, ◌==◌, ◌!=◌, ◌&&◌, ◌||◌, if◌then◌else◌}
use gomodbus.Go.{Outcome, ok, err, panic, Error, index, slice, uint16, put_uint16}
use gomodbus.Client.Backend.{Action, pure, lift, check, ◌>>=◌, ◌>>◌}

-- `Send` and `Receive` of the transport for the mode of the handler.
pub record Transport (S : Type 0) : Type 0 where
  pub send : ℕ → List ℕ → Action S (Unit {0})
  pub receive : Action S (ℕ × List ℕ)

unfoldable pub build_request_pdu : ℕ → List ℕ → List ℕ
build_request_pdu function_code bytes = function_code ∷ bytes

-- The bits of the loop of `ReadCoils` from a bit on, for the quantity that is left; bits behind the
-- data stay false.
unfoldable pub unpack_bits : List ℕ → ℕ → ℕ → List Bool
unpack_bits xs i zero = []
unpack_bits xs i (suc n) =
    (if ltb (i / 8) (length xs)
      then bit_and (get_or xs (i / 8) 0) (u8 (1 <<< (i % 8))) != 0
      else false)
    ∷ unpack_bits xs (i + 1) n

-- The words of the loop of `ReadHoldingRegisters`, on an even number of bytes.
unfoldable pub unpack_words : List ℕ → List ℕ
unpack_words [] = []
unpack_words (x ∷ []) = []
unpack_words (x ∷ y ∷ xs) = (x * 256 + y) ∷ unpack_words xs

-- The buffer of `WriteMultipleCoils`, from a bit on.
abbrev pub set_byte : List ℕ → ℕ → ℕ → List ℕ
set_byte [] i v = []
set_byte (x ∷ xs) zero v = bit_or x v ∷ xs
set_byte (x ∷ xs) (suc i) v = x ∷ set_byte xs i v

-- Setting a bit behind the buffer panics.
unfoldable pub pack_bits : List ℕ → ℕ → List Bool → Outcome (List ℕ)
pack_bits buffer i [] = ok buffer
pack_bits buffer i (true ∷ vs) =
    if ltb (i / 8) (length buffer)
    then pack_bits (set_byte buffer (i / 8) (u8 (1 <<< (i % 8)))) (i + 1) vs
    else panic
pack_bits buffer i (false ∷ vs) = pack_bits buffer (i + 1) vs

-- The words of `WriteMultipleRegisters`.
unfoldable pub pack_words : List ℕ → List ℕ
pack_words [] = []
pack_words (v ∷ vs) = put_uint16 v ++ pack_words vs

module _ {S : Type 0} (h : Transport S) where
  -- `sendAndReceive`: the answer comes from the same slave and is no exception.
  unfoldable pub send_and_receive : ℕ → List ℕ → Action S (List ℕ)
  send_and_receive slave_id req_pdu = do
    h.send slave_id req_pdu
    received ← h.receive
    check (received.0 != slave_id) (Error.slave_mismatch received.0 slave_id)
    check (ltb 0 (length received.1) && bit_and (get_or received.1 0 0) 0x80 != 0)
        (Error.modbus_error (get_or received.1 0 0) (get_or received.1 1 0))
    pure received.1

  unfoldable pub read_modbus_data : ℕ → ℕ → ℕ → ℕ → Action S (List ℕ)
  read_modbus_data function_code slave_id start_address quantity = do
    resp_pdu ←
        send_and_receive (u8 slave_id)
          (build_request_pdu function_code (put_uint16 start_address ++ put_uint16 quantity))
    lift (counted_bytes function_code resp_pdu)

  unfoldable pub write_modbus_data : ℕ → ℕ → List ℕ → ℕ → Action S (List ℕ)
  write_modbus_data function_code slave_id pdu_data expected_length = do
    resp_pdu ← send_and_receive (u8 slave_id) (build_request_pdu function_code pdu_data)
    lift (check_function function_code resp_pdu)
    check (length resp_pdu != expected_length)
        (Error.unexpected_length (length resp_pdu) expected_length)
    pure resp_pdu

  unfoldable pub read_coils : ℕ → ℕ → ℕ → Action S (List Bool)
  read_coils slave_id start_address quantity = do
    bytes ← read_modbus_data 1 slave_id start_address quantity
    pure (unpack_bits bytes 0 quantity)

  unfoldable pub read_discrete_inputs : ℕ → ℕ → ℕ → Action S (List Bool)
  read_discrete_inputs slave_id start_address quantity = do
    bytes ← read_modbus_data 2 slave_id start_address quantity
    pure (unpack_bits bytes 0 quantity)

  unfoldable pub read_holding_registers : ℕ → ℕ → ℕ → Action S (List ℕ)
  read_holding_registers slave_id start_address quantity = do
    bytes ← read_modbus_data 3 slave_id start_address quantity
    check (length bytes % 2 != 0) (Error.odd_register_bytes (length bytes))
    pure (unpack_words bytes)

  unfoldable pub read_input_registers : ℕ → ℕ → ℕ → Action S (List ℕ)
  read_input_registers slave_id start_address quantity = do
    bytes ← read_modbus_data 4 slave_id start_address quantity
    check (length bytes % 2 != 0) (Error.odd_register_bytes (length bytes))
    pure (unpack_words bytes)

  unfoldable pub read_with_mask : ℕ → ℕ → ℕ → ℕ → Action S ℕ
  read_with_mask slave_id read_address and_mask or_mask = do
    values ← read_holding_registers slave_id read_address 1
    check (length values == 0) Error.no_register
    pure (bit_or (bit_and (get_or values 0 0) and_mask) or_mask)

  unfoldable pub write_single_coil : ℕ → ℕ → Bool → Action S (Unit {0})
  write_single_coil slave_id address value = do
    resp_pdu ←
        write_modbus_data 5 slave_id
          (put_uint16 address ++ put_uint16 (if value then 0xff00 else 0x0000)) 5
    echo ← lift (echoed_words resp_pdu)
    check (echo.0 != address) (Error.address_mismatch echo.0 address)
    check (echo.1 != 0x0000 && echo.1 != 0xff00) (Error.bad_state echo.1)
    check (value && echo.1 != 0xff00) (Error.value_mismatch echo.1 0xff00)
    check (not value && echo.1 != 0x0000) (Error.value_mismatch echo.1 0x0000)

  unfoldable pub write_single_register : ℕ → ℕ → ℕ → Action S (Unit {0})
  write_single_register slave_id address value = do
    resp_pdu ← write_modbus_data 6 slave_id (put_uint16 address ++ put_uint16 value) 5
    echo ← lift (echoed_words resp_pdu)
    check (echo.0 != address) (Error.address_mismatch echo.0 address)
    check (echo.1 != value) (Error.value_mismatch echo.1 value)

  unfoldable pub write_multiple_coils : ℕ → ℕ → List Bool → Action S (Unit {0})
  write_multiple_coils slave_id start_address values = do
    let quantity = u16 (length values)
    let byte_count = u16 (quantity + 7) / 8
    coils ← lift (pack_bits (replicate byte_count 0) 0 (take quantity values))
    resp_pdu ←
        write_modbus_data 15 slave_id
          (put_uint16 start_address ++ (put_uint16 quantity ++ (u8 byte_count ∷ coils))) 5
    echo ← lift (echoed_words resp_pdu)
    check (echo.0 != start_address) (Error.address_mismatch echo.0 start_address)
    check (echo.1 != quantity) (Error.count_mismatch echo.1 quantity)

  -- The buffer is too short for the values when twice their number does not fit 16 bits.
  unfoldable pub write_multiple_registers : ℕ → ℕ → List ℕ → Action S (Unit {0})
  write_multiple_registers slave_id start_address values = do
    let quantity = u16 (length values)
    let byte_count = u16 (quantity * 2)
    registers ← lift (if ltb byte_count (length values * 2) then panic else ok (pack_words values))
    resp_pdu ←
        write_modbus_data 16 slave_id
          (put_uint16 start_address ++ (put_uint16 quantity ++ (u8 byte_count ∷ registers))) 5
    echo ← lift (echoed_words resp_pdu)
    check (echo.0 != start_address) (Error.address_mismatch echo.0 start_address)
    check (echo.1 != quantity) (Error.count_mismatch echo.1 quantity)

  unfoldable pub read_custom_data : ℕ → ℕ → ℕ → ℕ → Action S (List ℕ)
  read_custom_data function_code slave_id start_address quantity =
      read_modbus_data (u8 function_code) slave_id start_address quantity
