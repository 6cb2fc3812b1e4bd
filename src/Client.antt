-- ===== src/Client.antt =====
-- client.go: the requests of a client, over any packager and transporter (Client/Backend).
pub mod Backend
pub mod Payload
pub mod Sent
pub mod Total
pub mod Responses
pub mod Exchange
pub mod Accepted
pub mod Objects
pub mod Identification
pub mod Identified
use gomodbus.Prelude.{ℕ, ◌+◌, Bool, List, [], ◌∷◌, length, ltb, ◌==◌, ◌!=◌, ◌&&◌, ◌||◌}
use gomodbus.Go.{Outcome, ok, err, panic, Error, fail_if}
use gomodbus.Pdu.{Pdu}
use Backend.{Action, Link, pure, lift, check, ◌>>=◌, ◌>>◌}
use Payload.{
  data_block, data_block_suffix, response_error, counted, echoed, echoed_masks, fifo_values,
}

module _ {S : Type 0} (mb : Link S) where
  -- `send` sends the request and checks a possible exception in the response.
  unfoldable pub send : Pdu → Action S Pdu
  send request = do
    adu_request ← mb.encode request
    adu_response ← mb.transmit adu_request
    lift (mb.verify adu_request adu_response)
    response ← lift (mb.decode adu_response)
    check (response.function_code != request.function_code) (response_error response)
    check (length response.payload == 0) Error.empty_data
    pure response

  -- The request of a read function with its limits, and the check of its response.
  unfoldable pub read_coils : ℕ → ℕ → Action S (List ℕ)
  read_coils address quantity = do
    check (ltb quantity 1 || ltb 2000 quantity) (Error.quantity_out_of_range quantity 1 2000)
    response ← send (record { function_code = 1; payload = data_block (address ∷ quantity ∷ []) })
    lift (counted response)

  unfoldable pub read_discrete_inputs : ℕ → ℕ → Action S (List ℕ)
  read_discrete_inputs address quantity = do
    check (ltb quantity 1 || ltb 2000 quantity) (Error.quantity_out_of_range quantity 1 2000)
    response ← send (record { function_code = 2; payload = data_block (address ∷ quantity ∷ []) })
    lift (counted response)

  unfoldable pub read_holding_registers : ℕ → ℕ → Action S (List ℕ)
  read_holding_registers address quantity = do
    check (ltb quantity 1 || ltb 125 quantity) (Error.quantity_out_of_range quantity 1 125)
    response ← send (record { function_code = 3; payload = data_block (address ∷ quantity ∷ []) })
    lift (counted response)

  unfoldable pub read_input_registers : ℕ → ℕ → Action S (List ℕ)
  read_input_registers address quantity = do
    check (ltb quantity 1 || ltb 125 quantity) (Error.quantity_out_of_range quantity 1 125)
    response ← send (record { function_code = 4; payload = data_block (address ∷ quantity ∷ []) })
    lift (counted response)

  unfoldable pub write_single_coil : ℕ → ℕ → Action S (List ℕ)
  write_single_coil address value = do
    check (value != 0xff00 && value != 0x0000) (Error.bad_state value)
    response ← send (record { function_code = 5; payload = data_block (address ∷ value ∷ []) })
    lift (echoed address value response)

  unfoldable pub write_single_register : ℕ → ℕ → Action S (List ℕ)
  write_single_register address value = do
    response ← send (record { function_code = 6; payload = data_block (address ∷ value ∷ []) })
    lift (echoed address value response)

  unfoldable pub write_multiple_coils : ℕ → ℕ → List ℕ → Action S (List ℕ)
  write_multiple_coils address quantity value = do
    check (ltb quantity 1 || ltb 1968 quantity) (Error.quantity_out_of_range quantity 1 1968)
    response ←
        send (record {
          function_code = 15;
          payload = data_block_suffix value (address ∷ quantity ∷ []);
        })
    lift (echoed address quantity response)

  unfoldable pub write_multiple_registers : ℕ → ℕ → List ℕ → Action S (List ℕ)
  write_multiple_registers address quantity value = do
    check (ltb quantity 1 || ltb 123 quantity) (Error.quantity_out_of_range quantity 1 123)
    response ←
        send (record {
          function_code = 16;
          payload = data_block_suffix value (address ∷ quantity ∷ []);
        })
    lift (echoed address quantity response)

  unfoldable pub mask_write_register : ℕ → ℕ → ℕ → Action S (List ℕ)
  mask_write_register address and_mask or_mask = do
    response ←
        send
          (record { function_code = 22; payload = data_block (address ∷ and_mask ∷ or_mask ∷ []) })
    lift (echoed_masks address and_mask or_mask response)

  unfoldable pub read_write_multiple_registers : ℕ → ℕ → ℕ → ℕ → List ℕ → Action S (List ℕ)
  read_write_multiple_registers read_address read_quantity write_address write_quantity value = do
    check (ltb read_quantity 1 || ltb 125 read_quantity)
        (Error.quantity_out_of_range read_quantity 1 125)
    check (ltb write_quantity 1 || ltb 121 write_quantity)
        (Error.quantity_out_of_range write_quantity 1 121)
    response ← send (record {
      function_code = 23;
      payload =
          data_block_suffix value
            (read_address ∷ read_quantity ∷ write_address ∷ write_quantity ∷ []);
    })
    lift (counted response)

  unfoldable pub read_fifo_queue : ℕ → Action S (List ℕ)
  read_fifo_queue address = do
    response ← send (record { function_code = 24; payload = data_block (address ∷ []) })
    lift (fifo_values response)

  unfoldable pub read_with_custom_function : ℕ → ℕ → ℕ → Action S (List ℕ)
  read_with_custom_function code address quantity = do
    check (ltb quantity 1 || ltb 125 quantity) (Error.quantity_out_of_range quantity 1 125)
    response ←
        send (record { function_code = code; payload = data_block (address ∷ quantity ∷ []) })
    lift (counted response)

  -- `SendRawBytes`, over the raw exchange of the transporter.
  unfoldable pub send_raw_bytes : (List ℕ → Action S (List ℕ)) → List ℕ → Action S (List ℕ)
  send_raw_bytes exchange bytes = do
    check (ltb (length bytes) 1) Error.bad_data_length
    exchange bytes
