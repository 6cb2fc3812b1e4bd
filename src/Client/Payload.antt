-- ===== src/Client/Payload.antt =====
-- client.go: the payloads of requests, and the checks of the payloads of responses.
use gomodbus.Prelude.{ℕ, ◌-◌, List, [], ◌∷◌, ◌++◌, length, u8, ltb, ◌!=◌}
use gomodbus.Go.{Outcome, ok, Error, ◌>>=◌, ◌>>◌, fail_if, index, slice_from, uint16, put_uint16}
use gomodbus.Pdu.{Pdu}

-- `dataBlock`: each value as two bytes, the high one first.
unfoldable pub data_block : List ℕ → List ℕ
data_block [] = []
data_block (v ∷ vs) = put_uint16 v ++ data_block vs

-- `dataBlockSuffix`: the values, the length of the suffix as one byte, and the suffix.
unfoldable pub data_block_suffix : List ℕ → List ℕ → List ℕ
data_block_suffix suffix values = data_block values ++ (u8 (length suffix) ∷ suffix)

-- `responseError`
unfoldable pub response_error : Pdu → Error
response_error response = elim response.payload [
  | [] ↦ Error.modbus_error response.function_code 0
  | code ∷ rest ↦ Error.modbus_error response.function_code code
]

-- The tail of the read functions: the first byte counts the others, which are the result.
unfoldable pub counted : Pdu → Outcome (List ℕ)
counted response = do
  count ← index response.payload 0
  let size = length response.payload - 1
  fail_if (count != size) (Error.count_mismatch size count)
  slice_from response.payload 1

-- The tail of the write functions: the response repeats the address and the value.
unfoldable pub echoed : ℕ → ℕ → Pdu → Outcome (List ℕ)
echoed address value response = do
  fail_if (length response.payload != 4) (Error.size_mismatch (length response.payload) 4)
  resp_address ← uint16 response.payload
  fail_if (address != resp_address) (Error.address_mismatch resp_address address)
  results ← slice_from response.payload 2
  resp_value ← uint16 results
  fail_if (value != resp_value) (Error.value_mismatch resp_value value)
  ok results

-- The tail of `MaskWriteRegister`.
unfoldable pub echoed_masks : ℕ → ℕ → ℕ → Pdu → Outcome (List ℕ)
echoed_masks address and_mask or_mask response = do
  fail_if (length response.payload != 6) (Error.size_mismatch (length response.payload) 6)
  resp_address ← uint16 response.payload
  fail_if (address != resp_address) (Error.address_mismatch resp_address address)
  masks ← slice_from response.payload 2
  resp_and ← uint16 masks
  fail_if (and_mask != resp_and) (Error.and_mask_mismatch resp_and and_mask)
  last ← slice_from response.payload 4
  resp_or ← uint16 last
  fail_if (or_mask != resp_or) (Error.or_mask_mismatch resp_or or_mask)
  slice_from response.payload 2

-- The tail of `ReadFIFOQueue`.
unfoldable pub fifo_values : Pdu → Outcome (List ℕ)
fifo_values response = do
  let size = length response.payload
  fail_if (ltb size 4) (Error.size_below size 4)
  byte_count ← uint16 response.payload
  fail_if (byte_count != (size - 1)) (Error.count_mismatch (size - 1) byte_count)
  queue ← slice_from response.payload 2
  fifo_count ← uint16 queue
  fail_if (ltb 31 fifo_count) (Error.fifo_too_long fifo_count)
  slice_from response.payload 4
