-- ===== src/Handler/Checks.antt =====
-- enhancement_handler.go: the checks of the units that the handler receives.
use gomodbus.Prelude.{ℕ, ◌+◌, ◌-◌, List, length, get_or, ltb, ◌==◌, ◌!=◌, ◌||◌, if◌then◌else◌}
use gomodbus.Go.{Outcome, ok, err, Error, ◌>>=◌, ◌>>◌, fail_if, index, slice, uint16}

-- The comparison of the function code; the message of the error reads the first byte.
unfoldable pub check_function : ℕ → List ℕ → Outcome (Unit {0})
check_function function_code pdu =
    if length pdu == 0 || get_or pdu 0 0 != function_code
    then (do code ← index pdu 0; err (Error.unexpected_function code function_code))
    else ok tt

-- The checks of a counted response, and its bytes.
unfoldable pub counted_bytes : ℕ → List ℕ → Outcome (List ℕ)
counted_bytes function_code pdu = do
  check_function function_code pdu
  fail_if (ltb (length pdu) 2) (Error.unexpected_length (length pdu) 2)
  byte_count ← index pdu 1
  fail_if (length pdu != 2 + byte_count) (Error.unexpected_length (length pdu - 2) byte_count)
  slice pdu 2 (2 + byte_count)

-- The address and the value that a response repeats.
unfoldable pub echoed_words : List ℕ → Outcome (ℕ × ℕ)
echoed_words resp_pdu = do
  address_bytes ← slice resp_pdu 1 3
  resp_address ← uint16 address_bytes
  value_bytes ← slice resp_pdu 3 5
  resp_value ← uint16 value_bytes
  ok (resp_address, resp_value)
