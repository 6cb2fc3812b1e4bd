-- ===== src/Rtu/Length.antt =====
-- rtuclient.go: how long the response to a request will be.
use gomodbus.Prelude.{ℕ, ◌+◌, ◌*◌, ◌/◌, ◌%◌, List, ◌==◌, ◌||◌, if◌then◌else◌}
use gomodbus.Go.{Outcome, ok, ◌>>=◌, index, slice_from, uint16}
use gomodbus.Rtu.{rtu_min_size}

-- The cases of the switch, on the function code and the request.
abbrev pub response_length_of : ℕ → List ℕ → Outcome ℕ
response_length_of function adu =
    if function == 2 || function == 1
    then (do
      field ← slice_from adu 4
      count ← uint16 field
      ok (rtu_min_size + (1 + count / 8) + (if count % 8 == 0 then 0 else 1)))
    else if function == 4 || (function == 3 || function == 23)
    then (do field ← slice_from adu 4; count ← uint16 field; ok (rtu_min_size + (1 + count * 2)))
    else if function == 5 || (function == 15 || (function == 6 || function == 16))
    then ok (rtu_min_size + 4)
    else if function == 22
    then ok (rtu_min_size + 6)
    else ok rtu_min_size

-- `calculateResponseLength`
unfoldable pub calculate_response_length : List ℕ → Outcome ℕ
calculate_response_length adu = do function ← index adu 1; response_length_of function adu
