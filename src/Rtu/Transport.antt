-- ===== src/Rtu/Transport.antt =====
-- rtuclient.go: the exchange of a request and a response over a serial port.
use gomodbus.Prelude.{ℕ, ◌+◌, ◌-◌, List, ◌++◌, length, get_or, bit_and}
use gomodbus.Prelude.{ltb, leb, ◌==◌, ◌&&◌, if◌then◌else◌}
use gomodbus.Go.{index}
use gomodbus.Client.Backend.{Action, pure, lift, ◌>>=◌, ◌>>◌}
use gomodbus.Rtu.{rtu_min_size, rtu_max_size, rtu_exception_size}
use gomodbus.Rtu.Length.{calculate_response_length}

-- What the code uses of the serial port and of `io`: `read_at_least` into a buffer of a size.
pub record Port (P : Type 0) : Type 0 where
  pub connect : Action P (Unit {0})
  pub write : List ℕ → Action P (Unit {0})
  pub delay : ℕ → Action P (Unit {0})
  pub read_at_least : ℕ → ℕ → Action P (List ℕ)
  pub read_full : ℕ → Action P (List ℕ)

module _ {P : Type 0} (port : Port P) where
  -- The second read, by the function code of what was received first.
  unfoldable pub read_rest : ℕ → ℕ → ℕ → List ℕ → Action P (List ℕ)
  read_rest function function_fail bytes_to_read start =
      let n = length start in
      let code = get_or start 1 0 in
      if code == function
      then if ltb n bytes_to_read
          && (ltb rtu_min_size bytes_to_read
              && (leb bytes_to_read rtu_max_size && ltb n bytes_to_read))
        then (do rest ← port.read_full (bytes_to_read - n); pure (start ++ rest))
        else pure start
      else if code == function_fail && ltb n rtu_exception_size
      then (do rest ← port.read_full (rtu_exception_size - n); pure (start ++ rest))
      else pure start

  unfoldable pub send : List ℕ → Action P (List ℕ)
  send adu_request = do
    port.connect
    port.write adu_request
    function ← lift (index adu_request 1)
    bytes_to_read ← lift (calculate_response_length adu_request)
    port.delay (length adu_request + bytes_to_read)
    start ← port.read_at_least rtu_max_size rtu_min_size
    read_rest function (bit_and function 0x80) bytes_to_read start
