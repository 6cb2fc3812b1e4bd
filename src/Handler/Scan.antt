-- ===== src/Handler/Scan.antt =====
-- enhancement_handler.go: the requests without a fixed response, and the scan for slaves.
use gomodbus.Prelude.{ℕ, suc, zero, ◌+◌, ◌-◌, List, [], ◌∷◌, ◌++◌, length, get_or}
use gomodbus.Prelude.{Option, none, some, ltb, leb, ◌==◌, ◌!=◌, ◌&&◌, ◌||◌, u8, u16, if◌then◌else◌}
use gomodbus.Go.{Outcome, ok, err, panic, Error, index, put_uint16}
use gomodbus.Client.Backend.{Action, pure, lift, check, ◌>>=◌, ◌>>◌}
use gomodbus.Handler.Checks.{check_function}
use gomodbus.Handler.{Transport, build_request_pdu, send_and_receive}

module _ {S : Type 0} (h : Transport S) where
  unfoldable pub write_custom_data : ℕ → ℕ → ℕ → List ℕ → Action S (Unit {0})
  write_custom_data func_code slave_id start_address bytes = do
    resp_pdu ← send_and_receive h (u8 slave_id) (
        build_request_pdu (u8 func_code)
          (put_uint16 start_address ++ (put_uint16 (u16 (length bytes)) ++ bytes)))
    lift (check_function (u8 func_code) resp_pdu)
    check (length resp_pdu != 1) (Error.unexpected_length (length resp_pdu) 1)

  unfoldable pub read_raw_device_identity : ℕ → Action S (List ℕ)
  read_raw_device_identity slave_id = do
    resp_pdu ← send_and_receive h (u8 slave_id) (build_request_pdu 0x11 [])
    check (ltb (length resp_pdu) 1 || get_or resp_pdu 0 0 != 0x11)
        (Error.unexpected_function (get_or resp_pdu 0 0) 0x11)
    pure resp_pdu

  unfoldable pub read_device_identity_with_handler :
      ℕ → (List ℕ → Action S (Unit {0})) → Action S (Unit {0})
  read_device_identity_with_handler slave_id handler = do
    resp ← read_raw_device_identity slave_id
    handler resp

  -- The status byte, which the code returns as text.
  unfoldable pub read_exception_status : ℕ → Action S ℕ
  read_exception_status slave_id = do
    resp_pdu ← send_and_receive h (u8 slave_id) (build_request_pdu 0x07 [])
    lift (check_function 0x07 resp_pdu)
    check (length resp_pdu != 2) (Error.unexpected_length (length resp_pdu) 2)
    lift (index resp_pdu 1)

  -- The callback of a scan, when there is one.
  abbrev pub notify : Option (ℕ → List ℕ → S → S) → ℕ → List ℕ → S → S
  notify none id resp s = s
  notify (some f) id resp s = f id resp s

  -- A slave is active when it answers without an error; a panic ends the scan.
  abbrev pub scanned : Option (ℕ → List ℕ → S → S) → ℕ → Outcome (List ℕ) × S → Outcome (List ℕ) × S
  scanned callback id (ok resp, s) =
      if leb 1 (length resp) && get_or resp 0 0 == 0x11
      then (ok (id ∷ []), notify callback id resp s)
      else (ok [], s)
  scanned callback id (err e, s) = (ok [], s)
  scanned callback id (panic, s) = (panic, s)

  -- The loop from an address on, for the number of addresses that are left.
  unfoldable pub scan_loop : Option (ℕ → List ℕ → S → S) → ℕ → ℕ → Action S (List ℕ)
  scan_loop callback id zero = pure []
  scan_loop callback id (suc n) = do
    active ← λ s. scanned callback id (read_raw_device_identity id s)
    others ← scan_loop callback (id + 1) n
    pure (active ++ others)

  unfoldable pub scan_slaves : ℕ → ℕ → Option (ℕ → List ℕ → S → S) → Action S (List ℕ)
  scan_slaves start_id end_id callback = do
    check (ltb start_id 1 || (ltb 247 end_id || ltb end_id start_id))
        (Error.bad_scan_range start_id end_id)
    scan_loop callback start_id (end_id + 1 - start_id)
