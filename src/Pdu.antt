-- ===== src/Pdu.antt =====
-- modbus.go: the protocol data unit, the function codes and the exception codes.
use gomodbus.Prelude.{ℕ, List}

-- `ProtocolDataUnit`; its field `Data` is `payload` here.
pub record Pdu : Type 0 where
  pub function_code : ℕ
  pub payload : List ℕ
