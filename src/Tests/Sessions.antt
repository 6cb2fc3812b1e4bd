-- ===== src/Tests/Sessions.antt =====
-- A read over a connection, and a scan of a serial port.
use gomodbus.Prelude.{◌≡◌, arith, [], ◌∷◌, ◌++◌, length}
use gomodbus.Prelude.{none}
use gomodbus.Go.{ok, put_uint16}
use gomodbus.Tcp.Transport.{Stream, stream_conn}
use gomodbus.Enhanced.{tcp_pack, rtu_pack}
use gomodbus.Enhanced.Tcp.{tcp_transport}
use gomodbus.Handler.{pack_words, read_holding_registers}
use gomodbus.Handler.Session.{read_holding_registers-served}
use gomodbus.Handler.Scan.{scan_slaves}
use gomodbus.Enhanced.Rtu.{rtu_transport}
use gomodbus.Enhanced.Scan.{scan_slaves_rtu}
use gomodbus.Tests.Connections.{stream_laws}

-- The answer has another transaction number than the request.
read_holding_registers-served_example :
    read_holding_registers (tcp_transport stream_conn 0) 9 7 2 (record {
      incoming =
          tcp_pack 77 9
            (3 ∷ length (pack_words (0x102 ∷ 0x304 ∷ [])) ∷ pack_words (0x102 ∷ 0x304 ∷ []))
          ++ (5 ∷ []);
      outgoing = [];
    })
    ≡ (
      ok (0x102 ∷ 0x304 ∷ []),
      record {
        incoming = 5 ∷ [];
        outgoing = [] ++ tcp_pack 0 9 (3 ∷ (put_uint16 7 ++ put_uint16 2));
      },
    )
read_holding_registers-served_example =
    read_holding_registers-served 0 77 9 7 2 (0x102 ∷ 0x304 ∷ []) (5 ∷ []) [] (omega arith)
      (omega arith) (omega arith) (omega arith, (omega arith, tt))

-- A slave that has answered the request for its identity already.
scan_slaves_rtu_example :
    (t : Stream) × (scan_slaves
        (rtu_transport stream_conn)
        1
        10
        none
        (record { incoming = rtu_pack 1 (0x11 ∷ 2 ∷ 7 ∷ 0xff ∷ []); outgoing = [] })
      ≡ (ok [], t))
scan_slaves_rtu_example =
    scan_slaves_rtu stream_conn stream_laws 1 10 none
      (record { incoming = rtu_pack 1 (0x11 ∷ 2 ∷ 7 ∷ 0xff ∷ []); outgoing = [] }) (omega arith)
      (omega arith) (omega arith)
