-- ===== src/Tcp/Transport.antt =====
-- tcpclient.go: the exchange of a request and a response over a connection.
use gomodbus.Prelude.{ℕ, ◌+◌, ◌-◌, List, [], ◌++◌, length, take, drop}
use gomodbus.Prelude.{Bool, true, false, ltb, leb, ◌==◌, if◌then◌else◌, ◌≡◌, ◌≢◌}
use gomodbus.Go.{ok, err, panic, Error, slice_from, uint16}
use gomodbus.Client.Backend.{Action, pure, lift, ◌>>=◌, ◌>>◌}

-- What the code uses of `net.Conn`, `io.ReadFull` and `net.Dialer`; `flush` drops what is pending.
pub record Conn (C : Type 0) : Type 0 where
  pub connect : Action C (Unit {0})
  pub set_deadline : Action C (Unit {0})
  pub write : List ℕ → Action C (Unit {0})
  pub read_full : ℕ → Action C (List ℕ)
  pub flush : C → C

-- `io.ReadFull` returns as many bytes as it was asked for, or an error; nothing panics.
pub record IsConn {C : Type 0} (conn : Conn C) : Type 0 where
  pub connect_total : (s : C) → (conn.connect s).0 ≢ panic
  pub set_deadline_total : (s : C) → (conn.set_deadline s).0 ≢ panic
  pub write_total : (bytes : List ℕ) (s : C) → (conn.write bytes s).0 ≢ panic
  pub read_total : (n : ℕ) (s : C) → (conn.read_full n s).0 ≢ panic
  pub read_length :
      (n : ℕ) (s t : C) (bytes : List ℕ) → conn.read_full n s ≡ (ok bytes, t) → length bytes ≡ n

module _ {C : Type 0} (conn : Conn C) where
  -- `if b { flush(); err = e; return }`
  unfoldable pub refuse : Bool → Error → Action C (Unit {0})
  refuse true e s = (err e, conn.flush s)
  refuse false e s = (ok tt, s)

  -- The first seven bytes say how many others follow.
  unfoldable pub send : List ℕ → Action C (List ℕ)
  send adu_request = do
    conn.connect
    conn.set_deadline
    conn.write adu_request
    header ← conn.read_full 7
    field ← lift (slice_from header 4)
    size ← lift (uint16 field)
    refuse (size == 0) Error.zero_length
    refuse (ltb 254 size) (Error.length_too_large size)
    rest ← conn.read_full (size + 6 - 7)
    pure (header ++ rest)

-- A connection whose peer sends a stream of bytes and then nothing more.
pub record Stream : Type 0 where
  pub incoming : List ℕ
  pub outgoing : List ℕ

abbrev pub stream_read : ℕ → Action Stream (List ℕ)
stream_read n s =
    if leb n (length s.incoming)
    then (ok (take n s.incoming), record s { incoming = drop n s.incoming })
    else (err (Error.io_error n), record s { incoming = [] })

abbrev pub stream_conn : Conn Stream
stream_conn = record {
  connect = pure tt;
  set_deadline = pure tt;
  write = λ bytes s. (ok tt, record s { outgoing = s.outgoing ++ bytes });
  read_full = stream_read;
  flush = λ s. record s { incoming = [] };
}
