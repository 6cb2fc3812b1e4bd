-- ===== src/Connection.antt =====
-- serial.go and the connection of tcpclient.go: opening, closing and the idle timer. The device or the
-- socket is what an outcome of the operating system says; times are numbers.
pub mod Lifecycle
use gomodbus.Prelude.{ℕ, ◌-◌, Bool, true, false, List, [], ◌∷◌, ltb, leb, ◌==◌, if◌then◌else◌}
use gomodbus.Go.{Outcome, ok, err, panic}
use gomodbus.Client.Backend.{Action, pure, ◌>>=◌, ◌>>◌}

-- The field `port` or `conn`: nil, open, or set to what was closed.
pub data Handle : Type 0 where
  absent live closed : Handle

pub record Connection : Type 0 where
  pub handle : Handle
  pub idle_timeout : ℕ
  pub last_activity : ℕ
  pub has_timer : Bool

-- What `serial.Open` or `Dial` returns, for a field that is nil.
abbrev pub opened : Outcome (Unit {0}) → Connection → Outcome (Unit {0}) × Connection
opened (ok _) c = (ok tt, record c { handle = live })
opened (err e) c = (err e, c)
opened panic c = (panic, c)

-- `connect`, which is the same for both.
abbrev pub connect_at : Handle → Outcome (Unit {0}) → Action Connection (Unit {0})
connect_at absent opening c = opened opening c
connect_at live opening c = (ok tt, c)
connect_at closed opening c = (ok tt, c)

unfoldable pub connect : Outcome (Unit {0}) → Action Connection (Unit {0})
connect opening c = connect_at c.handle opening c

unfoldable pub start_close_timer : Connection → Connection
start_close_timer c = if c.idle_timeout == 0 then c else record c { has_timer = true }

-- The start of `Send`, at a time.
unfoldable pub begin : ℕ → Outcome (Unit {0}) → Action Connection (Unit {0})
begin now opening = do
  connect opening
  λ c. (ok tt, start_close_timer (record c { last_activity = now }))

-- `Close` of serial.go, with what closing the device returns.
abbrev pub close_serial_at : Handle → Outcome (Unit {0}) → Action Connection (Unit {0})
close_serial_at absent closing c = (ok tt, c)
close_serial_at live closing c = (closing, record c { handle = closed })
close_serial_at closed closing c = (closing, c)

unfoldable pub close_serial : Outcome (Unit {0}) → Action Connection (Unit {0})
close_serial closing c = close_serial_at c.handle closing c

-- `close` of tcpclient.go
abbrev pub close_tcp_at : Handle → Outcome (Unit {0}) → Action Connection (Unit {0})
close_tcp_at absent closing c = (ok tt, c)
close_tcp_at live closing c = (closing, record c { handle = absent })
close_tcp_at closed closing c = (closing, record c { handle = absent })

unfoldable pub close_tcp : Outcome (Unit {0}) → Action Connection (Unit {0})
close_tcp closing c = close_tcp_at c.handle closing c

-- `closeIdle` of both, which the timer calls at a time, with the `Close` that it uses.
unfoldable pub close_idle : Action Connection (Unit {0}) → ℕ → Connection → Connection
close_idle close now c =
    if c.idle_timeout == 0
    then c
    else if leb c.idle_timeout (now - c.last_activity)
    then (close c).1
    else c

-- The calls that change a connection, with the times and the outcomes of the operating system.
pub data Call : Type 0 where
  connecting closing : Outcome (Unit {0}) → Call
  sending idling : ℕ → Outcome (Unit {0}) → Call

unfoldable pub call :
    (Outcome (Unit {0}) → Action Connection (Unit {0})) → Call → Connection → Connection
call close (connecting o) c = (connect o c).1
call close (closing o) c = (close o c).1
call close (sending now o) c = (begin now o c).1
call close (idling now o) c = close_idle (close o) now c

unfoldable pub calls :
    (Outcome (Unit {0}) → Action Connection (Unit {0})) → List Call → Connection → Connection
calls close [] c = c
calls close (x ∷ xs) c = calls close xs (call close x c)
