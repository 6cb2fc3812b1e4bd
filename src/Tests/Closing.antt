-- ===== src/Tests/Closing.antt =====
-- Connections that are closed and used again.
use gomodbus.Prelude.{◌≡◌, refl, false, List, [], ◌∷◌}
use gomodbus.Go.{ok}
use gomodbus.Connection.{
  Handle, absent, live, closed, Connection, close_serial, close_tcp, Call, connecting, closing,
  sending, idling, calls,
}
use gomodbus.Connection.Lifecycle.{IsUsable, calls_tcp-IsUsable, calls_serial-closed}

abbrev fresh : Connection
fresh = record { handle = absent; idle_timeout = 60; last_activity = 0; has_timer = false }

-- A request, a pause behind the timeout, and a second request.
abbrev two_requests : List Call
two_requests = sending 5 (ok tt) ∷ idling 70 (ok tt) ∷ sending 90 (ok tt) ∷ []

tcp_run : (calls close_tcp two_requests fresh).handle ≡ live
unfolding calls gomodbus.Connection.call gomodbus.Connection.begin gomodbus.Client.Backend.◌>>=◌
    gomodbus.Connection.connect gomodbus.Connection.close_idle gomodbus.Connection.start_close_timer
    close_tcp
tcp_run = refl

serial_run : (calls close_serial two_requests fresh).handle ≡ closed
unfolding calls gomodbus.Connection.call gomodbus.Connection.begin gomodbus.Client.Backend.◌>>=◌
    gomodbus.Connection.connect gomodbus.Connection.close_idle gomodbus.Connection.start_close_timer
    close_serial
serial_run = refl

calls_tcp-IsUsable_example : IsUsable (calls close_tcp two_requests fresh).handle
calls_tcp-IsUsable_example = calls_tcp-IsUsable two_requests fresh tt

calls_serial-closed_example :
    (calls close_serial (closing (ok tt) ∷ two_requests) (record fresh { handle = live })).handle
    ≡ closed
calls_serial-closed_example =
    calls_serial-closed (ok tt) two_requests (record fresh { handle = live }) (λ p. cc)
