-- ===== src/Ascii/OverTcp.antt =====
-- ascii_over_tcp_client.go: the exchange of ASCII frames over a TCP connection.
use gomodbus.Prelude.{ℕ, arith, List, [], Option}
use gomodbus.Go.{Outcome}
use gomodbus.Client.Backend.{Action}
use gomodbus.Ascii.{ascii_max_size}
use gomodbus.Ascii.Transport.{Port, Returns, after, after-Returns, read_loop, read_loop-Returns}

module _ {P : Type 0} (port : Port P) (set_deadline : Action P (Unit {0})) where
  unfoldable pub send_over_tcp : List ℕ → P → Option (Outcome (List ℕ) × P)
  send_over_tcp adu_request s = after (port.connect s) (λ _ t.
      after (set_deadline t)
        (λ _ u. after (port.write adu_request u) (λ _ v. read_loop port ascii_max_size [] v)))

  -- `Send` over TCP always returns, whatever the connection does.
  pub send_over_tcp-Returns : (adu_request : List ℕ) (s : P) → Returns (send_over_tcp adu_request s)
  unfolding send_over_tcp
  send_over_tcp-Returns adu_request s = after-Returns (port.connect s) _ (λ _ t.
      after-Returns (set_deadline t) _ (λ _ u.
        after-Returns (port.write adu_request u) _
          (λ _ v. read_loop-Returns port ascii_max_size [] v (omega arith) (omega arith))))
