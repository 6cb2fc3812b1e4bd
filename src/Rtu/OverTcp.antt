-- ===== src/Rtu/OverTcp.antt =====
-- rtu_over_tcp_client.go: the exchange of RTU frames over a TCP connection; and the raw exchange of
-- rtuclient.go and tcpclient.go.
use gomodbus.Prelude.{ℕ, ◌≡◌, refl, sym, ◌∙◌, List, bit_and}
use gomodbus.Go.{Outcome, ok, err, panic, index}
use gomodbus.Client.Backend.{Action, continue, lift, ◌>>=◌, ◌>>◌}
use gomodbus.Rtu.{rtu_min_size, rtu_max_size}
use gomodbus.Rtu.Length.{calculate_response_length}
use gomodbus.Rtu.Transport.{Port, read_rest, send}

module _ {P : Type 0} (port : Port P) where
  -- `SendRawBytes` of the RTU and the ASCII transporter.
  unfoldable pub exchange_raw : List ℕ → Action P (List ℕ)
  exchange_raw adu_request = do
    port.connect
    port.write adu_request
    port.read_at_least rtu_max_size 27

  -- `SendRawBytes` of the TCP transporter, which uses the connection as it is.
  unfoldable pub exchange_raw_tcp : List ℕ → Action P (List ℕ)
  exchange_raw_tcp adu_request = do port.write adu_request; port.read_at_least rtu_max_size 27

  module _ (set_deadline : Action P (Unit {0})) where
    unfoldable pub send_over_tcp : List ℕ → Action P (List ℕ)
    send_over_tcp adu_request = do
      port.connect
      set_deadline
      port.write adu_request
      function ← lift (index adu_request 1)
      bytes_to_read ← lift (calculate_response_length adu_request)
      start ← port.read_at_least rtu_max_size rtu_min_size
      read_rest port function (bit_and function 0x80) bytes_to_read start

continue-ext :
    {S A B : Type 0} (k m : A → Action S B)
    → ((a : A) (s : S) → k a s ≡ m a s)
    → (o : Outcome A) (s : S) → continue k o s ≡ continue m o s
continue-ext k m h (ok a) s = h a s
continue-ext k m h (err e) s = refl
continue-ext k m h panic s = refl

pub bind-ext :
    {S A B : Type 0} (x : Action S A) (k m : A → Action S B)
    → ((a : A) (s : S) → k a s ≡ m a s)
    → (s : S) → (x >>= k) s ≡ (x >>= m) s
unfolding ◌>>=◌
bind-ext x k m h s = continue-ext k m h (x s).0 (x s).1

-- An action that does nothing can be left out.
skipped :
    {S B : Type 0} (x : Action S (Unit {0})) (k : Action S B)
    → ((s : S) → x s ≡ (ok tt, s))
    → (s : S) → (x >> k) s ≡ k s
unfolding ◌>>=◌
skipped x k h s = rw (h s) refl

-- Over a port on which neither the deadline nor the delay changes anything, RTU frames are exchanged
-- over TCP just as over a serial port.
pub send_over_tcp-eq-send :
    {P : Type 0} (port : Port P) (set_deadline : Action P (Unit {0}))
    → ((s : P) → set_deadline s ≡ (ok tt, s))
    → ((n : ℕ) (s : P) → port.delay n s ≡ (ok tt, s))
    → (adu : List ℕ) (s : P) → send_over_tcp port set_deadline adu s ≡ send port adu s
unfolding send_over_tcp send
send_over_tcp-eq-send port set_deadline deadline delay adu s =
    bind-ext port.connect _ _
      (λ _ t.
        skipped set_deadline _ deadline t
        ∙ bind-ext (port.write adu) _ _
            (λ _ u.
              bind-ext (lift (index adu 1)) _ _
                (λ function v.
                  bind-ext (lift (calculate_response_length adu)) _ _
                    (λ size w. sym (skipped (port.delay _) _ (delay _) w)) v)
                u)
            t)
      s
