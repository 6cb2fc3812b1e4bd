-- ===== src/Connection/Lifecycle.antt =====
-- What is left of a connection after it was closed.
use gomodbus.Prelude.{
  ℕ, ◌-◌, ◌≡◌, ◌≢◌, refl, sym, ◌∙◌, Bool-cases, inl, inr, List, [], ◌∷◌, leb, ◌==◌,
}
use gomodbus.Go.{Outcome, ok, err, panic}
use gomodbus.Client.Backend.{Action, continue, ◌>>=◌}
use gomodbus.Connection.{
  Handle, absent, live, closed, Connection, connect, connect_at, start_close_timer, begin,
  close_serial, close_serial_at, close_tcp, close_tcp_at, close_idle, Call, connecting, closing,
  sending, idling, call, calls,
}

-- A field that is nil or open.
abbrev pub IsUsable : Handle → Type 0
IsUsable absent = Unit {0}
IsUsable live = Unit {0}
IsUsable closed = ⊥

-- A property of the field that opening and closing keep is kept by every call.
module _ (P : Handle → Type 0) (close : Outcome (Unit {0}) → Action Connection (Unit {0}))
    (connect-keeps : (o : Outcome (Unit {0})) (c : Connection)
      → P c.handle
      → P (connect o c).1.handle)
    (close-keeps : (o : Outcome (Unit {0})) (c : Connection)
      → P c.handle
      → P (close o c).1.handle) where
  begin-keeps :
      (now : ℕ) (o : Outcome (Unit {0})) (c : Connection) → P c.handle → P (begin now o c).1.handle
  unfolding begin ◌>>=◌ start_close_timer
  begin-keeps now o c h = rest (connect o c).0 (connect o c).1 (connect-keeps o c h)
    where
      rest :
          (r : Outcome (Unit {0})) (d : Connection)
          → P d.handle
          → P
              (continue {0, 0} {A = Unit {0}} {B = Unit {0}}
                (λ _ c. (ok tt, start_close_timer (record c { last_activity = now })))
                r
                d).1.handle
      rest (ok _) d k = elim (Bool-cases (d.idle_timeout == 0)) [ inl e ↦ rw e k | inr e ↦ rw e k ]
      rest (err e) d k = k
      rest panic d k = k

  call-keeps : (x : Call) (c : Connection) → P c.handle → P (call close x c).handle
  unfolding call close_idle
  call-keeps (connecting o) c h = connect-keeps o c h
  call-keeps (closing o) c h = close-keeps o c h
  call-keeps (sending now o) c h = begin-keeps now o c h
  call-keeps (idling now o) c h = elim (Bool-cases (c.idle_timeout == 0)) [
    | inl e ↦ rw e h
    | inr e ↦ elim (Bool-cases (leb c.idle_timeout (now - c.last_activity))) [
      | inl f ↦ rw (e, f) (close-keeps o c h)
      | inr f ↦ rw (e, f) h
    ]
  ]

  calls-keeps : (xs : List Call) (c : Connection) → P c.handle → P (calls close xs c).handle
  unfolding calls
  calls-keeps [] c h = h
  calls-keeps (x ∷ xs) c h = calls-keeps xs (call close x c) (call-keeps x c h)

connect_at-IsUsable :
    (k : Handle) (o : Outcome (Unit {0})) (c : Connection)
    → c.handle ≡ k
    → IsUsable k
    → IsUsable (connect_at k o c).1.handle
connect_at-IsUsable absent (ok _) c e h = tt
connect_at-IsUsable absent (err x) c e h = rw e h
connect_at-IsUsable absent panic c e h = rw e h
connect_at-IsUsable live o c e h = rw e h
connect_at-IsUsable closed o c e h = absurd h

close_tcp_at-IsUsable :
    (k : Handle) (o : Outcome (Unit {0})) (c : Connection)
    → c.handle ≡ k
    → IsUsable (close_tcp_at k o c).1.handle
close_tcp_at-IsUsable absent o c e = rw e tt
close_tcp_at-IsUsable live o c e = tt
close_tcp_at-IsUsable closed o c e = tt

-- A TCP connection is nil or open after any calls of `Connect`, `Close`, `Send` and the idle timer, at
-- any times and with any outcomes of the operating system, when it was before: no call leaves a
-- closed connection behind that a later `Send` would use.
pub calls_tcp-IsUsable :
    (xs : List Call) (c : Connection) → IsUsable c.handle → IsUsable (calls close_tcp xs c).handle
unfolding connect close_tcp
calls_tcp-IsUsable xs c h =
    calls-keeps IsUsable close_tcp (λ o d k. connect_at-IsUsable d.handle o d refl k)
      (λ o d k. close_tcp_at-IsUsable d.handle o d refl) xs c h

connect_at-closed :
    (k : Handle) (o : Outcome (Unit {0})) (c : Connection)
    → c.handle ≡ k
    → k ≡ closed
    → (connect_at k o c).1.handle ≡ closed
connect_at-closed absent o c e h = absurd (cc)
connect_at-closed live o c e h = e ∙ h
connect_at-closed closed o c e h = e

close_serial_at-closed :
    (k : Handle) (o : Outcome (Unit {0})) (c : Connection)
    → c.handle ≡ k
    → k ≢ absent
    → (close_serial_at k o c).1.handle ≡ closed
close_serial_at-closed absent o c e h = absurd (h refl)
close_serial_at-closed live o c e h = refl
close_serial_at-closed closed o c e h = e

-- Once the field of a serial port was set, closing the port leaves it closed whatever is called later,
-- at any times and with any outcomes of the operating system: `connect` takes it for open, since
-- `Close` does not set the field to nil.
pub calls_serial-closed :
    (o : Outcome (Unit {0})) (xs : List Call) (c : Connection)
    → c.handle ≢ absent
    → (calls close_serial (closing o ∷ xs) c).handle ≡ closed
unfolding connect close_serial calls call
calls_serial-closed o xs c h =
    calls-keeps (λ k. k ≡ closed) close_serial (λ p d k. connect_at-closed d.handle p d refl k)
      (λ p d k. close_serial_at-closed d.handle p d refl (set d.handle k)) xs (close_serial o c).1
      (close_serial_at-closed c.handle o c refl h)
  where
    set : (k : Handle) → k ≡ closed → k ≢ absent
    set k e f = apart (sym f ∙ e)
      where
        apart : ◌≢◌ {A = Handle} absent closed
        apart p = cc
