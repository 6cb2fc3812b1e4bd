-- ===== src/Ascii/Transport.antt =====
-- asciiclient.go: the exchange of a request and a response over a serial port. `Read` may return any
-- part of what is there, so that the code reads in a loop, which is recursion on fuel here.
use gomodbus.Prelude.{
  ℕ, suc, zero, ◌+◌, ◌-◌, ◌≤◌, ◌<◌, arith, Bool, Bool-cases, inl, inr, List, [], ◌++◌, length,
  length-append, drop,
}
use gomodbus.Prelude.{Option, none, some, ltb, leb, ◌==◌, ◌&&◌, ◌||◌, if◌then◌else◌}
use gomodbus.Go.{Outcome, ok, err, panic}
use gomodbus.Go.Text.{same_string}
use gomodbus.Client.Backend.{Action}
use gomodbus.Ascii.{ascii_min_size, ascii_max_size, ascii_end}

-- What the code uses of the serial port; `read` is given the size of the buffer that is left.
pub record Port (P : Type 0) : Type 0 where
  pub connect : Action P (Unit {0})
  pub write : List ℕ → Action P (Unit {0})
  pub read : ℕ → Action P (List ℕ)

-- `string(data[length-len(asciiEnd):length]) == asciiEnd`
unfoldable pub is_ended : List ℕ → Bool
is_ended bytes = same_string (drop (length bytes - 2) bytes) ascii_end

-- The two places at which the loop ends without an error.
unfoldable pub is_complete : List ℕ → ℕ → Bool
is_complete bytes n =
    (leb ascii_max_size (length bytes) || n == 0)
    || (ltb ascii_min_size (length bytes) && is_ended bytes)

module _ {P : Type 0} where
  -- An error or a panic ends the exchange; `none` is a loop that ran out of fuel.
  abbrev pub after {ℓ} :
      {A : Type ℓ}
      → Outcome A × P
      → (A → P → Option (Outcome (List ℕ) × P))
      → Option (Outcome (List ℕ) × P)
  after (ok a, s) k = k a s
  after (err e, s) k = some (err e, s)
  after (panic, s) k = some (panic, s)

  abbrev pub Returns : Option (Outcome (List ℕ) × P) → Type 0
  Returns none = ⊥
  Returns (some r) = Unit {0}

  pub after-Returns {ℓ} :
      {A : Type ℓ} (r : Outcome A × P) (k : A → P → Option (Outcome (List ℕ) × P))
      → ((a : A) (s : P) → Returns (k a s))
      → Returns (after r k)
  after-Returns (ok a, s) k h = h a s
  after-Returns (err e, s) k h = tt
  after-Returns (panic, s) k h = tt

  module _ (port : Port P) where
    -- The loop, behind the bytes that were read already.
    unfoldable pub read_loop : ℕ → List ℕ → P → Option (Outcome (List ℕ) × P)
    read_loop zero bytes s = none
    read_loop (suc fuel) bytes s = after (port.read (ascii_max_size - length bytes) s) (λ chunk t.
        let rest = read_loop fuel (bytes ++ chunk) t in
        if is_complete (bytes ++ chunk) (length chunk) then some (ok (bytes ++ chunk), t) else rest)

    unfoldable pub send : List ℕ → P → Option (Outcome (List ℕ) × P)
    send adu_request s =
        after (port.connect s)
          (λ _ t. after (port.write adu_request t) (λ _ u. read_loop ascii_max_size [] u))

    -- A round that does not end the loop has read a byte, and the buffer has room for 513.
    pub read_loop-Returns :
        (fuel : ℕ) (bytes : List ℕ) (s : P)
        → ascii_max_size ≤ length bytes + fuel
        → length bytes < ascii_max_size
        → Returns (read_loop fuel bytes s)
    unfolding read_loop is_complete
    read_loop-Returns zero bytes s enough room = absurd (omega arith)
    read_loop-Returns (suc fuel) bytes s enough room =
        after-Returns (port.read (ascii_max_size - length bytes) s) _ (λ chunk t.
          let size = length-append bytes chunk in
          elim (Bool-cases (is_complete (bytes ++ chunk) (length chunk))) [
            | inl e ↦ rw (e, Returns) tt
            | inr e ↦
                rw (e, Returns)
                  (read_loop-Returns fuel (bytes ++ chunk) t (ground (arith, size))
                    (ground (arith, size)))
          ])

    -- `Send` always returns, whatever the port does: the loop needs at most 513 rounds.
    pub send-Returns : (adu_request : List ℕ) (s : P) → Returns (send adu_request s)
    unfolding send
    send-Returns adu_request s = after-Returns (port.connect s) _ (λ _ t.
        after-Returns (port.write adu_request t) _
          (λ _ u. read_loop-Returns ascii_max_size [] u (omega arith) (omega arith)))
