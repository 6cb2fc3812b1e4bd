-- ===== src/Client/Backend.antt =====
-- modbus.go: the packager and the transporter that a client works with, over the state of both, and
-- functions that change that state and may fail.
use gomodbus.Prelude.{ℕ, Bool, List}
use gomodbus.Go.{Outcome, ok, err, panic, Error, fail_if}
use gomodbus.Pdu.{Pdu}

abbrev pub Action {ℓ} : Type 0 → Type ℓ → Type ℓ
Action S A = S → Outcome A × S

abbrev pub pure {ℓ} : {S : Type 0} {A : Type ℓ} → A → Action S A
pure a s = (ok a, s)

-- An outcome that reads and changes no state.
abbrev pub lift {ℓ} : {S : Type 0} {A : Type ℓ} → Outcome A → Action S A
lift o s = (o, s)

abbrev pub continue {ℓ κ} :
    {S : Type 0} {A : Type ℓ} {B : Type κ} → (A → Action S B) → Outcome A → S → Outcome B × S
continue k (ok a) s = k a s
continue k (err e) s = (err e, s)
continue k panic s = (panic, s)

infixl 5 ◌>>=◌ ◌>>◌
unfoldable pub ◌>>=◌ {ℓ κ} :
    {S : Type 0} {A : Type ℓ} {B : Type κ} → Action S A → (A → Action S B) → Action S B
◌>>=◌ m k s = let r = m s in continue k r.0 r.1

abbrev pub ◌>>◌ {κ} : {S : Type 0} {B : Type κ} → Action S (Unit {0}) → Action S B → Action S B
m >> k = m >>= λ _. k

-- `if b { err = e; return }`
unfoldable pub check : {S : Type 0} → Bool → Error → Action S (Unit {0})
check b e = lift (fail_if b e)

-- `Packager` and `Transporter`.
pub record Link (S : Type 0) : Type 0 where
  pub encode : Pdu → Action S (List ℕ)
  pub verify : List ℕ → List ℕ → Outcome (Unit {0})
  pub decode : List ℕ → Outcome Pdu
  pub transmit : List ℕ → Action S (List ℕ)
