-- ===== src/Tests/Devices.antt =====
-- Devices that answer every request for their identification alike.
use gomodbus.Prelude.{ℕ, ◌+◌, ◌≡◌, inr, refl, ap, arith, [], ◌∷◌, none, some, bit_and}
use gomodbus.Go.{Outcome, ok, err, panic}
use gomodbus.Client.Backend.{Link}
use gomodbus.Client.Objects.{Objects}
use gomodbus.Client.Identification.{
  Identified, send_read_device_identification, read_device_identification,
}
use gomodbus.Client.Identified.{
  listed, Fails, read_device_identification-Fails, read_device_identification-listed,
}
use mathlib.Core.Path.{subst}

-- Vendor, product and revision.
abbrev basic_objects : Objects
basic_objects = (0, 65 ∷ 66 ∷ []) ∷ (1, 67 ∷ []) ∷ (2, 49 ∷ 46 ∷ 48 ∷ []) ∷ []

-- The state counts the requests.
abbrev device : ℕ → Link ℕ
device level = record {
  encode = λ pdu s. (ok pdu.payload, s);
  verify = λ request response. ok tt;
  decode =
      λ response. ok (record { function_code = 43; payload = listed 1 level 0 0 basic_objects });
  transmit = λ adu s. (ok adu, s + 1);
}

read_device_identification-listed_example :
    read_device_identification (device 0x81) 5 0x80 0 ≡ some (ok (basic_objects, none), 1)
unfolding gomodbus.Client.send gomodbus.Client.Backend.◌>>=◌ gomodbus.Client.Backend.check
read_device_identification-listed_example =
    read_device_identification-listed (device 0x81) 4 0x80 0x81 0 43 basic_objects 0 1 (inr refl)
      (omega arith)
      (
        tt,
        ((λ p. omega (arith, p), tt), ((λ p. omega (arith, p), (λ p. omega (arith, p), tt)), tt)),
      )
      refl

abbrev level_of : Outcome Identified → ℕ
level_of (ok a) = a.conformity_level
level_of (err e) = 0
level_of panic = 0

device-regular :
    (code id s t : ℕ) (a : Identified)
    → send_read_device_identification (device 0x82) code id s ≡ (ok a, t)
    → bit_and a.conformity_level 0x02 ≡ 0x02
unfolding send_read_device_identification gomodbus.Client.Backend.◌>>=◌ gomodbus.Client.send
    gomodbus.Client.Backend.check gomodbus.Go.index gomodbus.Client.Objects.read_objects
    gomodbus.Go.slice
device-regular code id s t a e =
    let level : 0x82 ≡ a.conformity_level = ap (λ (x : Outcome Identified × ℕ). level_of x.0) e in
    subst (λ n. bit_and n 0x02 ≡ 0x02) level refl

read_device_identification-Fails_example : Fails (read_device_identification (device 0x82) 5 0x80 0)
read_device_identification-Fails_example =
    read_device_identification-Fails (device 0x82) 5 0x80 0 device-regular
