-- ===== src/Client/Identification.antt =====
-- client.go: reading the identification of a device. Its loops are recursion on fuel, since a device
-- may keep the client in them.
use gomodbus.Prelude.{ℕ, suc, zero, Bool, not, [], ◌∷◌, length}
use gomodbus.Prelude.{Option, none, some, leb, ◌==◌, ◌&&◌, ◌||◌, bit_and, if◌then◌else◌}
use gomodbus.Go.{Outcome, ok, err, panic, Error, index}
use gomodbus.Client.Backend.{Action, Link, pure, lift, check, ◌>>=◌, ◌>>◌}
use gomodbus.Client.{send}
use gomodbus.Client.Objects.{Objects, merge, read_objects}

-- What a response says.
pub record Identified : Type 0 where
  pub conformity_level : ℕ
  pub next_obj_id : ℕ
  pub objects : Objects

abbrev pub is_conformity : ℕ → Bool
is_conformity level = (leb 0x01 level && leb level 0x03) || (leb 0x81 level && leb level 0x83)

-- The results with an error, or a panic; `none` when the fuel runs out.
abbrev pub Result : Type 0 → Type 0
Result S = Option (Outcome (Objects × Option Error) × S)

module _ {S : Type 0} where
  -- `if err != nil { return results, err }`
  abbrev pub on_identified :
      Objects → Outcome Identified × S → (Identified → S → Result S) → Result S
  on_identified results (ok a, s) k = k a s
  on_identified results (err e, s) k = some (ok (results, some e), s)
  on_identified results (panic, s) k = some (panic, s)

  module _ (mb : Link S) where
    unfoldable pub send_read_device_identification : ℕ → ℕ → Action S Identified
    send_read_device_identification read_device_id_code object_id = do
      response ←
          send mb
            (record { function_code = 43; payload = 14 ∷ read_device_id_code ∷ object_id ∷ [] })
      conformity_level ← lift (index response.payload 2)
      check (not (is_conformity conformity_level)) (Error.bad_conformity conformity_level)
      more_follows ← lift (index response.payload 3)
      next_obj_id ← lift (if more_follows == 0xff then index response.payload 4 else ok 0)
      count ← lift (index response.payload 5)
      objects ← lift (read_objects count response.payload 6 [])
      pure (record {
        conformity_level = conformity_level;
        next_obj_id = next_obj_id;
        objects = objects;
      })

    -- The loop over the mandatory objects, and what follows it.
    unfoldable pub mandatory_loop : ℕ → ℕ → Objects → S → (ℕ → Objects → S → Result S) → Result S
    mandatory_loop zero object_id results s k = none
    mandatory_loop (suc fuel) object_id results s k =
        on_identified results (send_read_device_identification 0x01 object_id s) (λ a t.
          let all = merge results a.objects in
          let rest = mandatory_loop fuel a.next_obj_id all t k in
          if leb 3 (length all)
          then k a.conformity_level all t
          else if a.next_obj_id == 0
          then some (ok (all, some Error.no_mandatory_objects), t)
          else rest)

    -- The inner loop over additional objects, which asks for the same object until it is object 0.
    unfoldable pub object_loop : ℕ → ℕ → ℕ → Objects → S → (Objects → S → Result S) → Result S
    object_loop zero code object_id results s k = none
    object_loop (suc fuel) code object_id results s k =
        on_identified results (send_read_device_identification code object_id s) (λ a t.
          let all = merge results a.objects in
          let rest = object_loop fuel code object_id all t k in
          if object_id == 0 then k all t else rest)

    -- The code and the object that the outer loop asks for next.
    abbrev pub additional : ℕ → ℕ → Option (ℕ × ℕ)
    additional conformity_level first_extended_id =
        if leb 0x02 (bit_and conformity_level 0x02)
        then some (0x02, 0)
        else if bit_and conformity_level 0x03 == 0x03 && leb 0x80 first_extended_id
        then some (0x03, first_extended_id)
        else none

    unfoldable pub additional_loop : ℕ → ℕ → ℕ → Objects → S → Result S
    additional_loop zero conformity_level first_extended_id results s = none
    additional_loop (suc fuel) conformity_level first_extended_id results s =
        elim (additional conformity_level first_extended_id) [
          | none ↦ some (ok (results, none), s)
          | some r ↦
              object_loop fuel (r.0) (r.1) results s
                (λ all t. additional_loop fuel conformity_level first_extended_id all t)
        ]

    -- Each loop has the fuel.
    unfoldable pub read_device_identification : ℕ → ℕ → S → Result S
    read_device_identification fuel first_extended_id s =
        mandatory_loop fuel 0 [] s
          (λ conformity_level all t. additional_loop fuel conformity_level first_extended_id all t)
