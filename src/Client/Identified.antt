-- ===== src/Client/Identified.antt =====
-- client.go: which devices are identified.
use gomodbus.Prelude.{
  ℕ, suc, zero, ◌≤◌, ◌≡◌, ◌⊎◌, inl, inr, refl, sym, ap, ◌∙◌, arith, Bool, true, false, List, [],
  ◌∷◌, append-nil, length,
}
use gomodbus.Prelude.{none, some, leb, ◌==◌, ◌&&◌, ◌||◌, bit_and, if◌then◌else◌}
use gomodbus.Go.{Outcome, ok, err, panic, index}
use gomodbus.Client.Backend.{Link, check, ◌>>=◌}
use gomodbus.Client.{send}
use gomodbus.Client.Objects.{
  Objects, merge, read_objects, object_bytes, AreDistinct, merge-AreDistinct,
  read_objects-object_bytes,
}
use gomodbus.Client.Identification.{
  Identified, Result, on_identified, send_read_device_identification, mandatory_loop, object_loop,
  additional_loop, read_device_identification,
}

-- The data of a response that lists some objects.
abbrev pub listed : ℕ → ℕ → ℕ → ℕ → Objects → List ℕ
listed code level more next_id os = 14 ∷ code ∷ level ∷ more ∷ next_id ∷ length os ∷ object_bytes os

-- A level without the regular objects.
abbrev pub IsBasic : ℕ → Type 0
IsBasic level = (level ≡ 0x01) ⊎ (level ≡ 0x81)

module _ {S : Type 0} where
  -- There is no result, or it has an error, or it is a panic.
  abbrev pub Fails : Result S → Type 0
  Fails none = Unit {0}
  Fails (some (ok (results, none), s)) = ⊥
  Fails (some (ok (results, some e), s)) = Unit {0}
  Fails (some (err e, s)) = Unit {0}
  Fails (some (panic, s)) = Unit {0}

  on_identified-Fails :
      (results : Objects) (r : Outcome Identified × S) (k : Identified → S → Result S)
      → ((a : Identified) (t : S) → r ≡ (ok a, t) → Fails (k a t))
      → Fails (on_identified results r k)
  on_identified-Fails results (ok a, s) k h = h a s refl
  on_identified-Fails results (err e, s) k h = tt
  on_identified-Fails results (panic, s) k h = tt

  if-Fails : (b : Bool) (x y : Result S) → Fails x → Fails y → Fails (if b then x else y)
  if-Fails true x y hx hy = hx
  if-Fails false x y hx hy = hy

  module _ (mb : Link S) where
    object_loop-Fails :
        (fuel code object_id : ℕ) (results : Objects) (s : S) (k : Objects → S → Result S)
        → ((all : Objects) (t : S) → Fails (k all t))
        → Fails (object_loop mb fuel code object_id results s k)
    unfolding object_loop
    object_loop-Fails zero code object_id results s k h = tt
    object_loop-Fails (suc fuel) code object_id results s k h =
        on_identified-Fails results (send_read_device_identification mb code object_id s) _
          (λ a t e.
            if-Fails (object_id == 0) _ _ (h (merge results a.objects) t)
              (object_loop-Fails fuel code object_id (merge results a.objects) t k h))

    -- The level does not change in the outer loop, which then never comes to its end.
    additional_loop-Fails :
        (fuel level first_extended_id : ℕ) (results : Objects) (s : S)
        → bit_and level 0x02 ≡ 0x02
        → Fails (additional_loop mb fuel level first_extended_id results s)
    unfolding additional_loop
    additional_loop-Fails zero level first results s h = tt
    additional_loop-Fails (suc fuel) level first results s h =
        let regular : leb 0x02 (bit_and level 0x02) ≡ true = ground (arith, h) in
        rw (regular, Fails)
          (object_loop-Fails fuel 0x02 0 results s _
            (λ all t. additional_loop-Fails fuel level first all t h))

    mandatory_loop-Fails :
        (fuel object_id : ℕ) (results : Objects) (s : S) (k : ℕ → Objects → S → Result S)
        → ((code id : ℕ) (s t : S) (a : Identified)
            → send_read_device_identification mb code id s ≡ (ok a, t)
            → bit_and a.conformity_level 0x02 ≡ 0x02)
        → ((level : ℕ) (all : Objects) (t : S) → bit_and level 0x02 ≡ 0x02 → Fails (k level all t))
        → Fails (mandatory_loop mb fuel object_id results s k)
    unfolding mandatory_loop
    mandatory_loop-Fails zero object_id results s k regular h = tt
    mandatory_loop-Fails (suc fuel) object_id results s k regular h =
        on_identified-Fails results (send_read_device_identification mb 0x01 object_id s) _
          (λ a t e.
            if-Fails (leb 3 (length (merge results a.objects))) _ _
              (h a.conformity_level (merge results a.objects) t (regular 0x01 object_id s t a e))
              (if-Fails (a.next_obj_id == 0) _ _ tt
                (mandatory_loop-Fails fuel a.next_obj_id (merge results a.objects) t k regular h)))

    -- A device whose conformity level says that it has regular objects, in every response, is never
    -- identified: with any fuel the loops end with an error or a panic, or not at all.
    pub read_device_identification-Fails :
        (fuel first_extended_id : ℕ) (s : S)
        → ((code id : ℕ) (s t : S) (a : Identified)
            → send_read_device_identification mb code id s ≡ (ok a, t)
            → bit_and a.conformity_level 0x02 ≡ 0x02)
        → Fails (read_device_identification mb fuel first_extended_id s)
    unfolding read_device_identification
    read_device_identification-Fails fuel first s regular =
        mandatory_loop-Fails fuel 0 [] s _ regular
          (λ level all t h. additional_loop-Fails fuel level first all t h)

    send_read_device_identification-listed :
        (code id level next_id function : ℕ) (os : Objects) (s t : S)
        → IsBasic level
        → AreDistinct [] os
        → send mb (record { function_code = 43; payload = 14 ∷ code ∷ id ∷ [] }) s
          ≡ (ok (record { function_code = function; payload = listed code level 0 next_id os }), t)
        → send_read_device_identification mb code id s
          ≡ (ok (record { conformity_level = level; next_obj_id = 0; objects = os }), t)
    unfolding send_read_device_identification ◌>>=◌ check index
    send_read_device_identification-listed code id level next_id function os s t basic distinct e =
        let bytes = listed code level 0 next_id os in
        let all : read_objects (length os) bytes 6 [] ≡ ok os =
          ap (λ t. read_objects (length os) (14 ∷ code ∷ level ∷ 0 ∷ next_id ∷ length os ∷ t) 6 [])
            (sym (append-nil (object_bytes os)))
          ∙ read_objects-object_bytes os [] (14 ∷ code ∷ level ∷ 0 ∷ next_id ∷ length os ∷ []) [] 6
              refl distinct in
        let valid : ((leb 0x01 level && leb level 0x03) || (leb 0x81 level && leb level 0x83))
            ≡ true =
          ground arith in
        rw (e, valid, all) refl

    -- A device without regular objects, which lists at least three basic objects with different
    -- numbers in its response, is identified by those objects, after one request.
    pub read_device_identification-listed :
        (fuel first_extended_id level next_id function : ℕ) (os : Objects) (s t : S)
        → IsBasic level
        → 3 ≤ length os
        → AreDistinct [] os
        → send mb (record { function_code = 43; payload = 14 ∷ 0x01 ∷ 0 ∷ [] }) s
          ≡ (ok (record { function_code = function; payload = listed 0x01 level 0 next_id os }), t)
        → read_device_identification mb (suc fuel) first_extended_id s ≡ some (ok (os, none), t)
    unfolding read_device_identification mandatory_loop additional_loop
    read_device_identification-listed fuel first level next_id function os s t basic many distinct
          e =
        let answer =
          send_read_device_identification-listed 0x01 0 level next_id function os s t basic distinct
            e in
        let enough : leb 3 (length os) ≡ true = ground arith in
        rw (answer, merge-AreDistinct os [] distinct, enough) (finished basic)
      where
        finished :
            (h : IsBasic level)
            → additional_loop mb (suc fuel) level first os t ≡ some (ok (os, none), t)
        finished (inl h) = rw (h, additional_loop) refl
        finished (inr h) = rw (h, additional_loop) refl
