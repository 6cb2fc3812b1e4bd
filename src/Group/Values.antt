-- ===== src/Group/Values.antt =====
-- What the registers of a block hold after it was read.
use gomodbus.Prelude.{
  ℕ, zero, suc, ◌+◌, ◌*◌, ◌/◌, ◌≤◌, ◌<◌, ◌≡◌, refl, sym, ap, ◌∙◌, arith, false, Bool-cases, inl,
  inr,
}
use gomodbus.Prelude.{
  List, [], ◌∷◌, ◌++◌, map, append-nil, append_assoc, length, length-append, take-length,
  drop-length, u8, u16, ltb, Option, none, some,
}
use native.Mathlib.Nat.{add-zero, zero-add}
use gomodbus.Go.{Outcome, ok, put_uint16}
use gomodbus.Client.Backend.{Action}
use gomodbus.Register.{DeviceRegister, valid_status}
use gomodbus.Group.Split.{IsLinked, IsBlock}
use gomodbus.Group.Read.{
  Reader, GroupError, total_quantity, fill, finish, read_function, run_read, read_group,
}

-- The bytes of some words of a memory, from an address on.
abbrev pub image : (ℕ → ℕ) → ℕ → ℕ → List ℕ
image memory a zero = []
image memory a (suc n) = put_uint16 (memory a) ++ image memory (a + 1) n

pub length-image : (memory : ℕ → ℕ) (a n : ℕ) → length (image memory a n) ≡ 2 * n
length-image memory a zero = refl
length-image memory a (suc n) = omega (arith, length-image memory (a + 1) n)

image-append :
    (memory : ℕ → ℕ) (a n k : ℕ)
    → image memory a (n + k) ≡ image memory a n ++ image memory (a + n) k
image-append memory a zero k = rw (add-zero a, zero-add k) refl
image-append memory a (suc n) k =
    let count : suc n + k ≡ suc (n + k) = omega arith in
    let address : a + suc n ≡ (a + 1) + n = omega arith in
    rw (count, address)
      (ap (λ t. u8 (memory a / 256) ∷ u8 (memory a) ∷ t) (image-append memory (a + 1) n k))

abbrev pub HasError : Option GroupError → Type 0
HasError none = ⊥
HasError (some e) = Unit {0}

module _ {F : Type 0} where
  abbrev pub sum_quantity : List (DeviceRegister F) → ℕ
  sum_quantity [] = 0
  sum_quantity (r ∷ rs) = r.read_quantity + sum_quantity rs

  pub total_quantity-sum :
      (rs : List (DeviceRegister F)) (total : ℕ)
      → total + sum_quantity rs < 65536
      → total_quantity total rs ≡ total + sum_quantity rs
  unfolding total_quantity
  total_quantity-sum [] total h = omega arith
  total_quantity-sum (r ∷ rs) total h =
      let e : u16 (total + r.read_quantity) ≡ total + r.read_quantity = omega arith in
      rw e (total_quantity-sum rs (total + r.read_quantity) (omega arith) ∙ omega arith)

  -- A register with the words of a memory at its own addresses.
  abbrev pub loaded : (ℕ → ℕ) → DeviceRegister F → DeviceRegister F
  loaded memory r = record r {
    value = image memory r.read_address r.read_quantity;
    status = valid_status;
  }

  -- One round of the loop, behind the bytes that are already given away.
  fill-step :
      (r : DeviceRegister F) (rs : List (DeviceRegister F)) (given own later : List ℕ)
      → length own ≡ u16 (r.read_quantity * 2)
      → fill (given ++ (own ++ later)) (length given) (r ∷ rs) ≡ (
        record r { value = own; status = valid_status }
            ∷ (fill ((given ++ own) ++ later) (length (given ++ own)) rs).0,
        (fill ((given ++ own) ++ later) (length (given ++ own)) rs).1,
      )
  unfolding fill
  fill-step r rs given own later k =
      let fits : ltb (length (given ++ (own ++ later))) (length given + u16 (r.read_quantity * 2))
          ≡ false =
        ground (arith, length-append given (own ++ later), length-append own later) in
      rw
        (
          fits,
          drop-length given (own ++ later),
          ← k,
          take-length own later,
          append_assoc given own later,
          length-append given own,
        )
        refl

  fill-loaded :
      (memory : ℕ → ℕ) (r : DeviceRegister F) (rs : List (DeviceRegister F)) (given : List ℕ)
      → IsLinked r rs
      → sum_quantity (r ∷ rs) < 32768
      → fill (given ++ image memory r.read_address (sum_quantity (r ∷ rs))) (length given) (r ∷ rs)
        ≡ (map (loaded memory) (r ∷ rs), none)
  unfolding fill
  fill-loaded memory r [] given h small =
      let own = image memory r.read_address r.read_quantity in
      let size : length own ≡ u16 (r.read_quantity * 2) =
        length-image memory r.read_address r.read_quantity ∙ omega arith in
      let whole : image memory r.read_address (r.read_quantity + 0) ≡ own ++ [] =
        ap (image memory r.read_address) (add-zero r.read_quantity) ∙ sym (append-nil own) in
      ap (λ t. fill (given ++ t) (length given) (r ∷ [])) whole ∙ fill-step r [] given own [] size
  fill-loaded memory r (s ∷ rs) given (f, h) small =
      let own = image memory r.read_address r.read_quantity in
      let later = image memory s.read_address (sum_quantity (s ∷ rs)) in
      let size : length own ≡ u16 (r.read_quantity * 2) =
        length-image memory r.read_address r.read_quantity ∙ omega arith in
      let parts : image memory r.read_address (sum_quantity (r ∷ s ∷ rs)) ≡ own ++ later =
        image-append memory r.read_address r.read_quantity (sum_quantity (s ∷ rs))
        ∙ rw f.adjacent refl in
      let rest = fill-loaded memory s rs (given ++ own) h (omega arith) in
      ap (λ t. fill (given ++ t) (length given) (r ∷ s ∷ rs)) parts
      ∙ fill-step r (s ∷ rs) given own later size
      ∙ ap (λ (t : List (DeviceRegister F) × Option GroupError). (loaded memory r ∷ t.0, t.1)) rest

  -- Too few bytes end the loop with an error.
  fill_short :
      (bytes : List ℕ) (offset : ℕ) (rs : List (DeviceRegister F))
      → sum_quantity rs < 32768
      → offset ≤ length bytes
      → length bytes < offset + 2 * sum_quantity rs
      → HasError (fill bytes offset rs).1
  unfolding fill
  fill_short bytes offset [] small start h = absurd (omega arith)
  fill_short bytes offset (r ∷ rs) small start h =
      elim (Bool-cases (ltb (length bytes) (offset + u16 (r.read_quantity * 2)))) [
        | inl e ↦ rw (e, HasError) tt
        | inr e ↦
            let next : offset + u16 (r.read_quantity * 2) ≤ length bytes = ground arith in
            let left : length bytes < offset + u16 (r.read_quantity * 2) + 2 * sum_quantity rs =
              omega arith in
            rw (e, HasError)
              (fill_short bytes (offset + u16 (r.read_quantity * 2)) rs (omega arith) next left)
      ]

  module _ {S : Type 0} (client : Reader S) where
    -- A block whose read returns bytes gives them to its registers.
    read_group-fill :
        (r : DeviceRegister F) (rs : List (DeviceRegister F)) (s t : S) (m : Action S (List ℕ))
        (bytes : List ℕ)
        → sum_quantity (r ∷ rs) < 65536
        → read_function client r.function r.read_address (sum_quantity (r ∷ rs)) ≡ some m
        → m (client.set_slave_id r.slaver_id s) ≡ (ok bytes, t)
        → read_group client (r ∷ rs) s ≡ (ok (fill bytes 0 (r ∷ rs)), t)
    unfolding read_group
    read_group-fill r rs s t m bytes small e answered =
        let total : total_quantity 0 (r ∷ rs) ≡ sum_quantity (r ∷ rs) =
          total_quantity-sum (r ∷ rs) 0 (omega arith) ∙ omega arith in
        ap
          (λ q.
            run_read client (r ∷ rs) r (read_function client r.function r.read_address q)
              (client.set_slave_id r.slaver_id s))
          total
        ∙ ap (λ f. run_read client (r ∷ rs) r f (client.set_slave_id r.slaver_id s)) e
        ∙ ap (λ (x : Outcome (List ℕ) × S). (finish (r ∷ rs) r.slaver_id r.read_address x.0, x.1))
            answered

    -- When a device answers a read of holding registers with the words of its memory, every register
    -- of a block gets the words at its own addresses, and the status of a valid one; nothing else
    -- changes, and there is no error. The block has fewer than 32768 registers of the device.
    pub read_group-loaded :
        (memory : ℕ → ℕ) (r : DeviceRegister F) (rs : List (DeviceRegister F)) (s t : S)
        → IsBlock (r ∷ rs)
        → sum_quantity (r ∷ rs) < 32768
        → r.function ≡ 3
        → client.read_holding_registers r.read_address
            (sum_quantity (r ∷ rs))
            (client.set_slave_id r.slaver_id s)
          ≡ (ok (image memory r.read_address (sum_quantity (r ∷ rs))), t)
        → read_group client (r ∷ rs) s ≡ (ok (map (loaded memory) (r ∷ rs), none), t)
    read_group-loaded memory r rs s t h small f answered =
        let by_function : read_function client r.function r.read_address (sum_quantity (r ∷ rs))
            ≡ some (client.read_holding_registers r.read_address (sum_quantity (r ∷ rs))) =
          ap (λ k. read_function client k r.read_address (sum_quantity (r ∷ rs))) f in
        read_group-fill r rs s t _ _ (omega arith) by_function answered
        ∙ ap (λ x. (ok x, t)) (fill-loaded memory r rs [] h small)

    -- A block of coils that a device answers as the protocol says, with one bit for each, always ends
    -- with an error: two bytes are expected for each coil. The block has 1 to 32767 coils.
    pub read_group_coils :
        (r : DeviceRegister F) (rs : List (DeviceRegister F)) (bytes : List ℕ) (s t : S)
        → 1 ≤ sum_quantity (r ∷ rs)
        → sum_quantity (r ∷ rs) < 32768
        → r.function ≡ 1
        → client.read_coils r.read_address
            (sum_quantity (r ∷ rs))
            (client.set_slave_id r.slaver_id s)
          ≡ (ok bytes, t)
        → length bytes ≡ (sum_quantity (r ∷ rs) + 7) / 8
        → (result : List (DeviceRegister F) × Option GroupError) × (read_group client (r ∷ rs) s
            ≡ (ok result, t))
          × HasError result.1
    read_group_coils r rs bytes s t some_coil small f answered size =
        let by_function : read_function client r.function r.read_address (sum_quantity (r ∷ rs))
            ≡ some (client.read_coils r.read_address (sum_quantity (r ∷ rs))) =
          ap (λ k. read_function client k r.read_address (sum_quantity (r ∷ rs))) f in
        (
          fill bytes 0 (r ∷ rs),
          read_group-fill r rs s t _ _ (omega arith) by_function answered,
          fill_short bytes 0 (r ∷ rs) small (omega arith) (omega (arith, size)),
        )
