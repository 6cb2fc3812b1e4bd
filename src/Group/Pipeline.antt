-- ===== src/Group/Pipeline.antt =====
-- enhancement-group.go: registers are grouped, and all their blocks are read in turn.
use mathlib.Core.List.{Perm, Permᴰ}
use gomodbus.Prelude.{ℕ, ◌+◌, ◌≤◌, ◌<◌, ◌≡◌, refl, sym, ap, ◌∙◌, arith, true}
use gomodbus.Prelude.{List, [], ◌∷◌, ◌++◌, map, All, flat, none, some, Option, ltb, ◌||◌}
use gomodbus.Go.{Outcome, ok, err, panic, Error}
use gomodbus.Client.Backend.{Link, check, ◌>>=◌}
use gomodbus.Client.{read_coils, read_discrete_inputs, read_holding_registers, read_input_registers}
use gomodbus.Register.{DeviceRegister, read_failed}
use gomodbus.Group.{Runtime, group_device_register}
use gomodbus.Group.Split.{IsBlock, IsRegister}
use gomodbus.Group.Blocks.{IsRuntime, group_device_register-perm, group_device_register-IsBlock}
use gomodbus.Group.Read.{
  Reader, GroupError, read_error, mark_failed, read_group, add_error, read_grouped_data_sequential,
  total_quantity,
}
use gomodbus.Group.Values.{image, sum_quantity, total_quantity-sum, loaded, read_group-loaded}

-- A client whose reads of holding registers return the words of a memory, while it is ready, and
-- leave it ready.
pub record IsFaithful {S : Type 0} (client : Reader S) (memory : ℕ → ℕ) (IsReady : S → Type 0)
    : Type 0 where
  pub reads :
      (slave a q : ℕ) (s : S)
      → IsReady s
      → 1 ≤ q
      → q ≤ 125
      → a + q ≤ 65536
      → (t : S) × (client.read_holding_registers a q (client.set_slave_id slave s)
          ≡ (ok (image memory a q), t))
        × IsReady t

module _ {F : Type 0} where
  -- A block that one request can read: holding registers, at most 125 of them.
  abbrev pub IsReadable : List (DeviceRegister F) → Type 0
  IsReadable [] = ⊥
  IsReadable (r ∷ rs) =
      (r.function ≡ 3)
      × (1 ≤ sum_quantity (r ∷ rs))
      × (sum_quantity (r ∷ rs) ≤ 125)
      × (r.read_address + sum_quantity (r ∷ rs) ≤ 65536)

  map-Permᴰ :
      (f : DeviceRegister F → DeviceRegister F) {xs ys : List (DeviceRegister F)}
      → Permᴰ xs ys
      → Permᴰ (map f xs) (map f ys)
  map-Permᴰ f Permᴰ.nil = Permᴰ.nil
  map-Permᴰ f (Permᴰ.cons e p) = Permᴰ.cons (ap f e) (map-Permᴰ f p)
  map-Permᴰ f (Permᴰ.swap e g) = Permᴰ.swap (ap f e) (ap f g)
  map-Permᴰ f (Permᴰ.trans p q) = Permᴰ.trans (map-Permᴰ f p) (map-Permᴰ f q)

  map-Perm :
      (f : DeviceRegister F → DeviceRegister F) {xs ys : List (DeviceRegister F)}
      → Perm xs ys
      → Perm (map f xs) (map f ys)
  map-Perm f ∣ p ∣₁ = ∣ map-Permᴰ f p ∣₁
  map-Perm f (squash₁ p q i) = squash₁ (map-Perm f p) (map-Perm f q) i

  map-append :
      (f : DeviceRegister F → DeviceRegister F) (xs ys : List (DeviceRegister F))
      → map f (xs ++ ys) ≡ map f xs ++ map f ys
  map-append f [] ys = refl
  map-append f (x ∷ xs) ys = ap (λ t. f x ∷ t) (map-append f xs ys)

  flat-map :
      (f : DeviceRegister F → DeviceRegister F) (xss : List (List (DeviceRegister F)))
      → flat (map (map f) xss) ≡ map f (flat xss)
  flat-map f [] = refl
  flat-map f (xs ∷ xss) =
      ap (λ t. map f xs ++ t) (flat-map f xss) ∙ sym (map-append f xs (flat xss))

  module _ {S : Type 0} (client : Reader S) where
    read_group-faithful :
        (memory : ℕ → ℕ) (IsReady : S → Type 0) (group : List (DeviceRegister F)) (s : S)
        → IsFaithful client memory IsReady
        → IsBlock group
        → IsReadable group
        → IsReady s
        → (t : S) × (read_group client group s ≡ (ok (map (loaded memory) group, none), t))
          × IsReady t
    read_group-faithful memory IsReady [] s faithful h w ready = absurd h
    read_group-faithful memory IsReady (r ∷ rs) s faithful h (f, low, high, fits) ready =
        let (t, e, k) =
          faithful.reads r.slaver_id r.read_address (sum_quantity (r ∷ rs)) s ready low high fits in
        (t, read_group-loaded client memory r rs s t h (omega arith) f e, k)

    -- The outcomes of the first block and of the others, put together.
    read_grouped-cons :
        (group : List (DeviceRegister F)) (groups : List (List (DeviceRegister F))) (s m t : S)
        (filled : List (DeviceRegister F)) (result : List (List (DeviceRegister F)))
        (e : Option GroupError) (es : List GroupError)
        → read_group client group s ≡ (ok (filled, e), m)
        → read_grouped_data_sequential client groups m ≡ (ok (result, es), t)
        → read_grouped_data_sequential client (group ∷ groups) s
          ≡ (ok (filled ∷ result, add_error e es), t)
    unfolding read_grouped_data_sequential
    read_grouped-cons group groups s m t filled result e es first others =
        ap
          (λ (x : Outcome (List (DeviceRegister F) × Option GroupError) × S). elim x.0 [
            | ok r ↦ elim (read_grouped_data_sequential client groups x.1).0 [
              | ok q ↦ (
                ok (r.0 ∷ q.0, add_error r.1 q.1),
                (read_grouped_data_sequential client groups x.1).1,
              )
              | err y ↦ (err y, (read_grouped_data_sequential client groups x.1).1)
              | panic ↦ (panic, (read_grouped_data_sequential client groups x.1).1)
            ]
            | err y ↦ (err y, x.1)
            | panic ↦ (panic, x.1)
          ])
          first
        ∙ ap
            (λ (x : Outcome (List (List (DeviceRegister F)) × List GroupError) × S). elim x.0 [
              | ok q ↦ (ok (filled ∷ q.0, add_error e q.1), x.1)
              | err y ↦ (err y, x.1)
              | panic ↦ (panic, x.1)
            ])
            others

    read_blocks-faithful :
        (memory : ℕ → ℕ) (IsReady : S → Type 0) (groups : List (List (DeviceRegister F))) (s : S)
        → IsFaithful client memory IsReady
        → All IsBlock groups
        → All IsReadable groups
        → IsReady s
        → (t : S) × (read_grouped_data_sequential client groups s
            ≡ (ok (map (map (loaded memory)) groups, []), t))
          × IsReady t
    unfolding read_grouped_data_sequential
    read_blocks-faithful memory IsReady [] s faithful h w ready = (s, refl, ready)
    read_blocks-faithful memory IsReady (group ∷ groups) s faithful (hg, h) (wg, w) ready =
        let (m, first, k) = read_group-faithful memory IsReady group s faithful hg wg ready in
        let (t, others, l) = read_blocks-faithful memory IsReady groups m faithful h w k in
        (t, read_grouped-cons group groups s m t _ _ none [] first others, l)

    -- Registers are grouped and all blocks are read in turn from a device with some memory: there is
    -- no error, and the registers of all blocks are those that were given, each once, with the words
    -- at their own addresses. Each block is one that a request can read, its first register being a
    -- holding register; the sort and the map do what is documented of them.
    pub read_grouped-loaded :
        (go : Runtime F) (memory : ℕ → ℕ) (IsReady : S → Type 0) (rs : List (DeviceRegister F))
        (s : S)
        → IsRuntime go
        → IsFaithful client memory IsReady
        → All IsRegister rs
        → All IsReadable (group_device_register go rs)
        → IsReady s
        → (result : List (List (DeviceRegister F))) × (t : S) × (read_grouped_data_sequential client
              (group_device_register go rs)
              s
            ≡ (ok (result, []), t))
          × Perm (flat result) (map (loaded memory) rs)
    read_grouped-loaded go memory IsReady rs s laws faithful words readable ready =
        let groups = group_device_register go rs in
        let (t, e, k) =
          read_blocks-faithful memory IsReady groups s faithful
            (group_device_register-IsBlock go laws rs words) readable ready in
        (
          map (map (loaded memory)) groups,
          t,
          e,
          rw (flat-map (loaded memory) groups)
              (map-Perm (loaded memory) (group_device_register-perm go laws rs)),
        )

-- The reads of a client, as the code uses them.
abbrev pub client_reader : {S : Type 0} → Link S → (ℕ → S → S) → Reader S
client_reader mb set_slave_id = record {
  set_slave_id = set_slave_id;
  read_coils = read_coils mb;
  read_discrete_inputs = read_discrete_inputs mb;
  read_holding_registers = read_holding_registers mb;
  read_input_registers = read_input_registers mb;
}

module _ {F : Type 0} where
  -- A register with the status of a failed read, and all else as it was.
  abbrev pub with_failure : Error → DeviceRegister F → DeviceRegister F
  with_failure e r = record r { status = read_failed e }

  mark_failed-eq-map :
      (e : Error) (rs : List (DeviceRegister F)) → mark_failed e rs ≡ map (with_failure e) rs
  unfolding mark_failed
  mark_failed-eq-map e [] = refl
  mark_failed-eq-map e (r ∷ rs) = ap (λ t. with_failure e r ∷ t) (mark_failed-eq-map e rs)

module _ {F S : Type 0} (mb : Link S) (set_slave_id : ℕ → S → S) where
  refused_block :
      (r : DeviceRegister F) (rs : List (DeviceRegister F)) (s : S)
      → r.function ≡ 3
      → 125 < sum_quantity (r ∷ rs)
      → sum_quantity (r ∷ rs) < 65536
      → read_group (client_reader mb set_slave_id) (r ∷ rs) s ≡ (
        ok (
          mark_failed (Error.quantity_out_of_range (sum_quantity (r ∷ rs)) 1 125) (r ∷ rs),
          some (
              read_error r.slaver_id r.read_address
                (Error.quantity_out_of_range (sum_quantity (r ∷ rs)) 1 125)),
        ),
        set_slave_id r.slaver_id s,
      )
  unfolding read_group read_holding_registers ◌>>=◌ check
  refused_block r rs s f long word =
      let q = sum_quantity (r ∷ rs) in
      let total : total_quantity 0 (r ∷ rs) ≡ q =
        total_quantity-sum (r ∷ rs) 0 (omega arith) ∙ omega arith in
      let refused : (ltb q 1 || ltb 125 q) ≡ true = ground arith in rw (total, f, refused) refl

  -- A block of more than 125 registers, the first one a holding register, is never read: the client
  -- refuses the request before it sends anything, each register of the block gets the status of a
  -- failed read with that error and stays as it was otherwise, and the error is returned as well.
  -- The total of the quantities is below 65536.
  pub read_group_too_long :
      (r : DeviceRegister F) (rs : List (DeviceRegister F)) (s : S)
      → r.function ≡ 3
      → 125 < sum_quantity (r ∷ rs)
      → sum_quantity (r ∷ rs) < 65536
      → read_group (client_reader mb set_slave_id) (r ∷ rs) s ≡ (
        ok (
          map (with_failure (Error.quantity_out_of_range (sum_quantity (r ∷ rs)) 1 125)) (r ∷ rs),
          some (
              read_error r.slaver_id r.read_address
                (Error.quantity_out_of_range (sum_quantity (r ∷ rs)) 1 125)),
        ),
        set_slave_id r.slaver_id s,
      )
  read_group_too_long r rs s f long word =
      let e = Error.quantity_out_of_range (sum_quantity (r ∷ rs)) 1 125 in
      refused_block r rs s f long word
      ∙ ap
          (λ x.
            (ok (x, some (read_error r.slaver_id r.read_address e)), set_slave_id r.slaver_id s))
          (mark_failed-eq-map e (r ∷ rs))
