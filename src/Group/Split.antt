-- ===== src/Group/Split.antt =====
-- How a list of registers is split into blocks, and a list of them into slavers.
use mathlib.Core.List.{Permᴰ}
use mathlib.Core.List.Permᴰ
use gomodbus.Prelude.{ℕ, ◌+◌, ◌≤◌, ◌≡◌, refl, ap, ◌∙◌, arith, true, Bool-cases, inl, inr}
use gomodbus.Prelude.{List, [], ◌∷◌, ◌++◌, append_assoc, flat, All, IsWord, ◌==◌}
use gomodbus.Register.{DeviceRegister}
use gomodbus.Group.{add_register, slaver_groups, is_continued, split_loop, split}

module _ {F : Type 0} where
  -- All registers of a map.
  abbrev pub entries : List (ℕ × List (DeviceRegister F)) → List (DeviceRegister F)
  entries [] = []
  entries ((k, rs) ∷ m) = rs ++ entries m

  flat-split_loop :
      (rs current : List (DeviceRegister F)) (prev : DeviceRegister F)
      → flat (split_loop current prev rs) ≡ current ++ rs
  unfolding split_loop
  flat-split_loop [] current prev = refl
  flat-split_loop (r ∷ rs) current prev = elim (Bool-cases (is_continued prev r)) [
    | inl e ↦
        rw (e, flat) (flat-split_loop rs (current ++ (r ∷ [])) r ∙ append_assoc current (r ∷ []) rs)
    | inr e ↦ rw (e, flat) (ap (λ t. current ++ t) (flat-split_loop rs (r ∷ []) r))
  ]

  pub flat-split : (rs : List (DeviceRegister F)) → flat (split rs) ≡ rs
  unfolding split
  flat-split [] = refl
  flat-split (r ∷ rs) = flat-split_loop rs (r ∷ []) r

  add_register-perm :
      (r : DeviceRegister F) (m : List (ℕ × List (DeviceRegister F)))
      → Permᴰ (entries (add_register r m)) (r ∷ entries m)
  unfolding add_register
  add_register-perm r [] = Permᴰ.refl (r ∷ [])
  add_register-perm r ((k, rs) ∷ m) = elim (Bool-cases (k == r.slaver_id)) [
    | inl e ↦ rw (e, append_assoc rs (r ∷ []) (entries m)) (Permᴰ.middle r rs (entries m))
    | inr e ↦
        rw e (
          Permᴰ.trans (Permᴰ.append_left rs (add_register-perm r m))
            (Permᴰ.middle r rs (entries m)))
  ]

  pub slaver_groups-perm :
      (rs : List (DeviceRegister F)) (m : List (ℕ × List (DeviceRegister F)))
      → Permᴰ (entries (slaver_groups m rs)) (rs ++ entries m)
  unfolding slaver_groups
  slaver_groups-perm [] m = Permᴰ.refl (entries m)
  slaver_groups-perm (r ∷ rs) m =
      Permᴰ.trans (slaver_groups-perm rs (add_register r m))
        (Permᴰ.trans (Permᴰ.append_left rs (add_register-perm r m)) (Permᴰ.middle r rs (entries m)))

  pub entries-perm :
      {m n : List (ℕ × List (DeviceRegister F))} → Permᴰ m n → Permᴰ (entries m) (entries n)
  entries-perm Permᴰ.nil = Permᴰ.nil
  entries-perm (Permᴰ.cons {a = a} {b = b} e p) = rw (← e) (Permᴰ.append_left a.1 (entries-perm p))
  entries-perm (Permᴰ.swap {a = a} {b = b} {l = l} e f) =
      rw (← e, ← f, ← append_assoc a.1 b.1 (entries l), ← append_assoc b.1 a.1 (entries l))
        (Permᴰ.append_right (entries l) (Permᴰ.append_comm a.1 b.1))
  entries-perm (Permᴰ.trans p q) = Permᴰ.trans (entries-perm p) (entries-perm q)

  -- What the block of a register says about the one after it.
  pub record Follows (r s : DeviceRegister F) : Type 0 where
    pub same_slaver : s.slaver_id ≡ r.slaver_id
    pub wide : 1 ≤ r.read_quantity
    pub adjacent : s.read_address ≡ r.read_address + r.read_quantity

  abbrev pub IsLinked : DeviceRegister F → List (DeviceRegister F) → Type 0
  IsLinked r [] = Unit {0}
  IsLinked r (s ∷ rs) = Follows r s × IsLinked s rs

  -- A block: at least one register, each where the one before it ends.
  abbrev pub IsBlock : List (DeviceRegister F) → Type 0
  IsBlock [] = ⊥
  IsBlock (r ∷ rs) = IsLinked r rs

  IsLinked-snoc :
      (first : DeviceRegister F) (front : List (DeviceRegister F)) (prev r : DeviceRegister F)
      → IsLinked first (front ++ (prev ∷ []))
      → Follows prev r
      → IsLinked first ((front ++ (prev ∷ [])) ++ (r ∷ []))
  IsLinked-snoc first [] prev r (f, h) g = (f, (g, tt))
  IsLinked-snoc first (s ∷ front) prev r (f, h) g = (f, IsLinked-snoc s front prev r h g)

  IsBlock-snoc :
      (front : List (DeviceRegister F)) (prev r : DeviceRegister F)
      → IsBlock (front ++ (prev ∷ []))
      → Follows prev r
      → IsBlock ((front ++ (prev ∷ [])) ++ (r ∷ []))
  IsBlock-snoc [] prev r h g = (g, tt)
  IsBlock-snoc (s ∷ front) prev r h g = IsLinked-snoc s front prev r h g

  -- The fields of a register that are machine words.
  pub record IsRegister (r : DeviceRegister F) : Type 0 where
    pub address_word : IsWord r.read_address
    pub quantity_word : IsWord r.read_quantity

  -- Registers of one slaver by ascending address, as the sort leaves them.
  abbrev pub IsAscending : DeviceRegister F → List (DeviceRegister F) → Type 0
  IsAscending r [] = Unit {0}
  IsAscending r (s ∷ rs) =
      (s.slaver_id ≡ r.slaver_id)
      × (r.read_address ≤ s.read_address)
      × IsRegister s
      × IsAscending s rs

  -- The addresses of ascending registers meet without a wrap-around.
  is_continued-Follows :
      (r s : DeviceRegister F)
      → IsRegister r
      → s.slaver_id ≡ r.slaver_id
      → r.read_address ≤ s.read_address
      → is_continued r s ≡ true
      → Follows r s
  unfolding is_continued
  is_continued-Follows r s h e le c = record {
    same_slaver = e;
    wide = ground arith;
    adjacent = ground (arith, h.address_word, h.quantity_word);
  }

  pub split_loop-All :
      (rs front : List (DeviceRegister F)) (prev : DeviceRegister F)
      → IsBlock (front ++ (prev ∷ []))
      → IsRegister prev
      → IsAscending prev rs
      → All IsBlock (split_loop (front ++ (prev ∷ [])) prev rs)
  unfolding split_loop
  split_loop-All [] front prev h w a = (h, tt)
  split_loop-All (r ∷ rs) front prev h w (e, le, wr, a) = elim (Bool-cases (is_continued prev r)) [
    | inl c ↦
        rw (c, All)
          (split_loop-All rs (front ++ (prev ∷ [])) r
            (IsBlock-snoc front prev r h (is_continued-Follows prev r w e le c)) wr a)
    | inr c ↦ rw (c, All) (h, split_loop-All rs [] r tt wr a)
  ]
