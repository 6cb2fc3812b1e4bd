-- ===== src/Group/Blocks.antt =====
-- What the blocks of registers hold: every register once, in blocks of adjacent addresses.
use mathlib.Core.List.{Perm, Permᴰ}
use mathlib.Core.List.Permᴰ
use gomodbus.Prelude.{ℕ, ◌≡◌, refl, sym, ◌∙◌, arith, Bool, false, Bool-cases, inl, inr}
use gomodbus.Prelude.{List, [], ◌∷◌, append-nil, All, All-append, ltb, ◌==◌}
use mathlib.Core.Path.{subst}
use gomodbus.Register.{DeviceRegister}
use gomodbus.Group.{
  Runtime, add_register, slaver_groups, split, sort_by_read_address, process_groups,
  group_device_register,
}
use gomodbus.Prelude.{flat, flat-append}
use gomodbus.Group.Split.{
  flat-split, entries, entries-perm, slaver_groups-perm, IsBlock, IsRegister, IsAscending,
  split_loop-All,
}

All-Permᴰ {ℓ κ} : {A : Type ℓ} (P : A → Type κ) {xs ys : List A} → Permᴰ xs ys → All P xs → All P ys
All-Permᴰ P Permᴰ.nil h = tt
All-Permᴰ P (Permᴰ.cons e p) (hx, h) = (subst P e hx, All-Permᴰ P p h)
All-Permᴰ P (Permᴰ.swap e f) (hx, (hy, h)) = (subst P f hy, (subst P e hx, h))
All-Permᴰ P (Permᴰ.trans p q) h = All-Permᴰ P q (All-Permᴰ P p h)

module _ {F : Type 0} where
  abbrev pub by_address : DeviceRegister F → DeviceRegister F → Bool
  by_address a b = ltb a.read_address b.read_address

  -- No register stands directly behind one that it should precede.
  abbrev pub IsOrderedFrom : DeviceRegister F → List (DeviceRegister F) → Type 0
  IsOrderedFrom r [] = Unit {0}
  IsOrderedFrom r (s ∷ rs) = (by_address s r ≡ false) × IsOrderedFrom s rs

  abbrev pub IsOrdered : List (DeviceRegister F) → Type 0
  IsOrdered [] = Unit {0}
  IsOrdered (r ∷ rs) = IsOrderedFrom r rs

  -- `sort.Slice` rearranges the registers into the order of the comparison, and a map is passed
  -- through once.
  pub record IsRuntime (go : Runtime F) : Type 0 where
    pub sort_perm : (rs : List (DeviceRegister F)) → Permᴰ (go.sort_slice by_address rs) rs
    pub sort_order : (rs : List (DeviceRegister F)) → IsOrdered (go.sort_slice by_address rs)
    pub map_perm : (m : List (ℕ × List (DeviceRegister F))) → Permᴰ (go.map_order m) m

  abbrev HasSlaver : ℕ → DeviceRegister F → Type 0
  HasSlaver k r = r.slaver_id ≡ k

  -- The registers under a key of the map are those of that slaver, and are well formed.
  abbrev IsEntry : ℕ × List (DeviceRegister F) → Type 0
  IsEntry (k, rs) = All (HasSlaver k) rs × All IsRegister rs

  add_register-IsEntry :
      (r : DeviceRegister F) (m : List (ℕ × List (DeviceRegister F)))
      → IsRegister r
      → All IsEntry m
      → All IsEntry (add_register r m)
  unfolding add_register
  add_register-IsEntry r [] w h = (((refl, tt), (w, tt)), tt)
  add_register-IsEntry r ((k, rs) ∷ m) w ((hk, hr), h) = elim (Bool-cases (k == r.slaver_id)) [
    | inl e ↦
        rw (e, All)
          (
            (
              All-append (HasSlaver k) rs (r ∷ []) hk (ground arith, tt),
              All-append IsRegister rs (r ∷ []) hr (w, tt),
            ),
            h,
          )
    | inr e ↦ rw (e, All) ((hk, hr), add_register-IsEntry r m w h)
  ]

  slaver_groups-IsEntry :
      (rs : List (DeviceRegister F)) (m : List (ℕ × List (DeviceRegister F)))
      → All IsRegister rs
      → All IsEntry m
      → All IsEntry (slaver_groups m rs)
  unfolding slaver_groups
  slaver_groups-IsEntry [] m w h = h
  slaver_groups-IsEntry (r ∷ rs) m (wr, w) h =
      slaver_groups-IsEntry rs (add_register r m) w (add_register-IsEntry r m wr h)

  ordered-IsAscending :
      (k : ℕ) (r : DeviceRegister F) (rs : List (DeviceRegister F))
      → HasSlaver k r
      → All (HasSlaver k) rs
      → All IsRegister rs
      → IsOrderedFrom r rs
      → IsAscending r rs
  ordered-IsAscending k r [] e h w o = tt
  ordered-IsAscending k r (s ∷ rs) e (f, h) (ws, w) (first, o) =
      (f ∙ sym e, ground arith, ws, ordered-IsAscending k s rs f h w o)

  split-All :
      (k : ℕ) (rs : List (DeviceRegister F))
      → All (HasSlaver k) rs
      → All IsRegister rs
      → IsOrdered rs
      → All IsBlock (split rs)
  unfolding split
  split-All k [] h w o = tt
  split-All k (r ∷ rs) (e, h) (wr, w) o =
      split_loop-All rs [] r tt wr (ordered-IsAscending k r rs e h w o)

  module _ (go : Runtime F) (laws : IsRuntime go) where
    process_groups-perm :
        (m : List (ℕ × List (DeviceRegister F))) → Permᴰ (flat (process_groups go m)) (entries m)
    unfolding process_groups sort_by_read_address
    process_groups-perm [] = Permᴰ.nil
    process_groups-perm ((k, rs) ∷ m) =
        let sorted = go.sort_slice by_address rs in
        rw (flat-append (split sorted) (process_groups go m), flat-split sorted)
          (Permᴰ.trans (Permᴰ.append_right (flat (process_groups go m)) (laws.sort_perm rs))
            (Permᴰ.append_left rs (process_groups-perm m)))

    process_groups-All :
        (m : List (ℕ × List (DeviceRegister F))) → All IsEntry m → All IsBlock (process_groups go m)
    unfolding process_groups sort_by_read_address
    process_groups-All [] h = tt
    process_groups-All ((k, rs) ∷ m) ((hk, hr), h) =
        let back = Permᴰ.symm (laws.sort_perm rs) in
        All-append IsBlock (split (go.sort_slice by_address rs)) (process_groups go m)
          (split-All k _ (All-Permᴰ (HasSlaver k) back hk) (All-Permᴰ IsRegister back hr)
            (laws.sort_order rs))
          (process_groups-All m h)

    -- Grouping neither loses a register nor makes one up: the registers of all blocks are those that
    -- were given, in some order. The sort rearranges, and each key of a map is visited once.
    pub group_device_register-perm :
        (rs : List (DeviceRegister F)) → Perm (flat (group_device_register go rs)) rs
    unfolding group_device_register
    group_device_register-perm [] = ∣ Permᴰ.nil ∣₁
    group_device_register-perm (r ∷ rs) =
        let all =
          Permᴰ.trans (process_groups-perm (go.map_order (slaver_groups [] (r ∷ rs))))
            (Permᴰ.trans (entries-perm (laws.map_perm _)) (slaver_groups-perm (r ∷ rs) [])) in
        ∣ rw (append-nil (r ∷ rs)) at all ∣₁

    -- Every block is not empty and holds registers of one slaver, each of which begins at the
    -- address where the one before it ends, without a wrap-around of the address.
    pub group_device_register-IsBlock :
        (rs : List (DeviceRegister F))
        → All IsRegister rs
        → All IsBlock (group_device_register go rs)
    unfolding group_device_register
    group_device_register-IsBlock [] w = tt
    group_device_register-IsBlock (r ∷ rs) w =
        process_groups-All _ (
          All-Permᴰ IsEntry (Permᴰ.symm (laws.map_perm _)) (slaver_groups-IsEntry (r ∷ rs) [] w tt))
