-- ===== src/Manager/Load.antt =====
-- When loading registers succeeds.
use gomodbus.Prelude.{
  ℕ, ◌≡◌, ◌≢◌, ◌↔◌, ◌⊎◌, inl, inr, refl, sym, ◌∙◌, Bool, true, false, Bool-cases, arith,
}
use gomodbus.Prelude.{List, [], ◌∷◌, ◌++◌, map, ap, if◌then◌else◌, ◌||◌, Option, none, some}
use gomodbus.Go.Text.{same_string, same_string_refl, same_string-eq}
use gomodbus.Register.{DeviceRegister}
use gomodbus.Group.{Runtime, group_device_register}
use gomodbus.Manager.{
  has_tag, find_duplicate, Scheduler, Manager, loaded, panicked, duplicate_tag, load,
  load_registers,
}

-- No tag of a list is the given one.
abbrev pub IsNew : List ℕ → List (List ℕ) → Type 0
IsNew tag [] = Unit {0}
IsNew tag (t ∷ ts) = (t ≢ tag) × IsNew tag ts

has_tag-IsNew : (ts : List (List ℕ)) (tag : List ℕ) → (has_tag ts tag ≡ false) ↔ IsNew tag ts
unfolding has_tag
has_tag-IsNew [] tag = (λ h. tt, λ h. refl)
has_tag-IsNew (t ∷ ts) tag = (
  λ h. (λ e. different t tag (ground arith) e, (has_tag-IsNew ts tag).0 (ground arith)),
  λ h. either (not_same t tag h.0) ((has_tag-IsNew ts tag).1 h.1),
)
  where
    different : (t tag : List ℕ) → same_string t tag ≡ false → t ≢ tag
    different t tag h e = clash (sym (rw e (same_string_refl tag)) ∙ h)
      where
        clash : ◌≢◌ {A = Bool} true false
        clash p = cc

    not_same : (t tag : List ℕ) → t ≢ tag → same_string t tag ≡ false
    not_same t tag n = elim (Bool-cases (same_string t tag)) [
      | inl e ↦ absurd (n (same_string-eq t tag e))
      | inr e ↦ e
    ]

    either : {a b : Bool} → a ≡ false → b ≡ false → (a || b) ≡ false
    either e f = ground arith

abbrev IsNone : Option (List ℕ) → Type 0
IsNone none = Unit {0}
IsNone (some x) = ⊥

module _ {F : Type 0} where
  -- Each register has a tag that none of the seen ones and none before it has.
  abbrev pub AreDistinct : List (List ℕ) → List (DeviceRegister F) → Type 0
  AreDistinct seen [] = Unit {0}
  AreDistinct seen (r ∷ rs) = IsNew r.tag seen × AreDistinct (r.tag ∷ seen) rs

  find_duplicate_iff :
      (rs : List (DeviceRegister F)) (seen : List (List ℕ))
      → IsNone (find_duplicate seen rs) ↔ AreDistinct seen rs
  unfolding find_duplicate
  find_duplicate_iff [] seen = (λ h. tt, λ h. tt)
  find_duplicate_iff (r ∷ rs) seen = elim (Bool-cases (has_tag seen r.tag)) [
    | inl e ↦ rw (e, IsNone) (λ h. absurd h, λ h. clash (sym e ∙ (has_tag-IsNew seen r.tag).1 h.0))
    | inr e ↦
        let rest = find_duplicate_iff rs (r.tag ∷ seen) in
        rw (e, IsNone) (λ h. ((has_tag-IsNew seen r.tag).0 e, rest.0 h), λ h. rest.1 h.1)
  ]
    where
      clash : {A : Type 0} → true ≡ false → A
      clash p = absurd (cc)

  abbrev pub tags : List (DeviceRegister F) → List (List ℕ)
  tags rs = map (λ r. r.tag) rs

  -- A register with a tag that one before it has, or a seen one, where none before it repeats one.
  pub record RepeatsFirst (seen : List (List ℕ)) (registers : List (DeviceRegister F))
      (tag : List ℕ) : Type 0 where
    pub before : List (DeviceRegister F)
    pub register : DeviceRegister F
    pub after : List (DeviceRegister F)
    pub parts : registers ≡ before ++ (register ∷ after)
    pub same : register.tag ≡ tag
    pub distinct : AreDistinct seen before
    pub repeated : (¬ IsNew tag seen) ⊎ (¬ IsNew tag (tags before))

  -- A tag that is not new behind another one is that one, or not new in front of it.
  repeated_step :
      (seen : List (List ℕ)) (r : DeviceRegister F) (before : List (DeviceRegister F))
      (tag : List ℕ)
      → (¬ IsNew tag (r.tag ∷ seen)) ⊎ (¬ IsNew tag (tags before))
      → (¬ IsNew tag seen) ⊎ (¬ IsNew tag (tags (r ∷ before)))
  repeated_step seen r before tag (inr n) = inr (λ h. n h.1)
  repeated_step seen r before tag (inl n) = elim (Bool-cases (has_tag seen tag)) [
    | inl e ↦ inl (λ h. clash (sym e ∙ (has_tag-IsNew seen tag).1 h))
    | inr e ↦ inr (λ h. n (h.0, (has_tag-IsNew seen tag).0 e))
  ]
    where
      clash : true ≡ false → ⊥
      clash p = cc

  find_duplicate-RepeatsFirst :
      (rs : List (DeviceRegister F)) (seen : List (List ℕ)) (tag : List ℕ)
      → find_duplicate seen rs ≡ some tag
      → RepeatsFirst seen rs tag
  unfolding find_duplicate
  find_duplicate-RepeatsFirst [] seen tag h = cc
  find_duplicate-RepeatsFirst (r ∷ rs) seen tag h = elim (Bool-cases (has_tag seen r.tag)) [
    | inl e ↦
        let same : r.tag ≡ tag = some_inverse (rw e at h) in
        record {
          before = [];
          register = r;
          after = rs;
          parts = refl;
          same = same;
          distinct = tt;
          repeated = inl (λ n. clash (sym e ∙ (has_tag-IsNew seen r.tag).1 (rw same n)));
        }
    | inr e ↦
        let rest = find_duplicate-RepeatsFirst rs (r.tag ∷ seen) tag (rw e at h) in
        record {
          before = r ∷ rest.before;
          register = rest.register;
          after = rest.after;
          parts = ap (λ t. r ∷ t) rest.parts;
          same = rest.same;
          distinct = ((has_tag-IsNew seen r.tag).0 e, rest.distinct);
          repeated = repeated_step seen r rest.before tag rest.repeated;
        }
  ]
    where
      clash : true ≡ false → ⊥
      clash p = cc

      some_inverse : {x y : List ℕ} → ◌≡◌ {A = Option (List ℕ)} (some x) (some y) → x ≡ y
      some_inverse p = cc

  module _ (go : Runtime F) where
    load_at :
        (registers : List (DeviceRegister F)) (s : Scheduler F) (m : Manager F)
        (d : Option (List ℕ))
        → find_duplicate [] registers ≡ d
        → (AreDistinct [] registers
            × (load go registers s
                ≡ (loaded, record { groups = group_device_register go registers }))
            × (load_registers go registers m
                ≡ (loaded, record m { grouped_registers = group_device_register go registers })))
          ⊎ ((tag : List ℕ) × RepeatsFirst [] registers tag
              × (load go registers s ≡ (duplicate_tag tag, s))
              × (load_registers go registers m
                  ≡ (if m.has_on_error then duplicate_tag tag else panicked, m)))
    unfolding load load_registers
    load_at registers s m none e = inl (
      (find_duplicate_iff registers []).0 (rw e tt),
      rw (e, load) refl,
      rw (e, load_registers) refl,
    )
    load_at registers s m (some tag) e = inr (
      tag,
      find_duplicate-RepeatsFirst registers [] tag e,
      rw (e, load) refl,
      rw (e, load_registers) refl,
    )

    -- Loading registers into the scheduler and into the register manager. When no two registers have
    -- the same tag, both succeed and replace the groups by the blocks of the registers. Otherwise both
    -- leave the groups as they were: the scheduler returns an error with the tag of the first register
    -- whose tag one before it has, and the register manager gives that error to the callback for
    -- errors, or panics when there is none.
    pub load_cases :
        (registers : List (DeviceRegister F)) (s : Scheduler F) (m : Manager F)
        → (AreDistinct [] registers
            × (load go registers s
                ≡ (loaded, record { groups = group_device_register go registers }))
            × (load_registers go registers m
                ≡ (loaded, record m { grouped_registers = group_device_register go registers })))
          ⊎ ((tag : List ℕ) × RepeatsFirst [] registers tag
              × (load go registers s ≡ (duplicate_tag tag, s))
              × (load_registers go registers m
                  ≡ (if m.has_on_error then duplicate_tag tag else panicked, m)))
    load_cases registers s m = load_at registers s m (find_duplicate [] registers) refl
