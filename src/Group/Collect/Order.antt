-- ===== src/Group/Collect/Order.antt =====
-- enhancement-group.go: what `ReadGroupedDataConcurrently` returns, in whatever order its goroutines
-- end.
use gomodbus.Prelude.{
  ℕ, suc, ◌+◌, ◌≡◌, refl, sym, ap, ◌∙◌, ap₂, Bool, true, false, Option, List, [], ◌∷◌, ◌++◌, map,
  All, All-middle, All-replace, length, append_assoc, append-nil, if◌then◌else◌, arith,
}
use mathlib.Core.List.{Permᴰ}
use mathlib.Core.List.Permᴰ
use mathlib.Core.Path.{subst}
use gomodbus.Group.Collect.{
  Goroutine, System, report, start, finish, IsFinished, Step, store, receive, close, return,
  started, Steps, here, next,
}

-- A goroutine that has ended has stored its result.
abbrev pub HasStored : {D : Type 0} → Bool → List D → List D → Type 0
HasStored false slot result = Unit {0}
HasStored true slot result = slot ≡ result

-- The function returns after that.
abbrev pub HasEnded : {E : Type 0} → Bool → Bool → List (ℕ × E) → Type 0
HasEnded false closed channel = Unit {0}
HasEnded true closed channel = (closed ≡ true) × (channel ≡ [])

clash : {A : Type 0} {x : A} {xs : List A} → (x ∷ xs) ≡ [] → ⊥
clash p = cc

not_returned :
    {E : Type 0} (r c : Bool) (xs : List (ℕ × E)) (x : ℕ × E) (ys : List (ℕ × E))
    → xs ≡ x ∷ ys
    → HasEnded r c xs
    → r ≡ false
not_returned false c xs x ys e h = refl
not_returned true c xs x ys e h = absurd (clash (sym e ∙ h.1))

not_yet : {E : Type 0} (r c : Bool) (xs : List (ℕ × E)) → c ≡ false → HasEnded r c xs → r ≡ false
not_yet false c xs e h = refl
not_yet true c xs e h = absurd (different (h.0) e)
  where
    different : {b : Bool} → b ≡ true → b ≡ false → ⊥
    different p q = cc

module _ {D E : Type 0} where
  -- The errors of the goroutines that have ended, in the order of the groups.
  unfoldable pub reports : ℕ → List (Goroutine D E) → List (ℕ × E)
  reports i [] = []
  reports i (g ∷ gs) = (if g.finished then report i g.outcome.1 else []) ++ reports (suc i) gs

  -- The errors of some outcomes, in their order.
  unfoldable pub all_reports : ℕ → List (List D × Option E) → List (ℕ × E)
  all_reports i [] = []
  all_reports i (o ∷ os) = report i o.1 ++ all_reports (suc i) os

  abbrev pub IsStored : Goroutine D E → Type 0
  IsStored g = HasStored g.finished g.slot g.outcome.0

  -- The channel is closed when all have ended.
  abbrev pub HasClosed : Bool → List (Goroutine D E) → Type 0
  HasClosed false gs = Unit {0}
  HasClosed true gs = All IsFinished gs

  pub record IsCollected (outcomes : List (List D × Option E)) (s : System D E) : Type 0 where
    pub same : map (λ g. g.outcome) s.goroutines ≡ outcomes
    pub stored : All IsStored s.goroutines
    pub kept : Permᴰ (s.errors ++ s.channel) (reports 0 s.goroutines)
    pub closing : HasClosed s.closed s.goroutines
    pub ended : HasEnded s.returned s.closed s.channel

  IsStored-finish : (g : Goroutine D E) → IsStored (finish g)
  IsStored-finish g = refl

  -- The end of a goroutine adds its report to those of the others.
  reports-finish :
      (front back : List (Goroutine D E)) (g : Goroutine D E) (i : ℕ)
      → g.finished ≡ false
      → Permᴰ
          (reports i (front ++ (g ∷ back)) ++ report (i + length front) g.outcome.1)
          (reports i (front ++ (finish g ∷ back)))
  unfolding reports
  reports-finish [] back g i e =
      let place : i + 0 ≡ i = omega arith in
      rw (e, place) (Permᴰ.append_comm (reports (suc i) back) (report i g.outcome.1))
  reports-finish (x ∷ front) back g i e =
      let place : i + suc (length front) ≡ suc i + length front = omega arith in
      let first = if x.finished then report i x.outcome.1 else [] in
      rw (append_assoc first (reports (suc i) (front ++ (g ∷ back))), place)
        (Permᴰ.append_left first (reports-finish front back g (suc i) e))

  outcomes-finish :
      (front back : List (Goroutine D E)) (g : Goroutine D E)
      → map (λ x. x.outcome) (front ++ (finish g ∷ back))
        ≡ map (λ x. x.outcome) (front ++ (g ∷ back))
  outcomes-finish [] back g = refl
  outcomes-finish (x ∷ front) back g = ap (λ t. x.outcome ∷ t) (outcomes-finish front back g)

  not_closed :
      (c : Bool) (gs front back : List (Goroutine D E)) (g : Goroutine D E)
      → gs ≡ front ++ (g ∷ back)
      → g.finished ≡ false
      → HasClosed c gs
      → c ≡ false
  not_closed false gs front back g e f h = refl
  not_closed true gs front back g e f h =
      absurd (clash f (All-middle IsFinished front back g (subst (All IsFinished) e h)))
    where
      clash : {b : Bool} → b ≡ false → b ≡ true → ⊥
      clash p q = cc

  Step-IsCollected :
      (outcomes : List (List D × Option E)) {s t : System D E}
      → Step s t
      → IsCollected outcomes s
      → IsCollected outcomes t
  Step-IsCollected outcomes {s = s} (store front g back e f room) h =
      let open_now = not_closed s.closed s.goroutines front back g e f h.closing in
      let place : 0 + length front ≡ length front = omega arith in
      let running = not_yet s.returned s.closed s.channel open_now h.ended in
      record {
        same = outcomes-finish front back g ∙ (ap (map (λ x. x.outcome)) (sym e) ∙ h.same);
        stored =
            All-replace IsStored front back g (finish g) (subst (All IsStored) e h.stored)
              (IsStored-finish g);
        kept = rw (sym (append_assoc s.errors s.channel (report (length front) g.outcome.1))) (
            Permᴰ.trans
              (Permᴰ.append_right (report (length front) g.outcome.1)
                (subst (λ t. Permᴰ (s.errors ++ s.channel) (reports 0 t)) e h.kept))
              (rw place at (reports-finish front back g 0 f)));
        closing = rw open_now tt;
        ended = rw running tt;
      }
  Step-IsCollected outcomes {s = s} (receive x xs e) h = record {
    same = h.same;
    stored = h.stored;
    kept = rw (append_assoc s.errors (x ∷ []) xs) (rw e at h.kept);
    closing = h.closing;
    ended = rw (not_returned s.returned s.closed s.channel x xs e h.ended) tt;
  }
  Step-IsCollected outcomes {s = s} (close all open_now) h = record {
    same = h.same;
    stored = h.stored;
    kept = h.kept;
    closing = all;
    ended = rw (not_yet s.returned s.closed s.channel open_now h.ended) tt;
  }
  Step-IsCollected outcomes (return c e) h = record {
    same = h.same;
    stored = h.stored;
    kept = h.kept;
    closing = h.closing;
    ended = (c, e);
  }

  map-start : (os : List (List D × Option E)) → map (λ g. g.outcome) (map start os) ≡ os
  map-start [] = refl
  map-start (o ∷ os) = ap (λ t. o ∷ t) (map-start os)

  start-IsStored : (os : List (List D × Option E)) → All IsStored (map start os)
  start-IsStored [] = tt
  start-IsStored (o ∷ os) = (tt, start-IsStored os)

  reports-start : (os : List (List D × Option E)) (i : ℕ) → reports i (map start os) ≡ []
  unfolding reports
  reports-start [] i = refl
  reports-start (o ∷ os) i = reports-start os (suc i)

  pub Steps-IsCollected :
      (outcomes : List (List D × Option E)) {s : System D E}
      → Steps (started outcomes) s
      → IsCollected outcomes s
  Steps-IsCollected outcomes here = record {
    same = map-start outcomes;
    stored = start-IsStored outcomes;
    kept = rw (reports-start outcomes 0) Permᴰ.nil;
    closing = tt;
    ended = tt;
  }
  Steps-IsCollected outcomes (next r step) =
      Step-IsCollected outcomes step (Steps-IsCollected outcomes r)

  -- When all goroutines have ended, all results are stored and all errors reported.
  finished_results :
      (gs : List (Goroutine D E))
      → All IsStored gs
      → All IsFinished gs
      → map (λ g. g.slot) gs ≡ map (λ o. o.0) (map (λ g. g.outcome) gs)
  finished_results [] h f = refl
  finished_results (g ∷ gs) h f =
      ap₂ (λ x t. x ∷ t) (at g.finished (f.0) h.0) (finished_results gs h.1 f.1)
    where
      at : {slot result : List D} (b : Bool) → b ≡ true → HasStored b slot result → slot ≡ result
      at true e h = h
      at false e h = absurd (cc)

  finished_reports :
      (gs : List (Goroutine D E)) (i : ℕ)
      → All IsFinished gs
      → reports i gs ≡ all_reports i (map (λ g. g.outcome) gs)
  unfolding reports all_reports
  finished_reports [] i f = refl
  finished_reports (g ∷ gs) i f = rw (f.0, finished_reports gs (suc i) f.1) refl

  -- What it has returned.
  pub returned_results :
      (outcomes : List (List D × Option E)) {s : System D E}
      → Steps (started outcomes) s
      → s.returned ≡ true
      → (map (λ g. g.slot) s.goroutines ≡ map (λ o. o.0) outcomes)
        × Permᴰ s.errors (all_reports 0 outcomes)
  returned_results outcomes {s = s} r e =
      let h = Steps-IsCollected outcomes r in
      let ended : HasEnded true s.closed s.channel = rw e at h.ended in
      let finished : HasClosed true s.goroutines = rw ended.0 at h.closing in
      (
        finished_results s.goroutines h.stored finished ∙ ap (map (λ o. o.0)) h.same,
        rw (ended.1, append-nil s.errors, finished_reports s.goroutines 0 finished, h.same) at
            h.kept,
      )
