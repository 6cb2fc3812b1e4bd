-- ===== src/Group/Collect/Returned.antt =====
-- enhancement-group.go: `ReadGroupedDataConcurrently` always comes to its end.
use gomodbus.Prelude.{
  ℕ, ◌+◌, ◌≤◌, ◌≡◌, refl, sym, ◌∙◌, Bool, true, false, Option, none, some, List, [], ◌∷◌, ◌++◌, All,
  length, length-append, append_assoc, append-nil, arith,
}
use mathlib.Core.Path.{subst}
use mathlib.Core.List.{Permᴰ}
use gomodbus.Prelude.{suc, ◌<◌, Bool-cases, inl, inr}
use gomodbus.Group.Collect.{started}
use gomodbus.Group.Collect.Order.{reports, Steps-IsCollected}
use gomodbus.Group.Collect.{
  Goroutine, System, report, finish, IsFinished, Step, store, receive, close, return, Steps, here,
  next,
}

length-report : {E : Type 0} (i : ℕ) (e : Option E) → length (report i e) ≤ 1
unfolding report
length-report i none = omega arith
length-report i (some e) = omega arith

length-Permᴰ : {A : Type 0} {xs ys : List A} → Permᴰ xs ys → length xs ≡ length ys
length-Permᴰ Permᴰ.nil = refl
length-Permᴰ (Permᴰ.cons e p) = omega (arith, length-Permᴰ p)
length-Permᴰ (Permᴰ.swap e f) = omega arith
length-Permᴰ (Permᴰ.trans p q) = length-Permᴰ p ∙ length-Permᴰ q

module _ {D E : Type 0} where
  Steps-trans : {s t u : System D E} → Steps s t → Steps t u → Steps s u
  Steps-trans r here = r
  Steps-trans r (next q step) = next (Steps-trans r q) step

  unfoldable pub CanReturn : System D E → Type 0
  CanReturn s = (t : System D E) × Steps s t × (t.returned ≡ true)

  after : {s t : System D E} → Step s t → CanReturn t → CanReturn s
  unfolding CanReturn
  after step (t, r, e) = (t, Steps-trans (next here step) r, e)

  -- The caller receives what the channel holds, and goes on.
  drain :
      (xs : List (ℕ × E)) (s : System D E)
      → s.channel ≡ xs
      → ((t : System D E)
          → t.channel ≡ []
          → t.goroutines ≡ s.goroutines
          → t.closed ≡ s.closed
          → CanReturn t)
      → CanReturn s
  drain [] s e rest = rest s e refl refl
  drain (x ∷ xs) s e rest = after (receive x xs e) (drain xs _ refl rest)

  from_closed : (s : System D E) → s.closed ≡ true → CanReturn s
  unfolding CanReturn
  from_closed s c = drain s.channel s refl (λ t e gs d. (_, next here (return (d ∙ c) e), refl))

  All-append :
      (xs ys : List (Goroutine D E))
      → All IsFinished xs
      → All IsFinished ys
      → All IsFinished (xs ++ ys)
  All-append [] ys h k = k
  All-append (x ∷ xs) ys h k = (h.0, All-append xs ys h.1 k)

  -- A report fits into the channel of which nothing is left.
  report_room :
      (front back : List (Goroutine D E)) (g : Goroutine D E) (e : Option E)
      → 0 + length (report (length front) e) ≤ length (front ++ (g ∷ back))
  unfolding report
  report_room front back g none = omega arith
  report_room front back g (some e) = omega (arith, length-append front (g ∷ back))

  finish_one :
      (b : Bool) (g : Goroutine D E) (back front : List (Goroutine D E)) (s : System D E)
      → g.finished ≡ b
      → s.goroutines ≡ front ++ (g ∷ back)
      → s.closed ≡ false
      → ((h : Goroutine D E) (t : System D E)
          → IsFinished h
          → t.goroutines ≡ (front ++ (h ∷ [])) ++ back
          → t.closed ≡ false
          → CanReturn t)
      → CanReturn s
  finish_one true g back front s f e c rest =
      rest g s f (e ∙ sym (append_assoc front (g ∷ []) back)) c
  finish_one false g back front s f e c rest = drain s.channel s refl (λ t d gs k.
      after (store front g back (gs ∙ e) f (rw (d, gs ∙ e) (report_room front back g g.outcome.1)))
        (rest (finish g) _ refl (sym (append_assoc front (finish g ∷ []) back)) (k ∙ c)))

  -- The goroutines that have not ended, one after the other.
  finish_all :
      (back front : List (Goroutine D E)) (s : System D E)
      → s.goroutines ≡ front ++ back
      → All IsFinished front
      → s.closed ≡ false
      → CanReturn s
  finish_all [] front s e h c =
      let all : All IsFinished s.goroutines =
        subst (All IsFinished) (sym (e ∙ append-nil front)) h in
      after (close all c) (from_closed _ refl)
  finish_all (g ∷ back) front s e h c =
      finish_one g.finished g back front s refl e c (λ x t f e' c'.
        finish_all back (front ++ (x ∷ [])) t e' (All-append front (x ∷ []) h (f, tt)) c')

  from_any : (b : Bool) (s : System D E) → s.closed ≡ b → CanReturn s
  from_any true s c = from_closed s c
  from_any false s c = finish_all s.goroutines [] s refl tt c

  returns : (s : System D E) → (t : System D E) × Steps s t × (t.returned ≡ true)
  unfolding CanReturn
  returns s = from_any s.closed s refl

  -- A goroutine has at most one report.
  length-reports : (i : ℕ) (gs : List (Goroutine D E)) → length (reports i gs) ≤ length gs
  unfolding reports
  length-reports i [] = omega arith
  length-reports i (g ∷ gs) = elim (Bool-cases g.finished) [
    | inl e ↦ rw e (
        omega (
          arith,
          length-append (report i g.outcome.1) (reports (suc i) gs),
          length-report i g.outcome.1,
          length-reports (suc i) gs,
        ))
    | inr e ↦ rw e (omega (arith, length-reports (suc i) gs))
  ]

  -- One that has not ended has none yet.
  reports_room :
      (front back : List (Goroutine D E)) (g : Goroutine D E) (i : ℕ)
      → g.finished ≡ false
      → length (reports i (front ++ (g ∷ back))) < length (front ++ (g ∷ back))
  unfolding reports
  reports_room [] back g i e = rw e (omega (arith, length-reports (suc i) back))
  reports_room (x ∷ front) back g i e = elim (Bool-cases x.finished) [
    | inl f ↦ rw f (
        omega (
          arith,
          length-append (report i x.outcome.1) (reports (suc i) (front ++ (g ∷ back))),
          length-report i x.outcome.1,
          reports_room front back g (suc i) e,
        ))
    | inr f ↦ rw f (omega (arith, reports_room front back g (suc i) e))
  ]

  -- Whatever the goroutines of the concurrent read and the loop that collects their errors have done,
  -- in any order: a goroutine that has not ended never waits for room in the channel, since it can
  -- store its result and send its error, if it has one, in its next step, also when none of the
  -- errors sent before has been received; and there are steps after that with which the function returns.
  pub store_ready :
      (outcomes : List (List D × Option E)) {s : System D E} (front : List (Goroutine D E))
      (g : Goroutine D E) (back : List (Goroutine D E))
      → Steps (started outcomes) s
      → s.goroutines ≡ front ++ (g ∷ back)
      → g.finished ≡ false
      → (t : System D E) × Step s t
        × (t.goroutines ≡ front ++ (finish g ∷ back))
        × (t.channel ≡ s.channel ++ report (length front) g.outcome.1)
        × ((u : System D E) × Steps t u × (u.returned ≡ true))
  store_ready outcomes {s = s} front g back r e f =
      let kept = length-Permᴰ ((Steps-IsCollected outcomes r).kept) in
      let room : length (reports 0 s.goroutines) < length s.goroutines =
        rw e (reports_room front back g 0 f) in
      let fits : length s.channel + length (report (length front) g.outcome.1)
          ≤ length s.goroutines =
        omega (
          arith,
          kept,
          room,
          length-append s.errors s.channel,
          length-report (length front) g.outcome.1,
        ) in
      (_, store front g back e f fits, refl, refl, returns _)
