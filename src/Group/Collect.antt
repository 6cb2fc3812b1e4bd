-- ===== src/Group/Collect.antt =====
-- enhancement-group.go: how `ReadGroupedDataConcurrently` collects what its goroutines have read. The
-- goroutines end in any order, while the errors that are sent already are received. What the
-- `readGroup` of each gives is its outcome here.

pub mod Order
pub mod Sequential
pub mod Returned
use gomodbus.Prelude.{
  ℕ, zero, suc, ◌+◌, ◌≤◌, ◌≡◌, refl, sym, ap, ◌∙◌, Bool, true, false, Option, none, some, List, [],
  ◌∷◌, ◌++◌, map, All, length, append_assoc, append-nil, if◌then◌else◌, arith,
}

-- A goroutine with the place of its result in `result`.
pub record Goroutine (D E : Type 0) : Type 0 where
  pub outcome : List D × Option E
  pub slot : List D
  pub finished : Bool

-- The goroutines in the order of the groups, the channel `errChan`, the errors that the caller has
-- received, whether the channel is closed, and whether the function has returned.
pub record System (D E : Type 0) : Type 0 where
  pub goroutines : List (Goroutine D E)
  pub channel : List (ℕ × E)
  pub errors : List (ℕ × E)
  pub closed : Bool
  pub returned : Bool

-- `groupError{idx, err}`, for an error.
unfoldable pub report : {E : Type 0} → ℕ → Option E → List (ℕ × E)
report i none = []
report i (some e) = (i, e) ∷ []

module _ {D E : Type 0} where
  abbrev pub start : List D × Option E → Goroutine D E
  start o = record { outcome = o; slot = []; finished = false }

  -- `result[idx] = groupResult`, and the end of the goroutine.
  abbrev pub finish : Goroutine D E → Goroutine D E
  finish g = record g { slot = g.outcome.0; finished = true }

  abbrev pub IsFinished : Goroutine D E → Type 0
  IsFinished g = g.finished ≡ true

  pub data Step (s : System D E) : System D E → Type 0 where
    -- A goroutine stores its result and sends its error, for which the channel has room.
    store :
        (front : List (Goroutine D E)) (g : Goroutine D E) (back : List (Goroutine D E))
        → s.goroutines ≡ front ++ (g ∷ back)
        → g.finished ≡ false
        → length s.channel + length (report (length front) g.outcome.1) ≤ length s.goroutines
        → Step s (record s {
          goroutines = front ++ (finish g ∷ back);
          channel = s.channel ++ report (length front) g.outcome.1;
        })
    -- `errors = append(errors, ...)`
    receive :
        (x : ℕ × E) (xs : List (ℕ × E))
        → s.channel ≡ x ∷ xs
        → Step s (record s { channel = xs; errors = s.errors ++ (x ∷ []) })
    -- `wg.Wait()` and `close(errChan)`
    close : All IsFinished s.goroutines → s.closed ≡ false → Step s (record s { closed = true })
    -- the end of the loop over the channel
    return : s.closed ≡ true → s.channel ≡ [] → Step s (record s { returned = true })

  -- The goroutines for groups with these outcomes.
  abbrev pub started : List (List D × Option E) → System D E
  started outcomes = record {
    goroutines = map start outcomes;
    channel = [];
    errors = [];
    closed = false;
    returned = false;
  }

  pub data Steps (s : System D E) : System D E → Type 0 where
    here : Steps s s
    next : {t u : System D E} → Steps s t → Step t u → Steps s u
