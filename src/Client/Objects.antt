-- ===== src/Client/Objects.antt =====
-- client.go: the objects of a device identification, and how a response lists them.
use gomodbus.Prelude.{
  ℕ, suc, zero, ◌+◌, ◌≡◌, ◌≢◌, refl, sym, ap, ◌∙◌, arith, false, List, [], ◌∷◌, ◌++◌, append_assoc,
  append-nil, length, length-append, All,
}
use gomodbus.Prelude.{◌==◌, if◌then◌else◌}
use gomodbus.Go.{Outcome, ok, ◌>>=◌, index, slice}
use gomodbus.Go.Slice.{index-some, get_elem?-seam, get_elem?-after_seam, slice_middle}

-- A map from the number of an object to its value, as a list in the order of insertion.
abbrev pub Objects : Type 0
Objects = List (ℕ × List ℕ)

unfoldable pub store : ℕ → List ℕ → Objects → Objects
store id v [] = (id, v) ∷ []
store id v ((k, w) ∷ m) = let rest = store id v m in if k == id then (id, v) ∷ m else (k, w) ∷ rest

-- The loop that merges the objects of a response into the results.
unfoldable pub merge : Objects → Objects → Objects
merge results [] = results
merge results ((k, v) ∷ os) = merge (store k v results) os

-- The loop over the objects of a response, from an index of its data on.
unfoldable pub read_objects : ℕ → List ℕ → ℕ → Objects → Outcome Objects
read_objects zero bytes i m = ok m
read_objects (suc n) bytes i m = do
  id ← index bytes i
  size ← index bytes (i + 1)
  value ← slice bytes (i + 2) (i + 2 + size)
  read_objects n bytes (i + (2 + size)) (store id value m)

-- The list of objects in a response.
abbrev pub object_bytes : Objects → List ℕ
object_bytes [] = []
object_bytes ((id, v) ∷ os) = id ∷ length v ∷ (v ++ object_bytes os)

-- A number that no object of a list has.
abbrev pub IsFresh : ℕ → Objects → Type 0
IsFresh id os = All (λ p. p.0 ≢ id) os

-- No number occurs twice in a list of objects, or in the objects before it.
abbrev pub AreDistinct : Objects → Objects → Type 0
AreDistinct before [] = Unit {0}
AreDistinct before ((id, v) ∷ os) = IsFresh id before × AreDistinct (before ++ ((id, v) ∷ [])) os

pub store-IsFresh :
    (id : ℕ) (v : List ℕ) (m : Objects) → IsFresh id m → store id v m ≡ m ++ ((id, v) ∷ [])
unfolding store
store-IsFresh id v [] h = refl
store-IsFresh id v ((k, w) ∷ m) (n, h) =
    let other : (k == id) ≡ false = ground (arith, n) in
    rw other (ap (λ t. (k, w) ∷ t) (store-IsFresh id v m h))

pub merge-AreDistinct :
    (os before : Objects) → AreDistinct before os → merge before os ≡ before ++ os
unfolding merge
merge-AreDistinct [] before h = sym (append-nil before)
merge-AreDistinct ((id, v) ∷ os) before (new, h) =
    ap (λ t. merge t os) (store-IsFresh id v before new)
    ∙ merge-AreDistinct os (before ++ ((id, v) ∷ [])) h
    ∙ append_assoc before ((id, v) ∷ []) os

-- The objects of a response are read as they are listed.
pub read_objects-object_bytes :
    (os before : Objects) (front later : List ℕ) (i : ℕ)
    → i ≡ length front
    → AreDistinct before os
    → read_objects (length os) (front ++ (object_bytes os ++ later)) i before ≡ ok (before ++ os)
unfolding read_objects
read_objects-object_bytes [] before front later i e h = ap ok (sym (append-nil before))
read_objects-object_bytes ((id, v) ∷ os) before front later i e (new, h) =
    let head = front ++ (id ∷ length v ∷ []) in
    let whole = front ++ (id ∷ length v ∷ ((v ++ object_bytes os) ++ later)) in
    let seam : i + 1 ≡ suc (length front) = omega arith in
    let id_at : index whole i ≡ ok id =
      ap (index whole) e ∙ index-some whole _ id (get_elem?-seam front id _) in
    let size_at : index whole (i + 1) ≡ ok (length v) =
      ap (index whole) seam
      ∙ index-some whole _ (length v) (get_elem?-after_seam front id (length v) _) in
    let size : length head ≡ i + 2 = omega (arith, length-append front (id ∷ length v ∷ [])) in
    let parts : whole ≡ head ++ (v ++ (object_bytes os ++ later)) =
      ap (λ t. front ++ (id ∷ length v ∷ t)) (append_assoc v (object_bytes os) later)
      ∙ sym (append_assoc front (id ∷ length v ∷ []) (v ++ (object_bytes os ++ later))) in
    let value_at : slice whole (i + 2) (i + 2 + length v) ≡ ok v =
      ap (λ t. slice t (i + 2) (i + 2 + length v)) parts
      ∙ slice_middle head v (object_bytes os ++ later) _ _ (sym size) (omega (arith, size)) in
    let rest : whole ≡ (head ++ v) ++ (object_bytes os ++ later) =
      parts ∙ sym (append_assoc head v (object_bytes os ++ later)) in
    rw (id_at, size_at, value_at, store-IsFresh id v before new)
      (ap (λ t. read_objects (length os) t (i + (2 + length v)) (before ++ ((id, v) ∷ []))) rest
        ∙ read_objects-object_bytes os (before ++ ((id, v) ∷ [])) (head ++ v) later _
            (omega (arith, size, length-append head v)) h
        ∙ ap ok (append_assoc before ((id, v) ∷ []) os))
