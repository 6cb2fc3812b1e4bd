-- ===== src/Logger/Filter.antt =====
-- enhancement-logger.go: the level that a message names and the level that a logger was given decide
-- whether the message is written.
use gomodbus.Prelude.{
  ℕ, ◌-◌, ◌<◌, ◌≡◌, ◌≢◌, refl, sym, ap, ◌∙◌, false, ◌&&◌, not, List, [], ◌∷◌, ◌++◌, map, All,
  append_assoc, append-nil, some, length, leb, ◌==◌, if◌then◌else◌, arith,
}
use gomodbus.Go.Text.{same_string}
use gomodbus.Logger.{
  LogLevel, level_debug, level_info, level_warning, level_error, level_none, rank, level_to_string,
  find_level, string_to_level, has_prefix, bracketed, with_colon, level_of_upper, Logger, Runtime,
  set_level, set_level_from_string, determine_level, format_message, write,
}

-- An ASCII letter in upper case.
unfoldable pub upper : ℕ → ℕ
upper c = if leb 97 c && leb c 122 then c - 32 else c

-- What `strings.ToUpper` does to a string that starts with an ASCII character.
pub record IsUpper (to_upper : List ℕ → List ℕ) : Type 0 where
  pub on_nil : to_upper [] ≡ []
  pub on_ascii : (c : ℕ) (t : List ℕ) → c < 128 → to_upper (c ∷ t) ≡ upper c ∷ to_upper t

-- How a message names its level.
pub data Shape : Type 0 where
  brackets colon : Shape

unfoldable pub tag : Shape → List ℕ → List ℕ
tag brackets name = bracketed name
tag colon name = with_colon name

-- A name of a level, in any case.
pub record Names (level : LogLevel) (name : List ℕ) : Type 0 where
  pub ascii : All (λ c. c < 128) name
  pub same : map upper name ≡ level_to_string level

upper-append :
    {to_upper : List ℕ → List ℕ}
    → IsUpper to_upper
    → (xs t : List ℕ) → All (λ c. c < 128) xs
    → to_upper (xs ++ t) ≡ map upper xs ++ to_upper t
upper-append h [] t a = refl
upper-append h (x ∷ xs) t a =
    h.on_ascii x (xs ++ t) a.0 ∙ ap (λ u. upper x ∷ u) (upper-append h xs t a.1)

upper-name :
    {to_upper : List ℕ → List ℕ}
    → IsUpper to_upper
    → (level : LogLevel) (name t : List ℕ) → Names level name
    → to_upper (name ++ t) ≡ level_to_string level ++ to_upper t
upper-name {to_upper} h level name t n =
    upper-append h name t n.ascii ∙ ap (λ u. u ++ to_upper t) n.same

-- The message in upper case has the tag in upper case.
upper-tag :
    {to_upper : List ℕ → List ℕ}
    → IsUpper to_upper
    → (shape : Shape) (level : LogLevel) (name text : List ℕ) → Names level name
    → to_upper (tag shape name ++ text) ≡ tag shape (level_to_string level) ++ to_upper text
unfolding tag upper
upper-tag {to_upper} h brackets level name text n =
    h.on_ascii 91 ((name ++ (93 ∷ [])) ++ text) (omega arith)
    ∙ ap (λ u. 91 ∷ u)
        (ap to_upper (append_assoc name (93 ∷ []) text)
          ∙ (upper-name h level name (93 ∷ text) n
              ∙ (ap (λ u. level_to_string level ++ u) (h.on_ascii 93 text (omega arith))
                  ∙ sym (append_assoc (level_to_string level) (93 ∷ []) (to_upper text)))))
upper-tag {to_upper} h colon level name text n =
    ap to_upper (append_assoc name (58 ∷ []) text)
    ∙ (upper-name h level name (58 ∷ text) n
        ∙ (ap (λ u. level_to_string level ++ u) (h.on_ascii 58 text (omega arith))
            ∙ sym (append_assoc (level_to_string level) (58 ∷ []) (to_upper text))))

level_of_upper-tag :
    (shape : Shape) (level : LogLevel) (text : List ℕ)
    → level ≢ level_none
    → level_of_upper (tag shape (level_to_string level) ++ text) ≡ level
unfolding tag level_of_upper has_prefix level_to_string
level_of_upper-tag brackets level_debug text h = refl
level_of_upper-tag colon level_debug text h = refl
level_of_upper-tag brackets level_info text h = refl
level_of_upper-tag colon level_info text h = refl
level_of_upper-tag brackets level_warning text h = refl
level_of_upper-tag colon level_warning text h = refl
level_of_upper-tag brackets level_error text h = refl
level_of_upper-tag colon level_error text h = refl
level_of_upper-tag shape level_none text h = absurd (h refl)

pub string_to_level-level_to_string :
    (level : LogLevel) → string_to_level (level_to_string level) ≡ some level
unfolding string_to_level find_level level_to_string same_string
string_to_level-level_to_string level_debug = refl
string_to_level-level_to_string level_info = refl
string_to_level-level_to_string level_warning = refl
string_to_level-level_to_string level_error = refl
string_to_level-level_to_string level_none = refl

-- NONE is above every level of a message.
passes :
    (threshold level : LogLevel)
    → level ≢ level_none
    → (leb (rank threshold) (rank level) && not (rank threshold == rank level_none))
      ≡ leb (rank threshold) (rank level)
unfolding rank
passes threshold level_debug n = ground arith
passes threshold level_info n = ground arith
passes threshold level_warning n = ground arith
passes threshold level_error n = ground arith
passes threshold level_none n = absurd (n refl)

module _ {W : Type 0} (go : Runtime W) (h : IsUpper go.to_upper) where
  determine_level-tag :
      (shape : Shape) (level : LogLevel) (name text : List ℕ)
      → Names level name
      → level ≢ level_none
      → determine_level go (tag shape name ++ text) ≡ level
  unfolding determine_level
  determine_level-tag shape level name text n some_level =
      ap level_of_upper (upper-tag h shape level name text n)
      ∙ level_of_upper-tag shape level (go.to_upper text) some_level

  set_level_from_string-name :
      (level : LogLevel) (name : List ℕ) (l : Logger W)
      → Names level name
      → set_level_from_string go name l ≡ (false, set_level level l)
  unfolding set_level_from_string
  set_level_from_string-name level name l n =
      let name_upper : go.to_upper name ≡ level_to_string level =
        sym (ap go.to_upper (append-nil name))
        ∙ (upper-name h level name [] n
            ∙ (ap (λ u. level_to_string level ++ u) h.on_nil
                ∙ append-nil (level_to_string level))) in
      rw (name_upper, string_to_level-level_to_string level, set_level_from_string) refl

  -- Setting the level of a logger by its name, in any case, succeeds; and of a message that then names
  -- a level in brackets or before a colon, in any case, `Write` gives the line that it makes with
  -- that level to the output exactly when the level is not below the logger's, and otherwise
  -- reports the length of the message and leaves the output alone. NONE writes nothing.
  pub write-set_level_from_string :
      (shape : Shape) (level threshold : LogLevel) (name threshold_name timestamp text : List ℕ)
      (l : Logger W)
      → level ≢ level_none
      → Names level name
      → Names threshold threshold_name
      → let message = tag shape name ++ text in
        let (failed, after) = set_level_from_string go threshold_name l in
        let (written, output) =
          go.write_output (format_message go timestamp level l.prefix message) l.output in
        (failed ≡ false)
        × (write go timestamp message after ≡ (
            if leb (rank threshold) (rank level)
            then (written, record l { level = threshold; output = output })
            else (
              record { count = length message; failed = false },
              record l { level = threshold },
            )))
  unfolding write set_level
  write-set_level_from_string shape level threshold name threshold_name timestamp text l n m k =
      let set_to = set_level_from_string-name threshold threshold_name l k in
      let named = determine_level-tag shape level name text m n in
      rw (set_to, named, passes threshold level n) (refl, refl)
