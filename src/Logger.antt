-- ===== src/Logger.antt =====
-- enhancement-logger.go: the levels, their names, and which messages a logger writes.
pub mod Filter
use gomodbus.Prelude.{
  ℕ, ◌-◌, ◌≡◌, Bool, true, false, ◌&&◌, ◌||◌, not, List, [], ◌∷◌, ◌++◌, map, Option, none, some,
  length, leb, ◌==◌, if◌then◌else◌,
}
use gomodbus.Go.Text.{same_string}

-- `LogLevel`, with the constants that there are.
pub data LogLevel : Type 0 where
  level_debug level_info level_warning level_error level_none : LogLevel

-- The value of a level, by `iota`.
unfoldable pub rank : LogLevel → ℕ
rank level_debug = 0
rank level_info = 1
rank level_warning = 2
rank level_error = 3
rank level_none = 4

-- `LevelToString`: the bytes of DEBUG, INFO, WARNING, ERROR and NONE.
unfoldable pub level_to_string : LogLevel → List ℕ
level_to_string level_debug = 68 ∷ 69 ∷ 66 ∷ 85 ∷ 71 ∷ []
level_to_string level_info = 73 ∷ 78 ∷ 70 ∷ 79 ∷ []
level_to_string level_warning = 87 ∷ 65 ∷ 82 ∷ 78 ∷ 73 ∷ 78 ∷ 71 ∷ []
level_to_string level_error = 69 ∷ 82 ∷ 82 ∷ 79 ∷ 82 ∷ []
level_to_string level_none = 78 ∷ 79 ∷ 78 ∷ 69 ∷ []

-- The keys of `StringToLevel` and their values.
abbrev pub levels : List LogLevel
levels = level_debug ∷ level_info ∷ level_warning ∷ level_error ∷ level_none ∷ []

unfoldable pub find_level : List LogLevel → List ℕ → Option LogLevel
find_level [] text = none
find_level (l ∷ ls) text =
    let rest = find_level ls text in if same_string (level_to_string l) text then some l else rest

-- `StringToLevel[text]`
unfoldable pub string_to_level : List ℕ → Option LogLevel
string_to_level text = find_level levels text

-- `strings.HasPrefix`
unfoldable pub has_prefix : List ℕ → List ℕ → Bool
has_prefix text [] = true
has_prefix [] (p ∷ ps) = false
has_prefix (c ∷ text) (p ∷ ps) = c == p && has_prefix text ps

-- The texts `[name]` and `name:`.
abbrev pub bracketed : List ℕ → List ℕ
bracketed name = 91 ∷ (name ++ (93 ∷ []))

abbrev pub with_colon : List ℕ → List ℕ
with_colon name = name ++ (58 ∷ [])

-- The bytes of `WARN`.
abbrev pub warn : List ℕ
warn = 87 ∷ 65 ∷ 82 ∷ 78 ∷ []

-- `determineLevel`, of the message in upper case
unfoldable pub level_of_upper : List ℕ → LogLevel
level_of_upper message =
    let debug = level_to_string level_debug in
    let info = level_to_string level_info in
    let warning = level_to_string level_warning in
    let error = level_to_string level_error in
    if has_prefix message (bracketed debug) || has_prefix message (with_colon debug)
    then level_debug
    else if has_prefix message (bracketed info) || has_prefix message (with_colon info)
    then level_info
    else if has_prefix message (bracketed warning)
        || (has_prefix message (with_colon warn) || has_prefix message (with_colon warning))
    then level_warning
    else if has_prefix message (bracketed error) || has_prefix message (with_colon error)
    then level_error
    else level_info

-- `SimpleLogger`; the output is a value that its writes change.
pub record Logger (W : Type 0) : Type 0 where
  pub level : LogLevel
  pub output : W
  pub is_stdout : Bool
  pub prefix : List ℕ

-- What a `Write` or a `Close` reports: a number of bytes, and whether there is an error.
pub record Written : Type 0 where
  pub count : ℕ
  pub failed : Bool

-- The functions of the standard library and of the output that the logger calls.
pub record Runtime (W : Type 0) : Type 0 where
  pub to_upper : List ℕ → List ℕ
  pub trim_space : List ℕ → List ℕ
  pub write_output : List ℕ → W → Written × W
  pub close_output : W → Bool × W

module _ {W : Type 0} where
  -- `NewSimpleLogger`, over an output, which may be `os.Stdout`, or, for nil, over `os.Stdout`.
  unfoldable pub new_simple_logger : W → Option (W × Bool) → LogLevel → List ℕ → Logger W
  new_simple_logger stdout none level prefix = record {
    level = level;
    output = stdout;
    is_stdout = true;
    prefix = prefix;
  }
  new_simple_logger stdout (some (output, is_stdout)) level prefix = record {
    level = level;
    output = output;
    is_stdout = is_stdout;
    prefix = prefix;
  }

  -- `SetLevel`
  unfoldable pub set_level : LogLevel → Logger W → Logger W
  set_level level l = record l { level = level }

  module _ (go : Runtime W) where
    -- `SetLevelFromString`: whether it gives an error, and the logger.
    unfoldable pub set_level_from_string : List ℕ → Logger W → Bool × Logger W
    set_level_from_string text l = elim (string_to_level (go.to_upper text)) [
      | none ↦ (true, l)
      | some level ↦ (false, set_level level l)
    ]

    -- `determineLevel`
    unfoldable pub determine_level : List ℕ → LogLevel
    determine_level message = level_of_upper (go.to_upper message)

    -- The message that `Write` makes, at a time that is printed so: `time [level] <prefix> message`.
    unfoldable pub format_message : List ℕ → LogLevel → List ℕ → List ℕ → List ℕ
    format_message timestamp level prefix message =
        timestamp
        ++ (32
            ∷ (bracketed (level_to_string level)
                ++ (32 ∷ 60 ∷ (prefix ++ (62 ∷ 32 ∷ (go.trim_space message ++ (10 ∷ [])))))))

    -- `Write`
    unfoldable pub write : List ℕ → List ℕ → Logger W → Written × Logger W
    write timestamp message l =
        let level = determine_level message in
        if leb (rank l.level) (rank level) && not (rank l.level == rank level_none)
        then (let (written, output) =
              go.write_output (format_message timestamp level l.prefix message) l.output in
            (written, record l { output = output }))
        else (record { count = length message; failed = false }, l)

    -- `Close`: whether it gives an error. Every output is an `io.Closer`.
    unfoldable pub close : Logger W → Bool × Logger W
    close l =
        if l.is_stdout
        then (false, l)
        else (let (failed, output) = go.close_output l.output in
            (failed, record l { output = output }))
