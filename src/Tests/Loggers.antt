-- ===== src/Tests/Loggers.antt =====
-- A logger whose output keeps what is written to it.
use gomodbus.Prelude.{ℕ, ◌≡◌, refl, false, List, [], ◌∷◌, ◌++◌, map, length, arith}
use gomodbus.Logger.{
  LogLevel, level_debug, level_info, level_warning, level_error, level_none, rank, Logger, Written,
  Runtime, set_level_from_string, format_message, write,
}
use gomodbus.Logger.Filter.{upper, IsUpper, colon, tag, Names, write-set_level_from_string}

abbrev memory : Runtime (List (List ℕ))
memory = record {
  to_upper = map upper;
  trim_space = λ t. t;
  write_output = λ t w. (record { count = length t; failed = false }, w ++ (t ∷ []));
  close_output = λ w. (false, w);
}

memory-IsUpper : IsUpper memory.to_upper
memory-IsUpper = record { on_nil = refl; on_ascii = λ c t h. refl }

abbrev logger : Logger (List (List ℕ))
logger = record { level = level_debug; output = []; is_stdout = false; prefix = 84 ∷ [] }

-- The bytes of `Error` and of `info`.
abbrev mixed_error : List ℕ
mixed_error = 69 ∷ 114 ∷ 114 ∷ 111 ∷ 114 ∷ []

abbrev small_info : List ℕ
small_info = 105 ∷ 110 ∷ 102 ∷ 111 ∷ []

mixed_error-Names : Names level_error mixed_error
unfolding gomodbus.Logger.level_to_string upper
mixed_error-Names = record {
  ascii = (omega arith, (omega arith, (omega arith, (omega arith, (omega arith, tt)))));
  same = refl;
}

small_info-Names : Names level_info small_info
unfolding gomodbus.Logger.level_to_string upper
small_info-Names = record {
  ascii = (omega arith, (omega arith, (omega arith, (omega arith, tt))));
  same = refl;
}

write-set_level_from_string_example :
    let message = tag colon mixed_error ++ (33 ∷ []) in
    let after = (set_level_from_string memory small_info logger).1 in
    ((set_level_from_string memory small_info logger).0 ≡ false)
    × (write memory (49 ∷ []) message after ≡ (
      record {
        count = length (format_message memory (49 ∷ []) level_error (84 ∷ []) message);
        failed = false;
      },
      record logger {
        level = level_info;
        output = format_message memory (49 ∷ []) level_error (84 ∷ []) message ∷ [];
      },
    ))
unfolding rank
write-set_level_from_string_example =
    write-set_level_from_string memory memory-IsUpper colon level_error level_info mixed_error
      small_info (49 ∷ []) (33 ∷ []) logger (λ p. cc) mixed_error-Names small_info-Names

-- The count that `Write` reports is that of the line, more than the bytes it was given.
long_count : (write memory (49 ∷ []) (72 ∷ 105 ∷ []) logger).0.count ≡ 16
unfolding write rank gomodbus.Logger.determine_level gomodbus.Logger.level_of_upper
    gomodbus.Logger.has_prefix upper gomodbus.Logger.level_to_string format_message
long_count = refl
