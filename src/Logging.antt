-- ===== src/Logging.antt =====
-- libiptracking/logging.c: the level, and which messages are printed.
pub mod Levels
pub mod Repeated
use iptracking.Prelude.{ℕ, Bool, true, false, ◌==◌, if◌then◌else◌, not}
use iptracking.Prelude.Int.{ℤ, pos, negsuc, ltb_ℤ, ◌+ℤ◌, ◌-ℤ◌}

-- `logging_level_fatal` and `logging_level_debug`.
abbrev pub logging_level_fatal : ℤ
logging_level_fatal = pos 0

abbrev pub logging_level_debug : ℤ
logging_level_debug = pos 4

-- `logging_set_level`: the level that is stored.
unfoldable pub logging_set_level : ℤ → ℤ
logging_set_level level =
    if ltb_ℤ level logging_level_fatal
    then logging_level_fatal
    else if ltb_ℤ logging_level_debug level
    then logging_level_debug
    else level

-- `logging_printf`: whether the message is printed, and whether the program ends.
pub record Printed : Type 0 where
  pub is_printed : Bool
  pub ends : Bool

unfoldable pub logging_printf : ℤ → ℤ → Printed
logging_printf logging_level level = record {
  is_printed = not (ltb_ℤ logging_level level);
  ends = elim level [ pos n ↦ n == 0 | negsuc n ↦ false ];
}

-- The options `-v` and `-q` of both daemons, with their counts `verbose` and `quiet`.
pub data Flag : Type 0 where
  verbose_flag quiet_flag : Flag

pub record Verbosity : Type 0 where
  pub level : ℤ
  pub verbose : ℤ
  pub quiet : ℤ

unfoldable pub on_flag : Verbosity → Flag → Verbosity
unfolding logging_set_level
on_flag v verbose_flag = record v {
  level = logging_set_level (v.level +ℤ (v.verbose +ℤ pos 1) -ℤ v.quiet);
  verbose = v.verbose +ℤ pos 1;
}
on_flag v quiet_flag = record v {
  level = logging_set_level (v.level +ℤ v.verbose -ℤ (v.quiet +ℤ pos 1));
  quiet = v.quiet +ℤ pos 1;
}
