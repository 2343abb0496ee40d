-- ===== src/Logging/Levels.antt =====
-- What the stored level may be, and how the options move it.
use iptracking.Prelude.{◌≡◌, true, List, [], ◌∷◌, arith}
use iptracking.Prelude.Int.{ℤ, pos, ◌+ℤ◌, ◌-ℤ◌, ◌≤ℤ◌}
use iptracking.Logging.{
  logging_level_fatal, logging_level_debug, logging_set_level, logging_printf, Flag, verbose_flag,
  quiet_flag, Verbosity, on_flag,
}

-- The level that is stored is between fatal and debug: the given one where it is, fatal where it is
-- below, debug where it is above.
pub set_level-nearest :
    (level : ℤ)
    → (logging_level_fatal ≤ℤ logging_set_level level)
      × (logging_set_level level ≤ℤ logging_level_debug)
      × (logging_level_fatal ≤ℤ level
          → level ≤ℤ logging_level_debug
          → logging_set_level level ≡ level)
      × (level ≤ℤ logging_level_fatal → logging_set_level level ≡ logging_level_fatal)
      × (logging_level_debug ≤ℤ level → logging_set_level level ≡ logging_level_debug)
unfolding logging_set_level
set_level-nearest level =
    (ground arith, ground arith, λ a b. ground arith, λ a. ground arith, λ a. ground arith)

abbrev pub on_flags : Verbosity → List Flag → Verbosity
on_flags v [] = v
on_flags v (f ∷ fs) = on_flags (on_flag v f) fs

abbrev pub IsLevel : ℤ → Type 0
IsLevel level = (logging_level_fatal ≤ℤ level) × (level ≤ℤ logging_level_debug)

-- From a level between fatal and debug, whatever options are given: the level that results is
-- between fatal and debug, and messages of the fatal level are printed.
pub on_flags-IsLevel :
    (v : Verbosity) (fs : List Flag)
    → IsLevel v.level
    → IsLevel (on_flags v fs).level
      × ((logging_printf (on_flags v fs).level logging_level_fatal).is_printed ≡ true)
unfolding on_flag logging_printf
on_flags-IsLevel v [] ok = (ok, ground arith)
on_flags-IsLevel v (verbose_flag ∷ fs) ok =
    let s = set_level-nearest (v.level +ℤ (v.verbose +ℤ pos 1) -ℤ v.quiet) in
    on_flags-IsLevel (on_flag v verbose_flag) fs (s.0, s.1)
on_flags-IsLevel v (quiet_flag ∷ fs) ok =
    let s = set_level-nearest (v.level +ℤ v.verbose -ℤ (v.quiet +ℤ pos 1)) in
    on_flags-IsLevel (on_flag v quiet_flag) fs (s.0, s.1)
