-- ===== src/Logging/Repeated.antt =====
-- The same option given several times.
use iptracking.Prelude.{ℕ, zero, suc, ◌+◌, ◌*◌, ◌/◌, ◌≤◌, ◌≡◌, arith, replicate, ap, ◌∙◌}
use Prim.Native.Nat.{min}
use iptracking.Prelude.Int.{pos, ◌+ℤ◌, ◌-ℤ◌}
use iptracking.Logging.{logging_set_level, verbose_flag, Verbosity, on_flag}
use iptracking.Logging.Levels.{on_flags}

abbrev counted : ℕ → ℕ → Verbosity
counted level j = record { level = pos level; verbose = pos j; quiet = pos 0 }

on_verbose :
    (level j : ℕ)
    → on_flag (counted level j) verbose_flag ≡ counted (min 4 (level + (j + 1))) (j + 1)
unfolding on_flag logging_set_level ◌+ℤ◌ ◌-ℤ◌
on_verbose level j = ground arith

-- What is added to the level by `n` further options, after `j` of them.
rises : ℕ → ℕ → ℕ
rises j zero = 0
rises j (suc n) = (j + 1) + rises (j + 1) n

rises_lem : (j n : ℕ) → 2 * rises j n ≡ n * (2 * j + n + 1)
unfolding rises
rises_lem j zero = omega arith
rises_lem j (suc n) = grind (arith, rises_lem (j + 1) n)

verbose-rises :
    (n level j : ℕ)
    → level ≤ 4
    → (on_flags (counted level j) (replicate n verbose_flag)).level
      ≡ pos (min 4 (level + rises j n))
unfolding rises
verbose-rises zero level j ok = ground arith
verbose-rises (suc n) level j ok =
    ap (λ v. (on_flags v (replicate n verbose_flag)).level) (on_verbose level j)
    ∙ verbose-rises n (min 4 (level + (j + 1))) (j + 1) (omega arith)
    ∙ ap pos (omega arith)

-- From a level up to debug, the option `-v` given `n` times, and `-q` never, raises the level by
-- 1 + 2 + … + n, up to debug: each time by all that were counted so far.
pub verbose-triangular :
    (n level : ℕ)
    → level ≤ 4
    → (on_flags
        (record { level = pos level; verbose = pos 0; quiet = pos 0 })
        (replicate n verbose_flag)).level
      ≡ pos (min 4 (level + n * (n + 1) / 2))
verbose-triangular n level ok =
    verbose-rises n level 0 ok ∙ ap (λ d. pos (min 4 (level + d))) (grind (arith, rises_lem 0 n))
