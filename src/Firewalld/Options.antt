-- ===== src/Firewalld/Options.antt =====
-- The options of the command line that go before the configuration.
use iptracking.Prelude.{
  ℕ, ◌-◌, ◌%◌, ◌≡◌, ◌<◌, refl, true, false, Option, none, some, List, [], ◌∷◌, ◌==◌, if◌then◌else◌,
  ltb, arith,
}
use iptracking.Prelude.Words.{u32_mod}
use iptracking.Prelude.Int.{ℤ, pos, negsuc}
use iptracking.Yaml.{Strtol}
use iptracking.Firewalld.{Settings}

-- `-i`, `-p` and `-r` with their arguments, and any other option.
pub data Opt : Type 0 where
  check_interval production rebuild : List ℕ → Opt
  other : Opt

-- A number stored into 32 bits without a sign.
unfoldable pub to_uint32 : ℤ → ℕ
to_uint32 (pos n) = n % u32_mod
to_uint32 (negsuc n) = u32_mod - 1 - n % u32_mod

-- The loop over the options; `none` is the end of the program.
unfoldable pub overrides : Strtol → List Opt → Settings → Option Settings
unfolding to_uint32
overrides strtol [] c = some c
overrides strtol (other ∷ opts) c = overrides strtol opts c
overrides strtol (check_interval arg ∷ opts) c =
    let (v, read) = strtol arg in
    let rest = overrides strtol opts (record c { check_interval = to_uint32 v }) in
    if read == 0 then none else rest
overrides strtol (production arg ∷ opts) c =
    overrides strtol opts (record c { production = arg; production_isset = true })
overrides strtol (rebuild arg ∷ opts) c =
    overrides strtol opts (record c { rebuild = arg; rebuild_isset = true })

-- A number from -4294967176 to -1, given as the interval, is stored as one of at least 120 seconds, which is
-- the least that the validation lets through.
pub negative_interval-passes :
    (strtol : Strtol) (arg : List ℕ) (n read : ℕ) (c : Settings)
    → strtol arg ≡ (negsuc n, read)
    → 0 < read
    → n < 4294967176
    → (d : Settings) × (overrides strtol (check_interval arg ∷ []) c ≡ some d)
      × (ltb d.check_interval 120 ≡ false)
unfolding overrides to_uint32
negative_interval-passes strtol arg n read c e some_read small =
    let off : (read == 0) ≡ false = ground arith in
    (record c { check_interval = u32_mod - 1 - n % u32_mod }, simp (e, off) refl, ground arith)
