-- ===== src/Prelude/Words.antt =====
-- Unsigned machine words: the wrap-around of C's `uint16_t` and `uint32_t` arithmetic.
use Prim.Native.Nat.{ℕ, ◌+◌, ◌-◌, ◌%◌, ◌≤◌, ◌<◌}
use mathlib.Core.Path.{◌≡◌}
use native.Mathlib.Omega.{arith}

abbrev pub u16_mod : ℕ
u16_mod = 65536

abbrev pub u32_mod : ℕ
u32_mod = 4294967296

-- `UINT32_MAX`.
abbrev pub u32_max : ℕ
u32_max = 4294967295

unfoldable pub add32 : ℕ → ℕ → ℕ
add32 a b = (a + b) % u32_mod

unfoldable pub sub32 : ℕ → ℕ → ℕ
sub32 a b = (a + u32_mod - b) % u32_mod

pub add32-eq-add : (a b : ℕ) → a + b < u32_mod → add32 a b ≡ a + b
unfolding add32
add32-eq-add a b h = omega arith

pub sub32-eq-sub : (a b : ℕ) → a < u32_mod → b ≤ a → sub32 a b ≡ a - b
unfolding sub32
sub32-eq-sub a b h k = omega arith
