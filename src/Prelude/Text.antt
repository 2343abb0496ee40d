-- ===== src/Prelude/Text.antt =====
-- C strings and buffers as lists of character codes, and what the source uses of <ctype.h>, in the "C"
-- locale, and <string.h>. A C string is the list of its characters without the terminating NUL.
use Prim.Native.Nat.{ℕ, ◌+◌}
use Prim.Native.Char.{code}
use Prim.Native.String.{String}
use mathlib.Core.Path.{◌≡◌, refl}
use mathlib.Core.Logic.{◌↔◌}
use mathlib.Core.Bool.{Bool, true, false, ◌&&◌, ◌||◌}
use mathlib.Core.List.{List, [], ◌∷◌}
use native.Mathlib.Omega.{arith}
use iptracking.Prelude.Tests.{leb, ◌==◌, if◌then◌else◌}

abbrev pub codes : String → List ℕ
codes String.[] = []
codes (String.◌∷◌ c s) = code c ∷ codes s

unfoldable pub is_space : ℕ → Bool
is_space c = c == 32 || (leb 9 c && leb c 13)

unfoldable pub is_digit : ℕ → Bool
is_digit c = leb b'0' c && leb c b'9'

unfoldable pub is_alnum : ℕ → Bool
unfolding is_digit
is_alnum c = is_digit c || ((leb b'a' c && leb c b'z') || (leb b'A' c && leb c b'Z'))

unfoldable pub to_lower : ℕ → ℕ
to_lower c = if leb b'A' c && leb c b'Z' then c + 32 else c

-- `*p`, which is 0 at the end.
abbrev pub first : List ℕ → ℕ
first [] = 0
first (c ∷ s) = c

abbrev pub is_empty : List ℕ → Bool
is_empty [] = true
is_empty (c ∷ s) = false

-- `strcmp(s, t) == 0`.
unfoldable pub str_eq : List ℕ → List ℕ → Bool
str_eq [] [] = true
str_eq [] (d ∷ t) = false
str_eq (c ∷ s) [] = false
str_eq (c ∷ s) (d ∷ t) = c == d && str_eq s t

pub str_eq_iff : (s t : List ℕ) → (str_eq s t ≡ true) ↔ (s ≡ t)
unfolding str_eq
str_eq_iff [] [] = (λ e. refl, λ e. refl)
str_eq_iff [] (d ∷ t) = (λ e. cc, λ e. cc)
str_eq_iff (c ∷ s) [] = (λ e. cc, λ e. cc)
str_eq_iff (c ∷ s) (d ∷ t) =
    (λ e. ground (arith, str_eq_iff s t), λ e. ground (arith, str_eq_iff s t))

-- `strcasecmp(s, t) == 0`.
unfoldable pub str_case_eq : List ℕ → List ℕ → Bool
unfolding to_lower
str_case_eq [] [] = true
str_case_eq [] (d ∷ t) = false
str_case_eq (c ∷ s) [] = false
str_case_eq (c ∷ s) (d ∷ t) = to_lower c == to_lower d && str_case_eq s t

pub str_case_eq_refl : (s : List ℕ) → str_case_eq s s ≡ true
unfolding str_case_eq
str_case_eq_refl [] = refl
str_case_eq_refl (c ∷ s) = ground (arith, str_case_eq_refl s)

-- `while ( *s && isspace(*s) ) s++`.
unfoldable pub skip_spaces : List ℕ → List ℕ
unfolding is_space
skip_spaces [] = []
skip_spaces (c ∷ s) = if is_space c then skip_spaces s else c ∷ s
