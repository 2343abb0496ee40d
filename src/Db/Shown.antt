-- ===== src/Db/Shown.antt =====
-- The lines `Database: ... = ...` of libiptracking/db_interface.c and its drivers.
use iptracking.Prelude.{ℕ, Option, none, some, List}

-- What stands behind the equals sign: a text, a NULL that is handed to `%s`, a number.
pub data Printed : Type 0 where
  shown : List ℕ → Printed
  null_shown : Printed
  in_decimal in_hexadecimal : ℕ → Printed

abbrev pub Line : Type 0
Line = List ℕ × Printed

-- A pointer that is handed to `%s`.
abbrev pub pointer : Option (List ℕ) → Printed
pointer none = null_shown
pointer (some s) = shown s
