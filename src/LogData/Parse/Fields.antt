-- ===== src/LogData/Parse/Fields.antt =====
-- The fields of an event line, read back from the line.
use iptracking.Prelude.{
  ℕ, suc, ◌+◌, ◌-◌, ◌*◌, ◌%◌, ◌≤◌, ◌<◌, ◌≡◌, refl, ◌≢◌, some, List, [], ◌∷◌, ◌++◌, arith, length,
  take, ap, length-append,
}
use iptracking.Prelude.Text.{is_digit}
use native.Mathlib.Nat.{mod-eq_of_lt}
use iptracking.Chartest.{chartest}
use iptracking.LogData.Parse.{
  up_to_comma, stored, text_field, number_field, date_field, datestr_chunks,
}

-- A text without NUL and comma.
abbrev pub IsPlain : List ℕ → Type 0
IsPlain [] = Unit {0}
IsPlain (c ∷ s) = (c ≢ 0) × (c ≢ b',') × IsPlain s

up_to_comma_plain : (s p : List ℕ) → IsPlain s → up_to_comma (s ++ b',' ∷ p) ≡ (s, b',' ∷ p)
unfolding up_to_comma
up_to_comma_plain [] p h = refl
up_to_comma_plain (c ∷ s) p h = ground (arith, up_to_comma_plain s p h.2)

pub text_field_plain :
    (size : ℕ) (s p : List ℕ)
    → IsPlain s
    → length s < size
    → text_field size (s ++ b',' ∷ p) ≡ some (stored size s, p)
unfolding text_field
text_field_plain size s p h fits = rw (up_to_comma_plain s p h) (ground arith)

-- Digits, and the number that they write behind a number already read.
abbrev pub AreDigits : List ℕ → Type 0
AreDigits [] = Unit {0}
AreDigits (c ∷ s) = (b'0' ≤ c) × (c ≤ b'9') × AreDigits s

abbrev pub value_from : ℕ → List ℕ → ℕ
value_from v [] = v
value_from v (c ∷ s) = value_from (10 * v + (c - b'0')) s

pub value_from-le : (v : ℕ) (s : List ℕ) → v ≤ value_from v s
value_from-le v [] = omega arith
value_from-le v (c ∷ s) = omega (arith, value_from-le (10 * v + (c - b'0')) s)

pub number_field_digits :
    (limit v : ℕ) (s p : List ℕ)
    → AreDigits s
    → value_from v s < limit
    → number_field limit v (s ++ b',' ∷ p) ≡ some (value_from v s, p)
unfolding number_field is_digit
number_field_digits limit v [] p h fits = ground arith
number_field_digits limit v (c ∷ s) p h fits =
    let next : (10 * v + (c - b'0')) % limit ≡ 10 * v + (c - b'0') =
      mod-eq_of_lt (omega (arith, value_from-le (10 * v + (c - b'0')) s)) in
    rw next (ground (arith, number_field_digits limit (10 * v + (c - b'0')) s p h.2 fits))

-- A last digit that takes a value to the limit or past it, where what is left modulo the limit is no
-- less than the value: the field is taken, with that remainder for its value.
pub number_field_wraps :
    (limit v c : ℕ) (p : List ℕ)
    → b'0' ≤ c
    → c ≤ b'9'
    → limit ≤ 10 * v + (c - b'0')
    → v ≤ (10 * v + (c - b'0')) % limit
    → number_field limit v (c ∷ b',' ∷ p) ≡ some ((10 * v + (c - b'0')) % limit, p)
unfolding number_field is_digit
number_field_wraps limit v c p low high over unseen = ground arith

take-append : (s rest : List ℕ) → take (length s) (s ++ rest) ≡ s
take-append [] rest = refl
take-append (c ∷ s) rest = ap (λ x. c ∷ x) (take-append s rest)

-- The date is read as far as it fits the format.
pub date_field-take :
    (s rest : List ℕ)
    → s ≢ []
    → chartest (some datestr_chunks) (s ++ rest) ≡ some rest
    → length s < 28
    → date_field (s ++ rest) ≡ some (stored 28 s, rest)
unfolding date_field
date_field-take [] rest ne h fits = absurd (ne refl)
date_field-take (c ∷ s) rest ne h fits =
    let n : suc (length (s ++ rest)) - length rest ≡ suc (length s) =
      omega (arith, length-append s rest) in
    rw (h, n) (ground (arith, take-append s rest))
