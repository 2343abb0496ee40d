-- ===== src/Asprintf.antt =====
-- libiptracking/asprintf.c: `asprintf` where the system has none.
mod Tests
use iptracking.Prelude.{
  ℕ, suc, ◌+◌, ◌-◌, ◌≡◌, refl, ◌≤◌, ◌<◌, ◌⊎◌, inl, inr, Bool, true, false, Option, none, some, List,
  length, take, take-length, arith, ◌==◌, if◌then◌else◌, Bool-cases, ap, ◌∙◌,
}
use iptracking.Prelude.Int.{ℤ, pos, negsuc}

-- `vsnprintf` with the format and its arguments: for a size, what it returns, and what stands in the buffer
-- up to the NUL.
abbrev pub Vsnprintf : Type 0
Vsnprintf = ℕ → ℤ × List ℕ

-- What is returned, what is stored under `strp`, `none` where it is left, and whether a buffer is lost.
pub record Printed : Type 0 where
  pub fmted_len : ℤ
  pub strp : Option (List ℕ)
  pub loses_buffer : Bool

abbrev pub int_max : ℕ
int_max = 2147483647

-- After the second call.
unfoldable pub printed : ℤ × List ℕ → Printed
printed (pos n, text) = record { fmted_len = pos n; strp = some text; loses_buffer = false }
printed (negsuc n, text) = record { fmted_len = negsuc n; strp = none; loses_buffer = true }

-- `asprintf`, over whether `malloc` gives a buffer; `none` is the overflow of `++fmted_len`.
unfoldable pub asprintf : Vsnprintf → Bool → Option Printed
unfolding printed
asprintf vsnprintf has_memory = elim (vsnprintf 0).0 [
  | negsuc n ↦ some (record { fmted_len = negsuc n; strp = none; loses_buffer = false })
  | pos n ↦
      if n == int_max
      then none
      else if has_memory
      then some (printed (vsnprintf (suc n)))
      else some (record { fmted_len = negsuc 0; strp = none; loses_buffer = false })
]

-- `vsnprintf` as it is documented, for a text: it returns the length of the text, or a negative number where
-- that is more than INT_MAX or the text cannot be made, and the buffer gets what fits before a NUL.
pub record IsVsnprintf (vsnprintf : Vsnprintf) (text : List ℕ) : Type 0 where
  pub fits :
      (size : ℕ)
      → length text ≤ int_max
      → vsnprintf size ≡ (pos (length text), take (size - 1) text)

all_fits : (text : List ℕ) → take (suc (length text) - 1) text ≡ text
all_fits text =
    let same : suc (length text) - 1 ≡ length text = omega arith in
    ap (λ k. take k text) same ∙ take-length text

-- Where `vsnprintf` behaves as it is documented and the text is shorter than INT_MAX: with memory the result
-- is the length of the text and the whole text is stored; without, it is -1 and nothing is stored; no
-- buffer is lost.
pub asprintf-whole :
    (vsnprintf : Vsnprintf) (text : List ℕ) (has_memory : Bool)
    → IsVsnprintf vsnprintf text
    → length text < int_max
    → asprintf vsnprintf has_memory
      ≡ some (
          if has_memory
          then record { fmted_len = pos (length text); strp = some text; loses_buffer = false }
          else record { fmted_len = negsuc 0; strp = none; loses_buffer = false })
unfolding asprintf
asprintf-whole vsnprintf text has_memory documented short =
    let first = documented.fits 0 (omega (arith, short)) in
    let second = documented.fits (suc (length text)) (omega (arith, short)) in
    let less : (length text == int_max) ≡ false = ground arith in
    rw (first, asprintf, less) (by_memory has_memory second)
  where
    by_memory :
        (has_memory : Bool)
        → vsnprintf (suc (length text)) ≡ (pos (length text), take (suc (length text) - 1) text)
        → (if has_memory
            then some (printed (vsnprintf (suc (length text))))
            else some (record { fmted_len = negsuc 0; strp = none; loses_buffer = false }))
          ≡ some (
              if has_memory
              then record { fmted_len = pos (length text); strp = some text; loses_buffer = false }
              else record { fmted_len = negsuc 0; strp = none; loses_buffer = false })
    by_memory false e = refl
    by_memory true e =
        ap (λ x. some (printed x)) (e ∙ ap (λ t. (pos (length text), t)) (all_fits text))
