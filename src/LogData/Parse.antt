-- ===== src/LogData/Parse.antt =====
-- `log_data_parse` of libiptracking/log_data.c, on the `p_len` characters at `p`.
pub mod Fields
pub mod Line
use iptracking.Prelude.{
  ℕ, zero, suc, ◌+◌, ◌-◌, ◌*◌, ◌%◌, ◌≡◌, Bool, true, false, ◌&&◌, ◌||◌, Option, none, some, List,
  [], ◌∷◌, ◌++◌, ltb, leb, ◌==◌, if◌then◌else◌, length, replicate, take, ◌>>=◌,
}
use iptracking.Prelude.Int.{ℤ, pos, negsuc}
use iptracking.Prelude.Text.{is_digit, is_space, skip_spaces, first}
use iptracking.Prelude.Words.{u16_mod}
use iptracking.Chartest.{Chunk, chartest}
use iptracking.LogData.{LogData}

-- The text up to a comma or a NUL, and what stands from there on.
unfoldable pub up_to_comma : List ℕ → List ℕ × List ℕ
up_to_comma [] = ([], [])
up_to_comma (c ∷ p) =
    let more = up_to_comma p in
    if (c == 0) || (c == b',') then ([], c ∷ p) else (c ∷ more.0, more.1)

-- A character array of `size` bytes, zeroed, with the text copied to its start.
unfoldable pub stored : ℕ → List ℕ → List ℕ
stored size text = text ++ replicate (size - length text) 0

unfoldable pub keep_text : ℕ → List ℕ × List ℕ → Option (List ℕ × List ℕ)
unfolding stored
keep_text size (text, []) = none
keep_text size (text, sep ∷ behind) =
    if ltb size (length text + 1) then none else some (stored size text, behind)

-- The text fields `dst_ipaddr`, `src_ipaddr` and `uid`: the array, and what stands behind the
-- separator.
unfoldable pub text_field : ℕ → List ℕ → Option (List ℕ × List ℕ)
unfolding up_to_comma keep_text
text_field size p = keep_text size (up_to_comma p)

-- The digits of a number field: its value, and what stands behind the comma. `limit` is the modulus of
-- an unsigned field, whose wrap-around the loop looks for by comparing with the value before; `none` is
-- a field that is not a number, or that the loop finds to have wrapped.
unfoldable pub number_field : ℕ → ℕ → List ℕ → Option (ℕ × List ℕ)
number_field limit value [] = none
number_field limit value (c ∷ p) =
    let next = (10 * value + (c - b'0')) % limit in
    let rest = number_field limit next p in
    if is_digit c
    then if ltb next value then none else rest
    else if c == b','
    then some (value, p)
    else none

-- An `int32_t` from its bit pattern.
unfoldable pub to_int32 : ℕ → ℤ
to_int32 v = if ltb v 2147483648 then pos v else negsuc (4294967295 - v)

abbrev is_char : ℕ → ℕ → Bool
is_char c d = d == c

abbrev run : ℕ → (ℕ → Bool) → Chunk
run n test = record { n_char = n; test = test }

-- `__datestr_chartest`: YYYY-MM-DD HH:MM:SS.
abbrev pub datestr_chunks : List Chunk
datestr_chunks =
    run 4 is_digit
    ∷ run 1 (is_char b'-')
    ∷ run 2 is_digit
    ∷ run 1 (is_char b'-')
    ∷ run 2 is_digit
    ∷ run 1 (is_char b' ')
    ∷ run 2 is_digit
    ∷ run 1 (is_char b':')
    ∷ run 2 is_digit
    ∷ run 1 (is_char b':')
    ∷ run 2 is_digit
    ∷ []

-- The `log_date` field and the text at `*endptr`.
unfoldable pub date_field : List ℕ → Option (List ℕ × List ℕ)
unfolding stored
date_field [] = none
date_field (c ∷ p) = do
  rest ← chartest (some datestr_chunks) (c ∷ p)
  let n = length (c ∷ p) - length rest
  if ltb 28 (n + 1) then none else some (stored 28 (take n (c ∷ p)), rest)

-- `log_data_parse`: the record and the text at `*endptr`, or `none` for false. The `int32_t` field is
-- taken to wrap as its bit pattern does.
unfoldable pub log_data_parse : List ℕ → Option (LogData × List ℕ)
unfolding text_field number_field date_field to_int32
log_data_parse p =
    let start = skip_spaces p in
    if first start == 0 then none else do
      (dst, p) ← text_field 16 start
      (src, p) ← text_field 16 p
      (port, p) ← number_field 65536 0 p
      (event, p) ← number_field 65536 0 p
      (pid, p) ← number_field 4294967296 0 p
      (uid, p) ← text_field 60 p
      (date, p) ← date_field p
      some (
        record {
          dst_ipaddr = dst;
          src_ipaddr = src;
          src_port = port;
          event = event;
          sshd_pid = to_int32 pid;
          uid = uid;
          log_date = date;
        },
        p,
      )
