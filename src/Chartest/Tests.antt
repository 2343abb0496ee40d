-- ===== src/Chartest/Tests.antt =====
-- Runs of the matcher.
use iptracking.Prelude.{◌≡◌, ◌≢◌, none, some, List, [], ◌∷◌}
use iptracking.Prelude.Text.{codes, is_digit}
use iptracking.Chartest.{Chunk, chartest}
use iptracking.Chartest.Matching.{places, left_by, chartest-left_by}

abbrev two_digits : List Chunk
two_digits = record { n_char = 2; test = is_digit } ∷ []

chartest-left_by_example :
    chartest (some two_digits) (codes "17x") ≡ left_by (places two_digits) (codes "17x")
chartest-left_by_example = chartest-left_by two_digits (codes "17x")

matches : chartest (some two_digits) (codes "17x") ≢ none
unfolding chartest is_digit
matches e = cc
