-- ===== src/Chartest/Matching.antt =====
-- The loops of `chartest` against one character test for each place.
use iptracking.Prelude.{
  ℕ, zero, suc, ◌≡◌, refl, Bool, true, ◌&&◌, Option, none, some, List, [], ◌∷◌, ◌++◌, arith,
  if◌then◌else◌, replicate, drop, length, sym, take, ◌≢◌,
}
use iptracking.Chartest.{Chunk, run_chunk, run_chunks, chartest}

-- The test at each place.
pub places : List Chunk → List (ℕ → Bool)
places [] = []
places (k ∷ ks) = replicate k.n_char k.test ++ places ks

-- Every character that has a place passes its test; either list may be the longer.
pub fits : List (ℕ → Bool) → List ℕ → Bool
fits [] p = true
fits (t ∷ ts) [] = true
fits (t ∷ ts) (c ∷ p) = t c && fits ts p

-- The text behind the places, where the characters fit.
abbrev pub left_by : List (ℕ → Bool) → List ℕ → Option (List ℕ)
left_by ts p = if fits ts p then some (drop (length ts) p) else none

left_by-nil : (ts : List (ℕ → Bool)) → left_by ts [] ≡ some []
unfolding fits
left_by-nil [] = refl
left_by-nil (t ∷ ts) = refl

abbrev ended : Bool × List ℕ → Option (List ℕ)
ended end = if end.0 then some end.1 else none

run_chunk-left_by :
    (n : ℕ) (test : ℕ → Bool) (ts : List (ℕ → Bool)) (p : List ℕ)
    → left_by (replicate n test ++ ts) p
      ≡ (if (run_chunk n test p).0 then left_by ts (run_chunk n test p).1 else none)
unfolding run_chunk fits
run_chunk-left_by zero test ts p = refl
run_chunk-left_by (suc n) test ts [] = sym (left_by-nil ts)
run_chunk-left_by (suc n) test ts (c ∷ p) = ground (arith, run_chunk-left_by n test ts p)

run_chunks-left_by :
    (ks : List Chunk) (p : List ℕ) → ended (run_chunks ks p) ≡ left_by (places ks) p
unfolding run_chunks places
run_chunks-left_by [] p = unfold fits in refl
run_chunks-left_by (k ∷ ks) [] = sym (left_by-nil (replicate k.n_char k.test ++ places ks))
run_chunks-left_by (k ∷ ks) (c ∷ p) = ground (
  arith,
  run_chunk-left_by k.n_char k.test (places ks) (c ∷ p),
  run_chunks-left_by ks (run_chunk k.n_char k.test (c ∷ p)).1,
)

-- `chartest` succeeds exactly when every character that has a place passes its test, and leaves what
-- stands behind the places.
pub chartest-left_by : (ks : List Chunk) (p : List ℕ) → chartest (some ks) p ≡ left_by (places ks) p
unfolding chartest
chartest-left_by ks p = run_chunks-left_by ks p

fits-take :
    (ts : List (ℕ → Bool)) (p : List ℕ) (n : ℕ) → fits ts p ≡ true → fits ts (take n p) ≡ true
unfolding fits
fits-take [] p n h = refl
fits-take (t ∷ ts) p zero h = refl
fits-take (t ∷ ts) [] (suc n) h = refl
fits-take (t ∷ ts) (c ∷ p) (suc n) h = ground (arith, fits-take ts p n)

-- Of a text that `chartest` accepts it accepts every initial part, however short.
pub chartest_accepts_prefix :
    (ks : List Chunk) (p : List ℕ) (n : ℕ)
    → chartest (some ks) p ≢ none
    → chartest (some ks) (take n p) ≢ none
chartest_accepts_prefix ks p n h e =
    ground (arith, chartest-left_by ks p, chartest-left_by ks (take n p), fits-take (places ks) p n)
