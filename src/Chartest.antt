-- ===== src/Chartest.antt =====
-- libiptracking/chartest.c: a text is held against a sequence of runs of character classes.
pub mod Matching
mod Tests
use iptracking.Prelude.{
  ℕ, zero, suc, ◌+◌, ◌≡◌, Bool, true, false, ◌&&◌, Option, none, some, List, [], ◌∷◌, ◌++◌,
  if◌then◌else◌, replicate,
}

-- `chartest_chunk_t`, with `n_char` not negative.
pub record Chunk : Type 0 where
  pub n_char : ℕ
  pub test : ℕ → Bool

-- The inner loop: whether it is still okay, and the text that is left.
unfoldable pub run_chunk : ℕ → (ℕ → Bool) → List ℕ → Bool × List ℕ
run_chunk zero test p = (true, p)
run_chunk (suc n) test [] = (true, [])
run_chunk (suc n) test (c ∷ p) = elim (test c) [
  | true ↦ run_chunk n test p
  | false ↦ (false, c ∷ p)
]

-- The outer loop.
unfoldable pub run_chunks : List Chunk → List ℕ → Bool × List ℕ
unfolding run_chunk
run_chunks [] p = (true, p)
run_chunks (k ∷ ks) [] = (true, [])
run_chunks (k ∷ ks) (c ∷ p) =
    let next = run_chunk k.n_char k.test (c ∷ p) in
    let rest = run_chunks ks next.1 in if next.0 then rest else next

-- `chartest` on the `p_len` characters of `p`: the text at `*endptr`, or `none` for false. A sequence
-- that is NULL is `none`.
unfoldable pub chartest : Option (List Chunk) → List ℕ → Option (List ℕ)
unfolding run_chunks
chartest none p = some p
chartest (some ks) p = let end = run_chunks ks p in if end.0 then some end.1 else none
