-- ===== src/Ipset/Commands.antt =====
-- The message of the last error, as the code cuts it.
use iptracking.Prelude.{
  ℕ, zero, suc, ◌≡◌, refl, ◌≤◌, inl, inr, some, List, [], ◌∷◌, arith, Bool-cases, length, take, leb,
  if◌then◌else◌,
}
use mathlib.Core.List.{reverse}
use iptracking.Prelude.Text.{skip_spaces}
use iptracking.Ipset.{backtrack, ipset_helper_last_error_message}

not_back : (s : List ℕ) (r : List ℕ) → backtrack (length s) (0 ∷ r) ≡ length s
unfolding backtrack
not_back [] r = refl
not_back (c ∷ s) r = refl

-- The message is the session's from its first character that is no white space on, up to 255
-- characters: white space at its end stays, for the loop that looks for it stops at the NUL.
pub last_error_message-take :
    (message : List ℕ)
    → ipset_helper_last_error_message (some message) ≡ take 255 (skip_spaces message)
unfolding ipset_helper_last_error_message
last_error_message-take message =
    rw (not_back (skip_spaces message) (reverse (skip_spaces message))) (cut (skip_spaces message))
  where
    cut : (s : List ℕ) → take (if leb 256 (length s) then 255 else length s) s ≡ take 255 s
    cut s = elim (Bool-cases (leb 256 (length s))) [
      | inl e ↦ rw e refl
      | inr e ↦ rw e (short s 255 (ground arith))
    ]
      where
        short : (s : List ℕ) (n : ℕ) → length s ≤ n → take (length s) s ≡ take n s
        short [] zero h = refl
        short [] (suc n) h = refl
        short (c ∷ s) zero h = absurd (omega arith)
        short (c ∷ s) (suc n) h = rw (short s n (omega arith)) refl
