-- ===== src/Callback/Record.antt =====
-- When the daemon accepts the record that the callback has gathered.
use native.Mathlib.Numerals.{unary_clauses}
use iptracking.Prelude.{
  ◌||◌, ℕ, zero, suc, ◌+◌, ◌-◌, ◌*◌, ◌%◌, ◌≤◌, ◌<◌, ◌≡◌, refl, ◌≢◌, inl, inr, false, List, [], ◌∷◌,
  ◌++◌, arith, Bool-cases, ltb, leb, ◌==◌, length, length-append, length-replicate, replicate, take,
  ap, sym, subst,
}
use iptracking.Prelude.Text.{is_space, is_digit, skip_spaces}
use iptracking.LogData.{has_nul}
use iptracking.LogData.Validity.{NoNul, IsText}
use iptracking.LogData.Parse.{stored}
use iptracking.Callback.{Outcome, exits, goes_on, strncpy, word, address, port_loop}

take_all {ℓ} : {A : Type ℓ} (n : ℕ) (xs : List A) → length xs ≡ n → take n xs ≡ xs
take_all zero [] e = refl
take_all zero (x ∷ xs) e = absurd (omega arith)
take_all (suc n) [] e = absurd (omega arith)
take_all (suc n) (x ∷ xs) e = rw (take_all n xs (omega arith)) refl

-- A text that fits an array with room for its NUL is a valid field.
pub stored-IsText :
    (size : ℕ) (s : List ℕ) → s ≢ [] → NoNul s → length s < size → IsText (stored size s)
unfolding stored
stored-IsText size s ne clean fits = (
  s,
  replicate {A = ℕ} (size - length s - 1) 0,
  ap (λ r. s ++ r) (zeros (size - length s) (omega arith)),
  ne,
  clean,
)
  where
    zeros : (n : ℕ) → 0 < n → replicate {A = ℕ} n 0 ≡ 0 ∷ replicate (n - 1) 0
    zeros zero h = absurd (omega arith)
    zeros (suc n) h = simp unary_clauses refl

pub strncpy-IsText :
    (size : ℕ) (s : List ℕ) → s ≢ [] → NoNul s → length s < size → IsText (strncpy size s)
unfolding strncpy stored
strncpy-IsText size s ne clean fits =
    subst IsText (sym (take_all size (stored size s) whole_size))
      (stored-IsText size s ne clean fits)
  where
    whole_size : length (stored size s) ≡ size
    whole_size = omega (
      arith,
      length-append s (replicate (size - length s) 0),
      length-replicate {A = ℕ} (size - length s) 0,
    )

-- A text as long as the array leaves no room for a NUL.
pub strncpy_long :
    (size : ℕ) (s : List ℕ) → NoNul s → size ≤ length s → has_nul (strncpy size s) ≡ false
unfolding has_nul strncpy stored
strncpy_long size s clean long = cut size s (replicate (size - length s) 0) clean long
  where
    cut : (n : ℕ) (s t : List ℕ) → NoNul s → n ≤ length s → has_nul (take n (s ++ t)) ≡ false
    cut zero s t clean long = refl
    cut (suc n) [] t clean long = absurd (omega arith)
    cut (suc n) (c ∷ s) t clean long =
        let rest = cut n s t clean.1 (omega arith) in ground (arith, clean.0, rest)

word-NoNul : (s : List ℕ) → NoNul s → NoNul (word s).0 × NoNul (word s).1
unfolding word
word-NoNul [] clean = (tt, tt)
word-NoNul (c ∷ s) clean = elim (Bool-cases (is_space c)) [
  | inl e ↦ rw e (tt, clean)
  | inr e ↦ rw e ((clean.0, (word-NoNul s clean.1).0), (word-NoNul s clean.1).1)
]

pub skip_spaces-NoNul : (s : List ℕ) → NoNul s → NoNul (skip_spaces s)
unfolding skip_spaces
skip_spaces-NoNul [] clean = tt
skip_spaces-NoNul (c ∷ s) clean = elim (Bool-cases (is_space c)) [
  | inl e ↦ rw e (skip_spaces-NoNul s clean.1)
  | inr e ↦ rw e clean
]

pub address-IsText :
    (status size : ℕ) (s found rest : List ℕ)
    → NoNul s
    → address status size s ≡ goes_on (found, rest)
    → IsText found × NoNul rest
unfolding address
address-IsText status size s found rest clean e =
    elim (Bool-cases (length w.0 == 0 || leb size (length w.0))) [
      | inl bad ↦ cc
      | inr ok ↦ of_word w (word-NoNul (skip_spaces s) (skip_spaces-NoNul s clean)) ok (e_of ok)
    ]
  where
    w : List ℕ × List ℕ
    w = word (skip_spaces s)

    e_of :
        (length w.0 == 0 || leb size (length w.0)) ≡ false
        → ◌≡◌ {A = Outcome (List ℕ × List ℕ)}
            (goes_on (stored size w.0, w.1))
            (goes_on (found, rest))
    e_of ok = ground arith

    of_word :
        (v : List ℕ × List ℕ)
        → NoNul v.0 × NoNul v.1
        → (length v.0 == 0 || leb size (length v.0)) ≡ false
        → ◌≡◌ {A = Outcome (List ℕ × List ℕ)}
            (goes_on (stored size v.0, v.1))
            (goes_on (found, rest))
        → IsText found × NoNul rest
    of_word v v_clean ok e =
        let same_found : stored size v.0 ≡ found = cc in
        let same_rest : v.1 ≡ rest = cc in
        (
          subst IsText same_found
              (stored-IsText size v.0 (λ z. ground arith) v_clean.0 (ground arith)),
          subst NoNul same_rest v_clean.1,
        )

not_below : (n : ℕ) → ltb n 0 ≡ false
not_below n = ground arith

-- From any value, the loop over the port's digits does not exit with 105, whatever the digits
-- overflow to.
pub port_loop-not_105 : (value : ℕ) (s : List ℕ) → port_loop 0 value s ≢ exits 105
unfolding port_loop
port_loop-not_105 value [] = λ e. cc
port_loop-not_105 value (c ∷ s) = elim (Bool-cases (is_digit c)) [
  | inl d ↦
      rw (d, not_below ((value * 10 + (c - b'0')) % 65536))
        (λ e. port_loop-not_105 ((value * 10 + (c - b'0')) % 65536) s e)
  | inr d ↦ rw d (λ e. cc)
]
