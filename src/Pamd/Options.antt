-- ===== src/Pamd/Options.antt =====
-- The options of the command line that go before the configuration.
use iptracking.Prelude.{
  ℕ, ◌≡◌, ◌||◌, Option, none, some, List, [], ◌∷◌, ◌==◌, if◌then◌else◌, ◌>>=◌, arith, Option-cases,
  inl, inr, subst,
}
use iptracking.Prelude.Int.{ℤ, pos, ltb_ℤ, ◌≤ℤ◌}
use iptracking.Yaml.{Strtol}

-- `-b` and `-i` with their arguments, and any other option.
pub data Opt : Type 0 where
  backlog poll_interval : List ℕ → Opt
  other : Opt

-- `socket_backlog` and `socket_poll_interval`.
pub record Timing : Type 0 where
  pub socket_backlog : ℤ
  pub socket_poll_interval : ℤ

abbrev pub int_max : ℕ
int_max = 2147483647

-- The argument as a number between 0 and `high`; `none` is the end of the program.
unfoldable pub bounded : Strtol → ℕ → List ℕ → Option ℤ
bounded strtol high optarg =
    let (ival, read) = strtol optarg in
    if (read == 0) || (ltb_ℤ ival (pos 0) || ltb_ℤ (pos high) ival) then none else some ival

-- The loop over the options.
unfoldable pub overrides : Strtol → ℕ → List Opt → Timing → Option Timing
unfolding bounded
overrides strtol somaxconn [] t = some t
overrides strtol somaxconn (other ∷ opts) t = overrides strtol somaxconn opts t
overrides strtol somaxconn (backlog arg ∷ opts) t = do
  v ← bounded strtol somaxconn arg
  overrides strtol somaxconn opts (record t { socket_backlog = v })
overrides strtol somaxconn (poll_interval arg ∷ opts) t = do
  v ← bounded strtol int_max arg
  overrides strtol somaxconn opts (record t { socket_poll_interval = v })

abbrev pub IsBounded : ℕ → Timing → Type 0
IsBounded somaxconn t =
    (pos 0 ≤ℤ t.socket_backlog)
    × (t.socket_backlog ≤ℤ pos somaxconn)
    × (pos 0 ≤ℤ t.socket_poll_interval)
    × (t.socket_poll_interval ≤ℤ pos int_max)

bounded-within :
    (strtol : Strtol) (high : ℕ) (arg : List ℕ) (v : ℤ)
    → bounded strtol high arg ≡ some v
    → (pos 0 ≤ℤ v) × (v ≤ℤ pos high)
unfolding bounded
bounded-within strtol high arg v e = ground arith

-- Where the backlog and the interval are within their bounds, and the options of the command line are
-- accepted, they are within them afterwards: from 0 to SOMAXCONN, and from 0 to INT_MAX.
pub overrides-IsBounded :
    (strtol : Strtol) (somaxconn : ℕ) (opts : List Opt) (t after : Timing)
    → IsBounded somaxconn t
    → overrides strtol somaxconn opts t ≡ some after
    → IsBounded somaxconn after
unfolding overrides
overrides-IsBounded strtol somaxconn [] t after ok e =
    let same : t ≡ after = cc in subst (λ x. IsBounded somaxconn x) same ok
overrides-IsBounded strtol somaxconn (other ∷ opts) t after ok e =
    overrides-IsBounded strtol somaxconn opts t after ok e
overrides-IsBounded strtol somaxconn (backlog arg ∷ opts) t after (b, c, d, f) e =
    elim (Option-cases (bounded strtol somaxconn arg)) [
      | inl refused ↦ absurd (let g = (rw (refused, overrides) at e) in cc)
      | inr (v, read) ↦
          let (low, high) = bounded-within strtol somaxconn arg v read in
          overrides-IsBounded strtol somaxconn opts (record t { socket_backlog = v }) after
            (low, high, d, f) (rw read at e)
    ]
overrides-IsBounded strtol somaxconn (poll_interval arg ∷ opts) t after (b, c, d, f) e =
    elim (Option-cases (bounded strtol int_max arg)) [
      | inl refused ↦ absurd (let g = (rw (refused, overrides) at e) in cc)
      | inr (v, read) ↦
          let (low, high) = bounded-within strtol int_max arg v read in
          overrides-IsBounded strtol somaxconn opts (record t { socket_poll_interval = v }) after
            (b, c, low, high) (rw read at e)
    ]
