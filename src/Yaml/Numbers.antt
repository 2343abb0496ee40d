-- ===== src/Yaml/Numbers.antt =====
-- What the scalar readers accept.
use iptracking.Prelude.{
  ℕ, ◌-◌, ◌^◌, ◌<◌, ◌≡◌, refl, ◌≢◌, ◌↔◌, Option, none, some, List, [], ◌∷◌, arith, length,
}
use iptracking.Prelude.Int.{ℤ, pos, negsuc, ◌≤ℤ◌}
use iptracking.Yaml.{
  Node, no_node, scalar, sequence, mapping, Strtol, scalar_value, number_within,
  scalar_uint32_value,
}

not_empty : (v : List ℕ) → v ≢ [] → 0 < length v
not_empty [] ne = absurd (ne refl)
not_empty (c ∷ v) ne = omega arith

-- A number is given exactly when the node is a scalar whose text is not empty and was read to its
-- end as that number, and the number is in the range.
pub number_within_iff :
    (low high : ℤ) (strtol : Strtol) (n : Node) (x : ℤ)
    → (number_within low high strtol n ≡ some x) ↔ (
        (v : List ℕ) × (n ≡ scalar v)
        × (v ≢ [])
        × (strtol v ≡ (x, length v))
        × (low ≤ℤ x)
        × (x ≤ℤ high))
unfolding number_within scalar_value
number_within_iff low high strtol no_node x = (λ e. cc, λ h. cc)
number_within_iff low high strtol (sequence items) x = (λ e. cc, λ h. cc)
number_within_iff low high strtol (mapping ps) x = (λ e. cc, λ h. cc)
number_within_iff low high strtol (scalar v) x = (
  λ e. (v, refl, (λ z. ground arith), ground arith, ground arith, ground arith),
  λ (w, same, ne, read, low_x, x_high).
      let here : strtol v ≡ (x, length v) = cc in
      let some_read : 0 < length v = not_empty v (λ z. ne cc) in ground arith,
)

-- An unsigned value that a scalar gives is the number that its text was read as, to the end, and is
-- below 2 to the 32nd.
pub scalar_uint32_value-number :
    (strtol : Strtol) (v : List ℕ) (x : ℕ)
    → scalar_uint32_value strtol (scalar v) ≡ some x
    → (strtol v ≡ (pos x, length v)) × (x < 2 ^ 32)
unfolding scalar_uint32_value
scalar_uint32_value-number strtol v x e =
    of_number (number_within (pos 0) (pos (2 ^ 32 - 1)) strtol (scalar v)) refl e
  where
    of_number :
        (found : Option ℤ)
        → number_within (pos 0) (pos (2 ^ 32 - 1)) strtol (scalar v) ≡ found
        → elim found [ none ↦ none | some (pos y) ↦ some y | some (negsuc _) ↦ none ] ≡ some x
        → (strtol v ≡ (pos x, length v)) × (x < 2 ^ 32)
    of_number none f e = cc
    of_number (some (negsuc y)) f e = cc
    of_number (some (pos y)) f e =
        let (w, same, ne, read, low, high) =
          (number_within_iff (pos 0) (pos (2 ^ 32 - 1)) strtol (scalar v) (pos y)).0 f in
        let here : strtol v ≡ (pos x, length v) = cc in
        let same_number : y ≡ x = cc in (here, omega arith)
