-- ===== src/Db/Drivers.antt =====
-- Looking a driver up, and the enumeration of the drivers.
use iptracking.Prelude.{
  ℕ, zero, suc, ◌≡◌, ◌≢◌, inl, inr, true, false, none, some, List, [], ◌∷◌, arith, refl, Bool-cases,
  Option-cases, get_elem?, subst,
}
use iptracking.Prelude.Text.{str_case_eq, str_case_eq_refl}
use iptracking.Db.{Driver, db_driver_lookup, db_driver_enumerate_drivers, db_driver_is_available}

-- The list has the driver with none before it that has the name.
pub data IsFirst (S : Type 0) : List (Driver S) → List ℕ → Driver S → Type 0 where
  here :
      (d : Driver S) (ds : List (Driver S)) (name : List ℕ)
      → str_case_eq name d.driver_name ≡ true
      → IsFirst S (d ∷ ds) name d
  there :
      (d e : Driver S) (ds : List (Driver S)) (name : List ℕ)
      → str_case_eq name d.driver_name ≡ false
      → IsFirst S ds name e
      → IsFirst S (d ∷ ds) name e

-- What the lookup finds is the first driver whose name is the given one up to the case of its
-- letters.
pub lookup-IsFirst :
    {S : Type 0} (ds : List (Driver S)) (name : List ℕ) (d : Driver S)
    → db_driver_lookup ds name ≡ some d
    → IsFirst S ds name d
unfolding db_driver_lookup
lookup-IsFirst [] name d e = cc
lookup-IsFirst {S = S} (x ∷ ds) name d e = elim (Bool-cases (str_case_eq name x.driver_name)) [
  | inl named ↦
      let same : x ≡ d = ground arith in
      subst (λ y. IsFirst S (x ∷ ds) name y) same (here x ds name named)
  | inr other ↦ there x d ds name other (lookup-IsFirst ds name d (ground arith))
]

listed-found :
    {S : Type 0} (drivers : List (Driver S)) (i : ℕ) (d : Driver S)
    → get_elem? drivers i ≡ some d
    → db_driver_lookup drivers d.driver_name ≢ none
unfolding db_driver_lookup
listed-found [] i d e = cc
listed-found (x ∷ ds) zero d e =
    let same : x ≡ d = cc in
    subst (λ y. db_driver_lookup (x ∷ ds) y.driver_name ≢ none) same
      (rw (str_case_eq_refl x.driver_name) (λ f. cc))
listed-found (x ∷ ds) (suc i) d e = elim (Bool-cases (str_case_eq d.driver_name x.driver_name)) [
  | inl named ↦ rw named (λ f. cc)
  | inr other ↦ rw other (listed-found ds i d e)
]

found-available :
    {S : Type 0} (drivers : List (Driver S)) (name : List ℕ)
    → db_driver_lookup drivers name ≢ none
    → db_driver_is_available drivers name ≡ true
unfolding db_driver_is_available
found-available drivers name found = elim (Option-cases (db_driver_lookup drivers name)) [
  | inl none_there ↦ absurd (found none_there)
  | inr (d, at) ↦ rw (db_driver_is_available, at) refl
]

-- Every name that the enumeration gives is the name of a driver that is available.
pub enumerated-available :
    {S : Type 0} (drivers : List (Driver S)) (i : ℕ) (name : List ℕ) (next : ℕ)
    → db_driver_enumerate_drivers drivers i ≡ some (name, next)
    → db_driver_is_available drivers name ≡ true
unfolding db_driver_enumerate_drivers
enumerated-available drivers i name next e = elim (Option-cases (get_elem? drivers i)) [
  | inl f ↦ absurd (let g = (rw (f, db_driver_enumerate_drivers) at e) in cc)
  | inr (d, f) ↦
      subst (λ n. db_driver_is_available drivers n ≡ true)
        (let g = (rw (f, db_driver_enumerate_drivers) at e) in cc)
        (found-available drivers d.driver_name (listed-found drivers i d f))
]
