-- ===== src/Firewalld/Names.antt =====
-- What names and settings the configuration accepts.
use iptracking.Prelude.{
  ℕ, suc, ◌+◌, ◌≤◌, ◌<◌, ◌≡◌, refl, ◌≢◌, ◌↔◌, inl, inr, Bool, true, false, ◌&&◌, ◌||◌, not, some,
  List, [], ◌∷◌, ◌++◌, arith, Bool-cases, ltb, leb, ◌==◌, length, length-append, subst, ap,
}
use iptracking.Prelude.Text.{codes, is_alnum, str_eq, str_eq_iff}
use iptracking.Firewalld.{valid_from, is_valid_ipset_name, Settings, config_validate}

-- Letters, digits and underscores.
abbrev pub AreNameChars : List ℕ → Type 0
AreNameChars [] = Unit {0}
AreNameChars (c ∷ s) = ((is_alnum c || c == b'_') ≡ true) × AreNameChars s

valid_from_iff :
    (l : ℕ) (s : List ℕ)
    → l ≤ 256
    → (valid_from l s ≡ true) ↔ ((0 < l + length s) × (l + length s ≤ 256) × AreNameChars s)
unfolding valid_from
valid_from_iff l [] low = (λ e. (ground arith, ground arith, tt), λ h. ground arith)
valid_from_iff l (c ∷ s) low = elim (Bool-cases (leb (suc l) 256)) [
  | inl more ↦
      let rest = valid_from_iff (suc l) s (ground arith) in
      (
        λ e.
            let (some_chars, few, clean) = rest.0 (ground arith) in
            (omega arith, omega (arith, few), (ground arith, clean)),
        λ h. let tail = rest.1 (omega arith, omega (arith, h.1), h.2.1) in ground (arith, h.2.0),
      )
  | inr full ↦
      (λ e. absurd (too_long s (ground arith) full), λ h. absurd (ground (arith, h.1, full)))
]
  where
    too_long : (s : List ℕ) → valid_from (suc l) s ≡ true → leb (suc l) 256 ≡ false → ⊥
    too_long [] e f = ground arith
    too_long (d ∷ s) e f = ground arith

-- A name is valid exactly when it has 1 to 256 characters, each a letter, a digit or an underscore.
pub is_valid_ipset_name_iff :
    (s : List ℕ)
    → (is_valid_ipset_name s ≡ true) ↔ ((0 < length s) × (length s ≤ 256) × AreNameChars s)
unfolding is_valid_ipset_name
is_valid_ipset_name_iff s =
    let from_start = valid_from_iff 0 s (omega arith) in
    (
      λ e. let (a, b, clean) = from_start.0 e in (omega arith, omega arith, clean),
      λ (a, b, clean). from_start.1 (omega arith, omega arith, clean),
    )

-- Where settings are accepted there is a database with a valid configuration, and the settings have
-- a check interval of at least 120, a valid production name, the one given, and a name for
-- rebuilding that is not the production name.
pub config_validate-accepted :
    (has_db db_is_valid : Bool) (c d : Settings)
    → config_validate has_db db_is_valid c ≡ some d
    → (has_db ≡ true)
      × (db_is_valid ≡ true)
      × (120 ≤ d.check_interval)
      × (is_valid_ipset_name d.production ≡ true)
      × (d.production ≡ c.production)
      × (d.rebuild ≢ d.production)
unfolding config_validate
config_validate-accepted has_db db_is_valid c d e =
    let slow : ltb c.check_interval 120 ≡ false = ground arith in
    let named : is_valid_ipset_name c.production ≡ true = ground arith in
    let other : str_eq c.rebuild c.production ≡ false = ground arith in
    let rest : Accepted d = elim (Bool-cases (c.production_isset && not c.rebuild_isset)) [
      | inl derived ↦
          let same : record c { rebuild = c.production ++ codes "_update" } ≡ d = ground arith in
          subst (λ x. Accepted x) same (ground arith, named, refl, λ z. longer c.production z)
      | inr kept ↦
          let same : c ≡ d = ground arith in
          subst (λ x. Accepted x) same (ground arith, named, refl, λ z. differs other z)
    ] in
    (ground arith, ground arith, rest.0, rest.1, rest.2, rest.3)
  where
    Accepted : Settings → Type 0
    Accepted x =
        (120 ≤ x.check_interval)
        × (is_valid_ipset_name x.production ≡ true)
        × (x.production ≡ c.production)
        × (x.rebuild ≢ x.production)

    longer : (s : List ℕ) → s ++ codes "_update" ≢ s
    longer s z = absurd (omega (arith, ap length z, length-append s (codes "_update")))

    differs : str_eq c.rebuild c.production ≡ false → c.rebuild ≢ c.production
    differs other z = let same = (str_eq_iff c.rebuild c.production).1 z in cc
