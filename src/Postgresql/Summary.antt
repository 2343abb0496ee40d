-- ===== src/Postgresql/Summary.antt =====
-- What the driver shows of its configuration in the log.
use iptracking.Prelude.{
  ℕ, ◌≡◌, refl, inl, inr, Bool, true, false, Option, none, some, List, [], ◌∷◌, ◌++◌, if◌then◌else◌,
  Bool-cases, ap,
}
use iptracking.Prelude.Text.{codes, str_eq}
use iptracking.Yaml.{Document, Node, Strtol}
use iptracking.Db.{Answer}
use iptracking.Db.Shown.{Line, shown}
use iptracking.Db.Property.{scalar_at}
use iptracking.Postgresql.{Postgresql, with_key, read_keys, db_conn_keys, postgresql_alloc}

unfoldable pub postgresql_has_valid_configuration : Postgresql → Answer
postgresql_has_valid_configuration s = (true, none)

-- The loop of `__db_instance_postgresql_summarize_to_log` over the keys.
unfoldable pub summarize_keys : List (List ℕ) → List (List ℕ) → List Line
unfolding str_eq
summarize_keys [] values = []
summarize_keys (key ∷ keys) [] = []
summarize_keys (key ∷ keys) (v ∷ values) =
    let rest = summarize_keys keys values in
    (key, shown (if str_eq key (codes "password") then codes "********" else v)) ∷ rest

-- The line of a schema, where there is one, in front of other lines.
unfoldable pub schema_line : List ℕ → Option (List ℕ) → List Line → List Line
schema_line name none lines = lines
schema_line name (some schema) lines = (name, shown schema) ∷ lines

unfoldable pub postgresql_summarize_to_log : Postgresql → List Line
unfolding summarize_keys schema_line
postgresql_summarize_to_log s =
    (codes "driver_name", shown (codes "postgresql"))
    ∷ (summarize_keys s.conn_keys s.conn_values
        ++ schema_line (codes "pam schema") s.pam_schema
            (schema_line (codes "firewall schema") s.firewall_schema []))

-- Two scalars of one key: both are there or none, and they are the same but for the key `password`.
abbrev Similar : List ℕ → Option (List ℕ) → Option (List ℕ) → Type 0
Similar key none none = Unit
Similar key none (some w) = ⊥
Similar key (some v) none = ⊥
Similar key (some v) (some w) = str_eq key (codes "password") ≡ false → v ≡ w

-- The values are the same but for those of the key `password`.
abbrev AgreeButForPassword : List (List ℕ) → List (List ℕ) → List (List ℕ) → Type 0
AgreeButForPassword [] vs ws = Unit
AgreeButForPassword (key ∷ keys) [] [] = Unit
AgreeButForPassword (key ∷ keys) [] (w ∷ ws) = ⊥
AgreeButForPassword (key ∷ keys) (v ∷ vs) [] = ⊥
AgreeButForPassword (key ∷ keys) (v ∷ vs) (w ∷ ws) =
    (str_eq key (codes "password") ≡ false → v ≡ w) × AgreeButForPassword keys vs ws

summarize_keys-hides :
    (keys vs ws : List (List ℕ))
    → AgreeButForPassword keys vs ws
    → summarize_keys keys vs ≡ summarize_keys keys ws
unfolding summarize_keys
summarize_keys-hides [] vs ws agree = refl
summarize_keys-hides (key ∷ keys) [] [] agree = refl
summarize_keys-hides (key ∷ keys) [] (w ∷ ws) agree = absurd agree
summarize_keys-hides (key ∷ keys) (v ∷ vs) [] agree = absurd agree
summarize_keys-hides (key ∷ keys) (v ∷ vs) (w ∷ ws) (same, agree) =
    elim (Bool-cases (str_eq key (codes "password"))) [
      | inl password ↦ simp (password, summarize_keys-hides keys vs ws agree) refl
      | inr other ↦ simp (same other, summarize_keys-hides keys vs ws agree) refl
    ]

-- Two pairs of arrays: the same keywords, with values that agree.
abbrev AreAlike : List (List ℕ) × List (List ℕ) → List (List ℕ) × List (List ℕ) → Type 0
AreAlike a b = (a.0 ≡ b.0) × AgreeButForPassword a.0 a.1 b.1

with_key-AreAlike :
    (key : List ℕ) (found found' : Option (List ℕ)) (a b : List (List ℕ) × List (List ℕ))
    → Similar key found found'
    → AreAlike a b
    → AreAlike (with_key key found a) (with_key key found' b)
unfolding with_key
with_key-AreAlike key none none a b similar alike = alike
with_key-AreAlike key none (some w) a b similar alike = absurd similar
with_key-AreAlike key (some v) none a b similar alike = absurd similar
with_key-AreAlike key (some v) (some w) a b similar (same, agree) =
    (ap (λ ks. key ∷ ks) same, (similar, agree))

lines-hide :
    (a b : Postgresql)
    → a.conn_keys ≡ b.conn_keys
    → AgreeButForPassword a.conn_keys a.conn_values b.conn_values
    → a.pam_schema ≡ b.pam_schema
    → a.firewall_schema ≡ b.firewall_schema
    → postgresql_summarize_to_log a ≡ postgresql_summarize_to_log b
unfolding postgresql_summarize_to_log
lines-hide a b same agree pam firewall =
    rw
      (
        postgresql_summarize_to_log,
        summarize_keys-hides a.conn_keys a.conn_values b.conn_values agree,
        same,
        pam,
        firewall,
      )
      refl

module _ (strtol : Strtol) (doc doc2 : Document) (n n2 : Node) where
  -- Two configurations at these keys.
  abbrev pub AreSimilarAt : List (List ℕ) → Type 0
  AreSimilarAt [] = Unit
  AreSimilarAt (key ∷ keys) =
      Similar key (scalar_at strtol doc n key) (scalar_at strtol doc2 n2 key) × AreSimilarAt keys

  read_keys-AreAlike :
      (keys : List (List ℕ))
      → AreSimilarAt keys
      → AreAlike (read_keys strtol doc n keys) (read_keys strtol doc2 n2 keys)
  unfolding read_keys
  read_keys-AreAlike [] similar = (refl, tt)
  read_keys-AreAlike (key ∷ keys) (here, there) =
      with_key-AreAlike key (scalar_at strtol doc n key) (scalar_at strtol doc2 n2 key)
        (read_keys strtol doc n keys) (read_keys strtol doc2 n2 keys) here
        (read_keys-AreAlike keys there)

  -- Two configurations that at each key of the driver's table both have a scalar or both have none, the
  -- same one but for the key `password`, and that have the same schemas, leave the same lines in the log.
  pub postgresql_alloc-hides :
      (no_pam : Bool)
      → AreSimilarAt db_conn_keys
      → scalar_at strtol doc n (codes "pamd.schema")
        ≡ scalar_at strtol doc2 n2 (codes "pamd.schema")
      → scalar_at strtol doc n (codes "firewalld.schema")
        ≡ scalar_at strtol doc2 n2 (codes "firewalld.schema")
      → postgresql_summarize_to_log (postgresql_alloc strtol doc n no_pam)
        ≡ postgresql_summarize_to_log (postgresql_alloc strtol doc2 n2 no_pam)
  unfolding postgresql_alloc
  postgresql_alloc-hides no_pam similar pam firewall =
      let (same, agree) = read_keys-AreAlike db_conn_keys similar in
      lines-hide (postgresql_alloc strtol doc n no_pam) (postgresql_alloc strtol doc2 n2 no_pam)
        same agree pam firewall
