-- ===== src/Postgresql/Configuration.antt =====
-- What the driver reads from its node of the configuration.
use iptracking.Prelude.{ℕ, ◌≡◌, refl, Bool, Option, none, some, List, [], ◌∷◌}
use iptracking.Yaml.{Document, Node, Strtol}
use iptracking.Db.Property.{scalar_at}
use iptracking.Postgresql.{with_key, read_keys, db_conn_keys, postgresql_alloc}

-- Of these keys, the ones that have a scalar, and their scalars beside them, in the order of the keys.
pub data AreRead (strtol : Strtol) (doc : Document) (n : Node)
    : List (List ℕ) → List (List ℕ) → List (List ℕ) → Type 0 where
  end : AreRead strtol doc n [] [] []
  absent :
      (key : List ℕ) (keys keywords values : List (List ℕ))
      → scalar_at strtol doc n key ≡ none
      → AreRead strtol doc n keys keywords values
      → AreRead strtol doc n (key ∷ keys) keywords values
  present :
      (key v : List ℕ) (keys keywords values : List (List ℕ))
      → scalar_at strtol doc n key ≡ some v
      → AreRead strtol doc n keys keywords values
      → AreRead strtol doc n (key ∷ keys) (key ∷ keywords) (v ∷ values)

with_key-AreRead :
    (strtol : Strtol) (doc : Document) (n : Node) (key : List ℕ) (keys : List (List ℕ))
    (found : Option (List ℕ)) (rest : List (List ℕ) × List (List ℕ))
    → scalar_at strtol doc n key ≡ found
    → AreRead strtol doc n keys rest.0 rest.1
    → AreRead strtol doc n (key ∷ keys) (with_key key found rest).0 (with_key key found rest).1
unfolding with_key
with_key-AreRead strtol doc n key keys none (kw, vs) e read = absent key keys kw vs e read
with_key-AreRead strtol doc n key keys (some v) (kw, vs) e read = present key v keys kw vs e read

read_keys-AreRead :
    (strtol : Strtol) (doc : Document) (n : Node) (keys : List (List ℕ))
    → AreRead strtol doc n keys (read_keys strtol doc n keys).0 (read_keys strtol doc n keys).1
unfolding read_keys
read_keys-AreRead strtol doc n [] = end
read_keys-AreRead strtol doc n (key ∷ keys) =
    with_key-AreRead strtol doc n key keys (scalar_at strtol doc n key)
      (read_keys strtol doc n keys) refl (read_keys-AreRead strtol doc n keys)

-- The keywords and values that a connection is made with are, for every configuration, the keys of the
-- driver's table that have a scalar there and these scalars, place by place and in the table's order.
pub postgresql_alloc-AreRead :
    (strtol : Strtol) (doc : Document) (n : Node) (no_pam : Bool)
    → AreRead strtol doc n db_conn_keys
        (postgresql_alloc strtol doc n no_pam).conn_keys
        (postgresql_alloc strtol doc n no_pam).conn_values
unfolding postgresql_alloc
postgresql_alloc-AreRead strtol doc n no_pam = read_keys-AreRead strtol doc n db_conn_keys
