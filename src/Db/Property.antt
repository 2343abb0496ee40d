-- ===== src/Db/Property.antt =====
-- The properties that the drivers read from their node of the configuration.
use iptracking.Prelude.{ℕ, Option, none, some, List}
use iptracking.Yaml.{Document, Node, Strtol, yaml_helper_doc_node_at_path, scalar_value}

-- The scalar at a path, or NULL.
unfoldable pub scalar_at : Strtol → Document → Node → List ℕ → Option (List ℕ)
unfolding yaml_helper_doc_node_at_path scalar_value
scalar_at strtol doc n path = elim (yaml_helper_doc_node_at_path strtol doc (some n) path) [
  | none ↦ none
  | some found ↦ scalar_value found
]
