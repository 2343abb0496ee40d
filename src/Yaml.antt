-- ===== src/Yaml.antt =====
-- libiptracking/yaml_helpers.c: the node at a path of a YAML document, and the scalars as numbers.
pub mod Paths
pub mod Numbers
mod Tests
use iptracking.Prelude.{
  ℕ, zero, suc, ◌+◌, ◌-◌, ◌*◌, ◌^◌, Bool, true, false, ◌&&◌, ◌||◌, not, Option, none, some, List,
  [], ◌∷◌, ltb, leb, ◌==◌, if◌then◌else◌, length, get_elem?, ◌>>=◌,
}
use iptracking.Prelude.Int.{ℤ, pos, negsuc, ltb_ℤ}
use iptracking.Prelude.Text.{first, is_empty, str_eq}

-- `yaml_node_t` as libyaml lays it out: the items and pairs are the numbers of nodes in the document.
pub data Node : Type 0 where
  no_node : Node
  scalar : List ℕ → Node
  sequence : List ℕ → Node
  mapping : List (ℕ × ℕ) → Node

-- `yaml_document_get_node`, which counts the nodes from 1.
pub data Document : Type 0 where
  nodes : List Node → Document

unfoldable pub get_node : Document → ℕ → Option Node
get_node (nodes ns) zero = none
get_node (nodes ns) (suc i) = get_elem? ns i

-- What `strtol` and `strtoll` give: the number, and how many characters were read. Base 0.
abbrev pub Strtol : Type 0
Strtol = List ℕ → ℤ × ℕ

-- The key at the start of a path, up to a dot or a bracket, and the path from there on.
unfoldable pub key_of : List ℕ → List ℕ × List ℕ
key_of [] = ([], [])
key_of (c ∷ p) =
    let more = key_of p in if (c == b'.') || (c == b'[') then ([], c ∷ p) else (c ∷ more.0, more.1)

-- The key of a pair is the scalar with this text.
unfoldable pub is_key : Document → List ℕ → ℕ → Bool
unfolding get_node str_eq
is_key doc key k = elim (get_node doc k) [
  | none ↦ false
  | some no_node ↦ false
  | some (scalar v) ↦ str_eq key v
  | some (sequence is) ↦ false
  | some (mapping ps) ↦ false
]

-- The first pair with the key gives its value's node.
unfoldable pub value_at : Document → List ℕ → List (ℕ × ℕ) → Option Node
unfolding is_key get_node
value_at doc key [] = none
value_at doc key ((k, v) ∷ ps) = if is_key doc key k then get_node doc v else value_at doc key ps

-- What one round of the loop makes of a path that is not empty at a node: the node and the path it goes
-- on with, or `none` where the result is NULL. `level` counts the mappings that were entered.
unfoldable pub enter_mapping : Document → List (ℕ × ℕ) → List ℕ → Option (Node × List ℕ)
unfolding key_of value_at
enter_mapping doc ps path = do
  let found = key_of path
  n ← if is_empty found.0 then none else value_at doc found.0 ps
  some (n, found.1)

unfoldable pub enter_sequence : Strtol → Document → List ℕ → List ℕ → Option (Node × List ℕ)
unfolding get_node
enter_sequence strtol doc items [] = none
enter_sequence strtol doc items (c ∷ path) =
    let read = strtol path in
    if not (c == b'[') || (ltb_ℤ read.0 (pos 0) || (read.1 == 0)) || not (first path == b']')
    then none
    else elim path [
      | [] ↦ none
      | _ ∷ rest ↦ elim read.0 [
        | negsuc _ ↦ none
        | pos i ↦ do item ← get_elem? items i; n ← get_node doc item; some (n, rest)
      ]
    ]

unfoldable pub after_dot : ℕ → List ℕ → Option (List ℕ)
after_dot zero path = some path
after_dot (suc level) path = elim path [
  | [] ↦ none
  | c ∷ rest ↦ if c == b'.' then some rest else none
]

unfoldable pub round : Strtol → Document → ℕ → Node → List ℕ → Option (ℕ × Node × List ℕ)
unfolding enter_mapping enter_sequence after_dot
round strtol doc level no_node path = none
round strtol doc level (scalar v) path = none
round strtol doc level (sequence items) path = do
  (n, rest) ← enter_sequence strtol doc items path
  some (level, n, rest)
round strtol doc level (mapping ps) path = do
  key_path ← after_dot level path
  (n, rest) ← enter_mapping doc ps key_path
  some (suc level, n, rest)

-- `yaml_helper_doc_node_at_path`, on fuel: a round takes at least one character from the path.
unfoldable pub at_path : ℕ → Strtol → Document → ℕ → Node → List ℕ → Option Node
unfolding round
at_path fuel strtol doc level n [] = some n
at_path zero strtol doc level n (c ∷ path) = none
at_path (suc fuel) strtol doc level n (c ∷ path) = do
  (level, n, rest) ← round strtol doc level n (c ∷ path)
  at_path fuel strtol doc level n rest

unfoldable pub yaml_helper_doc_node_at_path : Strtol → Document → Option Node → List ℕ → Option Node
unfolding at_path
yaml_helper_doc_node_at_path strtol doc none path = none
yaml_helper_doc_node_at_path strtol doc (some n) path = at_path (length path) strtol doc 0 n path

-- `yaml_helper_get_scalar_value`.
unfoldable pub scalar_value : Node → Option (List ℕ)
scalar_value no_node = none
scalar_value (scalar v) = some v
scalar_value (sequence items) = none
scalar_value (mapping ps) = none

-- The whole scalar read as a number in a range.
unfoldable pub number_within : ℤ → ℤ → Strtol → Node → Option ℤ
unfolding scalar_value
number_within low high strtol n = do
  v ← scalar_value n
  let read = strtol v
  if (ltb 0 read.1 && (read.1 == length v)) && (not (ltb_ℤ read.0 low) && not (ltb_ℤ high read.0))
      then some read.0
      else none

-- `yaml_helper_get_scalar_int_value` and `yaml_helper_get_scalar_uint32_value`: the value that is stored,
-- or `none` for false.
unfoldable pub scalar_int_value : Strtol → Node → Option ℤ
unfolding number_within
scalar_int_value strtol n = number_within (negsuc (2 ^ 31 - 1)) (pos (2 ^ 31 - 1)) strtol n

unfoldable pub scalar_uint32_value : Strtol → Node → Option ℕ
unfolding number_within
scalar_uint32_value strtol n = elim (number_within (pos 0) (pos (2 ^ 32 - 1)) strtol n) [
  | none ↦ none
  | some (pos v) ↦ some v
  | some (negsuc _) ↦ none
]
