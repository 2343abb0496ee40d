-- ===== src/Yaml/Tests.antt =====
-- Runs of the path reader and the number readers.
use iptracking.Prelude.{
  ℕ, ◌≡◌, refl, ◌&&◌, if◌then◌else◌, leb, suc, ◌+◌, ◌*◌, ◌-◌, some, List, [], ◌∷◌, ◌++◌, arith,
}
use iptracking.Prelude.Int.{ℤ, pos}
use iptracking.Prelude.Text.{codes}
use iptracking.Yaml.{
  scalar, mapping, Strtol, Document, nodes, yaml_helper_doc_node_at_path, scalar_uint32_value,
}
use iptracking.Yaml.Paths.{AreKeys, dotted, walk_from, at_path-keys}

-- A reader of the digits at the start.
abbrev digits : ℕ → ℕ → List ℕ → ℤ × ℕ
digits v n [] = (pos v, n)
digits v n (c ∷ s) =
    if leb b'0' c && leb c b'9' then digits (v * 10 + (c - b'0')) (suc n) s else (pos v, n)

abbrev read : Strtol
read s = digits 0 0 s

-- pamd: {min: 64}, and a list of one number.
abbrev document : Document
document = nodes (
    scalar (codes "pamd") ∷ scalar (codes "min") ∷ scalar (codes "64") ∷ mapping ((2, 3) ∷ []) ∷ [])

abbrev root : List (ℕ × ℕ)
root = (1, 4) ∷ []

keys : AreKeys (codes "pamd" ∷ codes "min" ∷ [])
keys = grind arith

at_path-keys_example :
    yaml_helper_doc_node_at_path read document
      (some (mapping root))
      (codes "pamd" ++ dotted (codes "min" ∷ []))
    ≡ walk_from document (mapping root) (codes "pamd" ∷ codes "min" ∷ [])
at_path-keys_example = at_path-keys read document root (codes "pamd") (codes "min" ∷ []) keys

stored_value : scalar_uint32_value read (scalar (codes "64")) ≡ some 64
unfolding scalar_uint32_value
stored_value = refl
