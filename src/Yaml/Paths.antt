-- ===== src/Yaml/Paths.antt =====
-- Paths through a document: keys joined by dots lead through mappings, and no path leads into a sequence.
use iptracking.Prelude.{
  ℕ, zero, suc, ◌≤◌, ◌≡◌, refl, ◌≢◌, inl, inr, false, ◌||◌, Option, none, some, List, [], ◌∷◌, ◌++◌,
  arith, Bool-cases, ◌==◌, length, length-append, ◌>>=◌, subst, sym,
}
use iptracking.Prelude.Int.{pos, ltb_ℤ}
use iptracking.Prelude.Text.{is_empty}
use iptracking.Yaml.{
  Node, no_node, scalar, sequence, mapping, Strtol, Document, key_of, is_key, value_at,
  enter_mapping, enter_sequence, after_dot, round, at_path, yaml_helper_doc_node_at_path,
}

-- `strtol` reads no number from a text that starts with a closing bracket.
abbrev pub StopsAtBracket : Strtol → Type 0
StopsAtBracket strtol = (rest : List ℕ) → (strtol (b']' ∷ rest)).1 ≡ 0

enter_sequence-none :
    (strtol : Strtol) (doc : Document) (items path : List ℕ)
    → StopsAtBracket strtol
    → enter_sequence strtol doc items path ≡ none
unfolding enter_sequence
enter_sequence-none strtol doc items [] stops = refl
enter_sequence-none strtol doc items (c ∷ []) stops = ground arith
enter_sequence-none strtol doc items (c ∷ d ∷ path) stops = elim (Bool-cases (d == b']')) [
  | inl e ↦ at_bracket d (ground arith)
  | inr e ↦ rw e (elim (Bool-cases (c == b'[')) [
    | inl f ↦
        rw f
          (elim (Bool-cases (ltb_ℤ (strtol (d ∷ path)).0 (pos 0) || ((strtol (d ∷ path)).1 == 0))) [
            | inl g ↦ rw g refl
            | inr g ↦ rw g refl
          ])
    | inr f ↦ rw f refl
  ])
]
  where
    at_bracket : (d : ℕ) → d ≡ b']' → enter_sequence strtol doc items (c ∷ d ∷ path) ≡ none
    at_bracket d e =
        subst (λ b. enter_sequence strtol doc items (c ∷ b ∷ path) ≡ none) (sym e)
          (ground (arith, stops path))

-- Where `strtol` reads no number from a closing bracket: no path that is not empty leads into a
-- sequence, as the bracket is looked for where the number starts.
pub at_path-sequence :
    (strtol : Strtol) (doc : Document) (items : List ℕ) (c : ℕ) (path : List ℕ)
    → StopsAtBracket strtol
    → yaml_helper_doc_node_at_path strtol doc (some (sequence items)) (c ∷ path) ≡ none
unfolding yaml_helper_doc_node_at_path at_path round
at_path-sequence strtol doc items c path stops =
    rw (enter_sequence-none strtol doc items (c ∷ path) stops) refl

-- A key has no dot and no bracket in it.
abbrev pub IsKey : List ℕ → Type 0
IsKey [] = Unit {0}
IsKey (c ∷ k) = (c ≢ b'.') × (c ≢ b'[') × IsKey k

key_of-append : (key rest : List ℕ) → IsKey key → key_of (key ++ b'.' ∷ rest) ≡ (key, b'.' ∷ rest)
unfolding key_of
key_of-append [] rest is_key = refl
key_of-append (c ∷ key) rest is_key =
    rw (key_of-append key rest is_key.2) (ground (arith, is_key.0, is_key.1))

key_of-end : (key : List ℕ) → IsKey key → key_of key ≡ (key, [])
unfolding key_of
key_of-end [] is_key = refl
key_of-end (c ∷ key) is_key = rw (key_of-end key is_key.2) (ground (arith, is_key.0, is_key.1))

-- The keys with a dot before each.
abbrev pub dotted : List (List ℕ) → List ℕ
dotted [] = []
dotted (k ∷ ks) = b'.' ∷ k ++ dotted ks

abbrev pub AreKeys : List (List ℕ) → Type 0
AreKeys [] = Unit {0}
AreKeys (k ∷ ks) = (k ≢ []) × IsKey k × AreKeys ks

-- The node that the keys lead to, one mapping after another.
abbrev pub lookup : Document → Node → List ℕ → Option Node
lookup doc (mapping ps) k = value_at doc k ps
lookup doc _ k = none

abbrev pub walk_from : Document → Node → List (List ℕ) → Option Node
walk_from doc n [] = some n
walk_from doc n (k ∷ ks) = do m ← lookup doc n k; walk_from doc m ks

key_of-dotted :
    (key : List ℕ) (ks : List (List ℕ)) → IsKey key → key_of (key ++ dotted ks) ≡ (key, dotted ks)
unfolding key_of
key_of-dotted [] [] is_key = refl
key_of-dotted [] (k ∷ ks) is_key = refl
key_of-dotted (c ∷ key) ks is_key =
    rw (key_of-dotted key ks is_key.2) (ground (arith, is_key.0, is_key.1))

not_empty : (k : List ℕ) → k ≢ [] → is_empty k ≡ false
not_empty [] ne = absurd (ne refl)
not_empty (c ∷ k) ne = refl

-- One mapping: the key's value, and the rest of the path.
enter_mapping-dotted :
    (doc : Document) (ps : List (ℕ × ℕ)) (k : List ℕ) (ks : List (List ℕ))
    → k ≢ []
    → IsKey k
    → enter_mapping doc ps (k ++ dotted ks) ≡ (value_at doc k ps >>= (λ n. some (n, dotted ks)))
unfolding enter_mapping
enter_mapping-dotted doc ps k ks ne is_key = rw (key_of-dotted k ks is_key, not_empty k ne) refl

chained :
    (found : Option Node) (rest : List ℕ) (level : ℕ) (F : ℕ → Node → List ℕ → Option Node)
    (G : Node → Option Node)
    → ((m : Node) → F level m rest ≡ G m)
    → ◌>>=◌ {B = Node}
        (◌>>=◌ {B = ℕ × Node × List ℕ}
          (◌>>=◌ {B = Node × List ℕ} found (λ n. some (n, rest)))
          (λ x. some (level, x.0, x.1)))
        (λ x. F x.0 x.1 x.2)
      ≡ (found >>= G)
chained none rest level F G h = refl
chained (some m) rest level F G h = h m

at_path-dotted :
    (fuel : ℕ) (strtol : Strtol) (doc : Document) (level : ℕ) (n : Node) (ks : List (List ℕ))
    → AreKeys ks
    → length (dotted ks) ≤ fuel
    → at_path fuel strtol doc (suc level) n (dotted ks) ≡ walk_from doc n ks
unfolding at_path round after_dot
at_path-dotted fuel strtol doc level n [] keys enough = refl
at_path-dotted zero strtol doc level n (k ∷ ks) keys enough = absurd (omega arith)
at_path-dotted (suc fuel) strtol doc level no_node (k ∷ ks) keys enough = refl
at_path-dotted (suc fuel) strtol doc level (scalar v) (k ∷ ks) keys enough = refl
at_path-dotted (suc fuel) strtol doc level (sequence items) (k ∷ ks) keys enough = refl
at_path-dotted (suc fuel) strtol doc level (mapping ps) (k ∷ ks) keys enough =
    rw (enter_mapping-dotted doc ps k ks keys.0 keys.1) (
      chained (value_at doc k ps) (dotted ks) (suc (suc level))
        (λ l m p. at_path fuel strtol doc l m p) (λ m. walk_from doc m ks)
        (λ m.
          at_path-dotted fuel strtol doc (suc level) m ks keys.2
            (omega (arith, length-append k (dotted ks)))))

-- Keys that are joined by dots, each not empty and without a dot or a bracket: the path leads to
-- the node that the keys lead to one after another, and to nothing where one of them is missing.
pub at_path-keys :
    (strtol : Strtol) (doc : Document) (ps : List (ℕ × ℕ)) (k : List ℕ) (ks : List (List ℕ))
    → AreKeys (k ∷ ks)
    → yaml_helper_doc_node_at_path strtol doc (some (mapping ps)) (k ++ dotted ks)
      ≡ walk_from doc (mapping ps) (k ∷ ks)
unfolding yaml_helper_doc_node_at_path at_path round after_dot
at_path-keys strtol doc ps [] ks keys = absurd (keys.0 refl)
at_path-keys strtol doc ps (c ∷ k) ks keys =
    let enough : length (dotted ks) ≤ length (k ++ dotted ks) =
      omega (arith, length-append k (dotted ks)) in
    rw (enter_mapping-dotted doc ps (c ∷ k) ks keys.0 keys.1) (
      chained (value_at doc (c ∷ k) ps) (dotted ks) 1
        (λ l m p. at_path (length (k ++ dotted ks)) strtol doc l m p) (λ m. walk_from doc m ks)
        (λ m. at_path-dotted (length (k ++ dotted ks)) strtol doc 0 m ks keys.2 enough))
