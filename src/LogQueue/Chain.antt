-- ===== src/LogQueue/Chain.antt =====
-- Chains of records: the addresses that `link` leads through, from a head to NULL.
use iptracking.Prelude.{
  ℕ, ◌≡◌, refl, ◌≢◌, Bool, true, false, ◌||◌, List, [], ◌∷◌, ◌++◌, arith, ◌==◌, if◌then◌else◌,
}

abbrev pub Ptr : Type 0
Ptr = ℕ

abbrev pub null : Ptr
null = 0

unfoldable pub update {ℓ} : {A : Type ℓ} → (Ptr → A) → Ptr → A → Ptr → A
update f p v a = if p == a then v else f a

abbrev pub has : Ptr → List Ptr → Bool
has a [] = false
has a (x ∷ xs) = (x == a) || has a xs

abbrev pub Distinct : List Ptr → Type 0
Distinct [] = Unit {0}
Distinct (x ∷ xs) = (has x xs ≡ false) × Distinct xs

-- From `p` the links lead through exactly `xs`, and then to NULL.
abbrev pub IsChain : (Ptr → Ptr) → Ptr → List Ptr → Type 0
IsChain link p [] = p ≡ null
IsChain link p (x ∷ xs) = (p ≡ x) × (x ≢ null) × IsChain link (link x) xs

-- The last address of a list, or a default.
abbrev pub last_or : Ptr → List Ptr → Ptr
last_or d [] = d
last_or d (x ∷ xs) = last_or x xs

pub has-append : (a : Ptr) (xs ys : List Ptr) → has a (xs ++ ys) ≡ (has a xs || has a ys)
has-append a [] ys = refl
has-append a (x ∷ xs) ys = ground (arith, has-append a xs ys)

-- A write beside the chain leaves the chain.
pub IsChain-update :
    (link : Ptr → Ptr) (p a v : Ptr) (xs : List Ptr)
    → has a xs ≡ false
    → IsChain link p xs
    → IsChain (update link a v) p xs
unfolding update
IsChain-update link p a v [] out c = c
IsChain-update link p a v (x ∷ xs) out c =
    (c.0, c.1, rw same (IsChain-update link (link x) a v xs (ground arith) c.2))
  where
    same : update link a v x ≡ link x
    same = ground arith

pub has-last_or : (x : Ptr) (xs : List Ptr) → has (last_or x xs) (x ∷ xs) ≡ true
has-last_or x [] = ground arith
has-last_or x (y ∷ ys) = ground (arith, has-last_or y ys)

-- A chain of distinct records, its last one redirected to a new last record.
pub IsChain-snoc :
    (link : Ptr → Ptr) (p new x : Ptr) (xs : List Ptr)
    → IsChain link p (x ∷ xs)
    → Distinct (x ∷ xs)
    → has new (x ∷ xs) ≡ false
    → new ≢ null
    → IsChain (update (update link new null) (last_or x xs) new) p (x ∷ (xs ++ new ∷ []))
unfolding update
IsChain-snoc link p new x [] c d out ne = (c.0, c.1, (ground arith, ne, ground arith))
IsChain-snoc link p new x (y ∷ ys) c d out ne =
    (c.0, c.1, rw same (IsChain-snoc link (link x) new y ys c.2 d.1 (ground arith) ne))
  where
    same : update (update link new null) (last_or y ys) new x ≡ link x
    same = ground (arith, has-last_or y ys)

pub last_or-append : (d x : Ptr) (xs ys : List Ptr) → last_or d (xs ++ x ∷ ys) ≡ last_or x ys
last_or-append d x [] ys = refl
last_or-append d x (y ∷ xs) ys = last_or-append y x xs ys

pub Distinct-snoc :
    (a : Ptr) (xs : List Ptr) → Distinct xs → has a xs ≡ false → Distinct (xs ++ a ∷ [])
Distinct-snoc a [] d out = (refl, tt)
Distinct-snoc a (x ∷ xs) d out =
    (ground (arith, has-append x xs (a ∷ [])), Distinct-snoc a xs d.1 (ground arith))

-- What leaves a list of distinct addresses is no longer in it, and the rest is distinct.
pub Distinct-remove :
    (a : Ptr) (xs ys : List Ptr)
    → Distinct (xs ++ a ∷ ys)
    → Distinct (xs ++ ys) × (has a (xs ++ ys) ≡ false)
Distinct-remove a [] ys d = (d.1, d.0)
Distinct-remove a (x ∷ xs) ys d =
    let rest = Distinct-remove a xs ys d.1 in
    (
      (ground (arith, has-append x xs (a ∷ ys), has-append x xs ys), rest.0),
      ground (arith, has-append x xs (a ∷ ys), rest.1),
    )

-- A chain with one record bridged over: its predecessor is linked to its successor.
pub IsChain-bridge :
    (link : Ptr → Ptr) (p a x : Ptr) (xs ys : List Ptr)
    → IsChain link p (x ∷ (xs ++ a ∷ ys))
    → Distinct (x ∷ (xs ++ a ∷ ys))
    → IsChain (update link (last_or x xs) (link a)) p (x ∷ (xs ++ ys))
unfolding update
IsChain-bridge link p a x [] ys c d =
    (c.0, c.1, rw same (IsChain-update link (link a) x (link a) ys (ground arith) c.2.2))
  where
    same : update link x (link a) x ≡ link a
    same = ground arith
IsChain-bridge link p a x (y ∷ xs) ys c d =
    (c.0, c.1, rw same (IsChain-bridge link (link x) a y xs ys c.2 d.1))
  where
    same : update link (last_or y xs) (link a) x ≡ link x
    same = ground (arith, has-last_or y xs, has-append x (y ∷ xs) (a ∷ ys))

-- Links that agree on the records of a chain lead through the same chain.
pub IsChain-frame :
    (link link' : Ptr → Ptr) (p : Ptr) (xs : List Ptr)
    → ((a : Ptr) → has a xs ≡ true → link' a ≡ link a)
    → IsChain link p xs
    → IsChain link' p xs
IsChain-frame link link' p [] same c = c
IsChain-frame link link' p (x ∷ xs) same c = (
  c.0,
  c.1,
  rw (same x (ground arith))
      (IsChain-frame link link' (link x) xs (λ a m. same a (ground arith)) c.2),
)
