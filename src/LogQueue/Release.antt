-- ===== src/LogQueue/Release.antt =====
-- `__log_queue_dealloc_record`: a record goes back to the free queue from wherever it stands.
use iptracking.Prelude.{
  ℕ, zero, suc, ◌<◌, ◌≡◌, refl, true, false, List, [], ◌∷◌, ◌++◌, arith, ◌==◌, sym, subst, length,
  length-append, some, append-nil, ◌≢◌,
}
use iptracking.Prelude.Words.{add32-eq-add, sub32-eq-sub}
use iptracking.LogQueue.{LogQueue, find_used, unlink, dealloc_record}
use iptracking.LogQueue.Chain.{
  Ptr, null, update, has, Distinct, IsChain, last_or, has-append, IsChain-update, IsChain-frame,
  IsChain-bridge, Distinct-remove, last_or-append, has-last_or,
}
use iptracking.LogQueue.Invariant.{Holds, not-has-null}

find_used-found :
    (fuel : ℕ) (link : Ptr → Ptr) (old last cur : Ptr) (xs ys : List Ptr)
    → IsChain link cur (xs ++ old ∷ ys)
    → has old xs ≡ false
    → length xs < fuel
    → find_used fuel link old last cur ≡ some (last_or last xs, old)
unfolding find_used
find_used-found zero link old last cur xs ys c out h = absurd (omega arith)
find_used-found (suc fuel) link old last cur [] ys c out h = ground arith
find_used-found (suc fuel) link old last cur (x ∷ xs) ys c out h = ground (
  arith,
  find_used-found fuel link old x (link x) xs ys c.2 (ground arith) (omega arith),
  c.0,
  c.1,
)

has_middle : (a : Ptr) (xs ys : List Ptr) → has a (xs ++ a ∷ ys) ≡ true
has_middle a [] ys = ground arith
has_middle a (x ∷ xs) ys = ground (arith, has_middle a xs ys)

-- The links after `unlink`, where the record has a predecessor.
module _ (q : LogQueue) (a : Ptr) where
  unlink_behind :
      (last : Ptr)
      → last ≢ null
      → (unlink q last a).link ≡ update (update q.link last (q.link a)) a q.free_head
  unfolding unlink
  unlink_behind last ne = let there : (last == null) ≡ false = ground arith in rw there

  unlink-used :
      (xs ys : List Ptr)
      → IsChain q.link q.used_head (xs ++ a ∷ ys)
      → Distinct (xs ++ a ∷ ys)
      → IsChain
          (unlink q (last_or null xs) a).link
          (unlink q (last_or null xs) a).used_head
          (xs ++ ys)
  unlink-used [] ys c d =
      unfold unlink in
      (let first : (a == q.used_head) ≡ true = ground arith in
        rw first (IsChain-update q.link (q.link a) a q.free_head ys d.0 c.2))
  unlink-used (x ∷ xs) ys c d =
      subst (λ l. IsChain l (unlink q (last_or x xs) a).used_head (x ∷ (xs ++ ys)))
        (sym (unlink_behind (last_or x xs) ne))
        (rw same_head (
          IsChain-update _ q.used_head a q.free_head (x ∷ (xs ++ ys)) removed.1
            (IsChain-bridge q.link q.used_head a x xs ys c d)))
    where
      removed : Distinct (x ∷ (xs ++ ys)) × (has a (x ∷ (xs ++ ys)) ≡ false)
      removed = Distinct-remove a (x ∷ xs) ys d

      ne : last_or x xs ≢ null
      ne = ground (
        arith,
        not-has-null q.link q.used_head (x ∷ (xs ++ a ∷ ys)) c,
        has-last_or x xs,
        has-append null (x ∷ xs) (a ∷ ys),
      )

      same_head : (unlink q (last_or x xs) a).used_head ≡ q.used_head
      same_head = unfold unlink in ground (arith, has_middle a xs ys)

  unlink-tail :
      (xs ys : List Ptr)
      → q.used_tail ≡ last_or null (xs ++ a ∷ ys)
      → Distinct (xs ++ a ∷ ys)
      → (unlink q (last_or null xs) a).used_tail ≡ last_or null (xs ++ ys)
  unfolding unlink
  unlink-tail xs [] t d = ground (arith, last_or-append null a xs [], append-nil xs)
  unlink-tail xs (y ∷ ys) t d = ground (
    arith,
    last_or-append null a xs (y ∷ ys),
    last_or-append null y xs ys,
    has-last_or y ys,
    Distinct-remove a xs (y ∷ ys) d,
    has-append a xs (y ∷ ys),
  )

  -- The links of the records away from the used queue stay.
  unlink-other :
      (xs ys : List Ptr) (b : Ptr)
      → has b (xs ++ a ∷ ys) ≡ false
      → (unlink q (last_or null xs) a).link b ≡ q.link b
  unfolding unlink update
  unlink-other [] ys b out = ground arith
  unlink-other (x ∷ xs) ys b out =
      ground (arith, has-last_or x xs, has-append b (x ∷ xs) (a ∷ ys), has_middle a (x ∷ xs) ys)

  unlink_first : (last : Ptr) → (unlink q last a).link a ≡ q.free_head
  unfolding unlink update
  unlink_first last = ground arith

-- The record `a` of the used queue becomes the head of the free one, and the others keep their order.
module _ (q : LogQueue) (frees xs : List Ptr) (a : Ptr) (ys : List Ptr)
    (h : Holds q frees (xs ++ a ∷ ys)) where
  a-not-free : has a frees ≡ false
  a-not-free = h.apart a (has_middle a xs ys)

  a-ne-null : a ≢ null
  a-ne-null =
      ground (arith, not-has-null q.link q.used_head (xs ++ a ∷ ys) h.used, has_middle a xs ys)

  unlink-free : IsChain (unlink q (last_or null xs) a).link a (a ∷ frees)
  unlink-free = (
    refl,
    a-ne-null,
    rw (unlink_first q a (last_or null xs)) (
        IsChain-frame q.link _ q.free_head frees
          (λ b m. unlink-other q a xs ys b (ground (arith, h.apart b))) h.free),
  )

  pub unlink-Holds : Holds (unlink q (last_or null xs) a) (a ∷ frees) (xs ++ ys)
  unfolding unlink
  unlink-Holds =
      let removed = Distinct-remove a xs ys h.distinct_used in
      let lengths = length-append xs (a ∷ ys) in
      let lengths' = length-append xs ys in
      record {
        free = unlink-free;
        used = unlink-used q a xs ys h.used h.distinct_used;
        tail = unlink-tail q a xs ys h.tail h.distinct_used;
        distinct_free = (a-not-free, h.distinct_free);
        distinct_used = removed.0;
        apart = λ b m.
            ground (arith, h.apart b, removed.1, has-append b xs ys, has-append b xs (a ∷ ys));
        n_free = omega (arith, h.n_free, h.within, lengths, add32-eq-add q.n_rec_free 1);
        n_used = omega (arith, h.n_used, h.within, lengths, lengths', sub32-eq-sub q.n_rec_used 1);
        within = omega (arith, h.within, lengths, lengths');
      }

  -- `__log_queue_dealloc_record` finds the record, in the fuel of one round for each used record.
  pub dealloc_record-unlink : dealloc_record q a ≡ some (unlink q (last_or null xs) a)
  unfolding dealloc_record
  dealloc_record-unlink =
      let found =
        find_used-found (suc q.n_rec_used) q.link a null q.used_head xs ys h.used
          (ground (arith, Distinct-remove a xs ys h.distinct_used, has-append a xs ys))
          (omega (arith, h.n_used, length-append xs (a ∷ ys))) in
      rw (found, dealloc_record) (ground (arith, a-ne-null))
