-- ===== src/LogQueue/Invariant.antt =====
-- What holds of the queue's pointers between two operations, and that handing out a record keeps it.
use iptracking.Prelude.{
  ◌+◌, ◌≤◌, ◌≡◌, refl, ◌≢◌, true, false, List, [], ◌∷◌, ◌++◌, arith, ◌==◌, Bool-cases, inl, inr,
  sym, ap, subst, length, length-append,
}
use iptracking.Prelude.Words.{u32_max, add32-eq-add, sub32-eq-sub}
use iptracking.LogQueue.{LogQueue, taken}
use iptracking.LogQueue.Chain.{
  Ptr, null, update, has, Distinct, IsChain, last_or, has-append, IsChain-update, IsChain-snoc,
  Distinct-snoc, last_or-append, has-last_or,
}

-- `frees` and `useds` are the records of the two queues, in order.
pub record Holds (q : LogQueue) (frees useds : List Ptr) : Type 0 where
  pub free : IsChain q.link q.free_head frees
  pub used : IsChain q.link q.used_head useds
  pub tail : q.used_tail ≡ last_or null useds
  pub distinct_free : Distinct frees
  pub distinct_used : Distinct useds
  pub apart : (a : Ptr) → has a useds ≡ true → has a frees ≡ false
  pub n_free : q.n_rec_free ≡ length frees
  pub n_used : q.n_rec_used ≡ length useds
  pub within : length frees + length useds ≤ u32_max

pub not-has-null :
    (link : Ptr → Ptr) (p : Ptr) (xs : List Ptr) → IsChain link p xs → has null xs ≡ false
not-has-null link p [] c = refl
not-has-null link p (x ∷ xs) c = ground (arith, not-has-null link (link x) xs c.2)

pub last_or-ne-null :
    (link : Ptr → Ptr) (p x : Ptr) (xs : List Ptr) → IsChain link p (x ∷ xs) → last_or x xs ≢ null
last_or-ne-null link p x xs c = ground (arith, has-last_or x xs, not-has-null link p (x ∷ xs) c)

module _ (q : LogQueue) (f : Ptr) where
  taken_behind :
      (t : Ptr)
      → q.used_tail ≡ t
      → t ≢ null
      → ((taken q f).link ≡ update (update q.link f null) t f)
        × ((taken q f).used_head ≡ q.used_head)
  unfolding taken
  taken_behind t e ne =
      let some_tail : (q.used_tail == null) ≡ false = ground arith in
      (rw some_tail (ap (λ u. update (update q.link f null) u f) e), rw some_tail)

  -- Behind an empty queue, and behind a queue with a tail.
  taken-used :
      (useds : List Ptr)
      → IsChain q.link q.used_head useds
      → q.used_tail ≡ last_or null useds
      → Distinct useds
      → has f useds ≡ false
      → f ≢ null
      → IsChain (taken q f).link (taken q f).used_head (useds ++ f ∷ [])
  taken-used [] c t d out ne = unfold taken update in (ground arith)
  taken-used (x ∷ xs) c t d out ne =
      let behind = taken_behind (last_or x xs) t (last_or-ne-null q.link q.used_head x xs c) in
      subst (λ l. IsChain l (taken q f).used_head ((x ∷ xs) ++ f ∷ [])) (sym behind.0)
        (rw behind.1 (IsChain-snoc q.link q.used_head f x xs c d out ne))

-- A record that is handed out moves from the head of the free queue to the tail of the used one.
module _ (q : LogQueue) (f : Ptr) (frees useds : List Ptr) (h : Holds q (f ∷ frees) useds) where
  pub f-not-used : has f useds ≡ false
  f-not-used = ground (arith, h.apart f)

  taken-free : IsChain (taken q f).link (taken q f).free_head frees
  unfolding taken
  taken-free = elim (Bool-cases (q.used_tail == null)) [
    | inl empty ↦ rw empty unlinked
    | inr more ↦ rw more (
        IsChain-update _ _ q.used_tail f frees
          (tail-not-free useds h.tail (λ a m. h.apart a m) (ground arith)) unlinked)
  ]
    where
      unlinked : IsChain (update q.link f null) (q.link f) frees
      unlinked = IsChain-update q.link (q.link f) f null frees h.distinct_free.0 h.free.2

      tail-not-free :
          (us : List Ptr)
          → q.used_tail ≡ last_or null us
          → ((a : Ptr) → has a us ≡ true → has a (f ∷ frees) ≡ false)
          → q.used_tail ≢ null
          → has q.used_tail frees ≡ false
      tail-not-free [] t apart ne = absurd (ne t)
      tail-not-free (x ∷ xs) t apart ne = ground (arith, apart q.used_tail, has-last_or x xs)

  pub taken-Holds : Holds (taken q f) frees (useds ++ f ∷ [])
  unfolding taken
  taken-Holds =
      let used = taken-used q f useds h.used h.tail h.distinct_used f-not-used h.free.1 in
      record {
        free = taken-free;
        used = used;
        tail = sym (last_or-append null f useds []);
        distinct_free = h.distinct_free.1;
        distinct_used = Distinct-snoc f useds h.distinct_used f-not-used;
        apart = λ a m. ground (arith, h.apart a, has-append a useds (f ∷ []));
        n_free = omega (arith, h.n_free, h.within, sub32-eq-sub q.n_rec_free 1);
        n_used =
            omega (
              arith,
              h.n_used,
              h.within,
              length-append useds (f ∷ []),
              add32-eq-add q.n_rec_used 1,
            );
        within = omega (arith, h.within, length-append useds (f ∷ []));
      }
