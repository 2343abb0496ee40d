-- ===== src/LogQueue/Push.antt =====
-- `log_queue_push` between taking the lock and giving it back: the event goes to the end.
use iptracking.Prelude.{
  ℕ, suc, ◌+◌, ◌≤◌, ◌<◌, ◌≡◌, refl, ◌⊎◌, inl, inr, true, false, none, some, List, [], ◌∷◌, ◌++◌,
  map, arith, ◌==◌, sym, ap, subst, ◌∙◌, length, length-append, Bool-cases, Option-cases, ◌≢◌,
}
use iptracking.Prelude.Words.{u32_max, add32-eq-add}
use iptracking.LogData.{LogData}
use iptracking.LogQueue.{
  LogQueue, Memory, allocated, Pushing, must_wait, refused, pushed, taken, take_free, add_pool,
  with_pool, grow_by, alloc_record, try_push,
}
use iptracking.LogQueue.Chain.{Ptr, null, update}
use iptracking.LogQueue.Invariant.{Holds, taken-Holds, f-not-used}
use iptracking.LogQueue.Capacity.{
  capacity, IsSound, IsWithin, grow_by-some, grow_by-none, with_pool-Holds, with_pool-Untouched,
  with_pool-datum,
}
use iptracking.LogQueue.Grow.{Fresh, threaded, length-threaded}
use iptracking.LogQueue.View.{
  Represents, IsFresh, PushSpec, Holds-datum, map-update, length-map-datum,
}

take_free-allocated :
    (q : LogQueue) (f : Ptr) (frees useds : List Ptr)
    → Holds q (f ∷ frees) useds
    → take_free q ≡ allocated (taken q f) f
unfolding take_free
take_free-allocated q f frees useds h = rw h.free.0 (ground (arith, h.free.1))

-- The event goes into a free record, behind the others.
place :
    (q : LogQueue) (f : Ptr) (frees useds : List Ptr) (d : LogData)
    → Holds q (f ∷ frees) useds
    → IsWithin q (f ∷ frees) useds
    → Represents
        (record (taken q f) { datum = update (taken q f).datum f d })
        (map q.datum useds ++ d ∷ [])
unfolding taken
place q f frees useds d h w = (
  frees,
  useds ++ f ∷ [],
  Holds-datum _ (taken-Holds q f frees useds h),
  within,
  map-update q.datum f d useds (f-not-used q f frees useds h),
)
  where
    lengths : length (useds ++ f ∷ []) ≡ suc (length useds)
    lengths = omega (arith, length-append useds (f ∷ []))

    within :
        IsWithin
          (record (taken q f) { datum = update (taken q f).datum f d })
          frees
          (useds ++ f ∷ [])
    within = record {
      records = omega (arith, w.records, lengths);
      pools = omega (arith, w.pools, lengths);
      no_pool = λ e. absurd (omega (arith, w.no_pool e));
    }

-- The queue after the pool, where it has grown.
module _ (blank : LogData) (q : LogQueue) (useds : List Ptr) (n : ℕ) (p : Ptr)
    (s : IsSound q.params) (h : Holds q [] useds) (w : IsWithin q [] useds)
    (grows : grow_by q ≡ some n) (ne : p ≢ null) (fresh : Fresh [] useds n p) where
  sizes : (0 < n) × (n + length useds ≤ capacity q.params)
  sizes = grow_by-some q useds h w s grows

  capacity-le : capacity q.params ≤ u32_max
  capacity-le = ground (arith, s.max_fits)

  grown-Holds : Holds (with_pool blank q n p) (threaded n p []) useds
  grown-Holds = with_pool-Holds blank q [] useds n p h ne fresh (omega (arith, sizes, capacity-le))

  grown-IsWithin : IsWithin (with_pool blank q n p) (threaded n p []) useds
  grown-IsWithin =
      let same =
        with_pool-Untouched blank q [] useds n p h ne fresh (omega (arith, sizes, capacity-le)) in
      let lengths = length-threaded n p [] in
      let pools = add32-eq-add q.n_rec_pools 1 in
      record {
        records = rw same.params (omega (arith, sizes, lengths));
        pools = omega (arith, sizes, lengths, same.n_rec_pools, w.pools, pools, capacity-le);
        no_pool = λ e. absurd (omega (arith, sizes, same.n_rec_pools, w.pools, pools, capacity-le));
      }

  place_grown :
      (d : LogData) (frees : List Ptr)
      → threaded n p [] ≡ frees
      → (q' : LogQueue) × (new : Ptr) × (take_free (with_pool blank q n p) ≡ allocated q' new)
        × Represents (record q' { datum = update q'.datum new d }) (map q.datum useds ++ d ∷ [])
        × (q'.params ≡ q.params)
  place_grown d [] e = absurd (omega (arith, ap length e, length-threaded n p [], sizes))
  place_grown d (f ∷ frees) e =
      let r = with_pool blank q n p in
      let room : n + (0 + length useds) ≤ u32_max = omega (arith, sizes, capacity-le) in
      let h' = subst (λ fs. Holds r fs useds) e grown-Holds in
      let w' = subst (λ fs. IsWithin r fs useds) e grown-IsWithin in
      (
        taken r f,
        f,
        take_free-allocated r f frees useds h',
        rw (← with_pool-datum blank q [] useds n p h ne fresh room) (place r f frees useds d h' w'),
        unfold taken in (with_pool-Untouched blank q [] useds n p h ne fresh room).params,
      )

module _ (blank : LogData) (q : LogQueue) (d : LogData) (m : Memory) where
  try_push_free :
      {q' : LogQueue} {new : Ptr}
      → (q.n_rec_free == 0) ≡ false
      → take_free q ≡ allocated q' new
      → try_push blank q d m ≡ pushed (record q' { datum = update q'.datum new d })
  unfolding try_push alloc_record
  try_push_free some_free took = ground arith

  pub try_push_full :
      (q.n_rec_free == 0) ≡ true → grow_by q ≡ none → try_push blank q d m ≡ must_wait
  unfolding try_push alloc_record
  try_push_full none_free full = ground arith

  try_push-refused :
      {n : ℕ}
      → (q.n_rec_free == 0) ≡ true
      → grow_by q ≡ some n
      → (m.pool ≡ null) ⊎ (m.grown ≡ false)
      → try_push blank q d m ≡ refused
  unfolding try_push alloc_record add_pool
  try_push-refused none_free grows no_memory = ground arith

  try_push_grown :
      {n : ℕ} {q' : LogQueue} {new : Ptr}
      → (q.n_rec_free == 0) ≡ true
      → grow_by q ≡ some n
      → m.pool ≢ null
      → m.grown ≡ true
      → take_free (with_pool blank q n m.pool) ≡ allocated q' new
      → try_push blank q d m ≡ pushed (record q' { datum = update q'.datum new d })
  unfolding try_push alloc_record add_pool
  try_push_grown none_free grows memory grown took = ground arith

  push_free :
      (f : Ptr) (frees useds : List Ptr)
      → Holds q (f ∷ frees) useds
      → IsWithin q (f ∷ frees) useds
      → PushSpec q (map q.datum useds) d m (try_push blank q d m)
  push_free f frees useds h w =
      subst (PushSpec q (map q.datum useds) d m)
        (sym (try_push_free (ground (arith, h.n_free)) (take_free-allocated q f frees useds h)))
        (place q f frees useds d h w, unfold taken in refl)

  push_grown :
      (useds : List Ptr) (n : ℕ)
      → Holds q [] useds
      → IsWithin q [] useds
      → IsSound q.params
      → grow_by q ≡ some n
      → m.pool ≢ null
      → m.grown ≡ true
      → Fresh [] useds n m.pool
      → PushSpec q (map q.datum useds) d m (try_push blank q d m)
  push_grown useds n h w s grows ne grown fresh =
      let (q', new, took, rep, same) =
        place_grown blank q useds n m.pool s h w grows ne fresh d _ refl in
      subst (PushSpec q (map q.datum useds) d m)
        (sym (try_push_grown (ground (arith, h.n_free)) grows ne grown took)) (rep, same)

  push_full :
      (useds : List Ptr)
      → Holds q [] useds
      → IsWithin q [] useds
      → IsSound q.params
      → IsFresh q m
      → PushSpec q (map q.datum useds) d m (try_push blank q d m)
  push_full useds h w s fresh =
      let none_free : (q.n_rec_free == 0) ≡ true = ground (arith, h.n_free) in
      let by = λ (r : Pushing) (e : try_push blank q d m ≡ r).
        subst (PushSpec q (map q.datum useds) d m) (sym e) in
      elim (Option-cases (grow_by q)) [
        | inl full ↦
            by must_wait (try_push_full none_free full)
              (length-map-datum q.datum useds ∙ grow_by-none q useds h w s full)
        | inr (n, grows) ↦ elim (Bool-cases (m.pool == null)) [
          | inl no_memory ↦
              let e : m.pool ≡ null = ground arith in
              by refused (try_push-refused none_free grows (inl e)) (inl e)
          | inr memory ↦ elim (Bool-cases m.grown) [
            | inr stuck ↦ by refused (try_push-refused none_free grows (inr stuck)) (inr stuck)
            | inl grown ↦
                let ne : m.pool ≢ null = ground arith in
                push_grown useds n h w s grows ne grown (fresh n [] useds grows h ne)
          ]
        ]
      ]

  -- One round of `log_queue_push` on a queue that holds the events `ds`, with sound parameters and
  -- memory that is in no queue: it appends the event and keeps the parameters, or has to wait and
  -- then the queue is at its capacity, or refuses and then an allocation has failed. It does not
  -- read through NULL.
  pub try_push-PushSpec :
      (ds : List LogData)
      → Represents q ds
      → IsSound q.params
      → IsFresh q m
      → PushSpec q ds d m (try_push blank q d m)
  try_push-PushSpec ds ([], useds, h, w, e) s fresh =
      subst (λ xs. PushSpec q xs d m (try_push blank q d m)) e (push_full useds h w s fresh)
  try_push-PushSpec ds (f ∷ frees, useds, h, w, e) s fresh =
      subst (λ xs. PushSpec q xs d m (try_push blank q d m)) e (push_free f frees useds h w)
