-- ===== src/LogQueue/Destroy.antt =====
-- `log_queue_destroy` at the end of a history, and the pools that the operations leave behind.
use iptracking.Prelude.{
  ℕ, zero, suc, ◌≤◌, ◌<◌, ◌≡◌, refl, inl, inr, true, Option, none, some, List, [], ◌∷◌, ◌++◌, arith,
  ◌==◌, sym, ap, subst, ◌∙◌, length, length-append, take, reverse, reverse-append, ◌>>=◌,
  if◌then◌else◌, Bool-cases, Option-cases, take-suc, take-length,
}
use iptracking.Prelude.Words.{u32_max, add32, add32-eq-add}
use iptracking.LogData.{LogData}
use iptracking.LogQueue.{
  LogQueue, Params, Memory, Alloc, fault, at_limit, failed, allocated, pushed, free_pools, destroy,
  link_pool, with_pool, add_pool, taken, take_free, alloc_record, grow_by, try_push, find_used,
  dealloc_record, unlink, take_head, create,
}
use iptracking.LogQueue.Chain.{Ptr, null}
use iptracking.LogQueue.Grow.{link_pool-Untouched}
use iptracking.LogQueue.Capacity.{IsSound}
use iptracking.LogQueue.View.{Represents, PushSpec, length-map-datum}
use iptracking.LogQueue.Push.{try_push-PushSpec}
use iptracking.LogQueue.History.{
  History, start, pushes, declines, pops, pops_none, Reach, here, next, Reach-IsFifo,
}

free_pools-take :
    (n : ℕ) (ps : List Ptr) → n ≤ length ps → free_pools n ps ≡ some (reverse (take n ps))
unfolding free_pools
free_pools-take zero ps l = refl
free_pools-take (suc n) ps l =
    let (p, at, e) = take-suc n ps l in
    rw (at, free_pools-take n ps (omega (arith, l)), e, reverse-append) refl

free_pools_all :
    (q : LogQueue) (ps : List Ptr)
    → q.rec_pools ≡ ps
    → q.n_rec_pools ≡ length ps
    → free_pools q.n_rec_pools q.rec_pools ≡ some (reverse ps)
free_pools_all q ps e n =
    ap (λ k. free_pools k q.rec_pools) n
    ∙ ap (free_pools (length ps)) e
    ∙ free_pools-take (length ps) ps (omega arith)
    ∙ ap (λ xs. some (reverse xs)) (take-length ps)

link_pool-pools : (n : ℕ) (p : Ptr) (q : LogQueue) → (link_pool n p q).rec_pools ≡ q.rec_pools
unfolding link_pool
link_pool-pools zero p q = refl
link_pool-pools (suc n) p q = link_pool-pools n (suc p) _

-- Handing out a record leaves the pools, and a round of a push adds at most one.
taken-pools :
    (q : LogQueue) (f : Ptr)
    → ((taken q f).rec_pools ≡ q.rec_pools) × ((taken q f).n_rec_pools ≡ q.n_rec_pools)
unfolding taken
taken-pools q f = (refl, refl)

take_free-pools :
    (q q' : LogQueue) (new : Ptr)
    → take_free q ≡ allocated q' new
    → (q'.rec_pools ≡ q.rec_pools) × (q'.n_rec_pools ≡ q.n_rec_pools)
unfolding take_free
take_free-pools q q' new e = ground (arith, taken-pools q q.free_head)

with_pool-pools :
    (blank : LogData) (q : LogQueue) (n : ℕ) (p : Ptr)
    → ((with_pool blank q n p).rec_pools ≡ q.rec_pools ++ p ∷ [])
      × ((with_pool blank q n p).n_rec_pools ≡ add32 q.n_rec_pools 1)
unfolding with_pool
with_pool-pools blank q n p = (link_pool-pools n p _, (link_pool-Untouched n p _).n_rec_pools)

abbrev pools_after : LogQueue → Memory → List Ptr → List Ptr
pools_after q m ps = if q.n_rec_free == 0 then ps ++ m.pool ∷ [] else ps

module _ (blank : LogData) (q : LogQueue) (d : LogData) (m : Memory) where
  alloc_record-pools :
      (q' : LogQueue) (new : Ptr)
      → alloc_record blank q m ≡ allocated q' new
      → (q'.rec_pools ≡ pools_after q m q.rec_pools)
        × (q'.n_rec_pools ≡ (if q.n_rec_free == 0 then add32 q.n_rec_pools 1 else q.n_rec_pools))
  unfolding alloc_record add_pool
  alloc_record-pools q' new e = elim (Bool-cases (q.n_rec_free == 0)) [
    | inr more ↦ ground (arith, take_free-pools q q' new)
    | inl none_free ↦ elim (Option-cases (grow_by q)) [
      | inl full ↦ ground arith
      | inr (n, grows) ↦ ground (
        arith,
        take_free-pools (with_pool blank q n m.pool) q' new,
        with_pool-pools blank q n m.pool,
      )
    ]
  ]

  try_push-pools :
      (q' : LogQueue)
      → try_push blank q d m ≡ pushed q'
      → (q'.rec_pools ≡ pools_after q m q.rec_pools)
        × (q'.n_rec_pools ≡ (if q.n_rec_free == 0 then add32 q.n_rec_pools 1 else q.n_rec_pools))
  unfolding try_push
  try_push-pools q' e = by_answer (alloc_record blank q m) refl
    where
      by_answer :
          (a : Alloc)
          → alloc_record blank q m ≡ a
          → (q'.rec_pools ≡ pools_after q m q.rec_pools)
            × (q'.n_rec_pools
                ≡ (if q.n_rec_free == 0 then add32 q.n_rec_pools 1 else q.n_rec_pools))
      by_answer fault a = ground arith
      by_answer at_limit a = ground arith
      by_answer failed a = ground arith
      by_answer (allocated r new) a = ground (arith, alloc_record-pools r new)

-- A queue that grew has fewer records than it can count, and so fewer pools.
below_max :
    (q q' : LogQueue) (d : LogData) (ds : List LogData)
    → Represents q ds
    → Represents q' (ds ++ d ∷ [])
    → (q.n_rec_free == 0) ≡ true
    → q.n_rec_pools < u32_max
below_max q q' d ds (frees, useds, h, w, e) (frees', useds', h', w', e') none_free =
    let no_free : q.n_rec_free ≡ 0 = ground arith in
    omega (
      arith,
      no_free,
      h.n_free,
      w.pools,
      h'.within,
      ap length e,
      ap length e',
      length-append ds (d ∷ []),
      length-map-datum q.datum useds,
      length-map-datum q'.datum useds',
    )

take_head-pools :
    (q q' : LogQueue) (x : Option LogData)
    → take_head q ≡ some (x, q')
    → (q'.rec_pools ≡ q.rec_pools) × (q'.n_rec_pools ≡ q.n_rec_pools)
unfolding take_head dealloc_record unlink
take_head-pools q q' x e = elim (Bool-cases (q.used_head == null)) [
  | inl empty ↦ ground arith
  | inr head ↦
      elim (Option-cases (find_used (suc q.n_rec_used) q.link q.used_head null q.used_head)) [
        | inl lost ↦ ground arith
        | inr ((last, cur), found) ↦ ground arith
      ]
]

-- The pools that the allocator gave to the pushes of a history, in order.
pub pools_of : {blank : LogData} {s h : History} → Reach blank s h → List Ptr
pools_of here = []
pools_of (next {h} before (pushes d m q' fresh e)) = pools_after h.queue m (pools_of before)
pools_of (next before declines) = pools_of before
pools_of (next before (pops d q' e)) = pools_of before
pools_of (next before (pops_none q' e)) = pools_of before

module _ (blank : LogData) (params : Params) (s : IsSound params) where
  Reach-pools :
      {h : History} (r : Reach blank (start blank params) h)
      → (h.queue.rec_pools ≡ pools_of r) × (h.queue.n_rec_pools ≡ length (pools_of r))
  unfolding pools_of
  Reach-pools here = unfold create in (refl, refl)
  Reach-pools (next {h} before (pushes d m q' fresh e)) =
      let (ds, rep, sound, fifo) = Reach-IsFifo blank params s before in
      let spec = try_push-PushSpec blank h.queue d m ds rep (subst IsSound (sym sound) s) fresh in
      let after = (subst (PushSpec h.queue ds d m) e spec).0 in
      let (same, count) = try_push-pools blank h.queue d m q' e in
      let (pools, n) = Reach-pools before in
      (
        same ∙ ap (pools_after h.queue m) pools,
        ground (
          arith,
          below_max h.queue q' d ds rep after,
          add32-eq-add h.queue.n_rec_pools 1,
          length-append (pools_of before) (m.pool ∷ []),
        ),
      )
  Reach-pools (next before declines) = Reach-pools before
  Reach-pools (next {h} before (pops d q' e)) =
      let (same, count) = take_head-pools h.queue q' (some d) e in
      let (pools, n) = Reach-pools before in (same ∙ pools, count ∙ n)
  Reach-pools (next {h} before (pops_none q' e)) =
      let (same, count) = take_head-pools h.queue q' none e in
      let (pools, n) = Reach-pools before in (same ∙ pools, count ∙ n)

  -- In every history from `log_queue_create` with sound parameters, where the allocator's memory is in
  -- no queue: `log_queue_destroy` frees exactly the pools that the allocator gave to the pushes of the
  -- history, the last one first, and leaves no queue behind the reference.
  pub Reach-destroys :
      {h : History} (r : Reach blank (start blank params) h)
      → destroy (some h.queue) ≡ some (reverse (pools_of r), none)
  unfolding destroy
  Reach-destroys {h} r =
      let (pools, n) = Reach-pools r in
      ap (λ x. x >>= λ ps. some (ps, none)) (free_pools_all h.queue (pools_of r) pools n)
