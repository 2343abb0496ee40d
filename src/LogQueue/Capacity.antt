-- ===== src/LogQueue/Capacity.antt =====
-- The bounds on the number of records, and a pool of the size that `__log_queue_alloc_record` chooses.
use iptracking.Prelude.{
  ℕ, ◌+◌, ◌≤◌, ◌<◌, ◌≡◌, none, some, List, [], ◌∷◌, ◌++◌, map, arith, ◌==◌, ◌∙◌, length, ◌≢◌,
  if◌then◌else◌,
}
use iptracking.Prelude.Words.{u32_max, add32, add32-eq-add, sub32-eq-sub}
use iptracking.LogData.{LogData}
use iptracking.LogQueue.{LogQueue, Params, zeroed, with_pool, grow_by}
use iptracking.LogQueue.Chain.{Ptr, null, IsChain-frame}
use iptracking.LogQueue.Invariant.{Holds}
use iptracking.LogQueue.Grow.{
  threaded, length-threaded, has-threaded-Outside, Distinct-threaded, link_pool-free,
  link_pool-link, link_pool-Untouched, Untouched, Outside, Fresh, map-zeroed,
}

-- The most records that the parameters allow.
abbrev pub capacity : Params → ℕ
capacity p = if p.max == 0 then u32_max else p.max

-- Parameters that a queue can work with: `config_validate` of pamd checks `ordered` alone.
pub record IsSound (p : Params) : Type 0 where
  pub min_pos : 0 < p.min
  pub delta_pos : 0 < p.delta
  pub min_fits : p.min ≤ u32_max
  pub max_fits : p.max ≤ u32_max
  pub ordered : p.max ≢ 0 → p.min ≤ p.max

pub record IsWithin (q : LogQueue) (frees useds : List Ptr) : Type 0 where
  pub records : length frees + length useds ≤ capacity q.params
  pub pools : q.n_rec_pools ≤ length frees + length useds
  pub no_pool : q.n_rec_pools ≡ 0 → length frees + length useds ≡ 0

-- The next pool has at least one record and stays below the capacity; there is no next pool exactly
-- when the records in use reach it.
module _ (q : LogQueue) (useds : List Ptr) (h : Holds q [] useds) (w : IsWithin q [] useds)
    (s : IsSound q.params) where
  pub grow_by-some : {n : ℕ} → grow_by q ≡ some n → (0 < n) × (n + length useds ≤ capacity q.params)
  unfolding grow_by
  grow_by-some e = ground (
    arith,
    h.n_free,
    h.n_used,
    w.records,
    w.no_pool,
    s.min_pos,
    s.delta_pos,
    s.ordered,
    add32-eq-add q.n_rec_free q.n_rec_used,
    sub32-eq-sub u32_max (add32 q.n_rec_free q.n_rec_used),
    sub32-eq-sub q.params.max (add32 q.n_rec_free q.n_rec_used),
  )

  pub grow_by-none : grow_by q ≡ none → length useds ≡ capacity q.params
  unfolding grow_by
  grow_by-none e = ground (
    arith,
    h.n_free,
    h.n_used,
    w.records,
    h.within,
    s.max_fits,
    add32-eq-add q.n_rec_free q.n_rec_used,
    sub32-eq-sub u32_max (add32 q.n_rec_free q.n_rec_used),
    sub32-eq-sub q.params.max (add32 q.n_rec_free q.n_rec_used),
  )

  pub grow_by_full : q.n_rec_pools ≢ 0 → length useds ≡ capacity q.params → grow_by q ≡ none
  unfolding grow_by
  grow_by_full ne e = ground (
    arith,
    h.n_free,
    h.n_used,
    h.within,
    s.max_fits,
    add32-eq-add q.n_rec_free q.n_rec_used,
    sub32-eq-sub u32_max (add32 q.n_rec_free q.n_rec_used),
    sub32-eq-sub q.params.max (add32 q.n_rec_free q.n_rec_used),
  )

-- The invariant after a pool of `n` records at `p`.
module _ (blank : LogData) (q : LogQueue) (frees useds : List Ptr) (n : ℕ) (p : Ptr)
    (h : Holds q frees useds) (ne : p ≢ null) (fresh : Fresh frees useds n p)
    (room : n + (length frees + length useds) ≤ u32_max) where
  pub with_pool-Untouched :
      Untouched
        (record q {
          rec_pools = q.rec_pools ++ p ∷ [];
          n_rec_pools = add32 q.n_rec_pools 1;
          n_rec_free = add32 q.n_rec_free n;
          datum = zeroed blank p n q.datum;
        })
        (with_pool blank q n p)
  unfolding with_pool
  with_pool-Untouched = link_pool-Untouched n p _

  with_pool-link : (a : Ptr) → Outside p n a → (with_pool blank q n p).link a ≡ q.link a
  unfolding with_pool
  with_pool-link a o = link_pool-link n p _ a o

  pub with_pool-Holds : Holds (with_pool blank q n p) (threaded n p frees) useds
  with_pool-Holds =
      let same = with_pool-Untouched in
      let lengths = length-threaded n p frees in
      record {
        free = unfold with_pool in link_pool-free n p _ frees ne h.free fresh.free_outside;
        used = rw same.used_head (
            IsChain-frame q.link _ q.used_head useds
              (λ a m. with_pool-link a (fresh.used_outside a m)) h.used);
        tail = same.used_tail ∙ h.tail;
        distinct_free = Distinct-threaded n p frees h.distinct_free fresh.free_outside;
        distinct_used = h.distinct_used;
        apart = λ a m. has-threaded-Outside n p frees a (fresh.used_outside a m) ∙ h.apart a m;
        n_free = omega (arith, same.n_rec_free, h.n_free, lengths, add32-eq-add q.n_rec_free n);
        n_used = same.n_rec_used ∙ h.n_used;
        within = omega (arith, lengths);
      }

  pub with_pool-datum : map (with_pool blank q n p).datum useds ≡ map q.datum useds
  with_pool-datum =
      rw with_pool-Untouched.datum (map-zeroed blank p n q.datum useds fresh.used_outside)
