-- ===== src/LogQueue/Limits.antt =====
-- When `log_queue_push` waits, and what it does under parameters that no queue can work with.
use iptracking.Prelude.{
  ℕ, zero, suc, ◌≤◌, ◌<◌, ◌≡◌, refl, ◌↔◌, true, some, List, [], ◌∷◌, arith, sym, subst, ◌∙◌, length,
  ◌≢◌, ap,
}
use iptracking.Prelude.Words.{u32_max, add32, add32-eq-add, sub32-eq-sub}
use iptracking.LogData.{LogData}
use iptracking.LogQueue.{
  LogQueue, Params, Memory, fault, crashed, must_wait, create, try_push, alloc_record, add_pool,
  with_pool, link_pool, take_free, grow_by,
}
use iptracking.LogQueue.Chain.{null}
use iptracking.LogQueue.Capacity.{capacity, IsSound, grow_by_full}
use iptracking.LogQueue.View.{Represents, IsFresh, PushSpec, length-map-datum}
use iptracking.LogQueue.Push.{try_push-PushSpec, try_push_full}

module _ (blank : LogData) (q : LogQueue) (d : LogData) (m : Memory) (ds : List LogData) where
  try_push_at_capacity :
      Represents q ds
      → IsSound q.params
      → length ds ≡ capacity q.params
      → try_push blank q d m ≡ must_wait
  try_push_at_capacity (f ∷ frees, useds, h, w, e) s full =
      absurd (omega (arith, w.records, sym (length-map-datum q.datum useds) ∙ ap length e ∙ full))
  try_push_at_capacity ([], useds, h, w, e) s full =
      let filled : length useds ≡ capacity q.params =
        sym (length-map-datum q.datum useds) ∙ ap length e ∙ full in
      let some_room : 0 < capacity q.params = ground (arith, s.min_pos, s.ordered) in
      try_push_full blank q d m (ground (arith, h.n_free)) (
        grow_by_full q useds h w s (λ z. absurd (omega (arith, w.no_pool z, filled, some_room)))
          filled)

  -- On a queue that holds the events `ds`, with sound parameters and memory that is in no queue: a
  -- round of a push has to wait exactly when there are as many events as the parameters allow.
  pub try_push_waits_iff :
      Represents q ds
      → IsSound q.params
      → IsFresh q m
      → (try_push blank q d m ≡ must_wait) ↔ (length ds ≡ capacity q.params)
  try_push_waits_iff rep s fresh = (
    λ e. subst (PushSpec q ds d m) e (try_push-PushSpec blank q d m ds rep s fresh),
    try_push_at_capacity rep s,
  )

empty_pool :
    (blank : LogData) (q : LogQueue) (n p : ℕ)
    → n ≡ 0
    → q.free_head ≡ null
    → take_free (with_pool blank q n p) ≡ fault
unfolding with_pool link_pool take_free
empty_pool blank q zero p e none_free = ground arith
empty_pool blank q (suc n) p e none_free = absurd (omega arith)

module _ (blank : LogData) (d : LogData) (m : Memory) (memory : m.pool ≢ null)
    (grown : m.grown ≡ true) where
  try_push_crashed :
      (q : LogQueue) (n : ℕ)
      → q.n_rec_free ≡ 0
      → grow_by q ≡ some n
      → take_free (with_pool blank q n m.pool) ≡ fault
      → try_push blank q d m ≡ crashed
  unfolding try_push alloc_record add_pool
  try_push_crashed q n none_free grows empty = ground arith

  -- With `records.min` zero, where memory is to be had, the first push reads through the NULL head
  -- of an empty pool.
  pub min_zero_crashes :
      (params : Params) → params.min ≡ 0 → try_push blank (create blank params) d m ≡ crashed
  min_zero_crashes params z =
      try_push_crashed (create blank params) params.min (unfold create in refl)
        (unfold create grow_by in refl)
        (empty_pool blank (create blank params) params.min m.pool z (unfold create in refl))

  -- With `records.delta` zero so does the first push that finds every record in use, below the limit.
  pub delta_zero_crashes :
      (q : LogQueue) (ds : List LogData)
      → Represents q ds
      → q.n_rec_free ≡ 0
      → q.n_rec_pools ≢ 0
      → q.params.delta ≡ 0
      → q.params.max ≤ u32_max
      → length ds < capacity q.params
      → try_push blank q d m ≡ crashed
  delta_zero_crashes q ds (f ∷ frees, useds, h, w, e) none_free pools z fits room =
      absurd (omega (arith, h.n_free))
  delta_zero_crashes q ds ([], useds, h, w, e) none_free pools z fits room =
      try_push_crashed q 0 none_free grows (empty_pool blank q 0 m.pool refl h.free)
    where
      used : length useds ≡ length ds
      used = sym (length-map-datum q.datum useds) ∙ ap length e

      grows : grow_by q ≡ some 0
      grows =
          unfold grow_by in
          ground (
            arith,
            h.n_used,
            used,
            h.within,
            add32-eq-add q.n_rec_free q.n_rec_used,
            sub32-eq-sub u32_max (add32 q.n_rec_free q.n_rec_used),
            sub32-eq-sub q.params.max (add32 q.n_rec_free q.n_rec_used),
          )
