-- ===== src/LogQueue/Pop.antt =====
-- `log_queue_pop` after its wait: the oldest event leaves the queue.
use iptracking.Prelude.{
  ◌≡◌, refl, none, some, List, [], ◌∷◌, map, arith, ◌==◌, if◌then◌else◌, true, Bool-cases, inl, inr,
  ◌≢◌, ap, subst, ◌∙◌,
}
use iptracking.LogData.{LogData}
use iptracking.LogQueue.{LogQueue, unlink, take_head, pop}
use iptracking.LogQueue.Chain.{Ptr, null}
use iptracking.LogQueue.Invariant.{Holds}
use iptracking.LogQueue.Capacity.{IsWithin}
use iptracking.LogQueue.Release.{unlink-Holds, dealloc_record-unlink}
use iptracking.LogQueue.View.{Represents}

-- The record at the head goes back to the pool.
unlink_head-Represents :
    (q : LogQueue) (frees : List Ptr) (a : Ptr) (useds : List Ptr)
    → Holds q frees (a ∷ useds)
    → IsWithin q frees (a ∷ useds)
    → Represents (unlink q null a) (map q.datum useds)
unlink_head-Represents q frees a useds h w =
    (a ∷ frees, useds, unlink-Holds q frees [] a useds h, within, unfold unlink in refl)
  where
    within : IsWithin (unlink q null a) (a ∷ frees) useds
    within =
        unfold unlink in
        record {
          records = omega (arith, w.records);
          pools = omega (arith, w.pools);
          no_pool = λ e. absurd (omega (arith, w.no_pool e));
        }

take_head_lem :
    (q : LogQueue) (frees : List Ptr) (a : Ptr) (useds : List Ptr)
    → Holds q frees (a ∷ useds)
    → take_head q ≡ some (some (q.datum a), unlink q null a)
unfolding take_head
take_head_lem q frees a useds h =
    rw h.used.0 (ground (arith, h.used.1, dealloc_record-unlink q frees [] a useds h))

-- `log_queue_pop` hands out the oldest event and leaves the others; there is always fuel enough.
pub take_head-cons :
    (q : LogQueue) (d : LogData) (ds : List LogData)
    → Represents q (d ∷ ds)
    → (q' : LogQueue) × (take_head q ≡ some (some d, q'))
      × Represents q' ds
      × (q'.params ≡ q.params)
take_head-cons q d ds (frees, [], h, w, e) = cc
take_head-cons q d ds (frees, a ∷ useds, h, w, e) =
    let same_head : q.datum a ≡ d = cc in
    let same_tail : map q.datum useds ≡ ds = cc in
    (
      unlink q null a,
      take_head_lem q frees a useds h ∙ ap (λ x. some (some x, unlink q null a)) same_head,
      subst (Represents (unlink q null a)) same_tail (unlink_head-Represents q frees a useds h w),
      unfold unlink in refl,
    )

-- An empty queue is left as it is.
pub take_head-nil : (q : LogQueue) → Represents q [] → take_head q ≡ some (none, q)
unfolding take_head
take_head-nil q (frees, [], h, w, e) = ground (arith, h.used)
take_head-nil q (frees, a ∷ useds, h, w, e) = cc

pub take_head_total : (q : LogQueue) (ds : List LogData) → Represents q ds → take_head q ≢ none
take_head_total q [] rep e = let kept = take_head-nil q rep in cc
take_head_total q (d ∷ ds) rep e = let (r, took, rest, same) = take_head-cons q d ds rep in cc

-- Where the others leave the queue as it is, so does the wait.
pub pop-unchanged : (q : LogQueue) → pop (λ q. q) q ≡ take_head q
unfolding pop
pop-unchanged q = elim (Bool-cases (q.used_head == null)) [
  | inl e ↦ ap take_head (rw e refl)
  | inr e ↦ ap take_head (rw e refl)
]

-- The head of a queue that holds an event is not NULL, so `log_queue_pop` does not wait.
pub pop-cons :
    (meanwhile : LogQueue → LogQueue) (q : LogQueue) (d : LogData) (ds : List LogData)
    → Represents q (d ∷ ds)
    → pop meanwhile q ≡ take_head q
unfolding pop
pop-cons meanwhile q d ds rep = elim (Bool-cases (q.used_head == null)) [
  | inl e ↦ let (q', took, rest, same) = take_head-cons q d ds rep in absurd (no_event q e took)
  | inr e ↦
      let same : (if q.used_head == null then meanwhile q else q) ≡ q = rw e refl in
      ap take_head same
]
  where
    no_head : (q : LogQueue) → (q.used_head == null) ≡ true → take_head q ≡ some (none, q)
    no_head q e = unfold take_head in rw e refl

    no_event :
        (q : LogQueue) {q' : LogQueue}
        → (q.used_head == null) ≡ true
        → take_head q ≢ some (some d, q')
    no_event q e took = let none_there = no_head q e in cc
