-- ===== src/LogQueue.antt =====
-- pam-daemon/log_queue.h and log_queue.c: the pool of event records, and the queue that runs through it.
-- A record is an address; `link` and `datum` are the memory behind the addresses. What the C library's
-- allocator answers is an argument.
pub mod Chain
pub mod Invariant
pub mod View
pub mod Push
pub mod Backoff
pub mod Tests
pub mod Limits
pub mod History
pub mod Pop
pub mod Capacity
pub mod Grow
pub mod Release
pub mod Destroy
use iptracking.Prelude.{
  ℕ, zero, suc, ◌+◌, ◌≡◌, Bool, true, false, ◌&&◌, ◌||◌, Option, none, some, List, [], ◌∷◌, ◌++◌,
  ltb, leb, ◌==◌, if◌then◌else◌, ◌>>=◌, get_elem?,
}
use iptracking.Prelude.Int.{ℤ}
use iptracking.Prelude.Words.{u32_max, add32, sub32}
use iptracking.LogData.{LogData}
use Chain.{Ptr, null, update}

-- `log_queue_params_t`.
pub record Params : Type 0 where
  pub min : ℕ
  pub max : ℕ
  pub delta : ℕ
  pub wait_min : ℤ
  pub wait_max : ℤ
  pub wait_delta : ℤ
  pub grow_threshold : ℤ

-- `struct log_queue`, and the records that its pointers lead to.
pub record LogQueue : Type 0 where
  pub params : Params
  pub n_rec_free : ℕ
  pub n_rec_used : ℕ
  pub free_head : Ptr
  pub used_head : Ptr
  pub used_tail : Ptr
  pub n_rec_pools : ℕ
  pub rec_pools : List Ptr
  pub link : Ptr → Ptr
  pub datum : Ptr → LogData

-- The allocator's answers: what `calloc` returned, and whether `realloc` succeeded.
pub record Memory : Type 0 where
  pub pool : Ptr
  pub grown : Bool

-- The loop that threads the records of a new pool onto the free queue.
pub link_pool : ℕ → Ptr → LogQueue → LogQueue
link_pool zero p q = q
link_pool (suc n) p q =
    link_pool n (suc p) (record q { link = update q.link p q.free_head; free_head = p })

-- `__log_record_create`: `calloc` gives records that are all zeros.
pub zeroed : LogData → Ptr → ℕ → (Ptr → LogData) → Ptr → LogData
zeroed blank p n datum a = if leb p a && ltb a (p + n) then blank else datum a

-- The queue with a new pool at `p`: the pool is recorded, counted, and threaded onto the free queue.
pub with_pool : LogData → LogQueue → ℕ → Ptr → LogQueue
with_pool blank q n p = link_pool n p (record q {
  rec_pools = q.rec_pools ++ p ∷ [];
  n_rec_pools = add32 q.n_rec_pools 1;
  n_rec_free = add32 q.n_rec_free n;
  datum = zeroed blank p n q.datum;
})

-- `__log_queue_add_pool`; `none` is its NULL.
pub add_pool : LogData → LogQueue → ℕ → Memory → Option LogQueue
add_pool blank q n m =
    if m.pool == null then none else if m.grown then some (with_pool blank q n m.pool) else none

-- The number of records of the next pool; `none` is the limit.
pub grow_by : LogQueue → Option ℕ
grow_by q =
    if q.n_rec_pools == 0
    then some q.params.min
    else (let n = add32 q.n_rec_free q.n_rec_used in
        let room = if q.params.max == 0 then sub32 u32_max n else sub32 q.params.max n in
        if room == 0 then none else some (if ltb q.params.delta room then q.params.delta else room))

-- What `__log_queue_alloc_record` comes to: it reads through a NULL `free_head`, it is at the limit,
-- an allocation failed, or it hands out a record.
pub data Alloc : Type 0 where
  fault : Alloc
  at_limit : Alloc
  failed : Alloc
  allocated : LogQueue → Ptr → Alloc

-- The new record goes behind the tail, or it is the whole queue.
pub append_used : LogQueue → Ptr → LogQueue
append_used q new = record q {
  link = if q.used_tail == null then q.link else update q.link q.used_tail new;
  used_head = if q.used_tail == null then new else q.used_head;
  used_tail = new;
}

-- The record at the head of the free queue moves to the tail of the used one.
pub taken : LogQueue → Ptr → LogQueue
unfolding append_used
taken q new =
    let moved =
      append_used
        (record q {
          free_head = q.link new;
          n_rec_free = sub32 q.n_rec_free 1;
          link = update q.link new null;
        })
        new in
    record moved { n_rec_used = add32 moved.n_rec_used 1 }

-- The second part of `__log_queue_alloc_record`.
pub take_free : LogQueue → Alloc
take_free q = if q.free_head == null then fault else allocated (taken q q.free_head) q.free_head

-- `__log_queue_alloc_record`.
pub alloc_record : LogData → LogQueue → Memory → Alloc
unfolding grow_by
alloc_record blank q m =
    if q.n_rec_free == 0
    then elim (grow_by q) [
      | none ↦ at_limit
      | some n ↦ elim (add_pool blank q n m) [ none ↦ failed | some grown ↦ take_free grown ]
    ]
    else take_free q

-- The search of `__log_queue_dealloc_record`: `last_rec` and `cur_rec` at its end, or `none` where the
-- fuel runs out.
pub find_used : ℕ → (Ptr → Ptr) → Ptr → Ptr → Ptr → Option (Ptr × Ptr)
find_used zero link old last cur = none
find_used (suc fuel) link old last cur =
    let rest = find_used fuel link old cur (link cur) in
    if (cur == null) || (cur == old) then some (last, cur) else rest

-- The record that was found leaves the used queue for the head of the free one.
pub unlink : LogQueue → Ptr → Ptr → LogQueue
unlink q last cur = record q {
  link = update relinked cur q.free_head;
  used_tail = if cur == q.used_tail then last else q.used_tail;
  used_head = if cur == q.used_head then relinked cur else q.used_head;
  free_head = cur;
  n_rec_free = add32 q.n_rec_free 1;
  n_rec_used = sub32 q.n_rec_used 1;
}
  where
    relinked : Ptr → Ptr
    relinked = if last == null then q.link else update q.link last (q.link cur)

-- `__log_queue_dealloc_record`; `none` where the fuel runs out.
pub dealloc_record : LogQueue → Ptr → Option LogQueue
unfolding find_used unlink
dealloc_record q old = elim (find_used (suc q.n_rec_used) q.link old null q.used_head) [
  | none ↦ none
  | some (last, cur) ↦ some (if cur == null then q else unlink q last cur)
]

-- `log_queue_create`.
pub create : LogData → Params → LogQueue
create blank params = record {
  params = params;
  n_rec_free = 0;
  n_rec_used = 0;
  free_head = null;
  used_head = null;
  used_tail = null;
  n_rec_pools = 0;
  rec_pools = [];
  link = λ _. null;
  datum = λ _. blank;
}

-- How the first part of `log_queue_push`, under the lock, ends.
pub data Pushing : Type 0 where
  crashed : Pushing
  must_wait : Pushing
  refused : Pushing
  pushed : LogQueue → Pushing

-- One round of the loop of `log_queue_push`, between taking the lock and giving it back.
pub try_push : LogData → LogQueue → LogData → Memory → Pushing
try_push blank q d m = elim (alloc_record blank q m) [
  | fault ↦ crashed
  | at_limit ↦ must_wait
  | failed ↦ refused
  | allocated q' new ↦ pushed (record q' { datum = update q'.datum new d })
]

-- The part of `log_queue_pop` after the wait: the datum at the head of the used queue, if any, and
-- the queue without it; `none` where the fuel runs out.
pub take_head : LogQueue → Option (Option LogData × LogQueue)
take_head q = if q.used_head == null then some (none, q) else elim (dealloc_record q q.used_head) [
  | none ↦ none
  | some q' ↦ some (some (q.datum q.used_head), q')
]

-- `log_queue_pop`. What the other threads do to the queue while this one waits, once, on the
-- condition variable is `meanwhile`.
pub pop : (LogQueue → LogQueue) → LogQueue → Option (Option LogData × LogQueue)
unfolding take_head
pop meanwhile q = take_head (if q.used_head == null then meanwhile q else q)

-- The loop of `log_queue_destroy` that frees the pools, the last one first: the addresses in the order
-- in which they are freed, or `none` where it reads behind the array.
pub free_pools : ℕ → List Ptr → Option (List Ptr)
free_pools zero pools = some []
free_pools (suc n) pools =
    let rest = free_pools n pools in get_elem? pools n >>= λ p. rest >>= λ ps. some (p ∷ ps)

-- `log_queue_destroy`: the pools that it frees, and what the reference is afterwards.
pub destroy : Option LogQueue → Option (List Ptr × Option LogQueue)
unfolding free_pools
destroy none = some ([], none)
destroy (some q) = free_pools q.n_rec_pools q.rec_pools >>= λ ps. some (ps, none)
