-- ===== src/LogQueue/Tests.antt =====
-- Runs of the queue.
use iptracking.Prelude.{
  ◌<◌, ◌≡◌, refl, ◌≢◌, ◌↔◌, true, none, some, reverse, List, [], ◌∷◌, arith, length, subst,
}
use iptracking.Prelude.Int.{pos}
use iptracking.LogData.{LogData}
use iptracking.LogQueue.{
  LogQueue, Params, Memory, Pushing, crashed, must_wait, refused, pushed, create, grow_by, try_push,
  alloc_record, add_pool, with_pool, link_pool, take_free, taken, append_used, destroy,
}
use iptracking.LogQueue.Chain.{null, update}
use iptracking.LogQueue.Capacity.{capacity, IsSound}
use iptracking.LogQueue.View.{Represents, IsFresh, PushSpec, create-Represents}
use iptracking.LogQueue.Push.{try_push-PushSpec}
use iptracking.LogQueue.Limits.{try_push_waits_iff}
use iptracking.LogQueue.History.{History, start, pushes, Reach, here, next, IsFifo, Reach-IsFifo}
use iptracking.LogQueue.Destroy.{pools_of, Reach-destroys}
use iptracking.LogQueue.Backoff.{Round, push_loop, first_wait}
use iptracking.LogQueue.Backoff.Wait.{AreFair, EndSpec, push_loop-EndSpec}

abbrev pub blank : LogData
blank = record {
  dst_ipaddr = [];
  src_ipaddr = [];
  src_port = 0;
  event = 0;
  sshd_pid = pos 0;
  uid = [];
  log_date = [];
}

abbrev pub event : LogData
event = record {
  dst_ipaddr = 49 ∷ 0 ∷ [];
  src_ipaddr = 50 ∷ 0 ∷ [];
  src_port = 5022;
  event = 1;
  sshd_pid = pos 317;
  uid = 97 ∷ 0 ∷ [];
  log_date = 50 ∷ 0 ∷ [];
}

abbrev pub small : Params
small = record {
  min = 2;
  max = 4;
  delta = 1;
  wait_min = pos 5;
  wait_max = pos 20;
  wait_delta = pos 5;
  grow_threshold = pos 2;
}

pub small-IsSound : IsSound small
small-IsSound = record {
  min_pos = omega arith;
  delta_pos = omega arith;
  min_fits = omega arith;
  max_fits = omega arith;
  ordered = λ limited. omega arith;
}

abbrev pub memory : Memory
memory = record { pool = 10; grown = true }

pub IsFresh-create : IsFresh (create blank small) memory
unfolding create
IsFresh-create n [] [] e h ne = record {
  free_outside = λ a m. ground arith;
  used_outside = λ a m. ground arith;
}
IsFresh-create n (x ∷ frees) useds e h ne = absurd (omega (arith, h.n_free))
IsFresh-create n [] (x ∷ useds) e h ne = absurd (omega (arith, h.n_used))

abbrev queue_of : Pushing → LogQueue
queue_of crashed = create blank small
queue_of must_wait = create blank small
queue_of refused = create blank small
queue_of (pushed q) = q

abbrev pub after_push : LogData → LogQueue
after_push d = queue_of (try_push blank (create blank small) d memory)

pub pushed_first :
    (d : LogData) → try_push blank (create blank small) d memory ≡ pushed (after_push d)
unfolding try_push alloc_record create grow_by add_pool with_pool link_pool take_free taken
    append_used update
pushed_first d = refl

abbrev pub after : LogQueue
after = after_push event

pub pushed_once : try_push blank (create blank small) event memory ≡ pushed after
pushed_once = pushed_first event

abbrev history : History
history = record { queue = after; taken_in = event ∷ []; given_out = [] }

history-Reach : Reach blank (start blank small) history
history-Reach = next here (pushes event memory after IsFresh-create pushed_once)

Reach-IsFifo_example : IsFifo small history
Reach-IsFifo_example = Reach-IsFifo blank small small-IsSound history-Reach

Reach-destroys_example : destroy (some after) ≡ some (reverse (pools_of history-Reach), none)
Reach-destroys_example = Reach-destroys blank small small-IsSound history-Reach

pub params-IsSound : IsSound (create blank small).params
unfolding create
params-IsSound = small-IsSound

try_push-PushSpec_example :
    PushSpec (create blank small) [] event memory (try_push blank (create blank small) event memory)
try_push-PushSpec_example =
    try_push-PushSpec blank (create blank small) event memory [] (create-Represents blank small)
      params-IsSound IsFresh-create

try_push_waits_iff_example :
    (try_push blank (create blank small) event memory ≡ must_wait)
    ↔ (length {A = LogData} [] ≡ capacity (create blank small).params)
try_push_waits_iff_example =
    try_push_waits_iff blank (create blank small) event memory [] (create-Represents blank small)
      params-IsSound IsFresh-create

pub room_at_first : (create blank small).n_rec_used < capacity small
unfolding create
room_at_first = omega arith

pub memory-not_null : memory.pool ≢ null
memory-not_null e = omega (arith, e)

abbrev pub rounds : List Round
rounds = record { memory = memory; others = λ q. q } ∷ []

pub rounds-AreFair : AreFair rounds (create blank small)
rounds-AreFair = (IsFresh-create, (λ ds rep. (ds, rep, refl)), tt)

push_loop-EndSpec_example :
    EndSpec event (push_loop blank event rounds (first_wait small) (create blank small))
push_loop-EndSpec_example =
    push_loop-EndSpec blank event rounds (first_wait small) (create blank small) [] rounds-AreFair
      (create-Represents blank small) params-IsSound

pub after-Represents : Represents after (event ∷ [])
after-Represents =
    (subst (PushSpec (create blank small) [] event memory) pushed_once (
      try_push-PushSpec blank (create blank small) event memory [] (create-Represents blank small)
        params-IsSound IsFresh-create)).0
