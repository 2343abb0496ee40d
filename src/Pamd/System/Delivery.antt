-- ===== src/Pamd/System/Delivery.antt =====
-- What becomes of the events in a run of the two threads: they are taken, kept in order, and handed to the
-- database; and what `main` frees behind it.
use iptracking.Prelude.{
  ℕ, length, ◌≡◌, refl, ◌≢◌, true, Option, none, some, List, [], ◌++◌, sym, ap, subst, ◌∙◌, reverse,
  inl, inr, ◌<◌, arith,
}
use iptracking.LogData.{LogData, log_data_is_valid}
use iptracking.LogQueue.{
  LogQueue, Params, Memory, Pushing, crashed, must_wait, refused, pushed, try_push,
}
use iptracking.LogQueue.Chain.{null}
use iptracking.LogQueue.Capacity.{IsSound, capacity}
use iptracking.LogQueue.View.{Represents, IsFresh, PushSpec, Represents-length}
use iptracking.LogQueue.Push.{try_push-PushSpec}
use iptracking.LogQueue.Backoff.{done}
use iptracking.LogQueue.Backoff.Wait.{one_round}
use iptracking.LogQueue.History.{Reach-IsFifo}
use iptracking.LogQueue.Destroy.{pools_of, Reach-destroys}
use iptracking.Db.{Db, db_dealloc}
use iptracking.Pamd.{record_read, on_connection}
use iptracking.Pamd.Flow.{db_rounds, handed_over, db_rounds-logged}
use iptracking.Pamd.Main.{finish}
use iptracking.Pamd.Options.{Timing}
use iptracking.Pamd.System.{
  System, Runs, AreValid, Runs-IsHistory, handed_over-append, stored-IsTaken,
}

-- In every order of the steps of the event thread and the database thread, from a new queue with sound
-- parameters, where the allocator's memory is in no queue, and whatever clients send: the events that
-- were taken are valid, they are some events followed by those that the queue still holds, and the database
-- is as if exactly these first ones had been handed to `db_log_one_event` one after another, each once,
-- whatever it answered.
pub Runs-delivers :
    {S : Type 0} (blank : LogData) (params : Params) (db : Option (Db S)) (s : System S)
    → IsSound params
    → Runs blank params db s
    → (outs ds : List LogData) × Represents s.queue ds
      × (s.taken_in ≡ outs ++ ds)
      × AreValid s.taken_in
      × (s.db ≡ handed_over db outs)
Runs-delivers blank params db s sound runs =
    let (outs, reach, same, valid) = Runs-IsHistory blank params db runs in
    let (ds, rep, kept, fifo) = Reach-IsFifo blank params sound reach in
    (outs, ds, rep, fifo, valid, same)

stores :
    (q : LogQueue) (ds : List LogData) (d : LogData) (m : Memory) (x : Pushing)
    → PushSpec q ds d m x
    → length ds < capacity q.params
    → m.pool ≢ null
    → m.grown ≡ true
    → (q' : LogQueue) × (x ≡ pushed q')
stores q ds d m crashed spec room pool grown = absurd spec
stores q ds d m must_wait spec room pool grown = absurd (omega (arith, spec, room))
stores q ds d m refused (inl e) room pool grown = absurd (pool e)
stores q ds d m refused (inr e) room pool grown = cc
stores q ds d m (pushed q') spec room pool grown = (q', refl)

-- In every such state, where fewer records are used than the parameters allow and there is memory: a valid
-- record is taken.
pub Runs-takes :
    {S : Type 0} (blank : LogData) (params : Params) (db : Option (Db S)) (s : System S)
    (d : LogData) (m : Memory)
    → IsSound params
    → Runs blank params db s
    → log_data_is_valid (some d) ≡ true
    → IsFresh s.queue m
    → s.queue.n_rec_used < capacity params
    → m.pool ≢ null
    → m.grown ≡ true
    → (q' : LogQueue) × (on_connection blank (one_round m) (record_read d) s.queue ≡ done true q')
Runs-takes blank params db s d m sound runs valid fresh room pool grown =
    let (outs, reach, same, all) = Runs-IsHistory blank params db runs in
    let (ds, rep, kept, fifo) = Reach-IsFifo blank params sound reach in
    let fits : length ds < capacity s.queue.params =
      subst (λ p. length ds < capacity p) (sym kept)
        (subst (λ n. n < capacity params) (Represents-length s.queue ds rep) room) in
    let (q', stored) =
      stores s.queue ds d m (try_push blank s.queue d m)
        (try_push-PushSpec blank s.queue d m ds rep (subst IsSound (sym kept) sound) fresh) fits
        pool grown in
    (q', stored-IsTaken blank d m s.queue q' valid stored)

-- In every order of the steps of the two threads, from a new queue with sound parameters, where the
-- allocator's memory is in no queue, and whatever would happen to the queue in a wait of
-- `log_queue_pop`: there is a number of further rounds of `db_runloop` that leave the queue empty and
-- the database as if every event that was ever taken had been handed to `db_log_one_event`, in order and
-- each once, whatever it answered.
pub Runs-drains :
    {S : Type 0} (blank : LogData) (params : Params) (db : Option (Db S)) (s : System S)
    (meanwhile : LogQueue → LogQueue)
    → IsSound params
    → Runs blank params db s
    → (n : ℕ) × (q' : LogQueue) × (db_rounds n meanwhile s.queue s.db
        ≡ some (q', handed_over db s.taken_in))
      × Represents q' []
Runs-drains blank params db s meanwhile sound runs =
    let (outs, ds, rep, all, valid, so_far) = Runs-delivers blank params db s sound runs in
    let (q', rounds, empty) = db_rounds-logged meanwhile s.queue s.db ds rep in
    let whole : handed_over s.db ds ≡ handed_over db s.taken_in =
      ap (λ x. handed_over x ds) so_far
      ∙ handed_over-append db outs ds
      ∙ ap (handed_over db) (sym all) in
    (length ds, q', rounds ∙ ap (λ x. some (q', x)) whole, empty)

-- Behind a run of the threads with sound parameters: `main` frees the database as the run left it, exactly
-- the pools that the pushes of the run were given, and leaves no queue behind the reference.
pub Runs-finish :
    {S : Type 0} (blank : LogData) (params : Params) (db : Option (Db S)) (s : System S)
    (timing : Timing)
    → IsSound params
    → (runs : Runs blank params db s)
    → finish (record { queue = some s.queue; db = s.db; timing = timing })
      ≡ some (db_dealloc s.db, reverse (pools_of (Runs-IsHistory blank params db runs).1), none)
unfolding finish
Runs-finish blank params db s timing sound runs =
    rw (Reach-destroys blank params sound (Runs-IsHistory blank params db runs).1) refl
