-- ===== src/Pamd/Shutdown.antt =====
-- How the PAM daemon ends: its three threads from the signal on (`shutdown_thread_entry`,
-- `handle_termination`, `db_runloop`, `event_thread_entry`, and the waits of `log_queue_pop`).
pub mod Invariant
use iptracking.Prelude.{ℕ, suc, ◌≡◌, ◌⊎◌, inl, inr, refl, Bool, true, false, arith}

-- The shutdown thread: before its wait, in it, woken with `is_running` cleared, or at its end.
pub data Shutdown : Type 0 where
  starting awaiting interrupting finished : Shutdown

-- The database thread: before the test of `is_running`, behind it, in the wait of `log_queue_pop`, or at
-- its end.
pub data DbThread : Type 0 where
  testing entering waiting closed : DbThread

-- The event thread: in its loops, or at its end.
pub data EventThread : Type 0 where
  reading ended : EventThread

-- `queued` is how many events the queue holds.
pub record Daemon : Type 0 where
  pub is_running : Bool
  pub queued : ℕ
  pub shutdown : Shutdown
  pub db_thread : DbThread
  pub event_thread : EventThread

abbrev pub at_first : Daemon
at_first = record {
  is_running = true;
  queued = 0;
  shutdown = starting;
  db_thread = testing;
  event_thread = reading;
}

-- A thread that waits for events goes on.
abbrev pub woken : DbThread → DbThread
woken testing = testing
woken entering = entering
woken waiting = entering
woken closed = closed

abbrev pub interrupted : DbThread → DbThread
interrupted testing = testing
interrupted entering = entering
interrupted waiting = testing
interrupted closed = closed

-- The steps of the threads, where no wait ends by itself. A signal is heard by a shutdown thread that
-- waits, and by no other.
pub data Step : Daemon → Daemon → Type 0 where
  awaits : (s : Daemon) → s.shutdown ≡ starting → Step s (record s { shutdown = awaiting })
  is_signalled :
      (s : Daemon)
      → s.shutdown ≡ awaiting
      → Step s (record s { shutdown = interrupting; is_running = false })
  interrupts :
      (s : Daemon)
      → s.shutdown ≡ interrupting
      → Step s (record s { shutdown = finished; db_thread = interrupted s.db_thread })
  goes_on :
      (s : Daemon)
      → s.db_thread ≡ testing
      → s.is_running ≡ true
      → Step s (record s { db_thread = entering })
  closes :
      (s : Daemon)
      → s.db_thread ≡ testing
      → s.is_running ≡ false
      → Step s (record s { db_thread = closed })
  waits :
      (s : Daemon)
      → s.db_thread ≡ entering
      → s.queued ≡ 0
      → Step s (record s { db_thread = waiting })
  takes :
      (s : Daemon) (n : ℕ)
      → s.db_thread ≡ entering
      → s.queued ≡ suc n
      → Step s (record s { db_thread = testing; queued = n })
  pushes :
      (s : Daemon)
      → s.event_thread ≡ reading
      → Step s (record s { queued = suc s.queued; db_thread = woken s.db_thread })
  ends :
      (s : Daemon)
      → s.event_thread ≡ reading
      → s.is_running ≡ false
      → Step s (record s { event_thread = ended })

pub data Reach : Daemon → Type 0 where
  at_start : Reach at_first
  then_ : (s t : Daemon) → Reach s → Step s t → Reach t

-- The database thread waits for events, and no thread is left to bring one or to wake it.
abbrev pub Hangs : Daemon → Type 0
Hangs s = (s.shutdown ≡ finished) × (s.db_thread ≡ waiting) × (s.event_thread ≡ ended)

Hangs-stuck : (s t : Daemon) → Hangs s → Step s t → ⊥
Hangs-stuck s t (done_, waits_, ended_) (awaits _ a) = cc
Hangs-stuck s t (done_, waits_, ended_) (is_signalled _ a) = cc
Hangs-stuck s t (done_, waits_, ended_) (interrupts _ a) = cc
Hangs-stuck s t (done_, waits_, ended_) (goes_on _ a b) = cc
Hangs-stuck s t (done_, waits_, ended_) (closes _ a b) = cc
Hangs-stuck s t (done_, waits_, ended_) (waits _ a b) = cc
Hangs-stuck s t (done_, waits_, ended_) (takes _ n a b) = cc
Hangs-stuck s t (done_, waits_, ended_) (pushes _ a) = cc
Hangs-stuck s t (done_, waits_, ended_) (ends _ a b) = cc

-- In a state that the daemon can reach, in which the shutdown thread has cleared `is_running` and has not
-- interrupted the queue yet, the database thread stands between its test and its wait, the queue is empty
-- and the event thread has ended: there is an order of the next two steps, the interruption first, behind
-- which the database thread waits and no thread ever makes a step again, unless a wait ends by itself.
pub shutdown-hangs :
    (s : Daemon)
    → Reach s
    → s.shutdown ≡ interrupting
    → s.db_thread ≡ entering
    → s.event_thread ≡ ended
    → s.queued ≡ 0
    → (t u : Daemon) × Step s t × Step t u × Reach u × ((v : Daemon) → Step u v → ⊥)
shutdown-hangs s reach i d e q =
    let t : Daemon = record s { shutdown = finished; db_thread = interrupted s.db_thread } in
    let u : Daemon = record t { db_thread = waiting } in
    let st : Step s t = interrupts s i in
    let same : interrupted s.db_thread ≡ entering = rw d refl in
    let tu : Step t u = waits t same q in
    (
      t,
      u,
      st,
      tu,
      then_ t u (then_ s t reach st) tu,
      λ v next. Hangs-stuck u v (refl, refl, e) next,
    )
