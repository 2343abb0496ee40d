-- ===== src/Firewalld/Shutdown.antt =====
-- How the firewall daemon ends: its threads, their two mutexes, and the handler of the signals
-- (`shutdown_thread_entry`, `handle_termination`, `timer_thread_entry`, and the lock that
-- `firewall_notify` takes for the timer).
pub mod Deadlock
pub mod Ending
pub mod Invariant
mod Tests
use iptracking.Prelude.{ℕ, suc, ◌≡◌, Bool, true, false, Option, none, some, not}

-- The shutdown thread: before its lock, with its lock and before the wait, in the wait, woken and without
-- the lock, with the lock again and `is_running` cleared, or at its end.
pub data Shutdown : Type 0 where
  starting locked awaiting roused stopping finished : Shutdown

-- The timer thread: before the test of `is_running`, before the lock, in the wait, woken and without the
-- lock, behind the end of its time and with the lock, or at its end.
pub data Timer : Type 0 where
  testing locking waiting woken working ended : Timer

-- The thread on which the handler of a signal runs.
pub data Thread : Type 0 where
  in_main in_shutdown in_timer in_notifier : Thread

-- `is_notifying` is whether `firewall_notify` holds the lock of the timer, `notifications` how many of
-- its calls are still to come.
pub record Daemon : Type 0 where
  pub is_running : Bool
  pub shutdown : Shutdown
  pub timer : Timer
  pub is_notifying : Bool
  pub notifications : ℕ
  pub handler : Option Thread

abbrev pub at_first : ℕ → Daemon
at_first n = record {
  is_running = true;
  shutdown = starting;
  timer = testing;
  is_notifying = false;
  notifications = n;
  handler = none;
}

-- Whether the shutdown thread has `shutdown_mutex`.
abbrev pub has_lock : Shutdown → Bool
has_lock starting = false
has_lock locked = true
has_lock awaiting = false
has_lock roused = false
has_lock stopping = true
has_lock finished = false

-- Whether neither the timer thread nor a notification has `timer_mutex`.
abbrev pub is_free : Timer → Bool → Bool
is_free testing n = not n
is_free locking n = not n
is_free waiting n = not n
is_free woken n = not n
is_free working n = false
is_free ended n = not n

-- `pthread_cond_broadcast(&timer_cond)`.
abbrev pub wake_timer : Timer → Timer
wake_timer testing = testing
wake_timer locking = locking
wake_timer waiting = woken
wake_timer woken = woken
wake_timer working = working
wake_timer ended = ended

-- `pthread_cond_broadcast(&shutdown_cond)`.
abbrev pub wake_shutdown : Shutdown → Shutdown
wake_shutdown starting = starting
wake_shutdown locked = locked
wake_shutdown awaiting = roused
wake_shutdown roused = roused
wake_shutdown stopping = stopping
wake_shutdown finished = finished

-- Whether a thread goes on: the handler does not run on it.
abbrev pub goes : Thread → Option Thread → Bool
goes t none = true
goes in_main (some h) = elim h [ in_main ↦ false | _ ↦ true ]
goes in_shutdown (some h) = elim h [ in_shutdown ↦ false | _ ↦ true ]
goes in_timer (some h) = elim h [ in_timer ↦ false | _ ↦ true ]
goes in_notifier (some h) = elim h [ in_notifier ↦ false | _ ↦ true ]

-- The steps of the threads and of the handler, which takes and gives back its lock in one of them.
pub data Work (s : Daemon) : Daemon → Type 0 where
  locks :
      s.shutdown ≡ starting
      → goes in_shutdown s.handler ≡ true
      → Work s (record s { shutdown = locked })
  awaits :
      s.shutdown ≡ locked
      → goes in_shutdown s.handler ≡ true
      → Work s (record s { shutdown = awaiting })
  stops :
      s.shutdown ≡ roused
      → goes in_shutdown s.handler ≡ true
      → Work s (record s { shutdown = stopping; is_running = false })
  finishes :
      s.shutdown ≡ stopping
      → goes in_shutdown s.handler ≡ true
      → is_free s.timer s.is_notifying ≡ true
      → Work s (record s { shutdown = finished; timer = wake_timer s.timer })
  goes_on :
      s.timer ≡ testing
      → goes in_timer s.handler ≡ true
      → s.is_running ≡ true
      → Work s (record s { timer = locking })
  ends :
      s.timer ≡ testing
      → goes in_timer s.handler ≡ true
      → s.is_running ≡ false
      → Work s (record s { timer = ended })
  waits :
      s.timer ≡ locking
      → goes in_timer s.handler ≡ true
      → is_free s.timer s.is_notifying ≡ true
      → Work s (record s { timer = waiting })
  times_out :
      s.timer ≡ waiting
      → goes in_timer s.handler ≡ true
      → is_free s.timer s.is_notifying ≡ true
      → Work s (record s { timer = working })
  rebuilds :
      s.timer ≡ working → goes in_timer s.handler ≡ true → Work s (record s { timer = testing })
  resumes :
      s.timer ≡ woken
      → goes in_timer s.handler ≡ true
      → is_free s.timer s.is_notifying ≡ true
      → Work s (record s { timer = testing })
  notifies :
      (n : ℕ)
      → s.notifications ≡ suc n
      → goes in_notifier s.handler ≡ true
      → is_free s.timer s.is_notifying ≡ true
      → Work s (record s { is_notifying = true; notifications = n })
  resets_timer :
      s.is_notifying ≡ true
      → goes in_notifier s.handler ≡ true
      → Work s (record s { is_notifying = false; timer = wake_timer s.timer })
  handles :
      (t : Thread)
      → s.handler ≡ some t
      → has_lock s.shutdown ≡ false
      → Work s (record s { handler = none; shutdown = wake_shutdown s.shutdown })

-- Whether a thread has not come to its end.
abbrev pub is_there : Thread → Daemon → Bool
is_there in_main s = true
is_there in_shutdown s = elim s.shutdown [ finished ↦ false | _ ↦ true ]
is_there in_timer s = elim s.timer [ ended ↦ false | _ ↦ true ]
is_there in_notifier s = true

-- A thread or the handler goes on, or a signal comes to a thread.
pub data Step (s : Daemon) : Daemon → Type 0 where
  works : (t : Daemon) → Work s t → Step s t
  is_signalled :
      (t : Thread) → s.handler ≡ none → is_there t s ≡ true → Step s (record s { handler = some t })

pub data Reach (n : ℕ) : Daemon → Type 0 where
  at_start : Reach n (at_first n)
  then_ : (s t : Daemon) → Reach n s → Step s t → Reach n t
