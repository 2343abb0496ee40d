-- ===== src/Postgresql/Listener.antt =====
-- The thread that listens for notifications, beside the thread that registers the callback and opens and
-- closes the database (`db_blocklist_async_notification_register` of libiptracking/db_interface.c).
pub mod Session
pub mod Faults
pub mod Invariant
use iptracking.Prelude.{◌≡◌, ◌⊎◌, inl, inr, refl, Bool, true, false, arith}

-- Who holds `blocklist_async_notification_lock`.
pub data Lock : Type 0 where
  free by_main by_listener : Lock

-- Where the main thread is: in no call; in the registration of a callback (`true`) or of NULL, behind
-- the lock; in the join of that registration; or in the join of `__db_instance_postgresql_close`.
pub data Main : Type 0 where
  idle joining closing : Main
  registering : Bool → Main

-- Where the listener is: nowhere; in its loop, at `poll`; with notifications taken, before the lock; in
-- the callback; or at its end, not joined yet.
pub data Listener : Type 0 where
  absent polling notified calling ended : Listener

pub record System : Type 0 where
  pub callback : Bool
  pub is_notify_running : Bool
  pub cancelled : Bool
  pub lock : Lock
  pub main : Main
  pub listener : Listener

abbrev pub start : System
start = record {
  callback = false;
  is_notify_running = false;
  cancelled = false;
  lock = free;
  main = idle;
  listener = absent;
}

-- The steps of the two threads. A cancelled thread ends at `poll`, which the callback's query comes to,
-- too; the lock is no such place, and a thread that ends in the callback keeps it.
pub data Step : System → System → Type 0 where
  registers :
      (s : System) (on : Bool)
      → s.main ≡ idle
      → s.lock ≡ free
      → Step s (record s { main = registering on; lock = by_main })
  starts :
      (s : System)
      → s.main ≡ registering true
      → s.callback ≡ false
      → s.is_notify_running ≡ false
      → Step s (record s {
        callback = true;
        is_notify_running = true;
        cancelled = false;
        lock = free;
        main = idle;
        listener = polling;
      })
  -- `pthread_create` fails, or a listener runs already, or the callback takes the place of another.
  sets :
      (s : System)
      → s.main ≡ registering true
      → Step s (record s { callback = true; lock = free; main = idle })
  stops :
      (s : System)
      → s.main ≡ registering false
      → s.is_notify_running ≡ true
      → Step s (record s {
        callback = false;
        is_notify_running = false;
        cancelled = true;
        main = joining;
      })
  clears :
      (s : System)
      → s.main ≡ registering false
      → s.is_notify_running ≡ false
      → Step s (record s { callback = false; lock = free; main = idle })
  joins :
      (s : System)
      → s.main ≡ joining
      → s.listener ≡ ended
      → Step s (record s { lock = free; main = idle; listener = absent })
  closes :
      (s : System)
      → s.main ≡ idle
      → s.is_notify_running ≡ true
      → Step s (record s { is_notify_running = false; cancelled = true; main = closing })
  closed :
      (s : System)
      → s.main ≡ closing
      → s.listener ≡ ended
      → Step s (record s { main = idle; listener = absent })
  opens :
      (s : System)
      → s.main ≡ idle
      → s.callback ≡ true
      → s.is_notify_running ≡ false
      → Step s (record s { is_notify_running = true; cancelled = false; listener = polling })
  is_notified : (s : System) → s.listener ≡ polling → Step s (record s { listener = notified })
  calls :
      (s : System)
      → s.listener ≡ notified
      → s.lock ≡ free
      → Step s (record s { listener = calling; lock = by_listener })
  returns :
      (s : System) → s.listener ≡ calling → Step s (record s { listener = polling; lock = free })
  -- The connection is lost, the listener is told to stop, or it is cancelled.
  ends : (s : System) → s.listener ≡ polling → Step s (record s { listener = ended })
  ends_in_callback :
      (s : System)
      → s.listener ≡ calling
      → s.cancelled ≡ true
      → Step s (record s { listener = ended })

-- What the two threads come to, one step after another.
pub data Reach : System → Type 0 where
  at_start : Reach start
  then_ : (s t : System) → Reach s → Step s t → Reach t
