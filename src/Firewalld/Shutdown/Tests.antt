-- ===== src/Firewalld/Shutdown/Tests.antt =====
-- Runs of the daemon's end.
use iptracking.Prelude.{ℕ, ◌+◌, ◌*◌, ◌≡◌, refl, false, none, some}
use iptracking.Firewalld.Shutdown.{
  awaiting, stopping, wake_shutdown, waiting, working, in_main, Daemon, at_first, Work, locks,
  awaits, stops, goes_on, waits, times_out, handles, Step, works, is_signalled, Reach, at_start,
  then_,
}
use iptracking.Firewalld.Shutdown.Ending.{Ends, Reach-Ends}
use iptracking.Firewalld.Shutdown.Deadlock.{signal-deadlocks}

after_work : (n : ℕ) (s t : Daemon) → Reach n s → Work s t → Reach n t
after_work n s t reach work = then_ s t reach (works t work)

-- The timer waits, and the shutdown thread too.
abbrev both_wait : Daemon
both_wait = record (at_first 1) { timer = waiting; shutdown = awaiting }

both_wait-Reach : Reach 1 both_wait
both_wait-Reach =
    after_work _ _ both_wait
      (after_work _ _ _
        (after_work _ _ _ (after_work _ _ _ at_start (goes_on refl refl refl))
          (waits refl refl refl))
        (locks refl refl))
      (awaits refl refl)

-- A daemon is stopped by a signal on the main thread.
stopped-Reach :
    (s : Daemon)
    → Reach 1 s
    → s.shutdown ≡ awaiting
    → s.handler ≡ none
    → Reach 1 (record s { shutdown = stopping; is_running = false; handler = none })
stopped-Reach s reach a quiet =
    let called : Daemon = record s { handler = some in_main } in
    let heard : Daemon = record s { handler = none; shutdown = wake_shutdown s.shutdown } in
    let calls : Reach 1 called = then_ s called reach (is_signalled in_main quiet refl) in
    let hears : Reach 1 heard =
      after_work 1 called heard calls (handles in_main refl (rw a refl)) in
    after_work 1 heard _ hears (stops (rw a refl) refl)

abbrev while_waiting : Daemon
while_waiting = record both_wait { shutdown = stopping; is_running = false }

Reach-Ends_example : Ends (7 + 2 * 1) while_waiting
Reach-Ends_example =
    Reach-Ends 1 while_waiting (stopped-Reach both_wait both_wait-Reach refl refl) refl refl

abbrev at_work : Daemon
at_work = record both_wait { timer = working }

abbrev while_working : Daemon
while_working = record at_work { shutdown = stopping; is_running = false }

while_working-Reach : Reach 1 while_working
while_working-Reach =
    stopped-Reach at_work
      (after_work _ both_wait at_work both_wait-Reach (times_out refl refl refl)) refl refl

signal-deadlocks_example :
    (t : Daemon) × Step while_working t × Reach 1 t × ((u : Daemon) → Step t u → ⊥)
signal-deadlocks_example = signal-deadlocks 1 while_working while_working-Reach refl refl refl
