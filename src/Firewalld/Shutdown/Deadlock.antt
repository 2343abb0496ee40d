-- ===== src/Firewalld/Shutdown/Deadlock.antt =====
-- A second signal, which comes to the timer thread while it has its lock.
use iptracking.Prelude.{ℕ, ◌≡◌, refl, false, none, some, arith}
use iptracking.Firewalld.Shutdown.{
  stopping, working, in_timer, Daemon, locks, awaits, stops, finishes, goes_on, ends, waits,
  times_out, rebuilds, resumes, notifies, resets_timer, handles, Step, works, is_signalled, Reach,
  then_,
}
use iptracking.Firewalld.Shutdown.Invariant.{Reach-Inv}

-- The handler waits for the shutdown thread, which waits for the thread that the handler runs on.
abbrev Hangs : Daemon → Type 0
Hangs s =
    (s.shutdown ≡ stopping)
    × (s.timer ≡ working)
    × (s.is_notifying ≡ false)
    × (s.handler ≡ some in_timer)

Hangs-stuck : (s t : Daemon) → Hangs s → Step s t → ⊥
Hangs-stuck s t (a, b, c, d) (is_signalled v quiet there) = cc
Hangs-stuck s t (a, b, c, d) (works _ (locks e g)) = cc
Hangs-stuck s t (a, b, c, d) (works _ (awaits e g)) = cc
Hangs-stuck s t (a, b, c, d) (works _ (stops e g)) = cc
Hangs-stuck s t (a, b, c, d) (works _ (finishes e g f)) = ground arith
Hangs-stuck s t (a, b, c, d) (works _ (goes_on e g r)) = cc
Hangs-stuck s t (a, b, c, d) (works _ (ends e g r)) = cc
Hangs-stuck s t (a, b, c, d) (works _ (waits e g f)) = cc
Hangs-stuck s t (a, b, c, d) (works _ (times_out e g f)) = cc
Hangs-stuck s t (a, b, c, d) (works _ (rebuilds e g)) = ground arith
Hangs-stuck s t (a, b, c, d) (works _ (resumes e g f)) = cc
Hangs-stuck s t (a, b, c, d) (works _ (notifies n e g f)) = ground arith
Hangs-stuck s t (a, b, c, d) (works _ (resets_timer e g)) = cc
Hangs-stuck s t (a, b, c, d) (works _ (handles v e f)) = ground arith

-- In every state that the threads come to where the timer thread is at work with its lock, the shutdown
-- thread has its own and waits for the timer's, and no handler runs: a further signal that comes to the
-- timer thread leaves the daemon without a step of any thread.
pub signal-deadlocks :
    (n : ℕ) (s : Daemon)
    → Reach n s
    → s.timer ≡ working
    → s.shutdown ≡ stopping
    → s.handler ≡ none
    → (t : Daemon) × Step s t × Reach n t × ((u : Daemon) → Step t u → ⊥)
signal-deadlocks n s reach at_work stops_ quiet =
    let t : Daemon = record s { handler = some in_timer } in
    let step : Step s t = is_signalled in_timer quiet (rw at_work refl) in
    let alone : s.is_notifying ≡ false = (Reach-Inv n s reach).one_owner at_work in
    (t, step, then_ s t reach step, λ u next. Hangs-stuck t u (stops_, at_work, alone, refl) next)
