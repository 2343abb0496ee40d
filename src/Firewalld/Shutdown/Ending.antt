-- ===== src/Firewalld/Shutdown/Ending.antt =====
-- The end of the threads, once `is_running` is cleared.
use iptracking.Prelude.{
  ℕ, zero, suc, ◌+◌, ◌*◌, ◌≤◌, ◌<◌, ◌≡◌, refl, ◌⊎◌, inl, inr, Bool, true, false, Option, none, some,
  arith, Bool-cases,
}
use iptracking.Firewalld.Shutdown.{
  Shutdown, starting, locked, awaiting, roused, stopping, finished, Timer, testing, locking,
  waiting, woken, working, ended, Thread, in_main, in_shutdown, in_timer, in_notifier, Daemon,
  is_free, wake_timer, wake_shutdown, goes, Work, locks, awaits, stops, finishes, goes_on, ends,
  waits, times_out, rebuilds, resumes, notifies, resets_timer, handles, Reach,
}
use iptracking.Firewalld.Shutdown.Invariant.{Inv, Work-Inv, Reach-Inv}

abbrev pub AreEnded : Daemon → Type 0
AreEnded s = (s.shutdown ≡ finished) × (s.timer ≡ ended)

-- Whatever the threads do, both have ended within `n` steps, and until then one of them can go on.
pub Ends : ℕ → Daemon → Type 0
Ends zero s = AreEnded s
Ends (suc n) s = AreEnded s ⊎ (((t : Daemon) × Work s t) × ((t : Daemon) → Work s t → Ends n t))

-- No handler of a signal runs, or it runs on the main thread.
abbrev pub is_calm : Option Thread → Bool
is_calm none = true
is_calm (some in_main) = true
is_calm (some in_shutdown) = false
is_calm (some in_timer) = false
is_calm (some in_notifier) = false

goes_calm :
    (h : Option Thread)
    → is_calm h ≡ true
    → (goes in_shutdown h ≡ true) × (goes in_timer h ≡ true) × (goes in_notifier h ≡ true)
goes_calm none c = (refl, refl, refl)
goes_calm (some in_main) c = (refl, refl, refl)
goes_calm (some in_shutdown) c = cc
goes_calm (some in_timer) c = cc
goes_calm (some in_notifier) c = cc

-- A bound on the steps that are left.
abbrev shutdown_steps : Shutdown → ℕ
shutdown_steps finished = 0
shutdown_steps _ = 1

abbrev timer_steps : Timer → ℕ
timer_steps testing = 1
timer_steps locking = 4
timer_steps waiting = 3
timer_steps woken = 2
timer_steps working = 2
timer_steps ended = 0

abbrev notifier_steps : Bool → ℕ
notifier_steps true = 1
notifier_steps false = 0

abbrev handler_steps : Option Thread → ℕ
handler_steps none = 0
handler_steps (some t) = 1

abbrev steps_left : Daemon → ℕ
steps_left s =
    shutdown_steps s.shutdown
    + timer_steps s.timer
    + (2 * s.notifications + notifier_steps s.is_notifying)
    + handler_steps s.handler

shutdown_steps-le : (x : Shutdown) → shutdown_steps x ≤ 1
shutdown_steps-le x = ground arith

timer_steps-le : (t : Timer) → timer_steps t ≤ 4
timer_steps-le t = ground arith

notifier_steps-le : (b : Bool) → notifier_steps b ≤ 1
notifier_steps-le b = ground arith

handler_steps-le : (h : Option Thread) → handler_steps h ≤ 1
handler_steps-le h = ground arith

wake_timer-steps : (t : Timer) → timer_steps (wake_timer t) ≤ timer_steps t
wake_timer-steps testing = omega arith
wake_timer-steps locking = omega arith
wake_timer-steps waiting = omega arith
wake_timer-steps woken = omega arith
wake_timer-steps working = omega arith
wake_timer-steps ended = omega arith

wake_shutdown-steps : (x : Shutdown) → shutdown_steps (wake_shutdown x) ≤ shutdown_steps x
wake_shutdown-steps starting = omega arith
wake_shutdown-steps locked = omega arith
wake_shutdown-steps awaiting = omega arith
wake_shutdown-steps roused = omega arith
wake_shutdown-steps stopping = omega arith
wake_shutdown-steps finished = omega arith

is_free-quiet : (t : Timer) (n : Bool) → is_free t n ≡ true → n ≡ false
is_free-quiet testing n f = ground arith
is_free-quiet locking n f = ground arith
is_free-quiet waiting n f = ground arith
is_free-quiet woken n f = ground arith
is_free-quiet working n f = cc
is_free-quiet ended n f = ground arith

-- A daemon that has been stopped, and no handler in the way.
abbrev IsStopped : Daemon → Type 0
IsStopped s = Inv s × (s.is_running ≡ false) × (is_calm s.handler ≡ true)

Work-fewer :
    (s t : Daemon)
    → IsStopped s
    → Work s t
    → (steps_left t < steps_left s) × (t.is_running ≡ false) × (is_calm t.handler ≡ true)
Work-fewer s t (inv, off, calm) (locks a g) = absurd (let on = inv.running in ground arith)
Work-fewer s t (inv, off, calm) (awaits a g) = absurd (let on = inv.running in ground arith)
Work-fewer s t (inv, off, calm) (stops a g) = absurd (let on = inv.running in ground arith)
Work-fewer s t (inv, off, calm) (finishes a g f) =
    (grind (arith, wake_timer-steps s.timer), off, calm)
Work-fewer s t (inv, off, calm) (goes_on a g r) = cc
Work-fewer s t (inv, off, calm) (ends a g r) = (ground arith, off, calm)
Work-fewer s t (inv, off, calm) (waits a g f) = (ground arith, off, calm)
Work-fewer s t (inv, off, calm) (times_out a g f) = (ground arith, off, calm)
Work-fewer s t (inv, off, calm) (rebuilds a g) = (ground arith, off, calm)
Work-fewer s t (inv, off, calm) (resumes a g f) = (ground arith, off, calm)
Work-fewer s t (inv, off, calm) (notifies n a g f) =
    (ground (arith, is_free-quiet s.timer s.is_notifying f), off, calm)
Work-fewer s t (inv, off, calm) (resets_timer a g) =
    (grind (arith, wake_timer-steps s.timer), off, calm)
Work-fewer s t (inv, off, calm) (handles v a f) =
    (grind (arith, wake_shutdown-steps s.shutdown), off, refl)

-- A step of the timer thread, or of the notification that keeps it from one.
timer_goes_on :
    (s : Daemon) (y : Timer) → s.timer ≡ y → IsStopped s → (y ≡ ended) ⊎ ((t : Daemon) × Work s t)
timer_goes_on s y e (inv, off, calm) =
    let (shut, timer, notifier) = goes_calm s.handler calm in
    elim (Bool-cases s.is_notifying) [
      | inl on ↦ inr (_, resets_timer on notifier)
      | inr quiet ↦ by_timer y e timer quiet
    ]
  where
    by_timer :
        (y : Timer)
        → s.timer ≡ y
        → goes in_timer s.handler ≡ true
        → s.is_notifying ≡ false
        → (y ≡ ended) ⊎ ((t : Daemon) × Work s t)
    by_timer testing e timer quiet = inr (_, ends e timer off)
    by_timer locking e timer quiet = inr (_, waits e timer (rw (e, quiet) refl))
    by_timer waiting e timer quiet = inr (_, times_out e timer (rw (e, quiet) refl))
    by_timer woken e timer quiet = inr (_, resumes e timer (rw (e, quiet) refl))
    by_timer working e timer quiet = inr (_, rebuilds e timer)
    by_timer ended e timer quiet = inl refl

-- A step of the shutdown thread, where the timer thread has ended.
shutdown_goes_on :
    (s : Daemon) (x : Shutdown)
    → s.shutdown ≡ x
    → s.timer ≡ ended
    → IsStopped s
    → AreEnded s ⊎ ((t : Daemon) × Work s t)
shutdown_goes_on s starting e d (inv, off, calm) = absurd (let on = inv.running in ground arith)
shutdown_goes_on s locked e d (inv, off, calm) = absurd (let on = inv.running in ground arith)
shutdown_goes_on s awaiting e d (inv, off, calm) = absurd (let on = inv.running in ground arith)
shutdown_goes_on s roused e d (inv, off, calm) = absurd (let on = inv.running in ground arith)
shutdown_goes_on s stopping e d (inv, off, calm) =
    let (shut, timer, notifier) = goes_calm s.handler calm in
    elim (Bool-cases s.is_notifying) [
      | inl on ↦ inr (_, resets_timer on notifier)
      | inr quiet ↦ inr (_, finishes e shut (rw (d, quiet) refl))
    ]
shutdown_goes_on s finished e d stopped = inl (e, d)

goes_or_ended : (s : Daemon) → IsStopped s → AreEnded s ⊎ ((t : Daemon) × Work s t)
goes_or_ended s stopped = elim (timer_goes_on s s.timer refl stopped) [
  | inr more ↦ inr more
  | inl d ↦ shutdown_goes_on s s.shutdown refl d stopped
]

stopped-Ends : (n : ℕ) (s : Daemon) → IsStopped s → steps_left s ≤ n → Ends n s
unfolding Ends
stopped-Ends zero s stopped few = elim (goes_or_ended s stopped) [
  | inl done ↦ done
  | inr (t, work) ↦ absurd (omega (arith, (Work-fewer s t stopped work).0))
]
stopped-Ends (suc n) s stopped few = elim (goes_or_ended s stopped) [
  | inl done ↦ inl done
  | inr more ↦ inr (
    more,
    λ t work.
        let (fewer, off, calm) = Work-fewer s t stopped work in
        stopped-Ends n t (Work-Inv s t stopped.0 work, off, calm) (omega (arith, fewer)),
  )
]

-- From every state that the threads come to where the program is stopped and no handler runs, or one on the
-- main thread: without a further signal both threads have ended within seven steps and two for each
-- notification that comes, whatever order they go in, and until then one of them can go on.
pub Reach-Ends :
    (n : ℕ) (s : Daemon)
    → Reach n s
    → s.is_running ≡ false
    → is_calm s.handler ≡ true
    → Ends (7 + 2 * s.notifications) s
Reach-Ends n s reach off calm =
    stopped-Ends (7 + 2 * s.notifications) s (Reach-Inv n s reach, off, calm)
      (omega (
        arith,
        shutdown_steps-le s.shutdown,
        timer_steps-le s.timer,
        notifier_steps-le s.is_notifying,
        handler_steps-le s.handler,
      ))
