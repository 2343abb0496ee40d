-- ===== src/Firewalld/Shutdown/Invariant.antt =====
-- What every state of the threads keeps, and the signal that stops them all.
use iptracking.Prelude.{ℕ, ◌≡◌, refl, sym, ◌∙◌, Bool, true, false, arith}
use iptracking.Firewalld.Shutdown.{
  Shutdown, starting, locked, awaiting, roused, stopping, finished, Timer, testing, locking,
  waiting, woken, working, ended, Daemon, wake_timer, wake_shutdown, Work, locks, awaits, stops,
  finishes, goes_on, ends, waits, times_out, rebuilds, resumes, notifies, resets_timer, handles,
  works, is_signalled, Reach, at_start, then_,
}

abbrev pub before_stop : Shutdown → Bool
before_stop starting = true
before_stop locked = true
before_stop awaiting = true
before_stop roused = true
before_stop stopping = false
before_stop finished = false

-- The program runs until the shutdown thread stops it, the timer ends only behind that, and the lock of the
-- timer has one owner.
pub record Inv (s : Daemon) : Type 0 where
  pub running : s.is_running ≡ before_stop s.shutdown
  pub ended_late : s.timer ≡ ended → s.is_running ≡ false
  pub one_owner : s.timer ≡ working → s.is_notifying ≡ false

wake_timer-ended : (t : Timer) → wake_timer t ≡ ended → t ≡ ended
wake_timer-ended testing e = cc
wake_timer-ended locking e = cc
wake_timer-ended waiting e = cc
wake_timer-ended woken e = cc
wake_timer-ended working e = cc
wake_timer-ended ended e = refl

wake_timer-working : (t : Timer) → wake_timer t ≡ working → t ≡ working
wake_timer-working testing e = cc
wake_timer-working locking e = cc
wake_timer-working waiting e = cc
wake_timer-working woken e = cc
wake_timer-working working e = refl
wake_timer-working ended e = cc

before_stop-wake_shutdown : (x : Shutdown) → before_stop (wake_shutdown x) ≡ before_stop x
before_stop-wake_shutdown starting = refl
before_stop-wake_shutdown locked = refl
before_stop-wake_shutdown awaiting = refl
before_stop-wake_shutdown roused = refl
before_stop-wake_shutdown stopping = refl
before_stop-wake_shutdown finished = refl

pub Work-Inv : (s t : Daemon) → Inv s → Work s t → Inv t
Work-Inv s t inv (locks a g) = record {
  running = grind arith;
  ended_late = inv.ended_late;
  one_owner = inv.one_owner;
}
Work-Inv s t inv (awaits a g) = record {
  running = grind arith;
  ended_late = λ e. grind arith;
  one_owner = λ e. grind arith;
}
Work-Inv s t inv (stops a g) = record {
  running = grind arith;
  ended_late = λ e. grind arith;
  one_owner = λ e. grind arith;
}
Work-Inv s t inv (finishes a g f) = record {
  running = grind arith;
  ended_late = λ e. grind (arith, inv.ended_late, wake_timer-ended);
  one_owner = λ e. inv.one_owner (wake_timer-working s.timer e);
}
Work-Inv s t inv (goes_on a g r) = record {
  running = grind arith;
  ended_late = λ e. grind arith;
  one_owner = λ e. grind arith;
}
Work-Inv s t inv (ends a g r) = record {
  running = grind arith;
  ended_late = λ e. grind arith;
  one_owner = λ e. grind arith;
}
Work-Inv s t inv (waits a g f) = record {
  running = grind arith;
  ended_late = λ e. grind arith;
  one_owner = λ e. grind arith;
}
Work-Inv s t inv (times_out a g f) = record {
  running = inv.running;
  ended_late = λ e. cc;
  one_owner = λ e. ground arith;
}
Work-Inv s t inv (rebuilds a g) = record {
  running = grind arith;
  ended_late = λ e. grind arith;
  one_owner = λ e. grind arith;
}
Work-Inv s t inv (resumes a g f) = record {
  running = grind arith;
  ended_late = λ e. grind arith;
  one_owner = λ e. grind arith;
}
Work-Inv s t inv (notifies n a g f) = record {
  running = inv.running;
  ended_late = inv.ended_late;
  one_owner = λ e. ground arith;
}
Work-Inv s t inv (resets_timer a g) = record {
  running = inv.running;
  ended_late = λ e. inv.ended_late (wake_timer-ended s.timer e);
  one_owner = λ e. refl;
}
Work-Inv s t inv (handles v a f) = record {
  running = inv.running ∙ sym (before_stop-wake_shutdown s.shutdown);
  ended_late = inv.ended_late;
  one_owner = inv.one_owner;
}

pub Reach-Inv : (n : ℕ) (s : Daemon) → Reach n s → Inv s
Reach-Inv n s at_start = record { running = refl; ended_late = λ e. cc; one_owner = λ e. refl }
Reach-Inv n s (then_ r _ before (works _ work)) = Work-Inv r s (Reach-Inv n r before) work
Reach-Inv n s (then_ r _ before (is_signalled t quiet there)) =
    let inv = Reach-Inv n r before in
    record { running = inv.running; ended_late = inv.ended_late; one_owner = inv.one_owner }
