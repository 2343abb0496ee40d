-- ===== src/Pamd/Shutdown/Invariant.antt =====
-- What every state of the daemon's threads keeps: no thread ends while the daemon is to run.
use iptracking.Prelude.{◌≡◌, sym, ◌∙◌, ◌⊎◌, inl, inr, refl, Bool, true, false, arith}
use iptracking.Pamd.Shutdown.{
  Shutdown, starting, awaiting, interrupting, finished, DbThread, testing, entering, waiting,
  closed, ended, Daemon, at_first, woken, interrupted, Step, awaits, is_signalled, interrupts,
  goes_on, closes, waits, takes, pushes, ends, Reach, at_start, then_,
}

-- Whether the shutdown thread has not been woken yet.
abbrev before_signal : Shutdown → Bool
before_signal starting = true
before_signal awaiting = true
before_signal interrupting = false
before_signal finished = false

-- The program runs until the shutdown thread is woken, and the other threads end only behind that.
record Inv (s : Daemon) : Type 0 where
  running : s.is_running ≡ before_signal s.shutdown
  stopped_closed : s.db_thread ≡ closed → s.is_running ≡ false
  stopped_ended : s.event_thread ≡ ended → s.is_running ≡ false

Inv-at_first : Inv at_first
Inv-at_first = record { running = refl; stopped_closed = λ e. cc; stopped_ended = λ e. cc }

interrupted-closed : (d : DbThread) → interrupted d ≡ closed → d ≡ closed
interrupted-closed testing e = cc
interrupted-closed entering e = cc
interrupted-closed waiting e = cc
interrupted-closed closed e = refl

woken-closed : (d : DbThread) → woken d ≡ closed → d ≡ closed
woken-closed testing e = cc
woken-closed entering e = cc
woken-closed waiting e = cc
woken-closed closed e = refl

Step-Inv : (s t : Daemon) → Inv s → Step s t → Inv t
Step-Inv s t inv (awaits _ a) = record {
  running = grind arith;
  stopped_closed = λ e. grind arith;
  stopped_ended = λ e. grind arith;
}
Step-Inv s t inv (is_signalled _ a) = record {
  running = grind arith;
  stopped_closed = λ e. grind arith;
  stopped_ended = λ e. grind arith;
}
Step-Inv s t inv (interrupts _ a) = record {
  running = grind arith;
  stopped_closed = λ e. inv.stopped_closed (interrupted-closed s.db_thread e);
  stopped_ended = λ e. grind arith;
}
Step-Inv s t inv (goes_on _ a b) = record {
  running = inv.running;
  stopped_closed = λ e. grind arith;
  stopped_ended = λ e. grind arith;
}
Step-Inv s t inv (closes _ a b) = record {
  running = inv.running;
  stopped_closed = λ e. grind arith;
  stopped_ended = λ e. grind arith;
}
Step-Inv s t inv (waits _ a b) = record {
  running = inv.running;
  stopped_closed = λ e. grind arith;
  stopped_ended = λ e. grind arith;
}
Step-Inv s t inv (takes _ n a b) = record {
  running = inv.running;
  stopped_closed = λ e. grind arith;
  stopped_ended = λ e. grind arith;
}
Step-Inv s t inv (pushes _ a) = record {
  running = inv.running;
  stopped_closed = λ e. inv.stopped_closed (woken-closed s.db_thread e);
  stopped_ended = λ e. grind arith;
}
Step-Inv s t inv (ends _ a b) = record {
  running = inv.running;
  stopped_closed = λ e. grind arith;
  stopped_ended = λ e. grind arith;
}

stopped :
    (s : Daemon) → Inv s → (s.db_thread ≡ closed) ⊎ (s.event_thread ≡ ended) → s.is_running ≡ false
stopped s inv (inl d) = inv.stopped_closed d
stopped s inv (inr e) = inv.stopped_ended e

Reach-Inv : (s : Daemon) → Reach s → Inv s
Reach-Inv s at_start = Inv-at_first
Reach-Inv s (then_ r _ before step) = Step-Inv r s (Reach-Inv r before) step

is_woken : (x : Shutdown) → before_signal x ≡ false → (x ≡ interrupting) ⊎ (x ≡ finished)
is_woken starting e = cc
is_woken awaiting e = cc
is_woken interrupting e = inl refl
is_woken finished e = inr refl

-- In every state that the threads come to, where the database thread or the event thread has ended, the
-- shutdown thread was woken before: no thread ends while the daemon is to run.
pub Reach-ends_late :
    (s : Daemon)
    → Reach s
    → (s.db_thread ≡ closed) ⊎ (s.event_thread ≡ ended)
    → (s.is_running ≡ false) × ((s.shutdown ≡ interrupting) ⊎ (s.shutdown ≡ finished))
Reach-ends_late s reach ended_ =
    let inv = Reach-Inv s reach in
    let off = stopped s inv ended_ in (off, is_woken s.shutdown (sym inv.running ∙ off))
