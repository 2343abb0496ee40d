-- ===== src/Postgresql/Listener/Invariant.antt =====
-- What holds in every state of the two threads.
use iptracking.Prelude.{◌≡◌, ◌⊎◌, inl, inr, refl, Bool, true, false, arith}
use iptracking.Postgresql.Listener.{
  System, by_main, by_listener, idle, joining, closing, registering, absent, calling, start, Step,
  registers, starts, sets, stops, clears, joins, closes, closed, opens, is_notified, calls, returns,
  ends, ends_in_callback, Reach, at_start, then_,
}

-- The invariant of the two threads.
pub record Inv (s : System) : Type 0 where
  pub locked_calling : s.listener ≡ calling → s.lock ≡ by_listener
  pub locked_registering : (on : Bool) → s.main ≡ registering on → s.lock ≡ by_main
  pub locked_joining : s.main ≡ joining → s.lock ≡ by_main
  pub set_running : s.is_notify_running ≡ true → s.callback ≡ true
  pub unset : s.callback ≡ false → (s.main ≡ joining → ⊥) → s.listener ≡ absent
  pub stopped :
      s.is_notify_running ≡ false
      → (s.main ≡ joining → ⊥)
      → (s.main ≡ closing → ⊥)
      → s.listener ≡ absent

Inv-start : Inv start
Inv-start = record {
  locked_calling = λ e. cc;
  locked_registering = λ on e. cc;
  locked_joining = λ e. cc;
  set_running = λ e. cc;
  unset = λ e f. refl;
  stopped = λ e f g. refl;
}

pub Step-Inv : (s t : System) → Inv s → Step s t → Inv t
Step-Inv s t inv (registers _ on m k) = record {
  locked_calling = λ e. grind arith;
  locked_registering = λ x e. grind arith;
  locked_joining = λ e. grind arith;
  set_running = λ e. grind arith;
  unset = λ e f. grind arith;
  stopped = λ e f g. grind arith;
}
Step-Inv s t inv (starts _ m c r) = record {
  locked_calling = λ e. grind arith;
  locked_registering = λ x e. grind arith;
  locked_joining = λ e. grind arith;
  set_running = λ e. grind arith;
  unset = λ e f. grind arith;
  stopped = λ e f g. grind arith;
}
Step-Inv s t inv (sets _ m) = record {
  locked_calling = λ e. grind arith;
  locked_registering = λ x e. grind arith;
  locked_joining = λ e. grind arith;
  set_running = λ e. grind arith;
  unset = λ e f. grind arith;
  stopped = λ e f g. grind arith;
}
Step-Inv s t inv (stops _ m r) = record {
  locked_calling = λ e. grind arith;
  locked_registering = λ x e. grind arith;
  locked_joining = λ e. grind arith;
  set_running = λ e. grind arith;
  unset = λ e f. grind arith;
  stopped = λ e f g. grind arith;
}
Step-Inv s t inv (clears _ m r) = record {
  locked_calling = λ e. grind arith;
  locked_registering = λ x e. grind arith;
  locked_joining = λ e. grind arith;
  set_running = λ e. grind arith;
  unset = λ e f. grind arith;
  stopped = λ e f g. grind arith;
}
Step-Inv s t inv (joins _ m l) = record {
  locked_calling = λ e. grind arith;
  locked_registering = λ x e. grind arith;
  locked_joining = λ e. grind arith;
  set_running = λ e. grind arith;
  unset = λ e f. grind arith;
  stopped = λ e f g. grind arith;
}
Step-Inv s t inv (closes _ m r) = record {
  locked_calling = λ e. grind arith;
  locked_registering = λ x e. grind arith;
  locked_joining = λ e. grind arith;
  set_running = λ e. grind arith;
  unset = λ e f. grind arith;
  stopped = λ e f g. grind arith;
}
Step-Inv s t inv (closed _ m l) = record {
  locked_calling = λ e. grind arith;
  locked_registering = λ x e. grind arith;
  locked_joining = λ e. grind arith;
  set_running = λ e. grind arith;
  unset = λ e f. grind arith;
  stopped = λ e f g. grind arith;
}
Step-Inv s t inv (opens _ m c r) = record {
  locked_calling = λ e. grind arith;
  locked_registering = λ x e. grind arith;
  locked_joining = λ e. grind arith;
  set_running = λ e. grind arith;
  unset = λ e f. grind arith;
  stopped = λ e f g. grind arith;
}
Step-Inv s t inv (is_notified _ l) = record {
  locked_calling = λ e. grind arith;
  locked_registering = λ x e. grind arith;
  locked_joining = λ e. grind arith;
  set_running = λ e. grind arith;
  unset = λ e f. grind arith;
  stopped = λ e f g. grind arith;
}
Step-Inv s t inv (calls _ l k) = record {
  locked_calling = λ e. grind arith;
  locked_registering = λ x e. grind arith;
  locked_joining = λ e. grind arith;
  set_running = λ e. grind arith;
  unset = λ e f. grind arith;
  stopped = λ e f g. grind arith;
}
Step-Inv s t inv (returns _ l) = record {
  locked_calling = λ e. grind arith;
  locked_registering = λ x e. grind arith;
  locked_joining = λ e. grind arith;
  set_running = λ e. grind arith;
  unset = λ e f. grind arith;
  stopped = λ e f g. grind arith;
}
Step-Inv s t inv (ends _ l) = record {
  locked_calling = λ e. grind arith;
  locked_registering = λ x e. grind arith;
  locked_joining = λ e. grind arith;
  set_running = λ e. grind arith;
  unset = λ e f. grind arith;
  stopped = λ e f g. grind arith;
}
Step-Inv s t inv (ends_in_callback _ l c) = record {
  locked_calling = λ e. grind arith;
  locked_registering = λ x e. grind arith;
  locked_joining = λ e. grind arith;
  set_running = λ e. grind arith;
  unset = λ e f. grind arith;
  stopped = λ e f g. grind arith;
}

pub Reach-Inv : (s : System) → Reach s → Inv s
Reach-Inv s at_start = Inv-start
Reach-Inv s (then_ r _ before step) = Step-Inv r s (Reach-Inv r before) step

-- In every state that the two threads come to, where the listener is in the callback, it holds the lock,
-- and the callback that it calls is not NULL.
pub Reach-calls_callback :
    (s : System) → Reach s → s.listener ≡ calling → (s.lock ≡ by_listener) × (s.callback ≡ true)
Reach-calls_callback s reach l = let inv = Reach-Inv s reach in (inv.locked_calling l, grind arith)

-- In every state that the two threads come to, wherever a listener is started, none is there: there is
-- never more than one.
pub Reach-one_listener :
    (s : System)
    → Reach s
    → s.is_notify_running ≡ false
    → (s.main ≡ idle) ⊎ (s.main ≡ registering true)
    → s.listener ≡ absent
Reach-one_listener s reach r (inl m) =
    let inv = Reach-Inv s reach in inv.stopped r (λ e. cc) (λ e. cc)
Reach-one_listener s reach r (inr m) =
    let inv = Reach-Inv s reach in inv.stopped r (λ e. cc) (λ e. cc)
