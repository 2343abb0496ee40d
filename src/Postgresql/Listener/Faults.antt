-- ===== src/Postgresql/Listener/Faults.antt =====
-- The states that the two threads never leave.
use iptracking.Prelude.{◌≡◌, refl, Bool, true, false, arith}
use iptracking.Postgresql.Listener.{
  System, by_main, by_listener, joining, closing, registering, notified, calling, ended, Step,
  registers, starts, sets, stops, clears, joins, closes, closed, opens, is_notified, calls, returns,
  ends, ends_in_callback, Reach, then_,
}
use iptracking.Postgresql.Listener.Invariant.{Inv, Reach-Inv}

-- The main thread joins the listener and holds the lock that the listener waits for.
abbrev pub IsDeadlock : System → Type 0
IsDeadlock s = (s.main ≡ joining) × (s.lock ≡ by_main) × (s.listener ≡ notified)

stuck : (s t : System) → IsDeadlock s → Step s t → ⊥
stuck s t (main_, lock_, listener_) (registers _ on m k) = cc
stuck s t (main_, lock_, listener_) (starts _ m c r) = cc
stuck s t (main_, lock_, listener_) (sets _ m) = cc
stuck s t (main_, lock_, listener_) (stops _ m r) = cc
stuck s t (main_, lock_, listener_) (clears _ m r) = cc
stuck s t (main_, lock_, listener_) (joins _ m l) = cc
stuck s t (main_, lock_, listener_) (closes _ m r) = cc
stuck s t (main_, lock_, listener_) (closed _ m l) = cc
stuck s t (main_, lock_, listener_) (opens _ m c r) = cc
stuck s t (main_, lock_, listener_) (is_notified _ l) = cc
stuck s t (main_, lock_, listener_) (calls _ l k) = cc
stuck s t (main_, lock_, listener_) (returns _ l) = cc
stuck s t (main_, lock_, listener_) (ends _ l) = cc
stuck s t (main_, lock_, listener_) (ends_in_callback _ l c) = cc

-- Where NULL is registered while a listener runs that has taken notifications and does not have the lock
-- yet, the main thread's next step leads to a state in which neither thread ever makes a step again.
pub removal-deadlocks :
    (s : System)
    → Reach s
    → s.main ≡ registering false
    → s.is_notify_running ≡ true
    → s.listener ≡ notified
    → (t : System) × Step s t × Reach t × ((u : System) → Step t u → ⊥)
removal-deadlocks s reach m r l =
    let inv = Reach-Inv s reach in
    let t : System = record s {
      callback = false;
      is_notify_running = false;
      cancelled = true;
      main = joining;
    } in
    let step : Step s t = stops s m r in
    (
      t,
      step,
      then_ s t reach step,
      λ u next. stuck t u (refl, inv.locked_registering false m, l) next,
    )

-- The states that come after one, and itself.
pub data Later (s : System) : System → Type 0 where
  now : Later s s
  after : (t u : System) → Later s t → Step t u → Later s u

-- The lock is held for a listener that is not in the callback any more.
abbrev pub IsLost : System → Type 0
IsLost s = (s.lock ≡ by_listener) × (s.listener ≡ calling → ⊥)

IsLost-step : (s t : System) → Inv s → IsLost s → Step s t → IsLost t
IsLost-step s t inv (lock_, gone) (registers _ on m k) = (grind arith, grind arith)
IsLost-step s t inv (lock_, gone) (starts _ m c r) = (grind arith, grind arith)
IsLost-step s t inv (lock_, gone) (sets _ m) = (grind arith, grind arith)
IsLost-step s t inv (lock_, gone) (stops _ m r) = (grind arith, grind arith)
IsLost-step s t inv (lock_, gone) (clears _ m r) = (grind arith, grind arith)
IsLost-step s t inv (lock_, gone) (joins _ m l) = (grind arith, grind arith)
IsLost-step s t inv (lock_, gone) (closes _ m r) = (grind arith, grind arith)
IsLost-step s t inv (lock_, gone) (closed _ m l) = (grind arith, grind arith)
IsLost-step s t inv (lock_, gone) (opens _ m c r) = (grind arith, grind arith)
IsLost-step s t inv (lock_, gone) (is_notified _ l) = (grind arith, grind arith)
IsLost-step s t inv (lock_, gone) (calls _ l k) = (grind arith, grind arith)
IsLost-step s t inv (lock_, gone) (returns _ l) = (grind arith, grind arith)
IsLost-step s t inv (lock_, gone) (ends _ l) = (grind arith, grind arith)
IsLost-step s t inv (lock_, gone) (ends_in_callback _ l c) = (grind arith, grind arith)

IsLost-later : (s t : System) → Reach s → IsLost s → Later s t → Reach t × IsLost t
IsLost-later s t reach lost now = (reach, lost)
IsLost-later s t reach lost (after r _ before step) =
    let (r_reach, r_lost) = IsLost-later s r reach lost before in
    (then_ r t r_reach step, IsLost-step r t (Reach-Inv r r_reach) r_lost step)

-- Where the database is closed while the listener is in the callback, the listener may make a step after
-- which the lock is never free again, and no callback is ever registered or removed.
pub close-loses_lock :
    (s : System)
    → Reach s
    → s.main ≡ closing
    → s.listener ≡ calling
    → s.cancelled ≡ true
    → (t : System) × Step s t
      × ((u : System)
          → Later t u
          → (u.lock ≡ by_listener) × ((on : Bool) → u.main ≡ registering on → ⊥))
close-loses_lock s reach m l c =
    let inv = Reach-Inv s reach in
    let t : System = record s { listener = ended } in
    let step : Step s t = ends_in_callback s l c in
    (
      t,
      step,
      λ u later.
          let (u_reach, held_) =
            IsLost-later t u (then_ s t reach step) (inv.locked_calling l, λ e. cc) later in
          let u_inv = Reach-Inv u u_reach in (held_.0, λ on e. grind arith),
    )
