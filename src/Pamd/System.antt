-- ===== src/Pamd/System.antt =====
-- The event thread and the database thread on the queue between them, in every order of their
-- steps.
pub mod Delivery
pub mod Tests
use iptracking.Prelude.{
  ◌>>=◌, ◌≡◌, refl, true, false, Option, none, some, List, [], ◌∷◌, ◌++◌, sym, ap, subst, ◌∙◌, inl,
  inr, Bool-cases, append-nil,
}
use iptracking.LogData.{LogData, log_data_is_valid}
use iptracking.LogQueue.{LogQueue, Params, Memory, pushed, create, try_push, take_head}
use iptracking.LogQueue.View.{IsFresh}
use iptracking.LogQueue.Backoff.{done}
use iptracking.LogQueue.Backoff.Wait.{one_round, one_round-pushed, one_round-same, one_round-done}
use iptracking.LogQueue.Pop.{pop-unchanged}
use iptracking.LogQueue.History as History
use iptracking.LogQueue.History.{History, start, pushes, pops, pops_none, Reach, here, next}
use iptracking.Db.{Db, db_log_one_event}
use iptracking.Pamd.{Received, record_read, wrong_size, read_error, on_connection, db_round}
use iptracking.Pamd.Flow.{handed_over}

-- The queue, the database, and the events that the event thread has taken, in order.
pub record System (S : Type 0) : Type 0 where
  pub queue : LogQueue
  pub db : Option (Db S)
  pub taken_in : List LogData

-- What is taken where a push succeeds.
abbrev pub taken : Received → List LogData
taken (record_read d) = d ∷ []
taken (wrong_size n) = []
taken read_error = []

-- A step of the event thread is `on_connection` up to the end of a round of its push, which holds the lock,
-- whatever was received; where the round has to wait, a later step is the next round. A step of the
-- database thread is `db_round`; where the queue is empty its pop waits, and it is woken with the queue as it
-- was, for what the event thread does in the wait stands as a step before.
pub data Step {S : Type 0} (blank : LogData) (s : System S) : System S → Type 0 where
  takes :
      (r : Received) (m : Memory) (q' : LogQueue)
      → IsFresh s.queue m
      → on_connection blank (one_round m) r s.queue ≡ done true q'
      → Step blank s (record s { queue = q'; taken_in = s.taken_in ++ taken r })
  drops :
      (r : Received) (m : Memory) (q' : LogQueue)
      → on_connection blank (one_round m) r s.queue ≡ done false q'
      → Step blank s (record s { queue = q' })
  serves :
      (q' : LogQueue) (db' : Option (Db S))
      → db_round (λ q. q) s.queue s.db ≡ some (q', db')
      → Step blank s (record s { queue = q'; db = db' })

pub data Runs {S : Type 0} (blank : LogData) (params : Params) (db : Option (Db S))
    : System S → Type 0 where
  at_start : Runs blank params db (record { queue = create blank params; db = db; taken_in = [] })
  then_ : {s t : System S} → Runs blank params db s → Step blank s t → Runs blank params db t

abbrev pub AreValid : List LogData → Type 0
AreValid [] = Unit {0}
AreValid (d ∷ ds) = (log_data_is_valid (some d) ≡ true) × AreValid ds

AreValid-append : (ds es : List LogData) → AreValid ds → AreValid es → AreValid (ds ++ es)
AreValid-append [] es all more = more
AreValid-append (d ∷ ds) es all more = (all.0, AreValid-append ds es all.1 more)

pub handed_over-append :
    {S : Type 0} (db : Option (Db S)) (ds es : List LogData)
    → handed_over (handed_over db ds) es ≡ handed_over db (ds ++ es)
unfolding handed_over
handed_over-append db [] es = refl
handed_over-append db (d ∷ ds) es = handed_over-append (db_log_one_event db d).1 ds es

-- What is taken is a record, which is valid, and a round of the push has stored it.
taken-IsPushed :
    (blank : LogData) (m : Memory) (r : Received) (q q' : LogQueue)
    → on_connection blank (one_round m) r q ≡ done true q'
    → (d : LogData) × (taken r ≡ d ∷ [])
      × (log_data_is_valid (some d) ≡ true)
      × (try_push blank q d m ≡ pushed q')
unfolding on_connection
taken-IsPushed blank m (record_read d) q q' e = elim (Bool-cases (log_data_is_valid (some d))) [
  | inl valid ↦ (d, refl, valid, one_round-pushed blank d m q q' (rw (valid, on_connection) at e))
  | inr invalid ↦ absurd (let f = (rw (invalid, on_connection) at e) in cc)
]
taken-IsPushed blank m (wrong_size n) q q' e = cc
taken-IsPushed blank m read_error q q' e = cc

-- A valid record that a round of the push stores is taken.
pub stored-IsTaken :
    (blank d : LogData) (m : Memory) (q q' : LogQueue)
    → log_data_is_valid (some d) ≡ true
    → try_push blank q d m ≡ pushed q'
    → on_connection blank (one_round m) (record_read d) q ≡ done true q'
unfolding on_connection
stored-IsTaken blank d m q q' valid stored =
    rw (valid, on_connection) (one_round-done blank d m q q' stored)

dropped-same :
    (blank : LogData) (m : Memory) (r : Received) (q q' : LogQueue)
    → on_connection blank (one_round m) r q ≡ done false q'
    → q ≡ q'
unfolding on_connection
dropped-same blank m (record_read d) q q' e = elim (Bool-cases (log_data_is_valid (some d))) [
  | inl valid ↦ one_round-same blank d m q q' (rw (valid, on_connection) at e)
  | inr invalid ↦ let f = (rw (invalid, on_connection) at e) in cc
]
dropped-same blank m (wrong_size n) q q' e = cc
dropped-same blank m read_error q q' e = cc

abbrev after_pop :
    {S : Type 0}
    → Option (Option LogData × LogQueue)
    → Option (Db S)
    → Option (LogQueue × Option (Db S))
after_pop none db = none
after_pop (some (none, q)) db = some (q, db)
after_pop (some (some d, q)) db = some (q, (db_log_one_event db d).1)

db_round-after_pop :
    {S : Type 0} (q : LogQueue) (db : Option (Db S))
    → db_round (λ q. q) q db ≡ after_pop (take_head q) db
unfolding db_round
db_round-after_pop q db = rw (db_round, pop-unchanged q) (go (take_head q))
  where
    go :
        (x : Option (Option LogData × LogQueue))
        → (do
          (found, q') ← x
          some (q', elim found [ none ↦ db | some d ↦ (db_log_one_event db d).1 ]))
          ≡ after_pop x db
    go none = refl
    go (some (none, q)) = refl
    go (some (some d, q)) = refl

-- A round of the database thread pops an event and hands it over, or pops nothing.
abbrev Served : {S : Type 0} → LogQueue → LogQueue → Option (Db S) → Option (Db S) → Type 0
Served q q' db db' =
    (found : List LogData) × (db' ≡ handed_over db found)
    × ((blank : LogData) (ins outs : List LogData)
        → History.Step blank (record { queue = q; taken_in = ins; given_out = outs })
            (record { queue = q'; taken_in = ins; given_out = outs ++ found }))

popped-Served :
    {S : Type 0} (x : Option (Option LogData × LogQueue)) (q q' : LogQueue) (db db' : Option (Db S))
    → take_head q ≡ x
    → after_pop x db ≡ some (q', db')
    → Served q q' db db'
unfolding handed_over
popped-Served none q q' db db' t e = cc
popped-Served (some (none, r)) q q' db db' t e =
    let same : r ≡ q' = cc in
    (
      [],
      cc,
      λ blank ins outs.
          subst
            (λ o.
              History.Step blank (record { queue = q; taken_in = ins; given_out = outs })
                (record { queue = q'; taken_in = ins; given_out = o }))
            (sym (append-nil outs)) (pops_none q' (t ∙ ap (λ z. some (none, z)) same)),
    )
popped-Served (some (some d, r)) q q' db db' t e =
    let same : r ≡ q' = cc in
    (d ∷ [], cc, λ blank ins outs. pops d q' (t ∙ ap (λ z. some (some d, z)) same))

served :
    {S : Type 0} (q q' : LogQueue) (db db' : Option (Db S))
    → db_round (λ q. q) q db ≡ some (q', db')
    → Served q q' db db'
served q q' db db' e =
    popped-Served (take_head q) q q' db db' refl (sym (db_round-after_pop q db) ∙ e)

module _ {S : Type 0} (blank : LogData) (params : Params) (db : Option (Db S)) where
  -- A history of the queue in which the events that have left it are those the database was handed.
  abbrev pub IsHistory : System S → Type 0
  IsHistory s =
      (outs : List LogData) × Reach blank (start blank params)
        (record { queue = s.queue; taken_in = s.taken_in; given_out = outs })
      × (s.db ≡ handed_over db outs)
      × AreValid s.taken_in

  pub Runs-IsHistory : {s : System S} → Runs blank params db s → IsHistory s
  unfolding handed_over
  Runs-IsHistory at_start = ([], here, refl, tt)
  Runs-IsHistory (then_ {s} before (takes r m q' fresh e)) =
      let (outs, reach, same, valid) = Runs-IsHistory before in
      let (d, is_d, d_valid, stored) = taken-IsPushed blank m r s.queue q' e in
      let all : List LogData = s.taken_in ++ taken r in
      (
        outs,
        next reach (
            subst
              (λ ds.
                History.Step blank
                  (record { queue = s.queue; taken_in = s.taken_in; given_out = outs })
                  (record { queue = q'; taken_in = s.taken_in ++ ds; given_out = outs }))
              (sym is_d) (pushes d m q' fresh stored)),
        same,
        AreValid-append s.taken_in (taken r) valid (subst AreValid (sym is_d) (d_valid, tt)),
      )
  Runs-IsHistory (then_ {s} before (drops r m q' e)) =
      let (outs, reach, same, valid) = Runs-IsHistory before in
      (
        outs,
        subst
            (λ q.
              Reach blank (start blank params)
                (record { queue = q; taken_in = s.taken_in; given_out = outs }))
            (dropped-same blank m r s.queue q' e) reach,
        same,
        valid,
      )
  Runs-IsHistory (then_ {s} before (serves q' db' e)) =
      let (outs, reach, same, valid) = Runs-IsHistory before in
      let (found, handed, step) = served s.queue q' s.db db' e in
      (
        outs ++ found,
        next reach (step blank s.taken_in outs),
        handed ∙ ap (λ x. handed_over x found) same ∙ handed_over-append db outs found,
        valid,
      )
