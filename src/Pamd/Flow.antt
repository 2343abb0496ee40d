-- ===== src/Pamd/Flow.antt =====
-- From the queue into the database, and what the accepted settings mean for the queue.
use iptracking.Prelude.{
  ℕ, zero, suc, ◌≤◌, ◌≡◌, refl, ◌≢◌, Bool, true, Option, some, List, [], ◌∷◌, arith, length, ◌>>=◌,
}
use iptracking.LogData.{LogData}
use iptracking.LogQueue.{LogQueue}
use iptracking.Prelude.Words.{u32_max}
use iptracking.LogQueue.Capacity.{IsSound}
use iptracking.LogQueue.View.{Represents}
use iptracking.LogQueue.Pop.{take_head-cons, pop-cons}
use iptracking.Db.{Db, db_log_one_event}
use iptracking.Pamd.{Settings, config_validate, db_round}

-- A round of the loop on a queue that holds events: the oldest is handed to the database, and the queue
-- holds the others in their order. The event has left the queue whatever the database answers.
pub db_round-cons :
    {S : Type 0} (meanwhile : LogQueue → LogQueue) (q : LogQueue) (db : Option (Db S)) (d : LogData)
    (ds : List LogData)
    → Represents q (d ∷ ds)
    → (q' : LogQueue) × (db_round meanwhile q db ≡ some (q', (db_log_one_event db d).1))
      × Represents q' ds
unfolding db_round
db_round-cons meanwhile q db d ds rep =
    let (q', took, rest, same) = take_head-cons q d ds rep in
    (q', rw (pop-cons meanwhile q d ds rep, took) refl, rest)

-- Rounds one after another.
pub db_rounds :
    {S : Type 0}
    → ℕ
    → (LogQueue → LogQueue)
    → LogQueue
    → Option (Db S)
    → Option (LogQueue × Option (Db S))
db_rounds zero meanwhile q db = some (q, db)
db_rounds (suc n) meanwhile q db = do
  (q', db') ← db_round meanwhile q db
  db_rounds n meanwhile q' db'

-- The database after the events were handed to it one by one.
unfoldable pub handed_over : {S : Type 0} → Option (Db S) → List LogData → Option (Db S)
handed_over db [] = db
handed_over db (d ∷ ds) = handed_over (db_log_one_event db d).1 ds

-- On a queue that holds the events `ds`, as many rounds of the database loop as there are events:
-- each event is handed to the database once, oldest first, and the queue is empty.
pub db_rounds-logged :
    {S : Type 0} (meanwhile : LogQueue → LogQueue) (q : LogQueue) (db : Option (Db S))
    (ds : List LogData)
    → Represents q ds
    → (q' : LogQueue) × (db_rounds (length ds) meanwhile q db ≡ some (q', handed_over db ds))
      × Represents q' []
unfolding db_rounds handed_over
db_rounds-logged meanwhile q db [] rep = (q, refl, rep)
db_rounds-logged meanwhile q db (d ∷ ds) rep =
    let (q1, first, rest) = db_round-cons meanwhile q db d ds rep in
    let (q2, later, none_left) = db_rounds-logged meanwhile q1 (db_log_one_event db d).1 ds rest in
    (q2, rw first later, none_left)

-- Settings of 32 bits that are accepted, with at least one record at the start and one for each
-- growth: the queue's parameters are sound.
pub config_validate-IsSound :
    (has_db db_is_valid socket_exists removed : Bool) (c : Settings)
    → config_validate has_db db_is_valid socket_exists removed c ≡ true
    → c.pool.min ≢ 0
    → c.pool.delta ≢ 0
    → c.pool.min ≤ u32_max
    → c.pool.max ≤ u32_max
    → IsSound c.pool
unfolding config_validate
config_validate-IsSound has_db db_is_valid socket_exists removed c ok min delta min_fits max_fits =
    record {
      min_pos = omega arith;
      delta_pos = omega arith;
      min_fits = min_fits;
      max_fits = max_fits;
      ordered = λ limited. ground arith;
    }
