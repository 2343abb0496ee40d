-- ===== src/Pamd/Runloop.antt =====
-- The database thread from the connection on to the end of the program.
use iptracking.Prelude.{
  ℕ, zero, suc, ◌+◌, ◌≡◌, refl, true, false, Option, some, List, [], length, ◌>>=◌, if◌then◌else◌,
  ap, ◌∙◌, arith,
}
use iptracking.LogData.{LogData}
use iptracking.LogQueue.{LogQueue}
use iptracking.LogQueue.View.{Represents}
use iptracking.Db.{Db, db_open, db_close}
use iptracking.Pamd.Flow.{db_rounds, handed_over, db_rounds-logged}

-- The first loop of `db_runloop`: `n` is how many of the tests to come still find `is_running` set.
-- The database behind it, and how many tests are left.
unfoldable pub connecting : {S : Type 0} → ℕ → Option (Db S) → ℕ × Option (Db S)
unfolding db_open
connecting zero db = (zero, db)
connecting (suc n) db =
    let (answer, after) = db_open db in
    let again = connecting n after in if answer.0 then (n, after) else again

-- `db_runloop`, with the loop over the queue.
unfoldable pub db_runloop :
    {S : Type 0}
    → ℕ
    → (LogQueue → LogQueue)
    → LogQueue
    → Option (Db S)
    → Option (LogQueue × Option (Db S))
unfolding connecting db_close
db_runloop n meanwhile q db = do
  let (left, open_) = connecting n db
  (q', after) ← db_rounds left meanwhile q open_
  some (q', (db_close after).1)

-- The database can be opened after so many failures, and is then the second one.
pub data Opens {S : Type 0} : ℕ → Option (Db S) → Option (Db S) → Type 0 where
  at_once : (db : Option (Db S)) → (db_open db).0.0 ≡ true → Opens 0 db (db_open db).1
  later :
      (k : ℕ) (db open_ : Option (Db S))
      → (db_open db).0.0 ≡ false
      → Opens k (db_open db).1 open_
      → Opens (suc k) db open_

connecting-Opens :
    {S : Type 0} (k m : ℕ) (db open_ : Option (Db S))
    → Opens k db open_
    → connecting (suc (k + m)) db ≡ (m, open_)
unfolding connecting
connecting-Opens k m db open_ (at_once _ ok) =
    let same : 0 + m ≡ m = omega arith in rw ok (ap (λ n. (n, (db_open db).1)) same)
connecting-Opens k m db open_ (later j _ _ failed opens) =
    let same : suc j + m ≡ suc (j + m) = omega arith in
    rw failed
      (ap (λ n. connecting n (db_open db).1) same ∙ connecting-Opens j m (db_open db).1 open_ opens)

-- Where the database opens after `k` failures, and the program runs for these, for one round more, and
-- for a round for each event of the queue: each event is handed to the open database once, oldest
-- first, the queue is empty, and the database is closed.
pub db_runloop-logged :
    {S : Type 0} (k : ℕ) (meanwhile : LogQueue → LogQueue) (q : LogQueue) (db open_ : Option (Db S))
    (ds : List LogData)
    → Opens k db open_
    → Represents q ds
    → (q' : LogQueue) × (db_runloop (suc (k + length ds)) meanwhile q db
        ≡ some (q', (db_close (handed_over open_ ds)).1))
      × Represents q' []
unfolding db_runloop
db_runloop-logged k meanwhile q db open_ ds opens rep =
    let (q', took, empty) = db_rounds-logged meanwhile q open_ ds rep in
    (q', rw (connecting-Opens k (length ds) db open_ opens, took) refl, empty)
