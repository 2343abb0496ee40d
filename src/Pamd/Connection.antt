-- ===== src/Pamd/Connection.antt =====
-- What a connection to the event thread does to the queue.
use iptracking.Prelude.{◌≡◌, inl, inr, true, false, some, List, [], ◌∷◌, ◌++◌, Bool-cases}
use iptracking.LogData.{LogData, log_data_is_valid}
use iptracking.LogQueue.{LogQueue}
use iptracking.LogQueue.Capacity.{IsSound}
use iptracking.LogQueue.View.{Represents}
use iptracking.LogQueue.Backoff.{Round, PushEnd, faulted, done, sleeping, push}
use iptracking.LogQueue.Backoff.Wait.{AreFair, EndSpec, push-EndSpec}
use iptracking.Pamd.{Received, record_read, wrong_size, read_error, on_connection}

-- What was taken is a valid record that stands at the end of the queue; in any other case there is a
-- queue, too.
abbrev pub TakenSpec : Received → PushEnd → Type 0
TakenSpec r faulted = ⊥
TakenSpec (record_read d) (done true q) =
    (log_data_is_valid (some d) ≡ true) × ((ds : List LogData) × Represents q (ds ++ d ∷ []))
TakenSpec (wrong_size n) (done true q) = ⊥
TakenSpec read_error (done true q) = ⊥
TakenSpec r (done false q) = (ds : List LogData) × Represents q ds
TakenSpec r (sleeping q w) = (ds : List LogData) × Represents q ds

taken_of_push :
    (d : LogData) (end : PushEnd)
    → log_data_is_valid (some d) ≡ true
    → EndSpec d end
    → TakenSpec (record_read d) end
taken_of_push d faulted valid spec = spec
taken_of_push d (done true q) valid spec = (valid, spec)
taken_of_push d (done false q) valid spec = spec
taken_of_push d (sleeping q w) valid spec = spec

-- On a queue with sound parameters, where the other threads leave a queue behind them in each wait and
-- the allocator's memory is in no queue: whatever a client sends, the thread does not crash; what it
-- takes is a whole record that `log_data_is_valid` accepts, which then stands at the end of the queue;
-- and in every other case a queue is left.
pub on_connection-TakenSpec :
    (blank : LogData) (rounds : List Round) (r : Received) (q : LogQueue) (ds : List LogData)
    → AreFair rounds q
    → Represents q ds
    → IsSound q.params
    → TakenSpec r (on_connection blank rounds r q)
unfolding on_connection
on_connection-TakenSpec blank rounds (wrong_size n) q ds fair rep s = (ds, rep)
on_connection-TakenSpec blank rounds read_error q ds fair rep s = (ds, rep)
on_connection-TakenSpec blank rounds (record_read d) q ds fair rep s =
    elim (Bool-cases (log_data_is_valid (some d))) [
      | inl valid ↦ rw valid (
          taken_of_push d (push blank d rounds q) valid
            (push-EndSpec blank d rounds q ds fair rep s))
      | inr invalid ↦ rw invalid (ds, rep)
    ]
