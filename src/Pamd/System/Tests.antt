-- ===== src/Pamd/System/Tests.antt =====
-- Runs of the threads of the PAM daemon.
use iptracking.Prelude.{ℕ, suc, ◌≡◌, refl, true, false, Option, none, some, List, [], ◌∷◌, ◌++◌}
use iptracking.Prelude.Text.{codes}
use iptracking.LogData.{LogData, log_data_is_valid}
use iptracking.LogQueue.View.{Represents}
use iptracking.LogQueue.Tests.{
  blank, event, small, after, memory, pushed_once, small-IsSound, IsFresh-create,
}
use iptracking.Db.{Db, Driver}
use iptracking.Pamd.Flow.{db_rounds, handed_over}
use iptracking.LogQueue.{LogQueue, create}
use iptracking.LogQueue.Backoff.{done}
use iptracking.LogQueue.Backoff.Wait.{one_round}
use iptracking.Pamd.{record_read, on_connection}
use iptracking.Pamd.System.{System, takes, stored-IsTaken, Runs, at_start, then_, AreValid}
use iptracking.Pamd.System.Delivery.{Runs-delivers, Runs-drains}

-- A database that counts the events.
abbrev counting : Driver ℕ
counting = record {
  driver_name = codes "csvfile";
  alloc = λ doc n. some 0;
  has_valid_configuration = λ s. (true, none);
  summarize_to_log = λ s. [];
  open_ = λ s. ((true, none), s);
  close = λ s. ((true, none), s);
  log_one_event = λ s d. ((true, none), suc s);
  blocklist_enum_open = none;
  toggle = none;
}

abbrev pub counter : Option (Db ℕ)
counter = some (record {
  driver = counting;
  instance_state = 0;
  no_pam_logging = false;
  no_firewall = true;
  last_error = none;
  callback = none;
  context = none;
})

event-valid : log_data_is_valid (some event) ≡ true
unfolding log_data_is_valid
event-valid = refl

abbrev system : System ℕ
system = record { queue = after; db = counter; taken_in = event ∷ [] }

event-taken :
    on_connection blank (one_round memory) (record_read event) (create blank small)
    ≡ done true after
event-taken = stored-IsTaken blank event memory (create blank small) after event-valid pushed_once

system-Runs : Runs blank small counter system
system-Runs = then_ at_start (takes (record_read event) memory after IsFresh-create event-taken)

Runs-delivers_example :
    (outs ds : List LogData) × Represents after ds
    × (event ∷ [] ≡ outs ++ ds)
    × AreValid (event ∷ [])
    × (counter ≡ handed_over counter outs)
Runs-delivers_example = Runs-delivers blank small counter system small-IsSound system-Runs

Runs-drains_example :
    (n : ℕ) × (q' : LogQueue) × (db_rounds n (λ q. q) after counter
      ≡ some (q', handed_over counter (event ∷ [])))
    × Represents q' []
Runs-drains_example = Runs-drains blank small counter system (λ q. q) small-IsSound system-Runs
