-- ===== src/Pamd.antt =====
-- pam-daemon/iptracking-pamd.c: the configuration, and the bodies of the two loops that put events into
-- the queue and take them out. The children have the option tables, the socket, the thread of the
-- database and the way the three threads end.
pub mod Flow
pub mod Options
pub mod Main
pub mod Runloop
pub mod Shutdown
pub mod Socket
pub mod System
pub mod Connection
mod Tests
use iptracking.Prelude.{
  ℕ, zero, suc, ◌+◌, ◌-◌, Bool, true, false, ◌&&◌, ◌||◌, not, Option, none, some, List, [], ◌∷◌,
  ◌++◌, ltb, leb, ◌==◌, if◌then◌else◌, length, ◌>>=◌,
}
use iptracking.Prelude.Int.{ℤ, pos, negsuc, ltb_ℤ, is_zero}
use iptracking.Prelude.Text.{codes}
use iptracking.LogData.{LogData, log_data_is_valid}
use iptracking.LogQueue.{Params, LogQueue, pop}
use iptracking.LogQueue.Backoff.{Round, PushEnd, push, done}
use iptracking.Yaml.{
  Document, Node, Strtol, yaml_helper_doc_node_at_path, scalar_value, scalar_int_value,
  scalar_uint32_value,
}
use iptracking.Db.{Db, db_log_one_event}

-- The static variables that the configuration sets.
pub record Settings : Type 0 where
  pub socket_filepath : List ℕ
  pub pool : Params

abbrev found_at : Strtol → Document → Node → List ℕ → Option Node
found_at strtol doc n path = yaml_helper_doc_node_at_path strtol doc (some n) path

-- A number that is missing keeps its value; one that cannot be read makes the whole reading fail.
unfoldable pub uint32_setting : Strtol → Document → Node → List ℕ → ℕ → Option ℕ
unfolding yaml_helper_doc_node_at_path scalar_uint32_value
uint32_setting strtol doc n path old = elim (found_at strtol doc n path) [
  | none ↦ some old
  | some v ↦ scalar_uint32_value strtol v
]

unfoldable pub int_setting : Strtol → Document → Node → List ℕ → ℤ → Option ℤ
unfolding yaml_helper_doc_node_at_path scalar_int_value
int_setting strtol doc n path old = elim (found_at strtol doc n path) [
  | none ↦ some old
  | some v ↦ scalar_int_value strtol v
]

unfoldable pub records_settings : Strtol → Document → Node → Params → Option Params
unfolding uint32_setting
records_settings strtol doc n p = do
  low ← uint32_setting strtol doc n (codes "min") p.min
  high ← uint32_setting strtol doc n (codes "max") p.max
  step ← uint32_setting strtol doc n (codes "delta") p.delta
  some (record p { min = low; max = high; delta = step })

unfoldable pub wait_settings : Strtol → Document → Node → Params → Option Params
unfolding int_setting
wait_settings strtol doc n p = do
  low ← int_setting strtol doc n (codes "min") p.wait_min
  high ← int_setting strtol doc n (codes "max") p.wait_max
  step ← int_setting strtol doc n (codes "delta") p.wait_delta
  threshold ← int_setting strtol doc n (codes "grow-threshold") p.grow_threshold
  some (record p { wait_min = low; wait_max = high; wait_delta = step; grow_threshold = threshold })

unfoldable pub socket_setting : Strtol → Document → Node → List ℕ → Option (List ℕ)
unfolding yaml_helper_doc_node_at_path scalar_value
socket_setting strtol doc n old = elim (found_at strtol doc n (codes "socket-file")) [
  | none ↦ some old
  | some v ↦ scalar_value v
]

-- The `pamd` part of `config_read_yaml_file`, over the loaded document.
unfoldable pub read_settings : Strtol → Document → Node → Settings → Option Settings
unfolding records_settings wait_settings socket_setting yaml_helper_doc_node_at_path
read_settings strtol doc root c = elim (found_at strtol doc root (codes "pamd")) [
  | none ↦ some c
  | some n ↦ do
    socket ← socket_setting strtol doc n c.socket_filepath
    with_records ← elim (found_at strtol doc n (codes "log-pool.records")) [
      | none ↦ some c.pool
      | some r ↦ records_settings strtol doc r c.pool
    ]
    with_waits ← elim (found_at strtol doc n (codes "log-pool.push-wait-seconds")) [
      | none ↦ some with_records
      | some w ↦ wait_settings strtol doc w with_records
    ]
    some (record { socket_filepath = socket; pool = with_waits })
]

-- `config_validate`: whether a database is configured, its configuration is valid, the socket's file
-- exists, and it can be removed.
unfoldable pub config_validate : Bool → Bool → Bool → Bool → Settings → Bool
config_validate has_db db_is_valid socket_exists removed c =
    let p = c.pool in
    if not has_db || not db_is_valid
    then false
    else if not (p.max == 0) && ltb p.max p.min
    then false
    else if not (is_zero p.wait_max) && ltb_ℤ p.wait_max p.wait_min
    then false
    else not socket_exists || removed

-- What `recv` gives: the bytes that were read as a record, another number of bytes, or an error.
pub data Received : Type 0 where
  record_read : LogData → Received
  wrong_size : ℕ → Received
  read_error : Received

-- A connection in `event_thread_entry`, from `recv` on: a record that is valid is pushed, all else is
-- dropped. The queue that the rounds of the push leave.
unfoldable pub on_connection : LogData → List Round → Received → LogQueue → PushEnd
unfolding log_data_is_valid
on_connection blank rounds (record_read d) q =
    if log_data_is_valid (some d) then push blank d rounds q else done false q
on_connection blank rounds (wrong_size n) q = done false q
on_connection blank rounds read_error q = done false q

-- A round of `db_runloop` from the pop on: the event, if there is one, is handed to the database, whose
-- answer is only logged.
unfoldable pub db_round :
    {S : Type 0}
    → (LogQueue → LogQueue)
    → LogQueue
    → Option (Db S)
    → Option (LogQueue × Option (Db S))
unfolding db_log_one_event
db_round meanwhile q db = do
  (found, q') ← pop meanwhile q
  some (q', elim found [ none ↦ db | some d ↦ (db_log_one_event db d).1 ])
