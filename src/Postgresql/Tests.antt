-- ===== src/Postgresql/Tests.antt =====
-- Runs of the driver, and of the two threads.
use iptracking.Postgresql.Listener.Session.{notified}
use iptracking.Prelude.{Option, none, arith, ℕ, ◌≡◌, refl, Bool, true, false, some, List, [], ◌∷◌}
use iptracking.Prelude.Int.{pos}
use iptracking.Prelude.Text.{codes}
use iptracking.LogData.{LogData}
use iptracking.Yaml.{Document, Node, nodes, scalar, mapping, Strtol}
use iptracking.Db.Calls.{run, IsBalanced}
use iptracking.Postgresql.{
  Postgresql, Library, main_conn, tuples, choose_conn, postgresql_alloc, log_stmt_query,
}
use iptracking.Postgresql.Driver.{callbacks, database_over, server_rows-IsRebuilt}
use iptracking.Db.Notification.{Registered}
use iptracking.Db.{Db, db_blocklist_enum_open}
use iptracking.Firewalld.{World, timer_elapsed}
use iptracking.Firewalld.Rebuild.{opened, IsRebuilt}
use iptracking.Firewalld.Tests.{ready}
use iptracking.Ipset.Tests.{
  Entries, Sets, named_sets, contents, added, named_sets-IsIpset, rebuild, production, old_sets,
}
use iptracking.Postgresql.Handles.{
  Operation, open_, close, log_one_event, enumerate, set_toggle, operate, held,
  postgresql-IsBalanced,
}
use iptracking.Postgresql.Summary.{
  AreSimilarAt, postgresql_summarize_to_log, postgresql_alloc-hides,
}
use iptracking.Db.Property.{scalar_at}
use iptracking.Postgresql.{db_conn_keys}
use iptracking.Postgresql.Listener.{
  System, Step, Reach, by_main, by_listener, registering, polling, notified, calling, start,
  registers, starts, is_notified, calls, at_start, then_,
}
use iptracking.Postgresql.Listener.Invariant.{Reach-calls_callback}
use iptracking.Postgresql.Listener.Faults.{removal-deadlocks}

abbrev rows : List (List ℕ)
rows = codes "10.1.2.3" ∷ codes "10.1.2.0/24" ∷ []

abbrev library : Bool → Library
library prepares = record {
  connectdb_params = λ keys values. true;
  asprintf_ok = true;
  prepare = λ query. prepares;
  exec_prepared = λ vs. true;
  exec = λ query. tuples rows;
  error_message = codes " no such function ";
  pthread_create = true;
  pthread_cancel = true;
  pthread_join = true;
}

abbrev no_number : Strtol
no_number s = (pos 0, 0)

-- A `user`, a `host`, and a `pamd` with a `schema`.
abbrev config : Document
config = nodes (
    scalar (codes "user")
    ∷ scalar (codes "ann")
    ∷ scalar (codes "host")
    ∷ scalar (codes "db.example")
    ∷ scalar (codes "pamd")
    ∷ mapping ((7, 8) ∷ [])
    ∷ scalar (codes "schema")
    ∷ scalar (codes "pam")
    ∷ [])

abbrev database : Node
database = mapping ((1, 2) ∷ (3, 4) ∷ (5, 6) ∷ [])

abbrev fresh : Postgresql
fresh = postgresql_alloc no_number config database false

keys_in_order : fresh.conn_keys ≡ codes "host" ∷ codes "user" ∷ []
unfolding postgresql_alloc
keys_in_order = refl

schema_in_query :
    log_stmt_query fresh.pam_schema ≡ codes "SELECT pam.log_one_event($1, $2, $3, $4, $5, $6, $7);"
unfolding postgresql_alloc log_stmt_query
schema_in_query = refl

-- The same with a password.
abbrev with_password : List ℕ → Document
with_password password = nodes (
    scalar (codes "user")
    ∷ scalar (codes "ann")
    ∷ scalar (codes "password")
    ∷ scalar password
    ∷ scalar (codes "pamd")
    ∷ mapping ((7, 8) ∷ [])
    ∷ scalar (codes "schema")
    ∷ scalar (codes "pam")
    ∷ [])

keys_are_similar :
    AreSimilarAt no_number
      (with_password (codes "one"))
      (with_password (codes "another"))
      database
      database
      db_conn_keys
unfolding scalar_at
keys_are_similar = grind arith

pam_schema_is_same :
    scalar_at no_number (with_password (codes "one")) database (codes "pamd.schema")
    ≡ scalar_at no_number (with_password (codes "another")) database (codes "pamd.schema")
unfolding scalar_at
pam_schema_is_same = refl

firewall_schema_is_same :
    scalar_at no_number (with_password (codes "one")) database (codes "firewalld.schema")
    ≡ scalar_at no_number (with_password (codes "another")) database (codes "firewalld.schema")
unfolding scalar_at
firewall_schema_is_same = refl

postgresql_alloc-hides_example :
    postgresql_summarize_to_log
      (postgresql_alloc no_number (with_password (codes "one")) database false)
    ≡ postgresql_summarize_to_log
        (postgresql_alloc no_number (with_password (codes "another")) database false)
postgresql_alloc-hides_example =
    postgresql_alloc-hides no_number (with_password (codes "one")) (with_password (codes "another"))
      database database false keys_are_similar pam_schema_is_same firewall_schema_is_same

abbrev event : LogData
event = record {
  dst_ipaddr = codes "10.0.0.1";
  src_ipaddr = codes "10.0.0.2";
  src_port = 5022;
  event = 1;
  sshd_pid = pos 317;
  uid = codes "ann";
  log_date = codes "2024-05-06 07:08:09";
}

abbrev operations : List Operation
operations =
    open_ (library false)
    ∷ open_ (library true)
    ∷ set_toggle (library true) true
    ∷ log_one_event (λ z. codes "0") (library true) event
    ∷ enumerate (library true) true
    ∷ close (library true)
    ∷ []

postgresql-IsBalanced_example : IsBalanced operate held fresh (run operate fresh operations)
postgresql-IsBalanced_example = postgresql-IsBalanced fresh operations

abbrev connected : Postgresql
connected = record fresh { db_conn = true }

connected-chosen : choose_conn false connected ≡ some main_conn
unfolding choose_conn postgresql_alloc
connected-chosen = refl

server_rows-IsRebuilt_example :
    (w : World Sets) × (timer_elapsed named_sets
        (db_blocklist_enum_open (
          some (
            database_over
              (callbacks (λ z. codes "0") no_number false (library true) true false)
              connected
              false))).0.0
        100
        300
        rebuild
        production
        (record { helper = opened false; kernel = old_sets; timer_abstime = 50; broadcasts = 0 })
      ≡ some w)
    × IsRebuilt Entries named_sets contents [] added named_sets-IsIpset rebuild production rows
        old_sets w.kernel
server_rows-IsRebuilt_example =
    server_rows-IsRebuilt (λ z. codes "0") no_number false (library true) false connected main_conn
      (codes "10.1.2.3") (codes "10.1.2.0/24" ∷ []) connected-chosen refl refl Entries named_sets
      contents [] added named_sets-IsIpset rebuild production ready old_sets 100 300 50 0 false

-- A callback is registered, and the listener runs.
abbrev locked : Bool → System → System
locked on s = record s { main = registering on; lock = by_main }

abbrev running : System
running = record start { callback = true; is_notify_running = true; listener = polling }

running-Reach : Reach running
running-Reach =
    then_ (locked true start) running
      (then_ start (locked true start) at_start (registers start true refl refl))
      (starts (locked true start) refl refl refl)

abbrev taken : System
taken = record running { listener = notified }

taken-Reach : Reach taken
taken-Reach = then_ running taken running-Reach (is_notified running refl)

abbrev in_callback : System
in_callback = record taken { listener = calling; lock = by_listener }

Reach-calls_callback_example : (in_callback.lock ≡ by_listener) × (in_callback.callback ≡ true)
Reach-calls_callback_example =
    Reach-calls_callback in_callback (then_ taken in_callback taken-Reach (calls taken refl refl))
      refl

removal-deadlocks_example :
    (t : System) × Step (locked false taken) t × Reach t × ((u : System) → Step t u → ⊥)
removal-deadlocks_example =
    removal-deadlocks (locked false taken)
      (then_ taken (locked false taken) taken-Reach (registers taken false refl refl)) refl refl
      refl

-- A callback is set, another one in its place, and that is removed.
abbrev registrations : List (Option ℕ × Option ℕ)
registrations = (some 7, none) ∷ (some 8, none) ∷ []
