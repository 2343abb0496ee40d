-- ===== src/Sqlite/Tests.antt =====
-- Runs of the driver, with a library that refuses statements as SQLite does.
use iptracking.Prelude.{ℕ, ◌≡◌, refl, true, false, Option, none, some, List, [], ◌∷◌, if◌then◌else◌}
use iptracking.Prelude.Int.{pos}
use iptracking.Prelude.Text.{codes}
use iptracking.LogData.{LogData}
use iptracking.Yaml.{nodes, scalar, sequence}
use iptracking.Db.Calls.{run}
use iptracking.Sqlite.{
  Sqlite, readwrite, memory, nofollow, opened, done, Library, sqlite3_log_one_event, flags_at,
  blocklist_stmt_query_str,
}
use iptracking.Sqlite.Handles.{Operation, open_, close, log_one_event, enumerate, operate}
use iptracking.Sqlite.Statement.{is_uneven, RefusesUneven, statement-never_logs}

abbrev library : Library
library = record {
  open_v2 = λ name flags. opened;
  prepare_v2 = λ query. if is_uneven query then some 1 else none;
  bind = λ i v. true;
  step = done;
  errstr = λ rc. codes "SQL logic error";
  errmsg = codes "not an error";
}

abbrev fresh : Sqlite
fresh = record {
  filename = codes "/tmp/log.db";
  flags = readwrite ∷ [];
  no_pam_logging = false;
  db_conn = false;
  db_query = false;
}

abbrev event : LogData
event = record {
  dst_ipaddr = codes "10.0.0.1";
  src_ipaddr = codes "10.0.0.2";
  src_port = 5022;
  event = 1;
  sshd_pid = pos 317;
  uid = codes "ann";
  log_date = codes "2024-05-06 07:08:09";
}

abbrev rows : List (Option (List ℕ))
rows = some (codes "10.1.2.3") ∷ none ∷ some (codes "10.1.2.4") ∷ []

abbrev operations : List Operation
operations =
    open_ library
    ∷ enumerate library true rows
    ∷ log_one_event library event
    ∷ close
    ∷ open_ library
    ∷ []

-- Names are known in any case, unknown ones are passed over.
flags_read :
    flags_at
      (nodes (scalar (codes "memory") ∷ scalar (codes "WAL") ∷ scalar (codes "NoFollow") ∷ []))
      (some (sequence (1 ∷ 2 ∷ 3 ∷ [])))
    ≡ some (readwrite ∷ memory ∷ nofollow ∷ [])
unfolding flags_at
flags_read = refl

library-RefusesUneven : RefusesUneven library
library-RefusesUneven query uneven = rw uneven (λ e. cc)

statement-never_logs_example :
    sqlite3_log_one_event library (run operate fresh operations).0 event
    ≡ (((false, none), (run operate fresh operations).0), [])
statement-never_logs_example =
    statement-never_logs fresh operations (library-RefusesUneven, (library-RefusesUneven, tt)) refl
      library event

blocklist_prepared : library.prepare_v2 blocklist_stmt_query_str ≡ none
unfolding is_uneven
blocklist_prepared = refl
