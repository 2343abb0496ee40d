-- ===== src/Mysql/Tests.antt =====
-- Runs of the driver, with a server that refuses at different points.
use iptracking.Prelude.{ℕ, ◌≡◌, refl, true, false, Option, some, List, [], ◌∷◌}
use iptracking.Prelude.Int.{pos}
use iptracking.Prelude.Text.{codes}
use iptracking.LogData.{LogData}
use iptracking.Yaml.{Document, nodes, scalar, mapping, Strtol}
use iptracking.Db.Calls.{connect, disconnect, acquire, release}
use iptracking.Mysql.{Mysql, Library, mysql_alloc, mysql_open}
use iptracking.Mysql.Blocklist.{Query}
use iptracking.Mysql.Handles.{Operation, open_, close, log_one_event, enumerate}

-- The statement has `nparams` parameters.
abbrev library : ℕ → Library
library nparams = record {
  init = true;
  real_connect = λ s. true;
  stmt_init = true;
  stmt_prepare = λ query. true;
  stmt_param_count = nparams;
  stmt_reset = true;
  stmt_bind_param = true;
  stmt_execute = true;
  stmt_reset_after = true;
  error = [];
  stmt_error = [];
}

abbrev no_number : Strtol
no_number s = (pos 0, 0)

abbrev config : Document
config = nodes (
    mapping ((2, 3) ∷ (4, 5) ∷ [])
    ∷ scalar (codes "passwd")
    ∷ scalar (codes "secret")
    ∷ scalar (codes "db")
    ∷ scalar (codes "iptracking")
    ∷ [])

abbrev fresh : Mysql
fresh = mysql_alloc no_number 3306 config (mapping ((2, 3) ∷ (4, 5) ∷ [])) false

-- The name of the database takes the place of the password.
db_as_passwd : fresh.passwd ≡ some (codes "iptracking")
unfolding mysql_alloc
db_as_passwd = refl

refused_for_count : (mysql_open (library 6) fresh).1 ≡ connect ∷ acquire ∷ release ∷ disconnect ∷ []
unfolding mysql_open mysql_alloc
refused_for_count = refl

abbrev event : LogData
event = record {
  dst_ipaddr = codes "10.0.0.1";
  src_ipaddr = codes "10.0.0.2";
  src_port = 5022;
  event = 1;
  sshd_pid = pos 317;
  uid = codes "ann";
  log_date = codes "2024-05-06 07:08:09";
}

abbrev query : Query
query = record {
  stmt_init = true;
  stmt_prepare = λ query. true;
  malloc_ok = true;
  stmt_bind_result = true;
  stmt_execute = false;
  rows = [];
}

abbrev operations : List Operation
operations =
    open_ (library 6)
    ∷ open_ (library 7)
    ∷ log_one_event (λ z. codes "0") (library 7) event
    ∷ enumerate query
    ∷ close
    ∷ []

abbrev rows : List (Option (List ℕ))
rows = some (codes "10.1.2.3") ∷ some [] ∷ some (codes "10.1.2.4") ∷ []
