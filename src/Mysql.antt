-- ===== src/Mysql.antt =====
-- libiptracking/db_drivers/db_instance_mysql.c: the driver over a MySQL server.
pub mod Blocklist
pub mod Handles
mod Tests
use iptracking.Prelude.{
  ℕ, Bool, true, false, not, Option, none, some, List, [], ◌∷◌, ◌==◌, if◌then◌else◌,
}
use iptracking.Prelude.Int.{ℤ, pos}
use iptracking.Prelude.Text.{codes}
use iptracking.LogData.{LogData, log_event_to_str}
use iptracking.Yaml.{Document, Node, Strtol, yaml_helper_doc_node_at_path, scalar_uint32_value}
use iptracking.Csv.{text_of}
use iptracking.Db.{Answer, trimmed}
use iptracking.Db.Shown.{Line, Printed, shown, in_decimal, pointer}
use iptracking.Db.Property.{scalar_at}
use iptracking.Db.Calls.{Value, text, Call, connect, disconnect, acquire, release, fault, send}

-- `db_instance_mysql_t`; `log_statement` tells whether the pointer is set.
pub record Mysql : Type 0 where
  pub host : Option (List ℕ)
  pub user : Option (List ℕ)
  pub passwd : Option (List ℕ)
  pub db : Option (List ℕ)
  pub port : ℕ
  pub unix_socket : Option (List ℕ)
  pub no_pam_logging : Bool
  pub is_connected : Bool
  pub log_statement : Bool

-- The number at the path, which is `db`, too.
unfoldable pub port_at : Strtol → Document → Node → ℕ → ℕ
unfolding yaml_helper_doc_node_at_path scalar_uint32_value
port_at strtol doc n mysql_port =
    elim (yaml_helper_doc_node_at_path strtol doc (some n) (codes "db")) [
      | none ↦ mysql_port
      | some found ↦ elim (scalar_uint32_value strtol found) [ none ↦ mysql_port | some v ↦ v ]
    ]

-- `__db_instance_mysql_alloc`, where memory is to be had; the options are set behind it by `db_alloc`, and
-- `mysql_port` is MYSQL_PORT. The database is stored in the place of the password, its own stays NULL.
unfoldable pub mysql_alloc : Strtol → ℕ → Document → Node → Bool → Mysql
unfolding scalar_at port_at
mysql_alloc strtol mysql_port doc n no_pam = record {
  host = scalar_at strtol doc n (codes "host");
  user = scalar_at strtol doc n (codes "user");
  passwd = elim (scalar_at strtol doc n (codes "db")) [
    | none ↦ scalar_at strtol doc n (codes "passwd")
    | some db ↦ some db
  ];
  db = none;
  port = port_at strtol doc n mysql_port;
  unix_socket = scalar_at strtol doc n (codes "unix_socket");
  no_pam_logging = no_pam;
  is_connected = false;
  log_statement = false;
}

unfoldable pub mysql_has_valid_configuration : Mysql → Answer
mysql_has_valid_configuration s = (true, none)

-- A text, or that it is not set.
unfoldable pub or_not_set : Option (List ℕ) → Printed
or_not_set none = shown (codes "<not-set>")
or_not_set (some s) = shown s

-- `__db_instance_mysql_summarize_to_log`. The line of the database looks at the user.
unfoldable pub mysql_summarize_to_log : Mysql → List Line
unfolding or_not_set
mysql_summarize_to_log s =
    (codes "driver_name", shown (codes "mysql"))
    ∷ (codes "host", or_not_set s.host)
    ∷ (codes "user", or_not_set s.user)
    ∷ (
      codes "password",
      elim s.passwd [ none ↦ shown (codes "<not-set>") | some _ ↦ shown (codes "********") ],
    )
    ∷ (codes "db", elim s.user [ none ↦ shown (codes "<not-set>") | some _ ↦ pointer s.db ])
    ∷ (codes "port", in_decimal s.port)
    ∷ (codes "unix_socket", or_not_set s.unix_socket)
    ∷ []

-- The library's answers to one operation: whether each call succeeds, in their order; the number of
-- parameters; and the texts of errors.
pub record Library : Type 0 where
  pub init : Bool
  pub real_connect : Mysql → Bool
  pub stmt_init : Bool
  pub stmt_prepare : List ℕ → Bool
  pub stmt_param_count : ℕ
  pub stmt_reset : Bool
  pub stmt_bind_param : Bool
  pub stmt_execute : Bool
  pub stmt_reset_after : Bool
  pub error : List ℕ
  pub stmt_error : List ℕ

abbrev pub log_stmt_query_str : List ℕ
log_stmt_query_str = codes "CALL  iptracking.log_one_event(?, ?, ?, ?, ?, ?, ?);"

abbrev pub blocklist_stmt_query_str : List ℕ
blocklist_stmt_query_str = codes "SELECT ip_entity FROM block_now"

abbrev pub log_stmt_nparams : ℕ
log_stmt_nparams = 7

-- `__db_instance_mysql_open` behind the connection, of a database with PAM logging: whether there is a
-- statement, it is prepared, and it has as many parameters as are expected.
unfoldable pub after_connect : List ℕ → Mysql → Bool → Bool → Bool → (Answer × Mysql) × List Call
unfolding trimmed
after_connect error s false prepared counted = (
  ((false, some (trimmed error)), record s { is_connected = false; log_statement = false }),
  connect ∷ disconnect ∷ [],
)
after_connect error s true false counted = (
  ((false, some (trimmed error)), record s { is_connected = false; log_statement = false }),
  connect ∷ acquire ∷ release ∷ disconnect ∷ [],
)
after_connect error s true true false = (
  (
    (
      false,
      some (
          codes
            "Number of query parameters in prepared statement does not match expected number of parameters"),
    ),
    record s { is_connected = false; log_statement = false },
  ),
  connect ∷ acquire ∷ release ∷ disconnect ∷ [],
)
after_connect error s true true true =
    (((true, none), record s { is_connected = true; log_statement = true }), connect ∷ acquire ∷ [])

-- `__db_instance_mysql_open`.
unfoldable pub mysql_open : Library → Mysql → (Answer × Mysql) × List Call
unfolding after_connect
mysql_open lib s =
    if s.is_connected
    then (((true, none), s), [])
    else if not lib.init
    then (((false, some (codes "Unable to initialize MYSQL handle")), s), [])
    else if not (lib.real_connect s)
    then (((false, some (codes "Unable to initialize MYSQL handle")), s), [])
    else if s.no_pam_logging
    then (((true, none), record s { is_connected = true }), connect ∷ [])
    else after_connect lib.error s lib.stmt_init (lib.stmt_prepare log_stmt_query_str)
        (lib.stmt_param_count == log_stmt_nparams)

-- `__db_instance_mysql_close`.
unfoldable pub mysql_close : Mysql → (Answer × Mysql) × List Call
mysql_close s =
    if s.is_connected
    then (
      ((true, none), record s { is_connected = false; log_statement = false }),
      (if s.log_statement then release ∷ disconnect ∷ [] else disconnect ∷ []),
    )
    else (((true, none), s), [])

-- The parameters of the statement, with the event's name; `decimal` is how `snprintf` prints a number.
unfoldable pub event_values : (ℤ → List ℕ) → LogData → List ℕ → List Value
unfolding text_of
event_values decimal d name =
    text (text_of d.dst_ipaddr)
    ∷ text (text_of d.src_ipaddr)
    ∷ text (decimal (pos d.src_port))
    ∷ text name
    ∷ text (decimal d.sshd_pid)
    ∷ text (text_of d.uid)
    ∷ text (text_of d.log_date)
    ∷ []

-- The body of the loop behind the first reset of the statement. `strlen` follows the name of an event that
-- has none.
unfoldable pub after_reset : (ℤ → List ℕ) → Library → LogData → Option (List ℕ) → Answer × List Call
unfolding trimmed event_values
after_reset decimal lib d none = ((false, none), fault ∷ [])
after_reset decimal lib d (some name) =
    if not lib.stmt_bind_param
    then ((false, some (trimmed lib.stmt_error)), [])
    else if not lib.stmt_execute
    then ((false, some (trimmed lib.stmt_error)), send (event_values decimal d name) ∷ [])
    else if not lib.stmt_reset_after
    then ((false, some (trimmed lib.stmt_error)), send (event_values decimal d name) ∷ [])
    else ((true, none), send (event_values decimal d name) ∷ [])

-- `__db_instance_mysql_log_one_event`. The statement is followed whether it is there or not.
unfoldable pub mysql_log_one_event :
    (ℤ → List ℕ) → Library → Mysql → LogData → (Answer × Mysql) × List Call
unfolding after_reset log_event_to_str trimmed
mysql_log_one_event decimal lib s d =
    if not s.is_connected
    then (((false, none), s), [])
    else if not s.log_statement
    then (((false, none), s), fault ∷ [])
    else if not lib.stmt_reset
    then (((false, some (trimmed lib.stmt_error)), s), [])
    else let (answer, calls) = after_reset decimal lib d (log_event_to_str d.event) in
      ((answer, s), calls)
