-- ===== src/Postgresql.antt =====
-- libiptracking/db_drivers/db_instance_postgresql.c: the driver over a PostgreSQL server. The thread that
-- listens for notifications is in Postgresql/Listener.antt.
pub mod Blocklist
pub mod Configuration
pub mod Driver
pub mod Handles
pub mod Listener
pub mod Registered
pub mod Summary
mod Tests
use iptracking.Prelude.{
  ℕ, Bool, true, false, not, Option, none, some, List, [], ◌∷◌, ◌++◌, ◌&&◌, if◌then◌else◌,
}
use iptracking.Prelude.Int.{ℤ, pos}
use iptracking.Prelude.Text.{codes, is_empty}
use iptracking.LogData.{LogData, log_event_to_str}
use iptracking.Yaml.{Document, Node, Strtol}
use iptracking.Csv.{text_of}
use iptracking.Db.{Answer, trimmed}
use iptracking.Db.Property.{scalar_at}
use iptracking.Db.Calls.{Value, null, text, Call, connect, disconnect, acquire, release, send}

-- `db_instance_postgresql_t`. `callback` tells whether a notification callback is set in the base;
-- `db_conn` and `db_conn_async` whether the pointers are set.
pub record Postgresql : Type 0 where
  pub conn_keys : List (List ℕ)
  pub conn_values : List (List ℕ)
  pub pam_schema : Option (List ℕ)
  pub firewall_schema : Option (List ℕ)
  pub firewall_notify_channel : Option (List ℕ)
  pub no_pam_logging : Bool
  pub callback : Bool
  pub db_conn : Bool
  pub db_conn_async : Bool
  pub is_notify_running : Bool

abbrev pub db_conn_keys : List (List ℕ)
db_conn_keys =
    codes "host"
    ∷ codes "hostaddr"
    ∷ codes "port"
    ∷ codes "dbname"
    ∷ codes "user"
    ∷ codes "password"
    ∷ codes "passfile"
    ∷ codes "require_auth"
    ∷ codes "channel_binding"
    ∷ codes "connect_timeout"
    ∷ codes "client_encoding"
    ∷ codes "options"
    ∷ codes "application_name"
    ∷ codes "fallback_application_name"
    ∷ codes "keepalives"
    ∷ codes "keepalives_idle"
    ∷ codes "keepalives_interval"
    ∷ codes "keepalives_count"
    ∷ codes "tcp_user_timeout"
    ∷ codes "sslmode"
    ∷ codes "requiressl"
    ∷ codes "sslnegotiation"
    ∷ codes "sslcompression"
    ∷ codes "sslcert"
    ∷ codes "sslkey"
    ∷ codes "sslpassword"
    ∷ codes "sslcertmode"
    ∷ codes "sslrootcert"
    ∷ codes "sslcrl"
    ∷ codes "sslcrldir"
    ∷ codes "sslsni"
    ∷ codes "requirepeer"
    ∷ codes "ssl_min_protocol_version"
    ∷ codes "ssl_max_protocol_version"
    ∷ codes "krbsrvname"
    ∷ codes "gsslib"
    ∷ codes "gssdelegation"
    ∷ codes "service"
    ∷ codes "target_session_attrs"
    ∷ codes "load_balance_hosts"
    ∷ []

-- A key that has a scalar goes before those behind it, and so does its scalar.
unfoldable pub with_key :
    List ℕ → Option (List ℕ) → List (List ℕ) × List (List ℕ) → List (List ℕ) × List (List ℕ)
with_key key none (keywords, values) = (keywords, values)
with_key key (some v) (keywords, values) = (key ∷ keywords, v ∷ values)

-- The loop over the keys: the keywords and the values that were found, in two arrays.
unfoldable pub read_keys : Strtol → Document → Node → List (List ℕ) → List (List ℕ) × List (List ℕ)
unfolding scalar_at with_key
read_keys strtol doc n [] = ([], [])
read_keys strtol doc n (key ∷ keys) =
    let rest = read_keys strtol doc n keys in with_key key (scalar_at strtol doc n key) rest

-- `__db_instance_postgresql_alloc`, where memory is to be had; the options are set behind it by
-- `db_alloc`.
unfoldable pub postgresql_alloc : Strtol → Document → Node → Bool → Postgresql
unfolding read_keys scalar_at
postgresql_alloc strtol doc n no_pam =
    let (keywords, values) = read_keys strtol doc n db_conn_keys in
    record {
      conn_keys = keywords;
      conn_values = values;
      pam_schema = scalar_at strtol doc n (codes "pamd.schema");
      firewall_schema = scalar_at strtol doc n (codes "firewalld.schema");
      firewall_notify_channel = scalar_at strtol doc n (codes "firewalld.notify-channel");
      no_pam_logging = no_pam;
      callback = false;
      db_conn = false;
      db_conn_async = false;
      is_notify_running = false;
    }

-- What `PQexec` answers to a query: no result, one that has no rows by its status, or the first column
-- of the rows.
pub data Result : Type 0 where
  no_result no_tuples : Result
  tuples : List (List ℕ) → Result

-- The answers of the library and of the threads to one operation: whether each call succeeds, the
-- result of the block list's query, and the text of an error.
pub record Library : Type 0 where
  pub connectdb_params : List (List ℕ) → List (List ℕ) → Bool
  pub asprintf_ok : Bool
  pub prepare : List ℕ → Bool
  pub exec_prepared : List Value → Bool
  pub exec : List ℕ → Result
  pub error_message : List ℕ
  pub pthread_create : Bool
  pub pthread_cancel : Bool
  pub pthread_join : Bool

-- A schema and a dot, where there is one and it is not empty.
unfoldable pub schema_prefix : Option (List ℕ) → List ℕ
schema_prefix none = []
schema_prefix (some schema) = if is_empty schema then [] else schema ++ codes "."

unfoldable pub log_stmt_query : Option (List ℕ) → List ℕ
unfolding schema_prefix
log_stmt_query schema =
    codes "SELECT " ++ (schema_prefix schema ++ codes "log_one_event($1, $2, $3, $4, $5, $6, $7);")

-- `__db_instance_postgresql_blocklist_async_notification_toggle`.
unfoldable pub toggle : Library → Postgresql → Bool → Bool × Postgresql
toggle lib s true =
    if s.is_notify_running
    then (false, s)
    else if lib.pthread_create
    then (true, record s { is_notify_running = true })
    else (false, record s { is_notify_running = false })
toggle lib s false =
    if s.is_notify_running
    then (lib.pthread_cancel && lib.pthread_join, record s { is_notify_running = false })
    else (false, s)

-- The end of `__db_instance_postgresql_open`, on a connection.
unfoldable pub started : Library → Postgresql → Postgresql
unfolding toggle
started lib s = if s.callback then (toggle lib s true).1 else s

-- `__db_instance_postgresql_open` behind the connection, of a database with PAM logging: whether the
-- query could be printed, and was prepared.
unfoldable pub after_connect :
    Library → Postgresql → Bool → Bool → (Answer × Postgresql) × List Call
unfolding started trimmed
after_connect lib s false prepared = (
  (
    (false, some (codes "failed to generate prepared query statement")),
    record s { db_conn = false },
  ),
  connect ∷ disconnect ∷ [],
)
after_connect lib s true false = (
  ((false, some (trimmed lib.error_message)), record s { db_conn = false }),
  connect ∷ acquire ∷ release ∷ disconnect ∷ [],
)
after_connect lib s true true =
    (((true, none), started lib (record s { db_conn = true })), connect ∷ acquire ∷ release ∷ [])

-- `__db_instance_postgresql_open`.
unfoldable pub postgresql_open : Library → Postgresql → (Answer × Postgresql) × List Call
unfolding after_connect started log_stmt_query
postgresql_open lib s =
    if s.db_conn
    then (((true, none), s), [])
    else if not (lib.connectdb_params s.conn_keys s.conn_values)
    then (((false, some (codes "General connection failure")), s), [])
    else if s.no_pam_logging
    then (((true, none), started lib (record s { db_conn = true })), connect ∷ [])
    else after_connect lib s lib.asprintf_ok (lib.prepare (log_stmt_query s.pam_schema))

-- `__db_instance_postgresql_close`.
unfoldable pub postgresql_close : Library → Postgresql → (Answer × Postgresql) × List Call
unfolding toggle
postgresql_close lib s =
    if s.db_conn
    then (((true, none), record (toggle lib s false).1 { db_conn = false }), disconnect ∷ [])
    else (((true, none), s), [])

-- The two connections, and the one that `__db_instance_postgresql_choose_conn` gives to a thread: its own
-- to the listener, if there is one.
pub data Conn : Type 0 where
  main_conn async_conn : Conn

unfoldable pub choose_conn : Bool → Postgresql → Option Conn
choose_conn is_async_thread s =
    if s.db_conn_async && is_async_thread
    then some async_conn
    else if s.db_conn
    then some main_conn
    else none

-- The parameters of the statement; `decimal` is how `snprintf` prints a number.
unfoldable pub event_values : (ℤ → List ℕ) → LogData → List Value
unfolding text_of log_event_to_str
event_values decimal d =
    text (text_of d.dst_ipaddr)
    ∷ text (text_of d.src_ipaddr)
    ∷ text (decimal (pos d.src_port))
    ∷ elim (log_event_to_str d.event) [ none ↦ null | some name ↦ text name ]
    ∷ text (decimal d.sshd_pid)
    ∷ text (text_of d.uid)
    ∷ text (text_of d.log_date)
    ∷ []

unfoldable pub logged_answer : Library → Bool → Answer
unfolding trimmed
logged_answer lib true = (true, none)
logged_answer lib false = (false, some (trimmed lib.error_message))

-- `__db_instance_postgresql_log_one_event` on the connection that was chosen.
unfoldable pub log_on :
    (ℤ → List ℕ) → Library → LogData → Option Conn → Answer × Option (Conn × List Call)
unfolding event_values logged_answer
log_on decimal lib d none = ((false, none), none)
log_on decimal lib d (some c) = (
  logged_answer lib (lib.exec_prepared (event_values decimal d)),
  some (c, send (event_values decimal d) ∷ acquire ∷ release ∷ []),
)

-- `__db_instance_postgresql_log_one_event`: the connection it uses, and its calls there.
unfoldable pub postgresql_log_one_event :
    (ℤ → List ℕ) → Library → Bool → Postgresql → LogData → Answer × Option (Conn × List Call)
unfolding choose_conn log_on
postgresql_log_one_event decimal lib is_async_thread s d =
    log_on decimal lib d (choose_conn is_async_thread s)
