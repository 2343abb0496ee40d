-- ===== src/Sqlite.antt =====
-- libiptracking/db_drivers/db_instance_sqlite3.c: the driver over an SQLite file.
pub mod Blocklist
pub mod Handles
pub mod Statement
mod Tests
use iptracking.Prelude.{
  ℕ, zero, suc, Bool, true, false, ◌&&◌, Option, none, some, List, [], ◌∷◌, ◌++◌, if◌then◌else◌,
}
use iptracking.Prelude.Int.{ℤ, pos}
use iptracking.Prelude.Text.{codes, str_case_eq}
use iptracking.LogData.{LogData}
use iptracking.Yaml.{
  Document, Node, Strtol, no_node, scalar, sequence, mapping, get_node,
  yaml_helper_doc_node_at_path, scalar_value,
}
use iptracking.Csv.{text_of}
use iptracking.Db.{Answer, trimmed}
use iptracking.Db.Shown.{Line, shown, in_hexadecimal}
use iptracking.Db.Property.{scalar_at}
use iptracking.Db.Calls.{
  Value, null, text, number, Call, connect, disconnect, acquire, release, send,
}

-- The bits of the flags.
pub data Flag : Type 0 where
  readwrite uri memory nomutex fullmutex sharedcache privatecache nofollow : Flag

-- `db_instance_sqlite3_t`: the flags as the bits that were set, in that order, and whether the two
-- pointers are set.
pub record Sqlite : Type 0 where
  pub filename : List ℕ
  pub flags : List Flag
  pub no_pam_logging : Bool
  pub db_conn : Bool
  pub db_query : Bool

-- `__db_instance_sqlite3_flags`.
abbrev pub flag_table : List (List ℕ × Flag)
flag_table =
    (codes "URI", uri)
    ∷ (codes "MEMORY", memory)
    ∷ (codes "NOMUTEX", nomutex)
    ∷ (codes "FULLMUTEX", fullmutex)
    ∷ (codes "SHAREDCACHE", sharedcache)
    ∷ (codes "PRIVATECACHE", privatecache)
    ∷ (codes "NOFOLLOW", nofollow)
    ∷ []

unfoldable pub find_flag : List (List ℕ × Flag) → List ℕ → Option Flag
unfolding str_case_eq
find_flag [] v = none
find_flag ((name, flag) ∷ rest) v = if str_case_eq name v then some flag else find_flag rest v

-- The loop over the items of the sequence: `none` where one is no scalar. An item with no node, and a
-- name that is not in the table, adds nothing.
unfoldable pub read_flags : Document → List ℕ → List Flag → Option (List Flag)
unfolding get_node scalar_value find_flag
read_flags doc [] flags = some flags
read_flags doc (item ∷ items) flags = elim (get_node doc item) [
  | none ↦ read_flags doc items flags
  | some n ↦ elim (scalar_value n) [
    | none ↦ none
    | some v ↦ elim (find_flag flag_table v) [
      | none ↦ read_flags doc items flags
      | some flag ↦ read_flags doc items (flags ++ flag ∷ [])
    ]
  ]
]

unfoldable pub flags_at : Document → Option Node → Option (List Flag)
unfolding read_flags
flags_at doc none = some (readwrite ∷ [])
flags_at doc (some no_node) = none
flags_at doc (some (scalar v)) = none
flags_at doc (some (sequence items)) = read_flags doc items (readwrite ∷ [])
flags_at doc (some (mapping ps)) = none

abbrev instance_at : Bool → List ℕ → List Flag → Sqlite
instance_at no_pam name flags = record {
  filename = name;
  flags = flags;
  no_pam_logging = no_pam;
  db_conn = false;
  db_query = false;
}

-- `__db_instance_sqlite3_alloc`, where memory is to be had; the options are set behind it by `db_alloc`.
unfoldable pub sqlite3_alloc : Strtol → Document → Node → Bool → Option Sqlite
unfolding flags_at scalar_at
sqlite3_alloc strtol doc n no_pam =
    elim (flags_at doc (yaml_helper_doc_node_at_path strtol doc (some n) (codes "flags"))) [
      | none ↦ none
      | some flags ↦ elim (scalar_at strtol doc n (codes "uri")) [
        | some name ↦ some (instance_at no_pam name (flags ++ uri ∷ []))
        | none ↦ elim (scalar_at strtol doc n (codes "filename")) [
          | none ↦ none
          | some name ↦ some (instance_at no_pam name flags)
        ]
      ]
    ]

unfoldable pub sqlite3_has_valid_configuration : Sqlite → Answer
sqlite3_has_valid_configuration s = (true, none)

-- `__db_instance_sqlite3_summarize_to_log`, over the number that SQLite's constants make of the flags.
unfoldable pub sqlite3_summarize_to_log : (List Flag → ℕ) → Sqlite → List Line
sqlite3_summarize_to_log number_of s =
    (codes "driver_name", shown (codes "sqlite3"))
    ∷ (codes "filename", shown s.filename)
    ∷ (codes "flags", in_hexadecimal (number_of s.flags))
    ∷ []

-- What `sqlite3_open_v2` answers: a handle, or an error code and whether there is a handle with it.
pub data Opened : Type 0 where
  opened : Opened
  refused : ℕ → Bool → Opened

-- What `sqlite3_step` answers: a row with the text of its first column, the end, or an error.
pub data Stepped : Type 0 where
  row : Option (List ℕ) → Stepped
  done failed : Stepped

-- The library's answers to one operation. `prepare_v2` gives an error code, or `none` for SQLITE_OK;
-- `bind` tells by the parameter's number and value whether it is SQLITE_OK.
pub record Library : Type 0 where
  pub open_v2 : List ℕ → List Flag → Opened
  pub prepare_v2 : List ℕ → Option ℕ
  pub bind : ℕ → Value → Bool
  pub step : Stepped
  pub errstr : ℕ → List ℕ
  pub errmsg : List ℕ

abbrev pub log_stmt_query_str : List ℕ
log_stmt_query_str =
    codes
      "INSERT INTO inet_log (dst_ipaddr, src_ipaddr, src_port, log_event, uid, log_date) VALUES (?1, ?2, ?3, ?4, ?5, ?6, ?7)"

abbrev pub blocklist_stmt_query_str : List ℕ
blocklist_stmt_query_str = codes "SELECT ip_entity FROM firewall_block_now"

-- `__db_instance_sqlite3_open` behind the preparation of the statement, and behind the connection.
unfoldable pub after_prepare : (ℕ → List ℕ) → Sqlite → Option ℕ → (Answer × Sqlite) × List Call
unfolding trimmed
after_prepare errstr s none =
    (((true, none), record s { db_conn = true; db_query = true }), connect ∷ acquire ∷ [])
after_prepare errstr s (some rc) = (
  ((false, some (trimmed (errstr rc))), record s { db_conn = true; db_query = false }),
  connect ∷ [],
)

unfoldable pub after_open : Library → Sqlite → Opened → (Answer × Sqlite) × List Call
unfolding after_prepare trimmed
after_open lib s (refused rc false) = (((false, some (trimmed (lib.errstr rc))), s), [])
after_open lib s (refused rc true) =
    (((false, some (trimmed (lib.errstr rc))), record s { db_conn = true }), connect ∷ [])
after_open lib s opened =
    if s.no_pam_logging
    then (((true, none), record s { db_conn = true }), connect ∷ [])
    else after_prepare lib.errstr s (lib.prepare_v2 log_stmt_query_str)

-- `__db_instance_sqlite3_open`.
unfoldable pub sqlite3_open : Library → Sqlite → (Answer × Sqlite) × List Call
unfolding after_open
sqlite3_open lib s =
    if s.db_conn then (((true, none), s), []) else after_open lib s (lib.open_v2 s.filename s.flags)

-- `__db_instance_sqlite3_close`.
unfoldable pub sqlite3_close : Sqlite → (Answer × Sqlite) × List Call
sqlite3_close s =
    if s.db_conn
    then (
      ((true, none), record s { db_conn = false; db_query = false }),
      (if s.db_query then release ∷ disconnect ∷ [] else disconnect ∷ []),
    )
    else (((true, none), s), [])

-- The parameters of the statement, from the first on.
unfoldable pub event_values : LogData → List Value
unfolding text_of
event_values d =
    text (text_of d.dst_ipaddr)
    ∷ text (text_of d.src_ipaddr)
    ∷ number (pos d.src_port)
    ∷ number (pos d.event)
    ∷ number d.sshd_pid
    ∷ text (text_of d.uid)
    ∷ text (text_of d.log_date)
    ∷ []

unfoldable pub bind_all : (ℕ → Value → Bool) → ℕ → List Value → Bool
bind_all bind i [] = true
bind_all bind i (v ∷ vs) = let rest = bind_all bind (suc i) vs in bind i v && rest

unfoldable pub after_step : List ℕ → Stepped → Answer
unfolding trimmed
after_step errmsg done = (true, none)
after_step errmsg (row v) = (false, some (trimmed errmsg))
after_step errmsg failed = (false, some (trimmed errmsg))

-- `__db_instance_sqlite3_log_one_event`.
unfoldable pub sqlite3_log_one_event : Library → Sqlite → LogData → (Answer × Sqlite) × List Call
unfolding trimmed bind_all event_values after_step
sqlite3_log_one_event lib s d =
    if s.db_conn && s.db_query
    then if bind_all lib.bind 1 (event_values d)
      then ((after_step lib.errmsg lib.step, s), send (event_values d) ∷ [])
      else (((false, some (trimmed lib.errmsg)), s), [])
    else (((false, none), s), [])
