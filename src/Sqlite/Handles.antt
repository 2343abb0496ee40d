-- ===== src/Sqlite/Handles.antt =====
-- The driver's handles: none is leaked, used after it was freed, or freed twice.
use iptracking.Prelude.{ℕ, ◌≡◌, Bool, false, Option, some, List, ◌++◌, if◌then◌else◌}
use iptracking.LogData.{LogData}
use iptracking.Db.Calls.{Held, Call, after_calls, IsBalanced}
use iptracking.Db.{Answer}
use iptracking.Sqlite.{Sqlite, Flag, Library, sqlite3_open, sqlite3_close, sqlite3_log_one_event}
use iptracking.Sqlite.Blocklist.{blocklist_enum_open, blocklist_enum_close}

-- The operations of the driver, with the library's answers. `enumerate` opens an enumerator of the block list
-- and closes it before anything else is done; a close of the database in between has no trace here.
pub data Operation : Type 0 where
  open_ : Library → Operation
  close : Operation
  log_one_event : Library → LogData → Operation
  enumerate : Library → Bool → List (Option (List ℕ)) → Operation

unfoldable pub operate : Sqlite → Operation → Sqlite × List Call
operate s (open_ lib) = let (r, calls) = sqlite3_open lib s in (r.1, calls)
operate s close = let (r, calls) = sqlite3_close s in (r.1, calls)
operate s (log_one_event lib d) = let (r, calls) = sqlite3_log_one_event lib s d in (r.1, calls)
operate s (enumerate lib malloc_ok rows) =
    let (e, calls) = blocklist_enum_open lib malloc_ok rows s in
    (s, calls ++ blocklist_enum_close e)

abbrev pub held : Sqlite → Held
held s = record {
  connections = if s.db_conn then 1 else 0;
  statements = if s.db_query then 1 else 0;
}

-- The statement stands on a connection.
abbrev pub IsTidy : Sqlite → Type 0
IsTidy s = s.db_conn ≡ false → s.db_query ≡ false

abbrev Keeps : Operation → Sqlite → Type 0
Keeps op s = IsTidy s → IsTidy (operate s op).0 × IsBalanced operate held s (operate s op)

abbrev IsKept : Sqlite → (Answer × Sqlite) × List Call → Type 0
IsKept s ((answer, end), calls) = IsTidy end × (after_calls calls (held s) ≡ some (held end))

instance_of : List ℕ → List Flag → Bool → Bool → Bool → Sqlite
instance_of name flags no_pam conn query = record {
  filename = name;
  flags = flags;
  no_pam_logging = no_pam;
  db_conn = conn;
  db_query = query;
}
