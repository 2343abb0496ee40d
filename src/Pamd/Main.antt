-- ===== src/Pamd/Main.antt =====
-- The PAM daemon from its command line to its threads, and behind them (`main`, `config_read_yaml_file`).
use iptracking.Prelude.{ℕ, Bool, true, false, Option, none, some, List, if◌then◌else◌, map, ◌>>=◌}
use iptracking.Prelude.Text.{codes}
use iptracking.Startup.{
  Cli, help, version, flag, config, override, Startup, first_options, File, not_loaded, loaded,
}
use iptracking.LogData.{LogData}
use iptracking.LogQueue.{LogQueue, create, destroy}
use iptracking.LogQueue.Chain.{Ptr}
use iptracking.Yaml.{Document, Node, mapping, Strtol, yaml_helper_doc_node_at_path}
use iptracking.Db.{Driver, Db, db_alloc, db_has_valid_configuration, db_dealloc}
use iptracking.Pamd.{Settings, read_settings, config_validate}
use iptracking.Pamd.Options.{Opt, other, Timing, overrides}

-- What the second loop sees of an option.
abbrev pub as_override : Cli Opt → Opt
as_override help = other
as_override version = other
as_override (flag f) = other
as_override (config path) = other
as_override (override o) = o

-- `*event_db`, which keeps what was there where the mapping has no database.
unfoldable pub database_setting :
    {S : Type 0} → List (Driver S) → Strtol → Document → Node → Option (Db S) → Option (Db S)
unfolding yaml_helper_doc_node_at_path db_alloc
database_setting drivers strtol doc root before =
    elim (yaml_helper_doc_node_at_path strtol doc (some root) (codes "database")) [
      | none ↦ before
      | some n ↦ db_alloc drivers strtol doc n false true
    ]

-- `config_read_yaml_file`; `none` is false, or the end of the program.
unfoldable pub config_read_yaml_file :
    {S : Type 0}
    → List (Driver S)
    → Strtol
    → File
    → Settings
    → Option (Db S)
    → Option (Settings × Option (Db S))
unfolding database_setting read_settings
config_read_yaml_file drivers strtol not_loaded c before = none
config_read_yaml_file drivers strtol (loaded doc none) c before = none
config_read_yaml_file drivers strtol (loaded doc (some (mapping ps))) c before =
    elim (read_settings strtol doc (mapping ps) c) [
      | none ↦ none
      | some read ↦ some (read, database_setting drivers strtol doc (mapping ps) before)
    ]
config_read_yaml_file drivers strtol (loaded doc (some n)) c before = none

unfoldable pub validated : {S : Type 0} → Option (Db S) → Bool → Bool → Settings → Bool
unfolding config_validate db_has_valid_configuration
validated none socket_exists removed c = config_validate false false socket_exists removed c
validated (some db) socket_exists removed c =
    config_validate true (db_has_valid_configuration (some db)).0 socket_exists removed c

-- What `main` meets. `before` stands for `tc.db`, which nothing is stored into before the configuration is
-- read; `somaxconn` is the system's.
pub record Surroundings (S : Type 0) : Type 0 where
  pub drivers : List (Driver S)
  pub strtol : Strtol
  pub files : List ℕ → File
  pub before : Option (Db S)
  pub socket_exists : Bool
  pub removed : Bool
  pub somaxconn : ℕ
  pub has_memory : Bool
  pub blank : LogData

-- What the threads begin with: the queue, `none` where it could not be made, and the database.
pub record Context (S : Type 0) : Type 0 where
  pub queue : Option LogQueue
  pub db : Option (Db S)
  pub timing : Timing

-- `main` up to the threads; `none` is the end of the program.
unfoldable pub prepare :
    {S : Type 0}
    → Surroundings S
    → List (Cli Opt)
    → Startup
    → Settings
    → Timing
    → Option (Context S)
unfolding first_options config_read_yaml_file overrides validated
prepare env opts start defaults timing = do
  s ← first_options opts start
  (c, db) ←
      config_read_yaml_file env.drivers env.strtol (env.files s.config_filepath) defaults env.before
  t ← overrides env.strtol env.somaxconn (map as_override opts) timing
  if validated db env.socket_exists env.removed c
      then some (record {
        queue = if env.has_memory then some (create env.blank c.pool) else none;
        db = db;
        timing = t;
      })
      else none

-- `main` behind the threads: the database that is freed, the pools that are, and the queue's reference.
unfoldable pub finish : {S : Type 0} → Context S → Option (Option S × List Ptr × Option LogQueue)
unfolding db_dealloc
finish tc = do (pools, queue) ← destroy tc.queue; some (db_dealloc tc.db, pools, queue)
