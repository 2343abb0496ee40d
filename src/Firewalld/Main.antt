-- ===== src/Firewalld/Main.antt =====
-- The firewall daemon from its command line to its end (`main`, `config_read_yaml_file`).
pub mod Leaves
mod Tests
use iptracking.Prelude.{
  ℕ, ◌+◌, ◌≡◌, refl, Bool, true, false, not, Option, none, some, List, [], ◌∷◌, if◌then◌else◌, ap,
  ◌∙◌, map,
}
use iptracking.Prelude.Int.{ℤ, pos}
use iptracking.Prelude.Text.{codes, str_eq}
use iptracking.Startup.{
  Cli, help, version, flag, config, override, Startup, first_options, File, not_loaded, loaded,
}
use iptracking.Yaml.{Document, Node, mapping, Strtol, yaml_helper_doc_node_at_path}
use iptracking.Db.{
  Driver, Db, db_alloc, db_has_valid_configuration, db_open, db_close, db_dealloc,
  db_blocklist_async_notification_register,
}
use iptracking.Ipset.{Library, Helper, ipset_helper_destroy}
use iptracking.Ipset.Session.{ipset_helper_init}
use iptracking.Firewalld.{Settings, World, read_settings, config_validate}
use iptracking.Firewalld.Options.{Opt, other, overrides}
use iptracking.Firewalld.Daemon.{Event, after_events}

-- What the second loop sees of an option.
abbrev pub as_override : Cli Opt → Opt
as_override help = other
as_override version = other
as_override (flag f) = other
as_override (config path) = other
as_override (override o) = o

-- `*event_db`, where the mapping has a database.
unfoldable pub database_setting :
    {S : Type 0} → List (Driver S) → Strtol → Document → Node → Option (Db S)
unfolding yaml_helper_doc_node_at_path db_alloc
database_setting drivers strtol doc root =
    elim (yaml_helper_doc_node_at_path strtol doc (some root) (codes "database")) [
      | none ↦ none
      | some n ↦ db_alloc drivers strtol doc n true false
    ]

-- `config_read_yaml_file`; `none` is false, or the end of the program.
unfoldable pub config_read_yaml_file :
    {S : Type 0} → List (Driver S) → Strtol → File → Settings → Option (Settings × Option (Db S))
unfolding database_setting read_settings
config_read_yaml_file drivers strtol not_loaded c = none
config_read_yaml_file drivers strtol (loaded doc none) c = none
config_read_yaml_file drivers strtol (loaded doc (some (mapping ps))) c =
    elim (read_settings strtol doc (mapping ps) c) [
      | none ↦ none
      | some read ↦ some (read, database_setting drivers strtol doc (mapping ps))
    ]
config_read_yaml_file drivers strtol (loaded doc (some n)) c = none

-- How the program ends: after `--help` or `--version`, with the configuration refused, without a connection
-- to the database, by a fault in the threads, or with the database freed; and the IP sets then.
pub data End (S K : Type 0) : Type 0 where
  informed refused : End S K
  not_connected : K → End S K
  faulted : End S K
  ended : Option S → K → End S K

-- `config_validate`, over the database.
unfoldable pub validated : {S : Type 0} → Option (Db S) → Settings → Option Settings
unfolding config_validate db_has_valid_configuration
validated none c = config_validate false false c
validated (some db) c = config_validate true (db_has_valid_configuration (some db)).0 c

-- What `main` meets: the drivers, the files, the library for IP sets and whether a session of it opens, the
-- time at the start of the timer, and what then happens until a signal ends the threads.
pub record Surroundings (S K : Type 0) : Type 0 where
  pub drivers : List (Driver S)
  pub strtol : Strtol
  pub files : List ℕ → File
  pub lib : Library K
  pub has_memory : Bool
  pub has_session : Bool
  pub now : ℕ
  pub events : List Event

-- The callback and its context under the numbers by which a database knows them.
abbrev firewall_notify_ref : Option ℕ
firewall_notify_ref = some 0

abbrev context_ref : Option ℕ
context_ref = some 0

module _ {S K : Type 0} (env : Surroundings S K) where
  -- The threads and what comes behind them.
  unfoldable pub serve : Settings → Option (Db S) → Helper → K → End S K
  unfolding after_events db_close db_dealloc ipset_helper_destroy
  serve c db h k =
      elim (after_events env.lib c.check_interval c.rebuild c.production env.events
        (record { helper = h; kernel = k; timer_abstime = env.now + 1; broadcasts = 0 })) [
          | none ↦ faulted
          | some w ↦
              ended (db_dealloc (db_close db).1)
                (ipset_helper_destroy env.lib c.rebuild w.helper w.kernel).kernel
        ]

  -- `main` from `db_open` on.
  unfoldable pub connect : Settings → Option (Db S) → K → End S K
  unfolding serve db_open db_blocklist_async_notification_register ipset_helper_init
  connect c db k =
      let opened = db_open db in
      if not opened.0.0
      then not_connected k
      else elim (ipset_helper_init false env.has_memory env.has_session).helper [
        | none ↦ ended (db_dealloc opened.1) k
        | some h ↦
            serve c
              (db_blocklist_async_notification_register opened.1 firewall_notify_ref context_ref).1
              h k
      ]

  unfoldable pub main : List (Cli Opt) → Startup → Settings → K → End S K
  unfolding first_options config_read_yaml_file overrides validated connect
  main opts start defaults k = elim (first_options opts start) [
    | none ↦ informed
    | some s ↦
        elim (config_read_yaml_file env.drivers env.strtol (env.files s.config_filepath) defaults) [
          | none ↦ refused
          | some (read, db) ↦ elim (overrides env.strtol (map as_override opts) read) [
            | none ↦ refused
            | some c ↦ elim (validated db c) [ none ↦ refused | some v ↦ connect v db k ]
          ]
        ]
  ]
