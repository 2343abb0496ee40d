-- ===== src/Firewalld/Main/Tests.antt =====
-- A run of the firewall daemon.
use iptracking.Prelude.{ℕ, ◌≡◌, refl, Bool, true, false, Option, none, some, List, [], ◌∷◌, map}
use iptracking.Prelude.Int.{pos, ◌+ℤ◌, ◌-ℤ◌}
use iptracking.Prelude.Text.{codes}
use iptracking.Logging.{verbose_flag}
use iptracking.Yaml.{Document, nodes, scalar, mapping, Strtol}
use iptracking.Db.{
  db_dealloc, db_close, db_blocklist_async_notification_register, Driver, Db, db_open,
}
use iptracking.Ipset.Tests.{
  Entries, Sets, named_sets, contents, added, named_sets-IsIpset, rebuild, production, old_sets,
}
use iptracking.Firewalld.{Settings}
use iptracking.Firewalld.Tests.{ready}
use iptracking.Startup.{Cli, flag, override, Startup, loaded, File, first_options}
use iptracking.Firewalld.Options.{Opt, check_interval, overrides}
use iptracking.Firewalld.Daemon.{timed_out, is_notified, last_listing}
use iptracking.Firewalld.Main.{
  as_override, config_read_yaml_file, validated, Surroundings, ended, main,
}
use iptracking.Firewalld.Main.Leaves.{Leaves, main-Leaves}

abbrev driver : Driver Bool
driver = record {
  driver_name = codes "sqlite3";
  alloc = λ doc n. some false;
  has_valid_configuration = λ s. (true, none);
  summarize_to_log = λ s. [];
  open_ = λ s. ((true, none), true);
  close = λ s. ((true, none), false);
  log_one_event = λ s d. ((true, none), s);
  blocklist_enum_open = none;
  toggle = none;
}

abbrev document : Document
document = nodes (
    mapping ((2, 3) ∷ [])
    ∷ scalar (codes "database")
    ∷ mapping ((4, 5) ∷ [])
    ∷ scalar (codes "driver-name")
    ∷ scalar (codes "SQLite3")
    ∷ [])

abbrev three_hundred : Strtol
three_hundred s = (pos 300, 3)

abbrev file : List ℕ → File
file path = loaded document (some (mapping ((2, 3) ∷ [])))

abbrev env : Surroundings Bool Sets
env = record {
  drivers = driver ∷ [];
  strtol = three_hundred;
  files = file;
  lib = named_sets;
  has_memory = true;
  has_session = true;
  now = 50;
  events = timed_out (some (codes "10.0.0.1" ∷ [])) 100 ∷ is_notified (some []) 200 ∷ [];
}

abbrev options : List (Cli Opt)
options = flag verbose_flag ∷ override (check_interval (codes "300")) ∷ []

abbrev start : Startup
start = record {
  verbosity = record { level = pos 1; verbose = pos 0; quiet = pos 0 };
  config_filepath = codes "/etc/iptracking.yml";
}

abbrev started : Startup
started = record start { verbosity = record { level = pos 2; verbose = pos 1; quiet = pos 0 } }

abbrev defaults : Settings
defaults = record {
  check_interval = 600;
  production = production;
  production_isset = false;
  rebuild = rebuild;
  rebuild_isset = false;
}

abbrev given : Settings
given = record defaults { check_interval = 300 }

abbrev database : Option (Db Bool)
database = some (record {
  driver = driver;
  instance_state = false;
  no_pam_logging = true;
  no_firewall = false;
  last_error = none;
  callback = none;
  context = none;
})

options-shown : first_options options start ≡ some started
unfolding first_options ◌+ℤ◌ ◌-ℤ◌
options-shown = refl

file-read :
    config_read_yaml_file env.drivers env.strtol (env.files started.config_filepath) defaults
    ≡ some (defaults, database)
unfolding config_read_yaml_file
file-read = refl

options-given : overrides env.strtol (map as_override options) defaults ≡ some given
unfolding overrides
options-given = refl

given-valid : validated database given ≡ some given
unfolding validated
given-valid = refl

database-open : (db_open database).0.0 ≡ true
unfolding db_open
database-open = refl

main-Leaves_example :
    (k' : Sets) × (main env options start defaults old_sets
      ≡ ended
          (db_dealloc
            (db_close
              (db_blocklist_async_notification_register
                (db_open database).1
                (some 0)
                (some 0)).1).1)
          k')
    × Leaves named_sets contents [] added rebuild production (last_listing env.events) old_sets k'
main-Leaves_example =
    main-Leaves env Entries contents [] added named_sets-IsIpset options start started defaults
      defaults given given database old_sets options-shown file-read options-given given-valid
      database-open refl refl ready
