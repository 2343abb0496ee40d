-- ===== src/Db/Tests.antt =====
-- Runs of the drivers' table and of the registration.
use iptracking.Prelude.{ℕ, ◌≡◌, refl, Bool, true, false, none, some, List, [], ◌∷◌}
use iptracking.Prelude.Text.{codes}
use iptracking.Prelude.Int.{negsuc}
use iptracking.Db.LastError.{IsTrimmed, set_last_error, set_last_error-IsTrimmed}
use iptracking.Db.{Db, Driver, Answer, db_driver_lookup, db_driver_enumerate_drivers}

-- A driver whose state is whether its notification runs.
abbrev toggled : Bool → Bool → Answer × Bool
toggled s on = ((true, none), on)

abbrev driver : List ℕ → Driver Bool
driver name = record {
  driver_name = name;
  alloc = λ doc n. some false;
  has_valid_configuration = λ s. (true, none);
  summarize_to_log = λ s. [];
  open_ = λ s. ((true, none), s);
  close = λ s. ((true, none), s);
  log_one_event = λ s d. ((true, none), s);
  blocklist_enum_open = none;
  toggle = some toggled;
}

abbrev drivers : List (Driver Bool)
drivers = driver (codes "csvfile") ∷ driver (codes "sqlite3") ∷ []

found : db_driver_lookup drivers (codes "SQLite3") ≡ some (driver (codes "sqlite3"))
unfolding db_driver_lookup
found = refl

enumerated : db_driver_enumerate_drivers drivers 1 ≡ some (codes "sqlite3", 2)
unfolding db_driver_enumerate_drivers
enumerated = refl

abbrev database : Db Bool
database = record {
  driver = driver (codes "sqlite3");
  instance_state = false;
  no_pam_logging = true;
  no_firewall = false;
  last_error = none;
  callback = none;
  context = none;
}

-- A message with a line end behind it.
set_last_error-IsTrimmed_example :
    (t : List ℕ) × IsTrimmed (codes " no such host \n") t
    × (set_last_error (some database) (codes " no such host \n") (negsuc 0)
        ≡ (some t, some (record database { last_error = some t })))
set_last_error-IsTrimmed_example = set_last_error-IsTrimmed database (codes " no such host \n") 0
