-- ===== src/Postgresql/Registered.antt =====
-- Registrations of a callback on a database of this driver.
use iptracking.Prelude.{Bool, none}
use iptracking.Db.{Db, Answer}
use iptracking.Postgresql.{Postgresql, Library, toggle}

abbrev pub runs : Postgresql → Bool
runs s = s.is_notify_running

abbrev toggled : Library → Postgresql → Bool → Answer × Postgresql
toggled lib s on = let (ok, after) = toggle lib s on in ((ok, none), after)
