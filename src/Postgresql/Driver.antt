-- ===== src/Postgresql/Driver.antt =====
-- The driver behind the database interface, and the block list's way from the server into the kernel.
use iptracking.Prelude.{
  ℕ, suc, ◌≡◌, refl, Bool, true, false, Option, none, some, List, ◌∷◌, length, ap, ◌∙◌,
}
use iptracking.Prelude.Int.{ℤ}
use iptracking.Prelude.Text.{codes}
use iptracking.Yaml.{Strtol}
use iptracking.Db.{Driver, Db, db_blocklist_enum_open}
use iptracking.Postgresql.Summary.{postgresql_has_valid_configuration, postgresql_summarize_to_log}
use iptracking.Db.Enumerator.{take_all}
use iptracking.Postgresql.{
  Postgresql, Library, Conn, tuples, choose_conn, postgresql_alloc, postgresql_open,
  postgresql_close, postgresql_log_one_event, toggle,
}
use iptracking.Postgresql.Blocklist.{
  BlocklistEnum, blocklist_enum_open, blocklist_enum_next, blocklist_query, at_first-rows,
  opened-at_first,
}
use iptracking.Ipset.{Library as IpsetLibrary}
use iptracking.Ipset.Swap.{IsIpset}
use iptracking.Firewalld.{World, timer_elapsed}
use iptracking.Firewalld.Rebuild.{opened, IsReady, IsRebuilt, timer_elapsed-IsRebuilt}

unfoldable all_of : Option (List (List ℕ) × BlocklistEnum) → Option (List (List ℕ))
all_of none = none
all_of (some (found, end)) = some found

-- What an enumerator gives up to its first NULL.
unfoldable pub entities : Option BlocklistEnum → Option (List (List ℕ))
unfolding take_all blocklist_enum_next all_of
entities none = none
entities (some e) = all_of (take_all blocklist_enum_next (suc (length e.query)) e)

-- `db_driver_postgresql_callbacks`, over the answers of the library and the thread that calls.
unfoldable pub callbacks : (ℤ → List ℕ) → Strtol → Bool → Library → Bool → Bool → Driver Postgresql
unfolding entities postgresql_has_valid_configuration postgresql_summarize_to_log
callbacks decimal strtol no_pam lib malloc_ok is_async_thread = record {
  driver_name = codes "postgresql";
  alloc = λ doc n. some (postgresql_alloc strtol doc n no_pam);
  has_valid_configuration = postgresql_has_valid_configuration;
  summarize_to_log = postgresql_summarize_to_log;
  open_ = λ s. (postgresql_open lib s).0;
  close = λ s. (postgresql_close lib s).0;
  log_one_event = λ s d. ((postgresql_log_one_event decimal lib is_async_thread s d).0, s);
  blocklist_enum_open =
      some (λ s. (entities (blocklist_enum_open lib malloc_ok is_async_thread s).0, none, s));
  toggle = some (λ s on. let (ok, after) = toggle lib s on in ((ok, none), after));
}

-- A database with firewall functions on this driver, over an instance.
abbrev pub database_over : Driver Postgresql → Postgresql → Bool → Db Postgresql
database_over driver s no_pam = record {
  driver = driver;
  instance_state = s;
  no_pam_logging = no_pam;
  no_firewall = false;
  last_error = none;
  callback = none;
  context = none;
}

module _ (decimal : ℤ → List ℕ) (strtol : Strtol) (no_pam : Bool) (lib : Library)
    (is_async_thread : Bool) (s : Postgresql) (c : Conn) (t : List ℕ) (ts : List (List ℕ))
    (chosen : choose_conn is_async_thread s ≡ some c) (printed : lib.asprintf_ok ≡ true)
    (result : lib.exec (blocklist_query s.firewall_schema) ≡ tuples (t ∷ ts)) where
  abbrev db : Db Postgresql
  db = database_over (callbacks decimal strtol no_pam lib true is_async_thread) s no_pam

  all_rows : entities (blocklist_enum_open lib true is_async_thread s).0 ≡ some (t ∷ ts)
  unfolding entities all_of
  all_rows =
      ap (λ r. entities r.0) (opened-at_first lib is_async_thread s c t ts chosen printed result)
      ∙ ap all_of (at_first-rows (t ∷ ts))

  db_blocklist-rows : (db_blocklist_enum_open (some db)).0.0 ≡ some (t ∷ ts)
  unfolding db_blocklist_enum_open callbacks
  db_blocklist-rows = rw all_rows refl

  module _ {K : Type 0} (Contents : Type 0) (ip : IpsetLibrary K)
      (sets : K → List ℕ → Option Contents) (nothing : Contents)
      (with_entry : List ℕ → Contents → Contents)
      (ipset : IsIpset K Contents ip sets nothing with_entry) (rebuild prod : List ℕ)
      (ready : IsReady K ip rebuild prod) where
    -- Where the server answers the query of the block list with rows, memory is to be had, and the library
    -- behaves as ipset is documented to, with the session open and the names taken: when the timer
    -- runs out, the production set afterwards holds the entities of the rows, whatever it held
    -- before, and the set for rebuilding is gone.
    pub server_rows-IsRebuilt :
        (k : K) (now interval at count : ℕ) (typed : Bool)
        → (w : World K) × (timer_elapsed ip
              (db_blocklist_enum_open (some db)).0.0
              now
              interval
              rebuild
              prod
              (record { helper = opened typed; kernel = k; timer_abstime = at; broadcasts = count })
            ≡ some w)
          × IsRebuilt Contents ip sets nothing with_entry ipset rebuild prod (t ∷ ts) k w.kernel
    server_rows-IsRebuilt k now interval at count typed =
        let (w, way, rebuilt, time, helper) =
          timer_elapsed-IsRebuilt Contents ip sets nothing with_entry ipset rebuild prod ready
            (some (t ∷ ts)) k now interval at count typed in
        (
          w,
          ap
                (λ b. timer_elapsed ip b now interval rebuild prod (record {
                  helper = opened typed;
                  kernel = k;
                  timer_abstime = at;
                  broadcasts = count;
                }))
                db_blocklist-rows
              ∙ way,
          rebuilt,
        )
