-- ===== src/Pamd/Tests.antt =====
-- Runs of the loop's rounds and of the validation.
use iptracking.Prelude.{
  suc, ◌+◌, ◌-◌, not, List, ◌≡◌, refl, Bool, true, false, Option, none, some, [], ◌∷◌, length,
}
use iptracking.LogQueue.{LogQueue}
use iptracking.LogQueue.View.{Represents}
use iptracking.LogQueue.{create}
use iptracking.LogQueue.View.{create-Represents}
use iptracking.Pamd.{record_read, on_connection}
use iptracking.Pamd.Connection.{TakenSpec, on_connection-TakenSpec}
use iptracking.LogQueue.Tests.{
  blank, rounds, rounds-AreFair, params-IsSound, after, event, after-Represents, small,
}
use iptracking.Prelude.Int.{ℤ, pos}
use iptracking.Prelude.Text.{codes}
use iptracking.Yaml.{Strtol}
use iptracking.Pamd.Runloop.{Opens, at_once, later, db_runloop, db_runloop-logged}
use iptracking.Pamd.Shutdown.{
  Daemon, interrupting, awaiting, entering, ended, at_first, Step, Reach, at_start, then_, awaits,
  goes_on, is_signalled, ends, shutdown-hangs,
}
use iptracking.Pamd.Socket.{
  Sockets, Setup, Polled, interrupted, poll_failed, timeout, ready, accept_failed, lost,
  event_thread, event_thread-deaf,
}
use iptracking.Pamd.Options.{Timing, backlog, other, overrides}
use iptracking.Db.{Driver, db_open, db_close, Db}
use iptracking.Pamd.{Settings, config_validate}
use iptracking.Pamd.Flow.{handed_over}

-- A database that opens at the second attempt; its state is whether there was one before.
abbrev stubborn : Driver Bool
stubborn = record {
  driver_name = codes "csvfile";
  alloc = λ doc n. some false;
  has_valid_configuration = λ s. (true, none);
  summarize_to_log = λ s. [];
  open_ = λ s. ((s, none), true);
  close = λ s. ((true, none), s);
  log_one_event = λ s d. ((true, none), s);
  blocklist_enum_open = none;
  toggle = none;
}

abbrev stubborn_db : Bool → Option (Db Bool)
stubborn_db s = some (record {
  driver = stubborn;
  instance_state = s;
  no_pam_logging = false;
  no_firewall = true;
  last_error = none;
  callback = none;
  context = none;
})

stubborn-Opens : Opens 1 (stubborn_db false) (stubborn_db true)
unfolding db_open
stubborn-Opens =
    later 0 (stubborn_db false) (stubborn_db true) refl (at_once (stubborn_db true) refl)

db_runloop-logged_example :
    (q' : LogQueue) × (db_runloop (suc (1 + length (event ∷ []))) (λ q. q) after (stubborn_db false)
      ≡ some (q', (db_close (handed_over (stubborn_db true) (event ∷ []))).1))
    × Represents q' []
db_runloop-logged_example =
    db_runloop-logged 1 (λ q. q) after (stubborn_db false) (stubborn_db true) (event ∷ [])
      stubborn-Opens after-Represents

abbrev polled : List Polled
polled = interrupted ∷ timeout ∷ ready 17 ∷ ready 1 ∷ poll_failed ∷ []

-- The socket can be opened but for its file.
abbrev setup : Setup
setup = record {
  socket_ok = true;
  fcntl_ok = true;
  bind_ok = λ file_exists. not file_exists;
  listen_ok = true;
}

abbrev closed : Sockets
closed = record { open_fds = 0; file_exists = true; listening = false }

-- The first time the socket is listened on, until `accept` fails.
served_once :
    event_thread blank
      ((setup, (polled, accept_failed) ∷ []) ∷ (setup, []) ∷ [])
      (record { open_fds = 0; file_exists = false; listening = false })
      after
    ≡ (closed, lost after)
unfolding event_thread
served_once = refl

event_thread-deaf_example :
    (end : Sockets) × (event_thread blank ((setup, []) ∷ (setup, []) ∷ []) closed after
      ≡ (end, lost after))
    × (end.listening ≡ false)
event_thread-deaf_example =
    event_thread-deaf blank ((setup, []) ∷ (setup, []) ∷ []) closed after (refl, (refl, tt)) refl
      refl

-- A number of one digit.
abbrev digit : Strtol
digit [] = (pos 0, 0)
digit (c ∷ s) = (pos (c - 48), 1)

abbrev timing : ℤ → Timing
timing backlog_ = record { socket_backlog = backlog_; socket_poll_interval = pos 90 }

accepted_options :
    overrides digit 128 (other ∷ backlog (codes "7") ∷ []) (timing (pos 5)) ≡ some (timing (pos 7))
unfolding overrides
accepted_options = refl

abbrev settings : Settings
settings = record { socket_filepath = []; pool = small }

accepted : config_validate true true false false settings ≡ true
unfolding config_validate
accepted = refl

on_connection-TakenSpec_example :
    TakenSpec
      (record_read event)
      (on_connection blank rounds (record_read event) (create blank small))
on_connection-TakenSpec_example =
    on_connection-TakenSpec blank rounds (record_read event) (create blank small) [] rounds-AreFair
      (create-Represents blank small) params-IsSound

-- The signal comes while the database thread is about to wait.
abbrev about_to_wait : Daemon
about_to_wait = record at_first { shutdown = awaiting; db_thread = entering }

abbrev signalled : Daemon
signalled = record about_to_wait { shutdown = interrupting; is_running = false }

signalled-Reach : Reach (record signalled { event_thread = ended })
signalled-Reach =
    let armed = record at_first { shutdown = awaiting } in
    then_ signalled (record signalled { event_thread = ended })
      (then_ about_to_wait signalled
        (then_ armed about_to_wait (then_ at_first armed at_start (awaits at_first refl))
          (goes_on armed refl refl))
        (is_signalled about_to_wait refl))
      (ends signalled refl refl)

shutdown-hangs_example :
    (t u : Daemon) × Step (record signalled { event_thread = ended }) t
    × Step t u
    × Reach u
    × ((v : Daemon) → Step u v → ⊥)
shutdown-hangs_example =
    shutdown-hangs (record signalled { event_thread = ended }) signalled-Reach refl refl refl refl
