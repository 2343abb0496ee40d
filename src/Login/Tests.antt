-- ===== src/Login/Tests.antt =====
-- A login over ssh, into a database that counts.
use iptracking.Prelude.{refl, ℕ, ◌≡◌, some, [], arith, ◌∷◌, true}
use iptracking.Prelude.Text.{codes}
use iptracking.LogData.{LogData}
use iptracking.LogQueue.{LogQueue, create}
use iptracking.LogQueue.Backoff.{done}
use iptracking.LogQueue.Backoff.Wait.{one_round}
use iptracking.Callback.Send.{
  record_size, connected, not_connected, sent, try_again, complete, start, send_loop,
}
use iptracking.Callback.Send.Runs.{put_off, whole}
use iptracking.Pamd.{record_read, on_connection}
use iptracking.LogQueue.View.{Represents}
use iptracking.LogQueue.Tests.{
  blank, small, memory, small-IsSound, IsFresh-create, memory-not_null, room_at_first,
}
use iptracking.Callback.{user_of, gather, goes_on}
use iptracking.Callback.Connection.{login_record}
use iptracking.Callback.Tests.{environment, connection, connection-IsConnection, ssh_text, pam_text}
use iptracking.Db.{db_log_one_event}
use iptracking.Pamd.Flow.{db_rounds, handed_over}
use iptracking.Pamd.System.{at_start}
use iptracking.Pamd.System.Tests.{counter}
use iptracking.Login.{IsLogin, login-IsHandedOver}

abbrev record_of_login : LogData
record_of_login = login_record environment connection (codes "open_session")

is_login : IsLogin environment connection (codes "22") (codes "open_session")
unfolding user_of
is_login = record {
  connection = connection-IsConnection;
  connection_text = ssh_text;
  kind_text = pam_text;
  user_clean = grind arith;
  connection_clean = grind arith;
  rhost_clean = tt;
  now_ne = grind arith;
  now_clean = grind arith;
  now_fits = omega arith;
  user_fits = omega arith;
}

login-IsHandedOver_example :
    (gather environment ≡ goes_on record_of_login)
    × (send_loop
          (put_off 2 not_connected (connected ∷ put_off 1 try_again (sent record_size ∷ [])))
          start
        ≡ complete whole)
    × (q : LogQueue) × (on_connection blank
          (one_round memory)
          (record_read record_of_login)
          (create blank small)
        ≡ done true q)
    × (n : ℕ) × (q' : LogQueue) × (db_rounds n (λ q. q) q counter
        ≡ some (q', (db_log_one_event (handed_over counter []) record_of_login).1))
    × Represents q' []
login-IsHandedOver_example =
    login-IsHandedOver environment connection (codes "22") (codes "open_session") blank small
      counter (record { queue = create blank small; db = counter; taken_in = [] }) (λ q. q) memory 2
      1 is_login small-IsSound at_start IsFresh-create room_at_first memory-not_null refl
