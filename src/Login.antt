-- ===== src/Login.antt =====
-- A login on its way through the programs: the environment of pam-daemon/iptracking-pam-callback.c, the
-- record, and pam-daemon/iptracking-pamd.c with its queue and its database.
mod Tests
use iptracking.Prelude.{
  ℕ, sym, ◌≡◌, ◌≢◌, ◌<◌, true, Option, some, List, [], ◌∷◌, ◌++◌, length, ◌∙◌, ap,
}
use iptracking.LogData.{LogData, log_data_is_valid}
use iptracking.LogData.Validity.{NoNul}
use iptracking.Callback.{Environment, present, user_of, gather, goes_on}
use iptracking.Callback.Connection.{SshConnection, print, IsConnection, login_record, gather-print}
use iptracking.Callback.Accepted.{IsClean, gather-log_data_is_valid}
use iptracking.Callback.Send.{
  record_size, connected, not_connected, sent, try_again, SendEnd, complete, start, send_loop,
}
use iptracking.Callback.Send.Runs.{put_off, whole, send_loop-whole}
use iptracking.LogQueue.{LogQueue, Params, Memory}
use iptracking.LogQueue.Chain.{null}
use iptracking.LogQueue.Capacity.{IsSound, capacity}
use iptracking.LogQueue.View.{Represents, IsFresh}
use iptracking.LogQueue.Backoff.{done}
use iptracking.LogQueue.Backoff.Wait.{one_round}
use iptracking.Db.{Db, db_log_one_event}
use iptracking.Pamd.{record_read, on_connection}
use iptracking.Pamd.Flow.{db_rounds, handed_over}
use iptracking.Pamd.System.{System, takes, Runs, then_, handed_over-append}
use iptracking.Pamd.System.Delivery.{Runs-takes, Runs-drains}

-- The environment of a login over ssh: C strings, the connection as sshd prints it, a kind of event, a
-- formatted time that fits its array, and a user's name that fits its own.
pub record IsLogin (env : Environment) (c : SshConnection) (rest kind : List ℕ) : Type 0 where
  pub connection : IsConnection c
  pub connection_text : env.ssh_connection ≡ some (print c rest)
  pub kind_text : present env.pam_type ≡ some kind
  pub user_clean : IsClean env.pam_user
  pub connection_clean : IsClean env.ssh_connection
  pub rhost_clean : IsClean env.pam_rhost
  pub now_ne : env.now ≢ []
  pub now_clean : NoNul env.now
  pub now_fits : length env.now < 28
  pub user_fits : length (user_of env) < 60

login-is_valid :
    (env : Environment) (c : SshConnection) (rest kind : List ℕ)
    → IsLogin env c rest kind
    → log_data_is_valid (some (login_record env c kind)) ≡ true
login-is_valid env c rest kind l =
    (gather-log_data_is_valid env (login_record env c kind) l.user_clean l.connection_clean
        l.rhost_clean l.now_ne l.now_clean l.now_fits
        (gather-print env c rest kind l.connection l.connection_text l.kind_text)).1
      l.user_fits

-- For a login over ssh, and in every state that the two threads of the daemon reach from a new queue with
-- sound parameters, where fewer records are used than the parameters allow, and there is memory, which is
-- in no queue: the callback fills in the login's record; however often connecting fails and sending is put
-- off, once one `send` takes the record it has gone out from its first byte to its last; a connection of the
-- event thread that receives it takes it; and there is a number of further rounds of `db_runloop` that leave
-- the queue empty and the database as if the events taken before and then this record, last, had been
-- handed to `db_log_one_event`, each once, whatever it answered.
pub login-IsHandedOver :
    {S : Type 0} (env : Environment) (c : SshConnection) (rest kind : List ℕ) (blank : LogData)
    (params : Params) (db : Option (Db S)) (s : System S) (meanwhile : LogQueue → LogQueue)
    (m : Memory) (fails waits : ℕ)
    → IsLogin env c rest kind
    → IsSound params
    → Runs blank params db s
    → IsFresh s.queue m
    → s.queue.n_rec_used < capacity params
    → m.pool ≢ null
    → m.grown ≡ true
    → let d = login_record env c kind in
      (gather env ≡ goes_on d)
      × (send_loop
            (put_off fails not_connected
              (connected ∷ put_off waits try_again (sent record_size ∷ [])))
            start
          ≡ complete whole)
      × (q : LogQueue) × (on_connection blank (one_round m) (record_read d) s.queue ≡ done true q)
      × (n : ℕ) × (q' : LogQueue) × (db_rounds n meanwhile q s.db
          ≡ some (q', (db_log_one_event (handed_over db s.taken_in) d).1))
      × Represents q' []
unfolding handed_over
login-IsHandedOver {S = S} env c rest kind blank params db s meanwhile m fails waits l sound runs
      fresh room pool grown =
    let d = login_record env c kind in
    let filled = gather-print env c rest kind l.connection l.connection_text l.kind_text in
    let (q, is_taken) =
      Runs-takes blank params db s d m sound runs (login-is_valid env c rest kind l) fresh room pool
        grown in
    let after = then_ runs (takes (record_read d) m q fresh is_taken) in
    let (n, q', rounds, empty) = Runs-drains blank params db _ meanwhile sound after in
    (
      filled,
      send_loop-whole fails waits,
      q,
      is_taken,
      n,
      q',
      rounds ∙ ap (λ x. some (q', x)) (sym (handed_over-append db s.taken_in (d ∷ []))),
      empty,
    )
