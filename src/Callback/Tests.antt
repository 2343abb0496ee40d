-- ===== src/Callback/Tests.antt =====
-- Runs of the callback.
use iptracking.Prelude.{◌↔◌, ◌<◌, true, none, some, length}
use iptracking.Prelude.Int.{pos}
use iptracking.LogData.{LogData, log_data_is_valid, event_code, log_event_parse_str}
use iptracking.Callback.{Environment, Outcome, goes_on, gather, user_of, present, strncpy}
use iptracking.Callback.Connection.{SshConnection, print, IsConnection, gather-print}
use iptracking.LogData.Parse.{stored}
use iptracking.Callback.Accepted.{gather-log_data_is_valid}
use iptracking.Prelude.{ℕ, ◌≡◌, refl, true, List, [], ◌∷◌, arith}
use iptracking.Prelude.Text.{codes, skip_spaces, is_digit, is_space}
use iptracking.Callback.{exits}
use iptracking.Yaml.{Strtol}
use iptracking.Callback.Main.{Cli, timeout, Options}
use iptracking.Callback.Send.{
  not_connected, Answer, connected, sent, reset, start, send_loop, total, OfEnd, AreAnswers,
  answered, send_loop-total, IsCounted,
}

abbrev answers : List Answer
answers = connected ∷ sent 100 ∷ reset ∷ connected ∷ sent 128 ∷ []

answers-AreAnswers : AreAnswers answers start
unfolding start answered
answers-AreAnswers = (tt, (omega arith, (tt, (tt, (omega arith, tt)))))

counted : IsCounted start
unfolding start total
counted = (refl, tt, refl)

send_loop-total_example : OfEnd IsCounted (send_loop answers start)
send_loop-total_example = send_loop-total answers start answers-AreAnswers counted

abbrev pub environment : Environment
environment = record {
  pam_type = some (codes "open_session");
  pam_user = some (codes "ann");
  ssh_connection = some (codes "10.0.0.2 5022 10.0.0.1 22");
  pam_rhost = none;
  now = codes "2024-05-06 07:08:09";
  parent_pid = pos 317;
}

abbrev record_of : Outcome LogData → LogData
record_of (goes_on d) = d
record_of (exits n) = record {
  dst_ipaddr = [];
  src_ipaddr = [];
  src_port = 0;
  event = 0;
  sshd_pid = pos 0;
  uid = [];
  log_date = [];
}

abbrev gathered : LogData
gathered = record_of (gather environment)

environment-gathered : gather environment ≡ goes_on gathered
unfolding gather skip_spaces is_digit
environment-gathered = refl

gather-log_data_is_valid_example :
    (log_data_is_valid (some gathered) ≡ true) ↔ (length (user_of environment) < 60)
gather-log_data_is_valid_example =
    gather-log_data_is_valid environment gathered (grind arith) (grind arith) tt (grind arith)
      (grind arith) (omega arith) environment-gathered

abbrev pub connection : SshConnection
connection = record { src = codes "10.0.0.2"; src_port = codes "5022"; dst = codes "10.0.0.1" }

pub connection-IsConnection : IsConnection connection
unfolding is_space
connection-IsConnection = record {
  src_word = grind arith;
  src_ne = grind arith;
  src_fits = omega arith;
  port_digits = grind arith;
  port_ne = grind arith;
  port_fits = omega arith;
  dst_word = grind arith;
  dst_ne = grind arith;
  dst_fits = omega arith;
}

pub ssh_text : environment.ssh_connection ≡ some (print connection (codes "22"))
ssh_text = refl

pub pam_text : present environment.pam_type ≡ some (codes "open_session")
unfolding present
pam_text = refl

gather-print_example :
    gather environment
    ≡ goes_on (record {
      dst_ipaddr = stored 16 connection.dst;
      src_ipaddr = stored 16 connection.src;
      src_port = 5022;
      event = event_code (log_event_parse_str (codes "open_session"));
      sshd_pid = pos 317;
      uid = strncpy 60 (user_of environment);
      log_date = stored 28 environment.now;
    })
gather-print_example =
    gather-print environment connection (codes "22") (codes "open_session") connection-IsConnection
      ssh_text pam_text

-- A run with a timeout of 6 seconds, and no daemon that listens.
abbrev six : Strtol
six s = (pos 6, 1)

abbrev defaults : Options
defaults = record { socket_filepath = codes "/var/run/iptracking.sock"; socket_timeout = 5 }

abbrev options : List Cli
options = timeout (codes "6") ∷ []

abbrev refusals : List (ℕ × Answer)
refusals = (0, not_connected) ∷ (3, not_connected) ∷ (6, not_connected) ∷ []
