-- ===== src/Callback/Main.antt =====
-- The callback from its command line to its end, with the alarm that ends it.
use iptracking.Prelude.{
  ℕ, ◌≡◌, refl, Bool, ◌&&◌, List, [], ◌∷◌, leb, ltb, ◌==◌, if◌then◌else◌, length, map,
}
use iptracking.Prelude.Int.{pos, negsuc}
use iptracking.Yaml.{Strtol}
use iptracking.LogData.{LogData}
use iptracking.Callback.{◌>>=◌, Environment, Outcome, exits, goes_on, gather}
use iptracking.Callback.Send.{Answer, not_connected, Sending, SendEnd, start, answered}

-- An option of the command line with its argument, as `getopt_long` finds it.
pub data Cli : Type 0 where
  help version other : Cli
  socket timeout : List ℕ → Cli

-- `socket_filepath` and `socket_timeout`.
pub record Options : Type 0 where
  pub socket_filepath : List ℕ
  pub socket_timeout : ℕ

abbrev int_max : ℕ
int_max = 2147483647

-- The argument of `-t`: what is no number ends the program, what is out of range is moved into it.
unfoldable pub timeout_of : Strtol → List ℕ → Outcome ℕ
timeout_of strtol optarg =
    let (i, read) = strtol optarg in
    if read == 0
    then exits 100
    else goes_on (elim i [ negsuc n ↦ 0 | pos n ↦ if ltb int_max n then int_max else n ])

-- The loop over the options.
unfoldable pub parse_options : Strtol → List Cli → Options → Outcome Options
unfolding timeout_of
parse_options strtol [] o = goes_on o
parse_options strtol (help ∷ opts) o = exits 0
parse_options strtol (version ∷ opts) o = exits 0
parse_options strtol (other ∷ opts) o = parse_options strtol opts o
parse_options strtol (socket path ∷ opts) o =
    parse_options strtol opts (record o { socket_filepath = path })
parse_options strtol (timeout arg ∷ opts) o = do
  t ← timeout_of strtol arg
  parse_options strtol opts (record o { socket_timeout = t })

-- `sizeof(server_addr.sun_path)`.
abbrev sun_path_size : ℕ
sun_path_size = 108

-- The checks up to the socket: the timeout and the record that is to be sent.
unfoldable pub prepare : Strtol → Environment → List Cli → Options → Bool → Outcome (ℕ × LogData)
unfolding parse_options gather
prepare strtol env opts defaults has_socket = do
  o ← parse_options strtol opts defaults
  d ← if leb sun_path_size (length o.socket_filepath) then exits 100 else gather env
  if has_socket then goes_on (o.socket_timeout, d) else exits 108

-- How a run ends: with a status, by the alarm, or with the record sent; `unfinished` is where it stands
-- in a call that does not return.
pub data End : Type 0 where
  gave_up : ℕ → End
  timed_out : End
  sent_all : Sending → End
  unfinished : Sending → End

-- The alarm has gone off at this time, in seconds since it was set; with a timeout of 0 there is none.
unfoldable pub has_expired : ℕ → ℕ → Bool
has_expired seconds at = ltb 0 seconds && leb seconds at

abbrev after_answer : SendEnd → (Sending → End) → End
after_answer (SendEnd.complete s) k = sent_all s
after_answer (SendEnd.exits_109 s) k = gave_up 109
after_answer (SendEnd.goes_on s) k = k s

-- The loops that connect and send, over the answers and their times. The call behind the last answer does
-- not return; it ends only by the alarm, where there is one.
unfoldable pub timed_loop : ℕ → List (ℕ × Answer) → Sending → End
unfolding has_expired answered
timed_loop seconds [] s =
    if s.len == 0 then sent_all s else if ltb 0 seconds then timed_out else unfinished s
timed_loop seconds ((at, a) ∷ later) s =
    if s.len == 0
    then sent_all s
    else if has_expired seconds at
    then timed_out
    else after_answer (answered a s) (λ t. timed_loop seconds later t)

unfoldable pub main : Strtol → Environment → List Cli → Options → Bool → List (ℕ × Answer) → End
unfolding prepare timed_loop start
main strtol env opts defaults has_socket answers =
    elim (prepare strtol env opts defaults has_socket) [
      | exits status ↦ gave_up status
      | goes_on (seconds, d) ↦ timed_loop seconds answers start
    ]

-- The answers up to the first that comes after so many seconds or later.
abbrev pub before_alarm : ℕ → List (ℕ × Answer) → List (ℕ × Answer)
before_alarm seconds [] = []
before_alarm seconds ((at, a) ∷ later) =
    let rest = before_alarm seconds later in if leb seconds at then [] else (at, a) ∷ rest

-- The record has gone out, or the alarm or a failed send has ended the program.
abbrev pub IsOver : End → Type 0
IsOver (gave_up status) = status ≡ 109
IsOver timed_out = Unit {0}
IsOver (sent_all s) = s.len ≡ 0
IsOver (unfinished s) = ⊥

-- With a timeout of 0, and no daemon that lets the program connect, it has not ended after any number of
-- attempts.
pub no_timeout-unfinished :
    (strtol : Strtol) (env : Environment) (opts : List Cli) (defaults : Options) (has_socket : Bool)
    (d : LogData) (times : List ℕ)
    → prepare strtol env opts defaults has_socket ≡ goes_on (0, d)
    → main strtol env opts defaults has_socket (map (λ at. (at, not_connected)) times)
      ≡ unfinished start
unfolding main
no_timeout-unfinished strtol env opts defaults has_socket d times ready =
    rw (ready, main) (attempts times)
  where
    attempts :
        (times : List ℕ)
        → timed_loop 0 (map (λ at. (at, not_connected)) times) start ≡ unfinished start
    attempts [] = refl
    attempts (at ∷ times) = attempts times
