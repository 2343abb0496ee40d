-- ===== src/Callback.antt =====
-- pam-daemon/iptracking-pam-callback.c: the record that the callback fills in from its environment.
pub mod Record
pub mod Accepted
pub mod Connection
pub mod Send
pub mod Main
pub mod Tests
use iptracking.Prelude.{
  ℕ, zero, suc, ◌+◌, ◌-◌, ◌*◌, ◌%◌, Bool, true, false, ◌&&◌, ◌||◌, not, Option, none, some, List,
  [], ◌∷◌, ◌++◌, ltb, leb, ◌==◌, if◌then◌else◌, length, replicate, take,
}
use iptracking.Prelude.Int.{ℤ}
use iptracking.Prelude.Text.{codes, is_digit, is_space, is_empty, first, skip_spaces}
use iptracking.LogData.{LogData, event_code, log_event_parse_str}
use iptracking.LogData.Parse.{stored}

-- What the process reads: its environment variables, the formatted time, its parent's pid.
pub record Environment : Type 0 where
  pub pam_type : Option (List ℕ)
  pub pam_user : Option (List ℕ)
  pub ssh_connection : Option (List ℕ)
  pub pam_rhost : Option (List ℕ)
  pub now : List ℕ
  pub parent_pid : ℤ

-- The exit status of a run that gives up, or what it goes on with.
pub data Outcome {ℓ} (A : Type ℓ) : Type ℓ where
  exits : ℕ → Outcome A
  goes_on : A → Outcome A

infixl 5 ◌>>=◌
abbrev pub ◌>>=◌ {ℓ κ} : {A : Type ℓ} {B : Type κ} → Outcome A → (A → Outcome B) → Outcome B
exits n >>= f = exits n
goes_on a >>= f = f a

-- `s && *s`, with the string.
unfoldable pub present : Option (List ℕ) → Option (List ℕ)
present none = none
present (some []) = none
present (some (c ∷ s)) = some (c ∷ s)

unfoldable pub require : ℕ → Option (List ℕ) → Outcome (List ℕ)
require status none = exits status
require status (some s) = goes_on s

-- `strncpy`: no NUL where the string is as long as the array.
unfoldable pub strncpy : ℕ → List ℕ → List ℕ
unfolding stored
strncpy size s = take size (stored size s)

-- The characters up to a white space, and what stands from there on.
unfoldable pub word : List ℕ → List ℕ × List ℕ
word [] = ([], [])
word (c ∷ s) = let more = word s in if is_space c then ([], c ∷ s) else (c ∷ more.0, more.1)

-- An address of the connection string, copied into a zeroed array.
unfoldable pub address : ℕ → ℕ → List ℕ → Outcome (List ℕ × List ℕ)
unfolding word stored
address status size s =
    let found = word (skip_spaces s) in
    if (length found.0 == 0) || leb size (length found.0)
    then exits status
    else goes_on (stored size found.0, found.1)

-- The loop over the port's digits; `prev_port_val` stays 0, as the code never writes it.
unfoldable pub port_loop : ℕ → ℕ → List ℕ → Outcome (ℕ × List ℕ)
port_loop prev port [] = goes_on (port, [])
port_loop prev port (c ∷ s) =
    let next = (port * 10 + (c - b'0')) % 65536 in
    let rest = port_loop prev next s in
    if is_digit c then if ltb next prev then exits 105 else rest else goes_on (port, c ∷ s)

unfoldable pub port : List ℕ → Outcome (ℕ × List ℕ)
unfolding port_loop
port s = do
  (value, rest) ← port_loop 0 0 (skip_spaces s)
  if is_empty rest || not (is_space (first rest)) then exits 106 else goes_on (value, rest)

-- `src_ipaddr`, `src_port` and `dst_ipaddr`, from SSH_CONNECTION or else from PAM_RHOST.
pub record Endpoints : Type 0 where
  pub src : List ℕ
  pub src_port : ℕ
  pub dst : List ℕ

unfoldable pub from_rhost : List ℕ → Outcome Endpoints
unfolding strncpy
from_rhost rhost =
    if leb 16 (length rhost)
    then exits 103
    else goes_on
        (record { src = strncpy 16 rhost; src_port = 0; dst = strncpy 16 (codes "0.0.0.0") })

unfoldable pub from_ssh : List ℕ → Outcome Endpoints
unfolding address port
from_ssh ssh = do
  (src, s) ← address 104 16 ssh
  (value, s) ← port s
  (dst, s) ← address 107 16 s
  goes_on (record { src = src; src_port = value; dst = dst })

unfoldable pub endpoints : Environment → Outcome Endpoints
unfolding present require from_rhost from_ssh
endpoints env = elim (present env.ssh_connection) [
  | none ↦ require 102 (present env.pam_rhost) >>= from_rhost
  | some ssh ↦ from_ssh ssh
]

-- `pam_user`, or the sentinel where it is missing or empty.
unfoldable pub user_of : Environment → List ℕ
unfolding present
user_of env = elim (present env.pam_user) [ none ↦ codes "<<EMPTY>>" | some s ↦ s ]

-- The part of `main` that fills `data_buffer`. The array of `log_date` holds what `strftime` wrote.
unfoldable pub gather : Environment → Outcome LogData
unfolding present require endpoints user_of strncpy stored event_code log_event_parse_str
gather env = do
  pam_type ← require 101 (present env.pam_type)
  ends ← endpoints env
  goes_on (record {
    dst_ipaddr = ends.dst;
    src_ipaddr = ends.src;
    src_port = ends.src_port;
    event = event_code (log_event_parse_str pam_type);
    sshd_pid = env.parent_pid;
    uid = strncpy 60 (user_of env);
    log_date = stored 28 env.now;
  })
