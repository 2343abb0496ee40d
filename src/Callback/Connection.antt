-- ===== src/Callback/Connection.antt =====
-- SSH_CONNECTION of pam-daemon/iptracking-pam-callback.c: the text that sshd writes for a connection, and
-- what the callback reads back from it.
use iptracking.Prelude.{
  ℕ, ◌+◌, ◌-◌, ◌*◌, ◌%◌, ◌<◌, ◌≡◌, refl, ◌≢◌, false, some, List, [], ◌∷◌, ◌++◌, arith, length, ◌∙◌,
}
use native.Mathlib.Nat.{mod-eq_of_lt}
use iptracking.Prelude.Text.{is_space, is_digit, skip_spaces}
use iptracking.LogData.{LogData, event_code, log_event_parse_str}
use iptracking.LogData.Parse.{stored}
use iptracking.LogData.Parse.Fields.{AreDigits, value_from, value_from-le}
use iptracking.Callback.{
  Environment, goes_on, present, word, address, port_loop, port, Endpoints, from_ssh, endpoints,
  require, user_of, strncpy, gather,
}

-- The client's address and port, and the server's address, as they stand in the text; behind them stands
-- the server's port.
pub record SshConnection : Type 0 where
  pub src : List ℕ
  pub src_port : List ℕ
  pub dst : List ℕ

abbrev pub print : SshConnection → List ℕ → List ℕ
print c rest = c.src ++ 32 ∷ (c.src_port ++ 32 ∷ (c.dst ++ 32 ∷ rest))

-- A word of the text.
abbrev pub IsWord : List ℕ → Type 0
IsWord [] = Unit {0}
IsWord (c ∷ s) = (is_space c ≡ false) × IsWord s

pub record IsConnection (c : SshConnection) : Type 0 where
  pub src_word : IsWord c.src
  pub src_ne : c.src ≢ []
  pub src_fits : length c.src < 16
  pub port_digits : AreDigits c.src_port
  pub port_ne : c.src_port ≢ []
  pub port_fits : value_from 0 c.src_port < 65536
  pub dst_word : IsWord c.dst
  pub dst_ne : c.dst ≢ []
  pub dst_fits : length c.dst < 16

word-append : (s rest : List ℕ) → IsWord s → word (s ++ 32 ∷ rest) ≡ (s, 32 ∷ rest)
unfolding word is_space
word-append [] rest w = refl
word-append (c ∷ s) rest w = ground (arith, word-append s rest w.1)

-- Spaces are skipped up to a word.
skip_to_word : (s rest : List ℕ) → s ≢ [] → IsWord s → skip_spaces (s ++ rest) ≡ s ++ rest
unfolding skip_spaces
skip_to_word [] rest ne w = absurd (ne refl)
skip_to_word (c ∷ s) rest ne w = ground arith

skip_space : (s : List ℕ) → skip_spaces (32 ∷ s) ≡ skip_spaces s
unfolding skip_spaces
skip_space s = refl

digits-IsWord : (s : List ℕ) → AreDigits s → IsWord s
digits-IsWord [] d = tt
digits-IsWord (c ∷ s) d = (unfold is_space in ground arith, digits-IsWord s d.2)

port_loop_digits :
    (v : ℕ) (s rest : List ℕ)
    → AreDigits s
    → value_from v s < 65536
    → port_loop 0 v (s ++ 32 ∷ rest) ≡ goes_on (value_from v s, 32 ∷ rest)
unfolding port_loop is_digit
port_loop_digits v [] rest d fits = ground arith
port_loop_digits v (c ∷ s) rest d fits =
    let next : (v * 10 + (c - b'0')) % 65536 ≡ 10 * v + (c - b'0') =
      mod-eq_of_lt (omega (arith, value_from-le (10 * v + (c - b'0')) s)) ∙ (omega arith) in
    rw next (ground (arith, port_loop_digits (10 * v + (c - b'0')) s rest d.2 fits))

ne-length : (s : List ℕ) → s ≢ [] → 0 < length s
ne-length [] ne = absurd (ne refl)
ne-length (c ∷ s) ne = omega arith

address_lem :
    (status : ℕ) (s rest : List ℕ)
    → IsWord s
    → s ≢ []
    → length s < 16
    → address status 16 (s ++ 32 ∷ rest) ≡ goes_on (stored 16 s, 32 ∷ rest)
unfolding address
address_lem status s rest w ne fits =
    rw (address, skip_to_word s (32 ∷ rest) ne w, word-append s rest w)
      (ground (arith, ne-length s ne))

port_lem :
    (s rest : List ℕ)
    → AreDigits s
    → s ≢ []
    → value_from 0 s < 65536
    → port (32 ∷ (s ++ 32 ∷ rest)) ≡ goes_on (value_from 0 s, 32 ∷ rest)
unfolding port is_space
port_lem s rest d ne fits =
    rw
      (
        port,
        skip_space (s ++ 32 ∷ rest),
        skip_to_word s (32 ∷ rest) ne (digits-IsWord s d),
        port_loop_digits 0 s rest d fits,
      )
      refl

-- The space in front of a word is skipped.
address-space : (status : ℕ) (s : List ℕ) → address status 16 (32 ∷ s) ≡ address status 16 s
unfolding address skip_spaces is_space
address-space status s = refl

pub read_back : SshConnection → Endpoints
read_back c = record {
  src = stored 16 c.src;
  src_port = value_from 0 c.src_port;
  dst = stored 16 c.dst;
}

from_ssh-print :
    (c : SshConnection) (rest : List ℕ)
    → IsConnection c
    → from_ssh (print c rest) ≡ goes_on (read_back c)
unfolding from_ssh read_back
from_ssh-print c rest is =
    let behind_port : List ℕ = 32 ∷ (c.dst ++ 32 ∷ rest) in
    let dst =
      address-space 107 (c.dst ++ 32 ∷ rest)
      ∙ address_lem 107 c.dst rest is.dst_word is.dst_ne is.dst_fits in
    rw
      (
        address_lem 104 c.src (c.src_port ++ behind_port) is.src_word is.src_ne is.src_fits,
        port_lem c.src_port (c.dst ++ 32 ∷ rest) is.port_digits is.port_ne is.port_fits,
        dst,
      )
      refl

present-append : (s rest : List ℕ) → s ≢ [] → present (some (s ++ rest)) ≡ some (s ++ rest)
unfolding present
present-append [] rest ne = absurd (ne refl)
present-append (c ∷ s) rest ne = refl

endpoints-print :
    (env : Environment) (c : SshConnection) (rest : List ℕ)
    → IsConnection c
    → env.ssh_connection ≡ some (print c rest)
    → endpoints env ≡ goes_on (read_back c)
unfolding endpoints
endpoints-print env c rest is there =
    rw
      (
        endpoints,
        there,
        present-append c.src (32 ∷ (c.src_port ++ 32 ∷ (c.dst ++ 32 ∷ rest))) is.src_ne,
      )
      (from_ssh-print c rest is)

-- The record of a login over a connection.
abbrev pub login_record : Environment → SshConnection → List ℕ → LogData
login_record env c kind = record {
  dst_ipaddr = stored 16 c.dst;
  src_ipaddr = stored 16 c.src;
  src_port = value_from 0 c.src_port;
  event = event_code (log_event_parse_str kind);
  sshd_pid = env.parent_pid;
  uid = strncpy 60 (user_of env);
  log_date = stored 28 env.now;
}

-- Where SSH_CONNECTION is a client's address, its port, the server's address and anything behind them, with
-- one space behind each, the addresses words of 1 to 15 characters and the port digits for a number under
-- 65536, and PAM_TYPE is there: the callback fills the record in with these addresses, this number, the
-- event of PAM_TYPE, the parent's pid, the user and the date.
pub gather-print :
    (env : Environment) (c : SshConnection) (rest kind : List ℕ)
    → IsConnection c
    → env.ssh_connection ≡ some (print c rest)
    → present env.pam_type ≡ some kind
    → gather env ≡ goes_on (login_record env c kind)
unfolding gather require read_back
gather-print env c rest kind is there is_kind =
    rw (gather, is_kind, endpoints-print env c rest is there) refl
