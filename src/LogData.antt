-- ===== src/LogData.antt =====
-- libiptracking/log_data.h and log_data.c: the event record that travels from the PAM callback through
-- the queue to the database, its event names, and the test that a record is filled in.
pub mod Validity
pub mod Parse
mod Tests
use iptracking.Prelude.{
  ℕ, List, Bool, true, false, [], ◌∷◌, ◌&&◌, ◌||◌, not, Option, none, some, ltb, leb, ◌==◌,
  if◌then◌else◌,
}
use iptracking.Prelude.Int.{ℤ}
use iptracking.Prelude.Text.{codes, first, str_eq}

-- `log_data_t`. A character array is the list of its bytes, the terminating NUL and what follows it
-- included.
pub record LogData : Type 0 where
  pub dst_ipaddr : List ℕ
  pub src_ipaddr : List ℕ
  pub src_port : ℕ
  pub event : ℕ
  pub sshd_pid : ℤ
  pub uid : List ℕ
  pub log_date : List ℕ

-- `enum log_event`.
pub data LogEvent : Type 0 where
  unknown auth open_session close_session : LogEvent

-- The numbers of the enumeration; `log_event_max` is the first number behind them.
unfoldable pub event_code : LogEvent → ℕ
event_code unknown = 0
event_code auth = 1
event_code open_session = 2
event_code close_session = 3

abbrev pub log_event_max : ℕ
log_event_max = 4

-- `log_event_to_str`; `none` is its NULL.
unfoldable pub log_event_to_str : ℕ → Option (List ℕ)
log_event_to_str e =
    if e == 0
    then some (codes "unknown")
    else if e == 1
    then some (codes "auth")
    else if e == 2
    then some (codes "open_session")
    else if e == 3
    then some (codes "close_session")
    else none

-- `log_event_parse_str`.
unfoldable pub log_event_parse_str : List ℕ → LogEvent
unfolding str_eq
log_event_parse_str s =
    if str_eq s (codes "auth")
    then auth
    else if str_eq s (codes "open_session")
    then open_session
    else if str_eq s (codes "close_session")
    then close_session
    else unknown

-- `memchr(field, 0, sizeof(field))`.
unfoldable pub has_nul : List ℕ → Bool
has_nul [] = false
has_nul (c ∷ s) = c == 0 || has_nul s

unfoldable pub field_is_valid : List ℕ → Bool
unfolding has_nul
field_is_valid s = not (first s == 0) && has_nul s

-- `log_data_is_valid`; `none` is a NULL pointer.
unfoldable pub log_data_is_valid : Option LogData → Bool
unfolding field_is_valid
log_data_is_valid none = false
log_data_is_valid (some data_) =
    (leb 0 data_.event && ltb data_.event log_event_max)
    && (field_is_valid data_.dst_ipaddr
        && (field_is_valid data_.src_ipaddr
            && (field_is_valid data_.uid && field_is_valid data_.log_date)))
