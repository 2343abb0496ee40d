-- ===== src/LogData/Parse/Line.antt =====
-- A whole event line, printed and parsed.
use iptracking.Prelude.{
  ℕ, ◌<◌, ◌≡◌, refl, ◌≢◌, false, some, List, [], ◌∷◌, ◌++◌, arith, ◌==◌, length,
}
use iptracking.Prelude.Text.{is_space, skip_spaces, first}
use iptracking.Chartest.{chartest}
use iptracking.LogData.{LogData}
use iptracking.LogData.Parse.{stored, to_int32, log_data_parse, datestr_chunks}
use iptracking.LogData.Parse.Fields.{
  IsPlain, AreDigits, value_from, text_field_plain, number_field_digits, date_field-take,
}

-- The seven fields as they stand in a line, the numbers as their digits.
pub record Line : Type 0 where
  pub dst : List ℕ
  pub src : List ℕ
  pub port : List ℕ
  pub event : List ℕ
  pub pid : List ℕ
  pub uid : List ℕ
  pub date : List ℕ

-- [dst_ipaddr],[src_ipddr],[src_port],[event],[sshd_pid],[uid],[log_date], and what follows.
pub print_line : Line → List ℕ → List ℕ
print_line l rest =
    l.dst
    ++ b','
      ∷ (l.src
          ++ b','
            ∷ (l.port
                ++ b',' ∷ (l.event ++ b',' ∷ (l.pid ++ b',' ∷ (l.uid ++ b',' ∷ (l.date ++ rest))))))

-- The texts are plain and fit their arrays, the numbers fit their types, and the date is one.
pub record IsLine (l : Line) (rest : List ℕ) : Type 0 where
  pub dst_plain : IsPlain l.dst
  pub dst_starts : (l.dst ≢ []) × (is_space (first l.dst) ≡ false)
  pub dst_fits : length l.dst < 16
  pub src_plain : IsPlain l.src
  pub src_fits : length l.src < 16
  pub port_digits : AreDigits l.port
  pub port_fits : value_from 0 l.port < 65536
  pub event_digits : AreDigits l.event
  pub event_fits : value_from 0 l.event < 65536
  pub pid_digits : AreDigits l.pid
  pub pid_fits : value_from 0 l.pid < 2147483648
  pub uid_plain : IsPlain l.uid
  pub uid_fits : length l.uid < 60
  pub date_ne : l.date ≢ []
  pub date_fits : length l.date < 28
  pub date_matches : chartest (some datestr_chunks) (l.date ++ rest) ≡ some rest

pub to_log_data : Line → LogData
to_log_data l = record {
  dst_ipaddr = stored 16 l.dst;
  src_ipaddr = stored 16 l.src;
  src_port = value_from 0 l.port;
  event = value_from 0 l.event;
  sshd_pid = to_int32 (value_from 0 l.pid);
  uid = stored 60 l.uid;
  log_date = stored 28 l.date;
}

skip_nothing : (s t : List ℕ) → s ≢ [] → is_space (first s) ≡ false → skip_spaces (s ++ t) ≡ s ++ t
unfolding skip_spaces
skip_nothing [] t ne h = absurd (ne refl)
skip_nothing (c ∷ s) t ne h = ground arith

first_not_nul : (s t : List ℕ) → s ≢ [] → IsPlain s → (first (s ++ t) == 0) ≡ false
first_not_nul [] t ne h = absurd (ne refl)
first_not_nul (c ∷ s) t ne h = ground arith

-- A line whose texts are plain and fit their arrays, whose numbers fit their types, and whose date
-- has the format: `log_data_parse` reads the printed line back as the record of its fields, and
-- stops where the date ends.
pub parse-print_line :
    (l : Line) (rest : List ℕ)
    → IsLine l rest
    → log_data_parse (print_line l rest) ≡ some (to_log_data l, rest)
unfolding log_data_parse print_line to_log_data
parse-print_line l rest h = rw (
  skip_nothing l.dst _ h.dst_starts.0 h.dst_starts.1,
  first_not_nul l.dst _ h.dst_starts.0 h.dst_plain,
  text_field_plain 16 l.dst _ h.dst_plain h.dst_fits,
  text_field_plain 16 l.src _ h.src_plain h.src_fits,
  number_field_digits 65536 0 l.port _ h.port_digits h.port_fits,
  number_field_digits 65536 0 l.event _ h.event_digits h.event_fits,
  number_field_digits 4294967296 0 l.pid _ h.pid_digits (omega (arith, h.pid_fits)),
  text_field_plain 60 l.uid _ h.uid_plain h.uid_fits,
  date_field-take l.date rest h.date_ne h.date_matches h.date_fits,
)
