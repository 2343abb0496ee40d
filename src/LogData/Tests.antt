-- ===== src/LogData/Tests.antt =====
-- Runs of the record's tests and readers.
use iptracking.Prelude.{◌≡◌, refl, ◌≢◌, ◌↔◌, ◌<◌, true, none, some, arith}
use iptracking.Prelude.Text.{codes, is_space, is_digit}
use iptracking.Chartest.{chartest}
use iptracking.LogData.{auth, event_code, log_event_max, log_event_to_str, log_data_is_valid}
use iptracking.LogData.Validity.{IsText, log_data_is_valid_iff, to_str_iff}
use iptracking.LogData.Parse.{log_data_parse}
use iptracking.LogData.Parse.Line.{Line, print_line, IsLine, to_log_data, parse-print_line}

abbrev line : Line
line = record {
  dst = codes "10.0.0.1";
  src = codes "10.0.0.2";
  port = codes "5022";
  event = codes "1";
  pid = codes "317";
  uid = codes "ann";
  date = codes "2024-05-06 07:08:09";
}

line-IsLine : IsLine line (codes " x")
unfolding chartest is_space is_digit
line-IsLine = record {
  dst_plain = grind arith;
  dst_starts = (grind arith, refl);
  dst_fits = omega arith;
  src_plain = grind arith;
  src_fits = omega arith;
  port_digits = grind arith;
  port_fits = omega arith;
  event_digits = grind arith;
  event_fits = omega arith;
  pid_digits = grind arith;
  pid_fits = omega arith;
  uid_plain = grind arith;
  uid_fits = omega arith;
  date_ne = grind arith;
  date_fits = omega arith;
  date_matches = refl;
}

parse-print_line_example :
    log_data_parse (print_line line (codes " x")) ≡ some (to_log_data line, codes " x")
parse-print_line_example = parse-print_line line (codes " x") line-IsLine

log_data_is_valid_iff_example : (log_data_is_valid (some (to_log_data line)) ≡ true) ↔ (
    ((to_log_data line).event < 4)
    × IsText (to_log_data line).dst_ipaddr
    × IsText (to_log_data line).src_ipaddr
    × IsText (to_log_data line).uid
    × IsText (to_log_data line).log_date)
log_data_is_valid_iff_example = log_data_is_valid_iff (to_log_data line)

named : log_event_to_str (event_code auth) ≡ some (codes "auth")
unfolding log_event_to_str event_code
named = refl

to_str_iff_example : (log_event_to_str 3 ≢ none) ↔ (3 < log_event_max)
to_str_iff_example = to_str_iff 3
