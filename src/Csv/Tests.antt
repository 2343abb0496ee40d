-- ===== src/Csv/Tests.antt =====
-- A run of a session.
use iptracking.Prelude.{Bool, false, ℕ, true, false, List, [], ◌∷◌, ◌++◌}
use iptracking.Prelude.Int.{ℤ, pos}
use iptracking.Prelude.Text.{codes}
use iptracking.LogData.{LogData}
use iptracking.Csv.{CsvFile, csvfile_open}
use iptracking.Csv.Rows.{log_all, file}

abbrev dashes : ℤ → List ℕ
dashes n = codes "-"

abbrev event : LogData
event = record {
  dst_ipaddr = codes "10.0.0.1" ++ 0 ∷ [];
  src_ipaddr = codes "10.0.0.2" ++ 0 ∷ [];
  src_port = 5022;
  event = 1;
  sshd_pid = pos 317;
  uid = codes "ann" ++ 0 ∷ [];
  log_date = codes "2024-05-06 07:08:09" ++ 0 ∷ [];
}

-- The second row cannot be written.
abbrev attempts : List (LogData × Bool)
attempts = (event, true) ∷ (event, false) ∷ (event, true) ∷ []

abbrev session : List Bool × CsvFile
session =
    log_all dashes [] (csvfile_open true (file false (codes "f.csv") (codes ",") (codes "x"))).1
      attempts
