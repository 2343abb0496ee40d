-- ===== src/Csv/Rows.antt =====
-- What a file holds after a session.
use iptracking.Prelude.{ℕ, Bool, true, false, List, [], ◌∷◌, ◌++◌, ◌&&◌}
use iptracking.Prelude.Int.{ℤ}
use iptracking.LogData.{LogData}
use iptracking.Csv.{CsvFile, row, csvfile_log_one_event}

-- The rows of the events that `fprintf` writes, one behind another.
pub rows : (ℤ → List ℕ) → List ℕ → List ℕ → List (LogData × Bool) → List ℕ
rows decimal null_text delimiter [] = []
rows decimal null_text delimiter ((d, true) ∷ ds) =
    row decimal null_text delimiter d ++ rows decimal null_text delimiter ds
rows decimal null_text delimiter ((d, false) ∷ ds) = rows decimal null_text delimiter ds

-- Events one after another, each with whether `fprintf` succeeds: the answers, and the file.
pub log_all : (ℤ → List ℕ) → List ℕ → CsvFile → List (LogData × Bool) → List Bool × CsvFile
log_all decimal null_text f [] = ([], f)
log_all decimal null_text f ((d, fprintf_ok) ∷ ds) =
    let (ok, after) = csvfile_log_one_event decimal null_text fprintf_ok f d in
    let (oks, end) = log_all decimal null_text after ds in (ok ∷ oks, end)

-- Whether the rows were written; on a file that is not open none is.
abbrev pub written : Bool → List (LogData × Bool) → List Bool
written is_open [] = []
written is_open ((d, fprintf_ok) ∷ ds) = (is_open && fprintf_ok) ∷ written is_open ds

-- A file of a database with PAM logging, by its name, delimiter, and text.
abbrev pub file : Bool → List ℕ → List ℕ → List ℕ → CsvFile
file is_open name delimiter text = record {
  filename = name;
  delimiter = delimiter;
  no_pam_logging = false;
  is_open = is_open;
  contents = text;
}

module _ (decimal : ℤ → List ℕ) (null_text name delimiter : List ℕ) where
  abbrev as_answered : List Bool → List ℕ → Bool → List Bool × CsvFile
  as_answered oks text is_open = (oks, file is_open name delimiter text)
