-- ===== src/Csv.antt =====
-- libiptracking/db_drivers/db_instance_csvfile.c: the driver that appends events to a text file.
pub mod Rows
mod Tests
use iptracking.Prelude.{
  ℕ, Bool, true, false, not, ◌||◌, Option, none, some, List, [], ◌∷◌, ◌++◌, ◌==◌, if◌then◌else◌,
}
use iptracking.Prelude.Int.{ℤ, pos}
use iptracking.Prelude.Text.{codes, is_empty}
use iptracking.LogData.{LogData, log_event_to_str}
use iptracking.Db.Shown.{Line, shown}
use iptracking.Yaml.{Document, Node, Strtol, yaml_helper_doc_node_at_path, scalar_value}

-- `db_instance_csvfile_t`; `contents` is the text of the file, `is_open` whether `fptr` is set.
pub record CsvFile : Type 0 where
  pub filename : List ℕ
  pub delimiter : List ℕ
  pub no_pam_logging : Bool
  pub is_open : Bool
  pub contents : List ℕ

-- A property that may be missing or no scalar.
unfoldable pub property_at : Strtol → Document → Node → List ℕ → Option (List ℕ) → Option (List ℕ)
unfolding yaml_helper_doc_node_at_path scalar_value
property_at strtol doc n path absent =
    elim (yaml_helper_doc_node_at_path strtol doc (some n) path) [
      | none ↦ absent
      | some found ↦ scalar_value found
    ]

-- `__db_instance_csvfile_alloc`, where memory is to be had; the options are set behind it by `db_alloc`.
-- The file has the text `contents` from before.
unfoldable pub csvfile_alloc : Strtol → Document → Node → Bool → List ℕ → Option CsvFile
unfolding property_at
csvfile_alloc strtol doc n no_pam contents =
    elim (property_at strtol doc n (codes "delimiter") (some (codes ","))) [
      | none ↦ none
      | some delimiter ↦
          if is_empty delimiter
          then none
          else elim (property_at strtol doc n (codes "filename") none) [
            | none ↦ none
            | some filename ↦ some (record {
              filename = filename;
              delimiter = delimiter;
              no_pam_logging = no_pam;
              is_open = false;
              contents = contents;
            })
          ]
    ]

unfoldable pub csvfile_has_valid_configuration : CsvFile → Bool
csvfile_has_valid_configuration f = true

unfoldable pub csvfile_summarize_to_log : CsvFile → List Line
csvfile_summarize_to_log f =
    (codes "driver_name", shown (codes "csvfile"))
    ∷ (codes "filename", shown f.filename)
    ∷ (codes "delimiter", shown f.delimiter)
    ∷ []

-- `__db_instance_csvfile_open`, over whether `fopen` succeeds.
unfoldable pub csvfile_open : Bool → CsvFile → Bool × CsvFile
csvfile_open fopen_ok f =
    if f.no_pam_logging || f.is_open
    then (true, f)
    else if fopen_ok
    then (true, record f { is_open = true })
    else (false, f)

-- `__db_instance_csvfile_close`.
unfoldable pub csvfile_close : CsvFile → Bool × CsvFile
csvfile_close f = (true, record f { is_open = false })

-- The C string in a character array.
unfoldable pub text_of : List ℕ → List ℕ
text_of [] = []
text_of (c ∷ s) = let rest = text_of s in if c == 0 then [] else c ∷ rest

-- The line that `fprintf` writes: `decimal` is how it prints a number, `null_text` what it makes of a
-- NULL text.
unfoldable pub row : (ℤ → List ℕ) → List ℕ → List ℕ → LogData → List ℕ
unfolding text_of log_event_to_str
row decimal null_text delimiter d =
    text_of d.dst_ipaddr
    ++ (delimiter ++ text_of d.src_ipaddr)
    ++ (delimiter ++ decimal (pos d.src_port))
    ++ (delimiter ++ elim (log_event_to_str d.event) [ none ↦ null_text | some s ↦ s ])
    ++ (delimiter ++ decimal d.sshd_pid)
    ++ (delimiter ++ text_of d.uid)
    ++ (delimiter ++ text_of d.log_date)
    ++ codes "\n"

-- `__db_instance_csvfile_log_one_event`, over whether `fprintf` succeeds.
unfoldable pub csvfile_log_one_event :
    (ℤ → List ℕ) → List ℕ → Bool → CsvFile → LogData → Bool × CsvFile
unfolding row
csvfile_log_one_event decimal null_text fprintf_ok f d =
    if f.is_open
    then if fprintf_ok
      then (true, record f { contents = f.contents ++ row decimal null_text f.delimiter d })
      else (false, f)
    else (false, f)
