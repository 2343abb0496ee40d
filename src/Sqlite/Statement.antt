-- ===== src/Sqlite/Statement.antt =====
-- The statement that logs an event, and what comes of its number of values.
use iptracking.Prelude.{
  ℕ, suc, ◌≡◌, ◌≢◌, refl, inl, inr, Bool, true, false, not, Option, none, some, List, [], ◌∷◌, ◌==◌,
  if◌then◌else◌, Bool-cases, ap, ◌∙◌,
}
use iptracking.LogData.{LogData}
use iptracking.Db.Calls.{run}
use iptracking.Sqlite.{
  Sqlite, Opened, opened, refused, Library, log_stmt_query_str, sqlite3_open, sqlite3_close,
  sqlite3_log_one_event, after_open, after_prepare,
}
use iptracking.Sqlite.Handles.{Operation, open_, close, log_one_event, enumerate, operate}

-- How many items each pair of parentheses of a statement has: the commas, and one; `inside` counts
-- those since the last opening one.
pub item_counts : Option ℕ → List ℕ → List ℕ
item_counts inside [] = []
item_counts none (c ∷ s) =
    let here = item_counts none s in
    let opening = item_counts (some 1) s in if c == b'(' then opening else here
item_counts (some n) (c ∷ s) =
    let behind = item_counts none s in
    let more = item_counts (some (suc n)) s in
    let on = item_counts (some n) s in
    if c == b')' then n ∷ behind else if c == b',' then more else on

-- The columns and the values of an INSERT are not equally many.
unfoldable pub is_uneven : List ℕ → Bool
unfolding item_counts
is_uneven query = elim (item_counts none query) [
  | [] ↦ false
  | columns ∷ rest ↦ elim rest [ [] ↦ false | values ∷ _ ↦ not (columns == values) ]
]

-- The library refuses to prepare an INSERT with more values than columns, or fewer.
abbrev pub RefusesUneven : Library → Type 0
RefusesUneven lib = (query : List ℕ) → is_uneven query ≡ true → lib.prepare_v2 query ≢ none

abbrev pub AllRefuse : List Operation → Type 0
AllRefuse [] = Unit
AllRefuse (open_ lib ∷ ops) = RefusesUneven lib × AllRefuse ops
AllRefuse (close ∷ ops) = AllRefuse ops
AllRefuse (log_one_event lib d ∷ ops) = AllRefuse ops
AllRefuse (enumerate lib malloc_ok rows ∷ ops) = AllRefuse ops

log_stmt-uneven : is_uneven log_stmt_query_str ≡ true
unfolding is_uneven
log_stmt-uneven = refl

after_prepare-no_query :
    (errstr : ℕ → List ℕ) (s : Sqlite) (rc : Option ℕ)
    → rc ≢ none
    → (after_prepare errstr s rc).0.1.db_query ≡ false
unfolding after_prepare
after_prepare-no_query errstr s none refuses = absurd (refuses refl)
after_prepare-no_query errstr s (some rc) refuses = refl

after_open-no_query :
    (lib : Library) (s : Sqlite) (o : Opened)
    → RefusesUneven lib
    → s.db_query ≡ false
    → (after_open lib s o).0.1.db_query ≡ false
unfolding after_open
after_open-no_query lib s (refused rc false) refuses query = query
after_open-no_query lib s (refused rc true) refuses query = query
after_open-no_query lib s opened refuses query = elim (Bool-cases s.no_pam_logging) [
  | inl no_pam ↦ simp (no_pam) query
  | inr pam ↦ simp (pam) (
      after_prepare-no_query lib.errstr s (lib.prepare_v2 log_stmt_query_str)
        (refuses log_stmt_query_str log_stmt-uneven))
]

open-no_query :
    (lib : Library) (s : Sqlite)
    → RefusesUneven lib
    → s.db_query ≡ false
    → (sqlite3_open lib s).0.1.db_query ≡ false
unfolding sqlite3_open
open-no_query lib s refuses query = elim (Bool-cases s.db_conn) [
  | inl conn ↦ simp (conn) query
  | inr conn ↦
      simp (conn) (after_open-no_query lib s (lib.open_v2 s.filename s.flags) refuses query)
]

log-unsent :
    (lib : Library) (d : LogData) (s : Sqlite)
    → s.db_query ≡ false
    → sqlite3_log_one_event lib s d ≡ (((false, none), s), [])
unfolding sqlite3_log_one_event
log-unsent lib d s query = elim (Bool-cases s.db_conn) [
  | inl conn ↦ simp (conn, query) refl
  | inr conn ↦ simp (conn, query) refl
]

close-no_query : (s : Sqlite) → s.db_query ≡ false → (sqlite3_close s).0.1.db_query ≡ false
unfolding sqlite3_close
close-no_query s query = elim (Bool-cases s.db_conn) [
  | inl conn ↦ simp (conn) refl
  | inr conn ↦ simp (conn) query
]

run-no_query :
    (s : Sqlite) (ops : List Operation)
    → AllRefuse ops
    → s.db_query ≡ false
    → (run operate s ops).0.db_query ≡ false
unfolding run operate
run-no_query s [] refuse query = query
run-no_query s (open_ lib ∷ ops) (refuses, rest) query =
    run-no_query (sqlite3_open lib s).0.1 ops rest (open-no_query lib s refuses query)
run-no_query s (close ∷ ops) refuse query =
    run-no_query (sqlite3_close s).0.1 ops refuse (close-no_query s query)
run-no_query s (log_one_event lib d ∷ ops) refuse query =
    run-no_query (sqlite3_log_one_event lib s d).0.1 ops refuse
      (ap (λ r. r.0.1.db_query) (log-unsent lib d s query) ∙ query)
run-no_query s (enumerate lib malloc_ok rows ∷ ops) refuse query = run-no_query s ops refuse query

-- The statement names six columns and has seven values. Where SQLite refuses to prepare an INSERT
-- like that, an instance that has no statement, such as a new one, never logs an event: after any
-- operations, logging answers false and asks nothing of the library.
pub statement-never_logs :
    (s : Sqlite) (ops : List Operation)
    → AllRefuse ops
    → s.db_query ≡ false
    → (lib : Library) (d : LogData)
    → sqlite3_log_one_event lib (run operate s ops).0 d
      ≡ (((false, none), (run operate s ops).0), [])
statement-never_logs s ops refuse query lib d =
    log-unsent lib d (run operate s ops).0 (run-no_query s ops refuse query)
