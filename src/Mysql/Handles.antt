-- ===== src/Mysql/Handles.antt =====
-- The driver's handles: none is leaked, used after it was freed, or freed twice.
use iptracking.Prelude.{
  ℕ, ◌≡◌, ◌≢◌, refl, Bool, true, false, ◌&&◌, not, Option, none, some, List, [], ◌++◌,
  if◌then◌else◌, ◌==◌, sym, if-cases, arith, ◌∙◌,
}
use iptracking.Prelude.Int.{ℤ}
use iptracking.LogData.{LogData, log_event_to_str}
use iptracking.Db.Calls.{Held, Call, after_calls, after_call}
use iptracking.Db.{Answer}
use iptracking.Mysql.{
  Mysql, Library, mysql_open, mysql_close, mysql_log_one_event, after_connect, log_stmt_query_str,
  log_stmt_nparams,
}
use iptracking.Mysql.Blocklist.{Query, BlocklistEnum, blocklist_enum_open, blocklist_enum_close}

-- The operations of the driver, with the library's answers. `enumerate` opens an enumerator of the block list
-- and closes it before anything else is done; a close of the database in between has no trace here.
pub data Operation : Type 0 where
  open_ : Library → Operation
  close : Operation
  log_one_event : (ℤ → List ℕ) → Library → LogData → Operation
  enumerate : Query → Operation

-- An event is logged as `db_log_one_event` does it: not where there is no PAM logging.
pub operate : Mysql → Operation → Mysql × List Call
operate s (open_ lib) = let (r, calls) = mysql_open lib s in (r.1, calls)
operate s close = let (r, calls) = mysql_close s in (r.1, calls)
operate s (log_one_event decimal lib d) =
    let (r, calls) = mysql_log_one_event decimal lib s d in
    if s.no_pam_logging then (s, []) else (r.1, calls)
operate s (enumerate lib) =
    let (e, calls) = blocklist_enum_open lib s in (s, calls ++ blocklist_enum_close e)

-- An event that is logged has a name.
abbrev pub IsNamed : Operation → Type 0
IsNamed (open_ lib) = Unit
IsNamed close = Unit
IsNamed (log_one_event decimal lib d) = log_event_to_str d.event ≢ none
IsNamed (enumerate lib) = Unit

abbrev pub held : Mysql → Held
held s = record {
  connections = if s.is_connected then 1 else 0;
  statements = if s.log_statement then 1 else 0;
}

-- There is a statement exactly on a connection of a database with PAM logging.
abbrev pub IsTidy : Mysql → Type 0
IsTidy s = s.log_statement ≡ (s.is_connected && not s.no_pam_logging)

abbrev IsKept : Mysql → (Answer × Mysql) × List Call → Type 0
IsKept s ((answer, end), calls) =
    IsTidy end × (answer.0 ≡ end.is_connected) × (after_calls calls (held s) ≡ some (held end))

after_connect-IsKept :
    (error : List ℕ) (s : Mysql) (stmt_init prepared counted : Bool)
    → s.is_connected ≡ false
    → s.log_statement ≡ false
    → s.no_pam_logging ≡ false
    → IsKept s (after_connect error s stmt_init prepared counted)
unfolding after_connect after_calls after_call
after_connect-IsKept error s false prepared counted conn statement pam =
    (refl, refl, simp (conn, statement) refl)
after_connect-IsKept error s true false counted conn statement pam =
    (refl, refl, simp (conn, statement) refl)
after_connect-IsKept error s true true false conn statement pam =
    (refl, refl, simp (conn, statement) refl)
after_connect-IsKept error s true true true conn statement pam =
    (simp (pam) refl, refl, simp (conn, statement) refl)

unheld : (s : Mysql) → IsTidy s → s.is_connected ≡ false → s.log_statement ≡ false
unheld s tidy conn = ground arith

open-IsKept : (lib : Library) (s : Mysql) → IsTidy s → IsKept s (mysql_open lib s)
unfolding mysql_open after_calls after_call
open-IsKept lib s tidy =
    if-cases (IsKept s) s.is_connected _ _ (λ conn. (tidy, sym conn, refl))
      (λ conn.
        if-cases (IsKept s) (not lib.init) _ _ (λ f. (tidy, sym conn, refl))
          (λ f.
            if-cases (IsKept s) (not (lib.real_connect s)) _ _ (λ g. (tidy, sym conn, refl))
              (λ g.
                if-cases (IsKept s) s.no_pam_logging _ _
                  (λ no_pam. (
                    simp (no_pam, unheld s tidy conn) refl,
                    refl,
                    simp (conn, unheld s tidy conn) refl,
                  ))
                  (λ pam.
                    after_connect-IsKept lib.error s lib.stmt_init
                      (lib.stmt_prepare log_stmt_query_str)
                      (lib.stmt_param_count == log_stmt_nparams) conn (unheld s tidy conn) pam))))

instance_of : Mysql → Bool → Bool → Mysql
instance_of s conn statement = record s { is_connected = conn; log_statement = statement }

-- What logging leaves: the instance as it was, and the handles as they were.
abbrev IsHarmless : Mysql → (Answer × Mysql) × List Call → Type 0
IsHarmless s ((answer, end), calls) = (end ≡ s) × (after_calls calls (held s) ≡ some (held s))

-- What an enumerator took is given back when it is closed.
abbrev IsReturned : Mysql → Option BlocklistEnum × List Call → Type 0
IsReturned s (e, calls) = after_calls (calls ++ blocklist_enum_close e) (held s) ≡ some (held s)

none_held :
    (s : Mysql)
    → IsTidy s
    → s.is_connected ≡ false
    → some (held s) ≡ some (record { connections = 0; statements = 0 })
none_held s tidy conn = simp (conn, unheld s tidy conn) refl

-- On an instance with a statement exactly on a connection of a database with PAM logging, opening answers
-- true exactly where there is a connection afterwards; where it answers false, no handle is held.
pub open-all_or_nothing :
    (lib : Library) (s : Mysql)
    → IsTidy s
    → ((mysql_open lib s).0.0.0 ≡ (mysql_open lib s).0.1.is_connected)
      × ((mysql_open lib s).0.0.0 ≡ false
          → after_calls (mysql_open lib s).1 (held s)
            ≡ some (record { connections = 0; statements = 0 }))
open-all_or_nothing lib s tidy =
    let (tidy_end, answer, balanced) = open-IsKept lib s tidy in
    (answer, λ f. balanced ∙ none_held (mysql_open lib s).0.1 tidy_end (sym answer ∙ f))
