-- ===== src/Postgresql/Handles.antt =====
-- The handles of the driver's own connection: none is leaked, used after it was freed, or freed twice.
use iptracking.Prelude.{
  ℕ, ◌≡◌, refl, inl, inr, Bool, true, false, not, Option, none, some, List, [], ◌∷◌, ◌++◌, ◌∙◌, ◌⊎◌,
  Bool-cases, if◌then◌else◌, if-cases, sym,
}
use iptracking.Prelude.Int.{ℤ}
use iptracking.LogData.{LogData}
use iptracking.Db.{Answer}
use iptracking.Db.Calls.{Held, Call, after_calls, after_call, run, IsBalanced, run-IsBalanced}
use iptracking.Postgresql.{
  Postgresql, Library, Conn, Result, no_result, no_tuples, tuples, toggle, started, after_connect,
  postgresql_open, postgresql_close, choose_conn, postgresql_log_one_event, log_on, log_stmt_query,
}
use iptracking.Postgresql.Blocklist.{
  BlocklistEnum, after_query, blocklist_enum_open, enum_open_on, blocklist_enum_close,
  blocklist_query,
}

-- The operations of the driver on the main thread, with the answers to them, as calls on its own
-- connection; the listener's connection is in Postgresql/Listener/Session. `enumerate` opens an enumerator of
-- the block list and closes it before anything else is done.
pub data Operation : Type 0 where
  open_ : Library → Operation
  close : Library → Operation
  log_one_event : (ℤ → List ℕ) → Library → LogData → Operation
  enumerate : Library → Bool → Operation
  set_toggle : Library → Bool → Operation

-- The calls on a connection that was chosen.
unfoldable pub calls_on : Option (Conn × List Call) → List Call
calls_on none = []
calls_on (some (c, calls)) = calls

unfoldable pub operate : Postgresql → Operation → Postgresql × List Call
operate s (open_ lib) = let (r, calls) = postgresql_open lib s in (r.1, calls)
operate s (close lib) = let (r, calls) = postgresql_close lib s in (r.1, calls)
operate s (log_one_event decimal lib d) =
    (s, calls_on (postgresql_log_one_event decimal lib false s d).1)
operate s (enumerate lib malloc_ok) =
    let (e, used) = blocklist_enum_open lib malloc_ok false s in
    (s, calls_on used ++ blocklist_enum_close e)
operate s (set_toggle lib on) = ((toggle lib s on).1, [])

abbrev pub held : Postgresql → Held
held s = record { connections = if s.db_conn then 1 else 0; statements = 0 }

abbrev IsKept : Postgresql → (Answer × Postgresql) × List Call → Type 0
IsKept s ((answer, end), calls) =
    (answer.0 ≡ end.db_conn) × (after_calls calls (held s) ≡ some (held end))

toggle-db_conn :
    (lib : Library) (s : Postgresql) (on : Bool) → (toggle lib s on).1.db_conn ≡ s.db_conn
unfolding toggle
toggle-db_conn lib s true =
    if-cases (λ (r : Bool × Postgresql). r.1.db_conn ≡ s.db_conn) s.is_notify_running _ _
      (λ e. refl)
      (λ e.
        if-cases (λ (r : Bool × Postgresql). r.1.db_conn ≡ s.db_conn) lib.pthread_create _ _
          (λ f. refl) (λ f. refl))
toggle-db_conn lib s false =
    if-cases (λ (r : Bool × Postgresql). r.1.db_conn ≡ s.db_conn) s.is_notify_running _ _
      (λ e. refl) (λ e. refl)

started-db_conn : (lib : Library) (s : Postgresql) → (started lib s).db_conn ≡ s.db_conn
unfolding started
started-db_conn lib s =
    if-cases (λ (r : Postgresql). r.db_conn ≡ s.db_conn) s.callback _ _
      (λ e. toggle-db_conn lib s true) (λ e. refl)

after_connect-IsKept :
    (lib : Library) (s : Postgresql) (printed prepared : Bool)
    → s.db_conn ≡ false
    → IsKept s (after_connect lib s printed prepared)
unfolding after_connect after_calls after_call
after_connect-IsKept lib s false prepared conn = (refl, simp (conn) refl)
after_connect-IsKept lib s true false conn = (refl, simp (conn) refl)
after_connect-IsKept lib s true true conn = (
  sym (started-db_conn lib (record s { db_conn = true })),
  simp (conn, started-db_conn lib (record s { db_conn = true })) refl,
)

open-IsKept : (lib : Library) (s : Postgresql) → IsKept s (postgresql_open lib s)
unfolding postgresql_open after_calls after_call
open-IsKept lib s =
    if-cases (IsKept s) s.db_conn _ _ (λ conn. (sym conn, refl))
      (λ conn.
        if-cases (IsKept s) (not (lib.connectdb_params s.conn_keys s.conn_values)) _ _
          (λ f. (sym conn, refl))
          (λ f.
            if-cases (IsKept s) s.no_pam_logging _ _
              (λ no_pam. (
                sym (started-db_conn lib (record s { db_conn = true })),
                simp (conn, started-db_conn lib (record s { db_conn = true })) refl,
              ))
              (λ pam.
                after_connect-IsKept lib s lib.asprintf_ok
                  (lib.prepare (log_stmt_query s.pam_schema)) conn)))

close-IsKept :
    (lib : Library) (s : Postgresql)
    → after_calls (postgresql_close lib s).1 (held s) ≡ some (held (postgresql_close lib s).0.1)
unfolding postgresql_close after_calls after_call
close-IsKept lib s =
    if-cases
      (λ (r : (Answer × Postgresql) × List Call). after_calls r.1 (held s) ≡ some (held r.0.1))
      s.db_conn _ _ (λ conn. simp (conn) refl) (λ conn. refl)

abbrev IsReturned : Postgresql → List Call → Type 0
IsReturned s calls = after_calls calls (held s) ≡ some (held s)

log_on-IsReturned :
    (decimal : ℤ → List ℕ) (lib : Library) (s : Postgresql) (d : LogData) (c : Option Conn)
    → (c ≡ none) ⊎ (s.db_conn ≡ true)
    → IsReturned s (calls_on (log_on decimal lib d c).1)
unfolding log_on after_calls after_call calls_on
log_on-IsReturned decimal lib s d none chosen = refl
log_on-IsReturned decimal lib s d (some c) (inl e) = cc
log_on-IsReturned decimal lib s d (some c) (inr conn) = simp (conn) refl

after_query-IsReturned :
    (malloc_ok : Bool) (result : Result) (s : Postgresql)
    → s.db_conn ≡ true
    → let (e, calls) = after_query malloc_ok result in
      IsReturned s (calls ++ blocklist_enum_close e)
unfolding after_query after_calls after_call blocklist_enum_close
after_query-IsReturned malloc_ok no_result s conn = refl
after_query-IsReturned malloc_ok no_tuples s conn = simp (conn) refl
after_query-IsReturned malloc_ok (tuples []) s conn = simp (conn) refl
after_query-IsReturned true (tuples (t ∷ ts)) s conn = simp (conn) refl
after_query-IsReturned false (tuples (t ∷ ts)) s conn = simp (conn) refl

enum_on-IsReturned :
    (lib : Library) (malloc_ok : Bool) (s : Postgresql) (c : Option Conn)
    → (c ≡ none) ⊎ (s.db_conn ≡ true)
    → let (e, used) = enum_open_on lib malloc_ok s c in
      IsReturned s (calls_on used ++ blocklist_enum_close e)
unfolding enum_open_on after_calls calls_on blocklist_enum_close
enum_on-IsReturned lib malloc_ok s none chosen = refl
enum_on-IsReturned lib malloc_ok s (some c) (inl e) = cc
enum_on-IsReturned lib malloc_ok s (some c) (inr conn) =
    if-cases
      (λ (r : Option BlocklistEnum × List Call). IsReturned s (r.1 ++ blocklist_enum_close r.0))
      lib.asprintf_ok _ _
      (λ f. after_query-IsReturned malloc_ok (lib.exec (blocklist_query s.firewall_schema)) s conn)
      (λ f. refl)

-- The main thread is given its own connection, or none.
chosen_on_main : (s : Postgresql) → (choose_conn false s ≡ none) ⊎ (s.db_conn ≡ true)
unfolding choose_conn
chosen_on_main s = elim (Bool-cases s.db_conn) [
  | inl conn ↦ inr conn
  | inr conn ↦ inl (elim (Bool-cases s.db_conn_async) [
    | inl async ↦ simp (conn, async) refl
    | inr async ↦ simp (conn, async) refl
  ])
]

-- Any instance will do.
abbrev IsTidy : Postgresql → Type 0
IsTidy s = Unit

operate-IsKept :
    (s : Postgresql) (op : Operation)
    → IsTidy s
    → IsTidy (operate s op).0 × IsBalanced operate held s (operate s op)
unfolding operate after_calls postgresql_log_one_event blocklist_enum_open
operate-IsKept s (open_ lib) tidy = (tt, (open-IsKept lib s).1)
operate-IsKept s (close lib) tidy = (tt, close-IsKept lib s)
operate-IsKept s (log_one_event decimal lib d) tidy =
    (tt, log_on-IsReturned decimal lib s d (choose_conn false s) (chosen_on_main s))
operate-IsKept s (enumerate lib malloc_ok) tidy =
    (tt, enum_on-IsReturned lib malloc_ok s (choose_conn false s) (chosen_on_main s))
operate-IsKept s (set_toggle lib on) tidy = (tt, simp (toggle-db_conn lib s on) refl)

-- Of the main thread's own connection and its results, the listener's not counted: whatever operations the
-- main thread makes, in whatever order, each enumerator closed before the next operation, and whatever the
-- library and the threads answer: none is freed twice or overwritten while it is held, nothing runs without
-- a connection, and what is held at the end is the connection where the instance has one.
pub postgresql-IsBalanced :
    (s : Postgresql) (ops : List Operation) → IsBalanced operate held s (run operate s ops)
postgresql-IsBalanced s ops = (run-IsBalanced operate held IsTidy operate-IsKept s ops tt).1

none_held :
    (s : Postgresql)
    → s.db_conn ≡ false
    → some (held s) ≡ some (record { connections = 0; statements = 0 })
none_held s conn = simp (conn) refl

-- Opening answers true exactly where there is a connection afterwards; where it answers false,
-- nothing is held.
pub postgresql_open-all_or_nothing :
    (lib : Library) (s : Postgresql)
    → ((postgresql_open lib s).0.0.0 ≡ (postgresql_open lib s).0.1.db_conn)
      × ((postgresql_open lib s).0.0.0 ≡ false
          → after_calls (postgresql_open lib s).1 (held s)
            ≡ some (record { connections = 0; statements = 0 }))
postgresql_open-all_or_nothing lib s =
    let (answer, balanced) = open-IsKept lib s in
    (answer, λ f. balanced ∙ none_held (postgresql_open lib s).0.1 (sym answer ∙ f))
