-- ===== src/Sqlite/Blocklist.antt =====
-- The enumerator of the block list in an SQLite file.
use iptracking.Prelude.{
  ℕ, suc, ◌≡◌, refl, Bool, true, false, Option, none, some, List, [], ◌∷◌, if◌then◌else◌, length,
}
use iptracking.Db.Calls.{Call, acquire, release}
use iptracking.Db.Enumerator.{take_all, until_null}
use iptracking.Sqlite.{Sqlite, Library, blocklist_stmt_query_str}

-- `db_instance_sqlite3_blocklist_enum_t`. Of the query: the text of the row it stands at, and those of the
-- rows that `sqlite3_step` still gives before it answers something else.
pub record BlocklistEnum : Type 0 where
  pub current : Option (List ℕ)
  pub pending : List (Option (List ℕ))
  pub is_first : Bool
  pub is_done : Bool

-- `__db_instance_sqlite3_blocklist_enum_next`.
unfoldable pub blocklist_enum_next : BlocklistEnum → Option (List ℕ) × BlocklistEnum
blocklist_enum_next e =
    if e.is_done
    then (none, e)
    else if e.is_first
    then (e.current, record e { is_first = false })
    else elim e.pending [
      | [] ↦ (none, record e { is_done = true })
      | v ∷ rest ↦ (v, record e { current = v; pending = rest })
    ]

-- `__db_instance_sqlite3_blocklist_enum_open` behind the preparation of the query, over whether `malloc`
-- succeeds and the rows that the query gives.
unfoldable pub after_query :
    Bool → List (Option (List ℕ)) → Option ℕ → Option BlocklistEnum × List Call
after_query malloc_ok rows (some rc) = (none, [])
after_query malloc_ok [] none = (none, acquire ∷ release ∷ [])
after_query malloc_ok (v ∷ rest) none =
    if malloc_ok
    then (
      some (record { current = v; pending = rest; is_first = true; is_done = false }),
      acquire ∷ [],
    )
    else (none, acquire ∷ release ∷ [])

-- `__db_instance_sqlite3_blocklist_enum_open`.
unfoldable pub blocklist_enum_open :
    Library → Bool → List (Option (List ℕ)) → Sqlite → Option BlocklistEnum × List Call
unfolding after_query
blocklist_enum_open lib malloc_ok rows s =
    if s.db_conn
    then after_query malloc_ok rows (lib.prepare_v2 blocklist_stmt_query_str)
    else (none, [])

-- `__db_instance_sqlite3_blocklist_enum_close`.
unfoldable pub blocklist_enum_close : Option BlocklistEnum → List Call
blocklist_enum_close none = []
blocklist_enum_close (some e) = release ∷ []

behind_first :
    (v : Option (List ℕ)) (rows : List (Option (List ℕ)))
    → (end : BlocklistEnum) × (take_all blocklist_enum_next
          (suc (length rows))
          (record { current = v; pending = rows; is_first = false; is_done = false })
        ≡ some (until_null rows, end))
unfolding take_all blocklist_enum_next until_null
behind_first v [] = (record { current = v; pending = []; is_first = false; is_done = true }, refl)
behind_first v (none ∷ rows) =
    (record { current = none; pending = rows; is_first = false; is_done = false }, refl)
behind_first v (some t ∷ rows) = let (end, e) = behind_first (some t) rows in (end, rw e refl)

-- Where a query gives rows and memory is to be had, opening an enumerator on a connection and taking
-- from it ends after at most one step more than there are rows, and gives the texts of the rows in
-- their order, up to the first that has none.
pub blocklist-texts :
    (lib : Library) (s : Sqlite) (v : Option (List ℕ)) (rows : List (Option (List ℕ)))
    → s.db_conn ≡ true
    → lib.prepare_v2 blocklist_stmt_query_str ≡ none
    → (e end : BlocklistEnum) × ((blocklist_enum_open lib true (v ∷ rows) s).0 ≡ some e)
      × (take_all blocklist_enum_next (suc (length (v ∷ rows))) e
          ≡ some (until_null (v ∷ rows), end))
unfolding take_all blocklist_enum_next blocklist_enum_open until_null
blocklist-texts lib s none rows conn prepared = (
  record { current = none; pending = rows; is_first = true; is_done = false },
  record { current = none; pending = rows; is_first = false; is_done = false },
  simp (conn, prepared) refl,
  refl,
)
blocklist-texts lib s (some t) rows conn prepared =
    let (end, e) = behind_first (some t) rows in
    (
      record { current = some t; pending = rows; is_first = true; is_done = false },
      end,
      simp (conn, prepared) refl,
      rw e refl,
    )
