-- ===== src/Mysql/Blocklist.antt =====
-- The enumerator of the block list on a MySQL server.
use iptracking.Prelude.{
  ℕ, suc, ◌≡◌, refl, Bool, true, false, Option, none, some, List, [], ◌∷◌, if◌then◌else◌, length,
}
use iptracking.Db.Calls.{Call, acquire, release}
use iptracking.Db.Enumerator.{take_all}
use iptracking.Mysql.{Mysql, blocklist_stmt_query_str}

-- `db_instance_mysql_blocklist_enum_t`: the rows that `mysql_stmt_fetch` still gives, each with its text or
-- with NULL. A text is shorter than the 256 characters of `bind_str`.
pub record BlocklistEnum : Type 0 where
  pub pending : List (Option (List ℕ))
  pub is_done : Bool

-- `__db_instance_mysql_blocklist_enum_next`: a row that is NULL or empty is taken, and gives NULL.
unfoldable pub blocklist_enum_next : BlocklistEnum → Option (List ℕ) × BlocklistEnum
blocklist_enum_next e = if e.is_done then (none, e) else elim e.pending [
  | [] ↦ (none, record e { is_done = true })
  | v ∷ rest ↦ elim v [
    | none ↦ (none, record e { pending = rest })
    | some t ↦ elim t [
      | [] ↦ (none, record e { pending = rest })
      | c ∷ cs ↦ (some (c ∷ cs), record e { pending = rest })
    ]
  ]
]

-- The library's answers: whether each call succeeds, in their order, and the rows.
pub record Query : Type 0 where
  pub stmt_init : Bool
  pub stmt_prepare : List ℕ → Bool
  pub malloc_ok : Bool
  pub stmt_bind_result : Bool
  pub stmt_execute : Bool
  pub rows : List (Option (List ℕ))

-- `__db_instance_mysql_blocklist_enum_open`.
unfoldable pub blocklist_enum_open : Query → Mysql → Option BlocklistEnum × List Call
blocklist_enum_open lib s =
    if s.is_connected
    then if lib.stmt_init
      then if lib.stmt_prepare blocklist_stmt_query_str
        then if lib.malloc_ok
          then if lib.stmt_bind_result
            then if lib.stmt_execute
              then (some (record { pending = lib.rows; is_done = false }), acquire ∷ [])
              else (none, acquire ∷ release ∷ [])
            else (none, acquire ∷ release ∷ [])
          else (none, acquire ∷ release ∷ [])
        else (none, acquire ∷ release ∷ [])
      else (none, [])
    else (none, [])

-- `__db_instance_mysql_blocklist_enum_close`.
unfoldable pub blocklist_enum_close : Option BlocklistEnum → List Call
blocklist_enum_close none = []
blocklist_enum_close (some e) = release ∷ []

-- The rows before the first that is NULL or empty.
pub until_blank : List (Option (List ℕ)) → List (List ℕ)
until_blank [] = []
until_blank (none ∷ rows) = []
until_blank (some [] ∷ rows) = []
until_blank (some (c ∷ cs) ∷ rows) = (c ∷ cs) ∷ until_blank rows

-- Taking from an enumerator that is not done ends after at most one step more than there are rows, and
-- gives the texts of the rows in their order, up to the first that is NULL or empty.
pub blocklist-until_blank :
    (rows : List (Option (List ℕ)))
    → (end : BlocklistEnum) × (take_all blocklist_enum_next
          (suc (length rows))
          (record { pending = rows; is_done = false })
        ≡ some (until_blank rows, end))
unfolding take_all blocklist_enum_next until_blank
blocklist-until_blank [] = (record { pending = []; is_done = true }, refl)
blocklist-until_blank (none ∷ rows) = (record { pending = rows; is_done = false }, refl)
blocklist-until_blank (some [] ∷ rows) = (record { pending = rows; is_done = false }, refl)
blocklist-until_blank (some (c ∷ cs) ∷ rows) =
    let (end, e) = blocklist-until_blank rows in (end, rw e refl)
