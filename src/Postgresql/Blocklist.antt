-- ===== src/Postgresql/Blocklist.antt =====
-- The enumerator of the block list on a PostgreSQL server.
use iptracking.Prelude.{
  ℕ, suc, ◌+◌, ◌<◌, ◌≡◌, refl, Bool, true, false, Option, none, some, List, [], ◌∷◌, ◌++◌,
  if◌then◌else◌, ltb, length, get_elem?, arith, lt→ltb, subst, sym, ap, ◌∙◌,
}
use iptracking.Prelude.Text.{codes}
use iptracking.Db.Calls.{Call, acquire, release}
use iptracking.Db.Enumerator.{take_all, take_all-none, take_all-some}
use iptracking.Postgresql.{
  Postgresql, Library, Result, no_result, no_tuples, tuples, Conn, choose_conn, schema_prefix,
}

-- `db_instance_postgresql_blocklist_enum_t`; `query` is the first column of the result.
pub record BlocklistEnum : Type 0 where
  pub query : List (List ℕ)
  pub i : ℕ
  pub i_max : ℕ

-- `__db_instance_postgresql_blocklist_enum_next`; `PQgetvalue` gives NULL out of range.
unfoldable pub blocklist_enum_next : BlocklistEnum → Option (List ℕ) × BlocklistEnum
blocklist_enum_next e =
    if ltb e.i e.i_max then (get_elem? e.query e.i, record e { i = e.i + 1 }) else (none, e)

unfoldable pub blocklist_query : Option (List ℕ) → List ℕ
unfolding schema_prefix
blocklist_query schema =
    codes "SELECT ip_entity FROM " ++ (schema_prefix schema ++ codes "block_now")

-- `__db_instance_postgresql_blocklist_enum_open` behind the query, over whether `malloc` succeeds.
unfoldable pub after_query : Bool → Result → Option BlocklistEnum × List Call
after_query malloc_ok no_result = (none, [])
after_query malloc_ok no_tuples = (none, acquire ∷ release ∷ [])
after_query malloc_ok (tuples []) = (none, acquire ∷ release ∷ [])
after_query malloc_ok (tuples (t ∷ ts)) =
    if malloc_ok
    then (some (record { query = t ∷ ts; i = 0; i_max = length (t ∷ ts) }), acquire ∷ [])
    else (none, acquire ∷ release ∷ [])

-- `__db_instance_postgresql_blocklist_enum_open` on the connection that was chosen.
unfoldable pub enum_open_on :
    Library → Bool → Postgresql → Option Conn → Option BlocklistEnum × Option (Conn × List Call)
unfolding after_query blocklist_query
enum_open_on lib malloc_ok s none = (none, none)
enum_open_on lib malloc_ok s (some c) =
    let (e, calls) =
      if lib.asprintf_ok
      then after_query malloc_ok (lib.exec (blocklist_query s.firewall_schema))
      else (none, []) in
    (e, some (c, calls))

-- `__db_instance_postgresql_blocklist_enum_open`: the connection it uses, and its calls there.
unfoldable pub blocklist_enum_open :
    Library → Bool → Bool → Postgresql → Option BlocklistEnum × Option (Conn × List Call)
unfolding choose_conn enum_open_on
blocklist_enum_open lib malloc_ok is_async_thread s =
    enum_open_on lib malloc_ok s (choose_conn is_async_thread s)

-- `__db_instance_postgresql_blocklist_enum_close`.
unfoldable pub blocklist_enum_close : Option BlocklistEnum → List Call
blocklist_enum_close none = []
blocklist_enum_close (some e) = release ∷ []

abbrev enum_at : List (List ℕ) → ℕ → ℕ → BlocklistEnum
enum_at rows m i = record { query = rows; i = i; i_max = m }

next_within :
    (rows : List (List ℕ)) (m i : ℕ) (t : List ℕ)
    → i < m
    → get_elem? rows (i + 0) ≡ some t
    → blocklist_enum_next (enum_at rows m i) ≡ (some t, enum_at rows m (i + 1))
unfolding blocklist_enum_next
next_within rows m i t within found =
    let here : i + 0 ≡ i = omega arith in
    rw (lt→ltb i m within, sym (ap (get_elem? rows) here) ∙ found) refl

next_end :
    (rows : List (List ℕ)) (m : ℕ)
    → blocklist_enum_next (enum_at rows m m) ≡ (none, enum_at rows m m)
unfolding blocklist_enum_next
next_end rows m = let past : ltb m m ≡ false = ground arith in rw past refl

from_index :
    (ts rows : List (List ℕ)) (m i : ℕ)
    → ((j : ℕ) → get_elem? rows (i + j) ≡ get_elem? ts j)
    → i + length ts ≡ m
    → take_all blocklist_enum_next (suc (length ts)) (enum_at rows m i)
      ≡ some (ts, enum_at rows m m)
from_index [] rows m i at long =
    let same : m ≡ i = omega arith in
    subst (λ k. take_all blocklist_enum_next 1 (enum_at rows m k) ≡ some ([], enum_at rows m m))
      same
      (take_all-none blocklist_enum_next 0 (enum_at rows m m) (enum_at rows m m) (next_end rows m))
from_index (t ∷ ts) rows m i at long =
    take_all-some blocklist_enum_next (suc (length ts)) (enum_at rows m i) (enum_at rows m (i + 1))
      (enum_at rows m m) t ts (next_within rows m i t (omega arith) (at 0))
      (from_index ts rows m (i + 1)
        (λ j.
          let step : i + 1 + j ≡ i + suc j = omega arith in ap (get_elem? rows) step ∙ at (suc j))
        (omega arith))

abbrev pub at_first : List (List ℕ) → BlocklistEnum
at_first rows = enum_at rows (length rows) 0

pub at_first-rows :
    (rows : List (List ℕ))
    → take_all blocklist_enum_next (suc (length rows)) (at_first rows)
      ≡ some (rows, enum_at rows (length rows) (length rows))
at_first-rows rows =
    from_index rows rows (length rows) 0
      (λ j. let same : 0 + j ≡ j = omega arith in ap (get_elem? rows) same) (omega arith)

module _ (lib : Library) (is_async_thread : Bool) (s : Postgresql) (c : Conn) (t : List ℕ)
    (ts : List (List ℕ)) (chosen : choose_conn is_async_thread s ≡ some c)
    (printed : lib.asprintf_ok ≡ true)
    (result : lib.exec (blocklist_query s.firewall_schema) ≡ tuples (t ∷ ts)) where
  pub opened-at_first :
      blocklist_enum_open lib true is_async_thread s
      ≡ (some (at_first (t ∷ ts)), some (c, acquire ∷ []))
  unfolding blocklist_enum_open enum_open_on after_query
  opened-at_first = simp (chosen, printed, result) refl

  -- Where the query gives rows and memory is to be had, the enumerator that is opened on a connection
  -- gives the rows' texts, all of them and in their order, and then NULL, after which it stays as it
  -- is.
  pub blocklist-rows :
      (e end : BlocklistEnum) × (blocklist_enum_open lib true is_async_thread s
        ≡ (some e, some (c, acquire ∷ [])))
      × (take_all blocklist_enum_next (suc (length (t ∷ ts))) e ≡ some (t ∷ ts, end))
      × (blocklist_enum_next end ≡ (none, end))
  blocklist-rows = (
    at_first (t ∷ ts),
    enum_at (t ∷ ts) (length (t ∷ ts)) (length (t ∷ ts)),
    opened-at_first,
    at_first-rows (t ∷ ts),
    next_end (t ∷ ts) (length (t ∷ ts)),
  )
