-- ===== src/Db/Enumerator.antt =====
-- Taking everything from an enumerator of the block list.
use iptracking.Prelude.{ℕ, zero, suc, ◌≡◌, refl, Option, none, some, List, [], ◌∷◌}

-- Through the enumerator's own callback, over what that answers and leaves.
unfoldable pub db_blocklist_enum_next :
    {E : Type 0} → (E → Option (List ℕ) × E) → Option E → Option (List ℕ) × Option E
db_blocklist_enum_next next none = (none, none)
db_blocklist_enum_next next (some e) = let (found, after) = next e in (found, some after)

-- The same, over what the callback makes of the database's handles.
unfoldable pub db_blocklist_enum_close : {E H : Type 0} → (E → H → H) → Option E → H → H
db_blocklist_enum_close close none h = h
db_blocklist_enum_close close (some e) h = close e h

-- What a round of the loop adds to what the further rounds give.
unfoldable pub collect :
    {E : Type 0} → Option (List ℕ) → E → Option (List (List ℕ) × E) → Option (List (List ℕ) × E)
collect none after rest = some ([], after)
collect (some entity) after none = none
collect (some entity) after (some (entities, end)) = some (entity ∷ entities, end)

-- The loop of the timer thread and of the notification over `db_blocklist_enum_next`, up to the first
-- NULL; `none` where the fuel runs out.
unfoldable pub take_all :
    {E : Type 0} → (E → Option (List ℕ) × E) → ℕ → E → Option (List (List ℕ) × E)
unfolding collect
take_all next zero e = none
take_all next (suc fuel) e =
    let (found, after) = next e in let rest = take_all next fuel after in collect found after rest

module _ {E : Type 0} (next : E → Option (List ℕ) × E) where
  pub take_all-none :
      (n : ℕ) (e after : E) → next e ≡ (none, after) → take_all next (suc n) e ≡ some ([], after)
  unfolding take_all collect
  take_all-none n e after gives = rw gives refl

  pub take_all-some :
      (n : ℕ) (e after end : E) (t : List ℕ) (ts : List (List ℕ))
      → next e ≡ (some t, after)
      → take_all next n after ≡ some (ts, end)
      → take_all next (suc n) e ≡ some (t ∷ ts, end)
  unfolding take_all collect
  take_all-some n e after end t ts gives rest = rw (gives, rest) refl

  collect-some :
      (found : Option (List ℕ)) (after end : E) (rest : Option (List (List ℕ) × E))
      (rest2 : Option (List (List ℕ) × Option E)) (ts : List (List ℕ))
      → ((us : List (List ℕ)) (z : E) → rest ≡ some (us, z) → rest2 ≡ some (us, some z))
      → collect found after rest ≡ some (ts, end)
      → collect found (some after) rest2 ≡ some (ts, some end)
  unfolding collect
  collect-some none after end rest rest2 ts same e = cc
  collect-some (some t) after end none rest2 ts same e = cc
  collect-some (some t) after end (some (us, z)) rest2 ts same e = rw (same us z refl) cc

  -- Through the interface the loop gives what it gives over the driver's own callback.
  pub take_all-next :
      (n : ℕ) (e end : E) (ts : List (List ℕ))
      → take_all next n e ≡ some (ts, end)
      → take_all (db_blocklist_enum_next next) n (some e) ≡ some (ts, some end)
  unfolding take_all db_blocklist_enum_next
  take_all-next zero e end ts found = cc
  take_all-next (suc n) e end ts found =
      collect-some (next e).0 (next e).1 end (take_all next n (next e).1)
        (take_all (db_blocklist_enum_next next) n (some (next e).1)) ts
        (λ us z. take_all-next n (next e).1 z us) found

-- The texts of the rows before the first that has none.
unfoldable pub until_null : List (Option (List ℕ)) → List (List ℕ)
until_null [] = []
until_null (none ∷ rows) = []
until_null (some t ∷ rows) = t ∷ until_null rows
