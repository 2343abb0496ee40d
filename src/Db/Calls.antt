-- ===== src/Db/Calls.antt =====
-- What a driver asks of its database library, as a trace of calls: the handles it acquires and gives
-- back, and the events it sends.
use iptracking.Prelude.{
  ℕ, zero, suc, ◌≡◌, refl, Option, none, some, List, [], ◌∷◌, ◌++◌, ◌>>=◌, ◌∙◌, inl, inr,
  Option-cases,
}
use iptracking.Prelude.Int.{ℤ}

-- A parameter of a statement.
pub data Value : Type 0 where
  null : Value
  text : List ℕ → Value
  number : ℤ → Value

-- The calls that count: a connection is made or closed, a statement or result is made or freed, and
-- a statement runs with parameters; `fault` is where a NULL pointer is followed, and the program ends.
pub data Call : Type 0 where
  connect disconnect acquire release fault : Call
  send : List Value → Call

-- How many connections, and how many statements and results, there are.
pub record Held : Type 0 where
  pub connections : ℕ
  pub statements : ℕ

-- `none` where a call has no right to be: nothing is freed twice, a connection is closed after all of
-- its statements, a statement is made or runs only on a connection, and no NULL pointer is followed.
unfoldable pub after_call : Call → Held → Option Held
after_call connect h = some (record h { connections = suc h.connections })
after_call disconnect h = elim h.statements [
  | suc n ↦ none
  | zero ↦ elim h.connections [ zero ↦ none | suc n ↦ some (record h { connections = n }) ]
]
after_call acquire h = elim h.connections [
  | zero ↦ none
  | suc n ↦ some (record h { statements = suc h.statements })
]
after_call release h = elim h.statements [
  | zero ↦ none
  | suc n ↦ some (record h { statements = n })
]
after_call fault h = none
after_call (send vs) h = elim h.connections [ zero ↦ none | suc n ↦ some h ]

unfoldable pub after_calls : List Call → Held → Option Held
unfolding after_call
after_calls [] h = some h
after_calls (c ∷ cs) h = do h ← after_call c h; after_calls cs h

after_calls-append :
    (cs ds : List Call) (h : Held)
    → after_calls (cs ++ ds) h ≡ (after_calls cs h >>= after_calls ds)
unfolding after_calls
after_calls-append [] ds h = refl
after_calls-append (c ∷ cs) ds h = elim (Option-cases (after_call c h)) [
  | inl refused ↦ rw refused refl
  | inr (next, went) ↦ rw went (after_calls-append cs ds next)
]

-- All the operations are of a kind.
abbrev pub Each : {Op : Type 0} → (Op → Type 0) → List Op → Type 0
Each Allowed [] = Unit
Each Allowed (op ∷ ops) = Allowed op × Each Allowed ops

Each-any : {Op : Type 0} (ops : List Op) → Each (λ op. Unit {0}) ops
Each-any [] = tt
Each-any (op ∷ ops) = (tt, Each-any ops)

-- A driver: what one operation makes of the instance, with the calls it makes on the way, and what the
-- instance's pointers say is held.
module _ {S Op : Type 0} (operate : S → Op → S × List Call) where
  unfoldable pub run : S → List Op → S × List Call
  run s [] = (s, [])
  run s (op ∷ ops) =
      let (next, calls) = operate s op in let (end, more) = run next ops in (end, calls ++ more)

module _ {S Op : Type 0} (operate : S → Op → S × List Call) (held : S → Held) where
  -- The calls have a right to be, and what is held behind them is what the pointers say.
  abbrev pub IsBalanced : S → S × List Call → Type 0
  IsBalanced s (end, calls) = after_calls calls (held s) ≡ some (held end)

  pub run-Each-IsBalanced :
      (IsTidy : S → Type 0) (Allowed : Op → Type 0)
      → ((s : S) (op : Op)
          → IsTidy s
          → Allowed op
          → IsTidy (operate s op).0 × IsBalanced s (operate s op))
      → (s : S) (ops : List Op) → IsTidy s
      → Each Allowed ops
      → IsTidy (run operate s ops).0 × IsBalanced s (run operate s ops)
  unfolding run after_calls
  run-Each-IsBalanced IsTidy Allowed keeps s [] tidy each = (tidy, refl)
  run-Each-IsBalanced IsTidy Allowed keeps s (op ∷ ops) tidy (allowed, each) =
      let (next_tidy, step) = keeps s op tidy allowed in
      let (end_tidy, rest) =
        run-Each-IsBalanced IsTidy Allowed keeps (operate s op).0 ops next_tidy each in
      (
        end_tidy,
        after_calls-append (operate s op).1 (run operate (operate s op).0 ops).1 (held s)
            ∙ rw step rest,
      )

  pub run-IsBalanced :
      (IsTidy : S → Type 0)
      → ((s : S) (op : Op) → IsTidy s → IsTidy (operate s op).0 × IsBalanced s (operate s op))
      → (s : S) (ops : List Op) → IsTidy s
      → IsTidy (run operate s ops).0 × IsBalanced s (run operate s ops)
  run-IsBalanced IsTidy keeps s ops tidy =
      run-Each-IsBalanced IsTidy (λ op. Unit {0}) (λ s op tidy allowed. keeps s op tidy) s ops tidy
        (Each-any ops)
