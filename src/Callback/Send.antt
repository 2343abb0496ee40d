-- ===== src/Callback/Send.antt =====
-- pam-daemon/iptracking-pam-callback.c: the loops that connect and send the record.
pub mod Runs
use iptracking.Prelude.{
  ℕ, zero, suc, ◌+◌, ◌-◌, ◌*◌, ◌≤◌, ◌<◌, ◌≡◌, refl, Bool, true, false, List, [], ◌∷◌, ◌++◌, arith,
  Bool-cases, inl, inr, ◌==◌, if◌then◌else◌, ◌∙◌, ap,
}

-- `sizeof(log_data_t)`.
abbrev pub record_size : ℕ
record_size = 128

-- The answers of `connect` and `send`, one for each call.
pub data Answer : Type 0 where
  connected : Answer
  not_connected : Answer
  sent : ℕ → Answer
  try_again : Answer
  reset : Answer
  broken : Answer

-- The locals of the loops: the offset of `data_buffer_ptr` from `data_buffer` in bytes,
-- `data_buffer_len`, and whether the inner loop runs. `chunks` are the offsets and lengths of what has
-- gone out on the connection.
pub record Sending : Type 0 where
  pub offset : ℕ
  pub len : ℕ
  pub is_connected : Bool
  pub chunks : List (ℕ × ℕ)

pub data SendEnd : Type 0 where
  complete : Sending → SendEnd
  exits_109 : Sending → SendEnd
  goes_on : Sending → SendEnd

unfoldable pub start : Sending
start = record { offset = 0; len = record_size; is_connected = false; chunks = [] }

-- `data_buffer_ptr += nbytes` counts in whole records, since the pointer is a `log_data_t*`.
unfoldable pub advance : ℕ → Sending → Sending
advance n s = record s {
  offset = s.offset + n * record_size;
  len = s.len - n;
  chunks = s.chunks ++ (s.offset, n) ∷ [];
}

-- After `connect`; every failure is tried again.
unfoldable pub connect_answer : Answer → Sending → SendEnd
connect_answer connected s = goes_on (record s { is_connected = true })
connect_answer _ s = goes_on s

-- After `send`.
unfoldable pub send_answer : Answer → Sending → SendEnd
unfolding advance
send_answer (sent n) s = if n == 0 then goes_on s else goes_on (advance n s)
send_answer try_again s = goes_on s
send_answer reset s =
    goes_on (record s { offset = 0; len = record_size; is_connected = false; chunks = [] })
send_answer broken s = exits_109 s
send_answer connected s = goes_on s
send_answer not_connected s = goes_on s

unfoldable pub answered : Answer → Sending → SendEnd
unfolding connect_answer send_answer
answered a s = if s.is_connected then send_answer a s else connect_answer a s

abbrev and_on : SendEnd → (Sending → SendEnd) → SendEnd
and_on (complete s) k = complete s
and_on (exits_109 s) k = exits_109 s
and_on (goes_on s) k = k s

-- The loops, over the answers that are given: both end when nothing is left to send.
unfoldable pub send_loop : List Answer → Sending → SendEnd
unfolding answered
send_loop [] s = if s.len == 0 then complete s else goes_on s
send_loop (a ∷ later) s =
    if s.len == 0 then complete s else and_on (answered a s) (λ t. send_loop later t)

-- The bytes that went out, by the lengths alone.
unfoldable pub total : List (ℕ × ℕ) → ℕ
total [] = 0
total ((offset, n) ∷ cs) = n + total cs

total-snoc : (cs : List (ℕ × ℕ)) (o n : ℕ) → total (cs ++ (o, n) ∷ []) ≡ total cs + n
unfolding total
total-snoc [] o n = omega arith
total-snoc ((o', n') ∷ cs) o n = omega (arith, total-snoc cs o n)

-- Each part starts as many records behind the start of the buffer as bytes went out before it.
abbrev pub IsPlaced : ℕ → List (ℕ × ℕ) → Type 0
IsPlaced before [] = Unit {0}
IsPlaced before ((offset, n) ∷ cs) = (offset ≡ before * record_size) × IsPlaced (before + n) cs

IsPlaced-snoc :
    (before o n : ℕ) (cs : List (ℕ × ℕ))
    → IsPlaced before cs
    → o ≡ (before + total cs) * record_size
    → IsPlaced before (cs ++ (o, n) ∷ [])
unfolding total
IsPlaced-snoc before o n [] placed at = (omega (arith, at), tt)
IsPlaced-snoc before o n ((o', n') ∷ cs) placed at =
    (placed.0, IsPlaced-snoc (before + n') o n cs placed.1 (omega (arith, at)))

-- What has gone out since the last reset and what is left make up the length of one record; where the parts
-- stand; and where the next one will.
abbrev pub IsCounted : Sending → Type 0
IsCounted s =
    (total s.chunks + s.len ≡ record_size)
    × IsPlaced 0 s.chunks
    × (s.offset ≡ total s.chunks * record_size)

-- `send` never takes more than it is given.
abbrev pub IsAnswer : Answer → Sending → Type 0
IsAnswer (sent n) s = n ≤ s.len
IsAnswer _ s = Unit {0}

abbrev pub OfEnd : (Sending → Type 0) → SendEnd → Type 0
OfEnd P (complete s) = P s
OfEnd P (exits_109 s) = P s
OfEnd P (goes_on s) = P s

answered-IsCounted :
    (a : Answer) (s : Sending) → IsAnswer a s → IsCounted s → OfEnd IsCounted (answered a s)
unfolding answered advance
answered-IsCounted connected s ok c = elim (Bool-cases s.is_connected) [
  | inl e ↦ rw e c
  | inr e ↦ rw e c
]
answered-IsCounted not_connected s ok c = elim (Bool-cases s.is_connected) [
  | inl e ↦ rw e c
  | inr e ↦ rw e c
]
answered-IsCounted (sent n) s ok c = elim (Bool-cases s.is_connected) [
  | inr e ↦ rw e c
  | inl e ↦ rw e (elim (Bool-cases (n == 0)) [
    | inl z ↦ rw z c
    | inr some_sent ↦ rw some_sent (
      omega (arith, total-snoc s.chunks s.offset n, c.0),
      IsPlaced-snoc 0 s.offset n s.chunks c.1 (omega (arith, c.2)),
      omega (arith, total-snoc s.chunks s.offset n, c.2),
    )
  ])
]
answered-IsCounted try_again s ok c = elim (Bool-cases s.is_connected) [
  | inl e ↦ rw e c
  | inr e ↦ rw e c
]
answered-IsCounted reset s ok c = elim (Bool-cases s.is_connected) [
  | inl e ↦ rw e (unfold total in (refl, tt, refl))
  | inr e ↦ rw e c
]
answered-IsCounted broken s ok c = elim (Bool-cases s.is_connected) [
  | inl e ↦ rw e c
  | inr e ↦ rw e c
]

-- Each answer fits the call that it answers.
abbrev pub AreAnswers : List Answer → Sending → Type 0
AreAnswers [] s = Unit {0}
AreAnswers (a ∷ later) s = IsAnswer a s × OfEnd (λ t. AreAnswers later t) (answered a s)

and_on-OfEnd :
    (x : SendEnd) (A P : Sending → Type 0) (k : Sending → SendEnd)
    → OfEnd P x
    → OfEnd A x
    → ((t : Sending) → A t → P t → OfEnd P (k t))
    → OfEnd P (and_on x k)
and_on-OfEnd (complete s) A P k p a h = p
and_on-OfEnd (exits_109 s) A P k p a h = p
and_on-OfEnd (goes_on s) A P k p a h = h s a p

-- Through all failures and resets, where each answer fits its call: of what has gone out since the last
-- reset, the number of bytes and the number that are left make up the size of a record; each part was read
-- from the buffer's start plus the record's size times the number of bytes sent before it, so the first part
-- is the record's beginning and every later one lies behind the record's end; and so will the next one.
pub send_loop-total :
    (answers : List Answer) (s : Sending)
    → AreAnswers answers s
    → IsCounted s
    → OfEnd IsCounted (send_loop answers s)
unfolding send_loop
send_loop-total [] s ok c = elim (Bool-cases (s.len == 0)) [ inl e ↦ rw e c | inr e ↦ rw e c ]
send_loop-total (a ∷ later) s ok c = elim (Bool-cases (s.len == 0)) [
  | inl e ↦ rw e c
  | inr e ↦ rw e (
      and_on-OfEnd (answered a s) (λ t. AreAnswers later t) IsCounted (λ t. send_loop later t)
        (answered-IsCounted a s ok.0 c) ok.1 (λ t t_ok t_c. send_loop-total later t t_ok t_c))
]
