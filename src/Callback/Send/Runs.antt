-- ===== src/Callback/Send/Runs.antt =====
-- Runs of the loops in which the record goes out whole, and in two parts.
use iptracking.Prelude.{
  ℕ, zero, suc, ◌+◌, ◌-◌, ◌*◌, ◌≤◌, ◌<◌, ◌≡◌, refl, true, List, [], ◌∷◌, arith, Bool-cases, inl,
  inr, ◌==◌, ◌∙◌, ap,
}
use iptracking.Callback.Send.{
  record_size, Answer, connected, not_connected, sent, try_again, Sending, SendEnd, complete, start,
  advance, connect_answer, send_answer, answered, send_loop,
}

pub put_off : ℕ → Answer → List Answer → List Answer
put_off zero a later = later
put_off (suc n) a later = a ∷ put_off n a later

refused :
    (k : ℕ) (later : List Answer)
    → send_loop (put_off k not_connected later) start ≡ send_loop later start
unfolding send_loop answered connect_answer put_off start
refused zero later = refl
refused (suc k) later = refused k later

abbrev joined : Sending
joined = record { offset = 0; len = record_size; is_connected = true; chunks = [] }

delayed :
    (k : ℕ) (later : List Answer)
    → send_loop (put_off k try_again later) joined ≡ send_loop later joined
unfolding send_loop answered send_answer put_off
delayed zero later = refl
delayed (suc k) later = delayed k later

abbrev pub whole : Sending
whole = record {
  offset = record_size * record_size;
  len = 0;
  is_connected = true;
  chunks = (0, record_size) ∷ [];
}

-- However often connecting fails and sending is put off, once the whole record is taken by one
-- `send` the run completes, with one chunk: the record from its first byte on.
pub send_loop-whole :
    (fails waits : ℕ)
    → send_loop
        (put_off fails not_connected (connected ∷ put_off waits try_again (sent record_size ∷ [])))
        start
      ≡ complete whole
unfolding send_loop answered connect_answer send_answer advance start
send_loop-whole fails waits =
    refused fails (connected ∷ put_off waits try_again (sent record_size ∷ []))
    ∙ delayed waits (sent record_size ∷ [])

-- A record that is taken in two parts, the first of `n` bytes, at least one and fewer than all: the
-- run completes, but the second part is read at `n` times the record's size, at or behind the end of
-- the record.
pub send_loop-parts :
    (n : ℕ)
    → 0 < n
    → n < record_size
    → (send_loop (connected ∷ sent n ∷ sent (record_size - n) ∷ []) start
        ≡ complete (record {
          offset = n * record_size + (record_size - n) * record_size;
          len = 0;
          is_connected = true;
          chunks = (0, n) ∷ (n * record_size, record_size - n) ∷ [];
        }))
      × (record_size ≤ n * record_size)
unfolding send_loop answered connect_answer send_answer advance start
send_loop-parts n some_sent part = (
  elim (Bool-cases (n == 0)) [
    | inl e ↦ ground arith
    | inr e ↦ elim (Bool-cases (record_size - n == 0)) [
      | inl f ↦ ground arith
      | inr f ↦ rw (e, f, g) (ap finish no_offset)
    ]
  ],
  omega arith,
)
  where
    g : record_size - n - (record_size - n) ≡ 0
    g = omega arith

    no_offset : 0 + n * record_size ≡ n * record_size
    no_offset = omega arith

    finish : ℕ → SendEnd
    finish o = complete (record {
      offset = o + (record_size - n) * record_size;
      len = 0;
      is_connected = true;
      chunks = (0, n) ∷ (o, record_size - n) ∷ [];
    })
