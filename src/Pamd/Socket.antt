-- ===== src/Pamd/Socket.antt =====
-- The event thread's socket: how it is opened, waited on, and opened again.
use iptracking.Prelude.{
  ℕ, suc, ◌-◌, ◌≡◌, refl, Bool, true, false, not, ◌||◌, ◌==◌, Option, none, some, List, [], ◌∷◌,
  if◌then◌else◌, ◌⊎◌, inl, inr, Bool-cases, if-cases, arith, ◌↔◌, ◌∙◌,
}
use iptracking.LogData.{LogData}
use iptracking.LogQueue.{LogQueue}
use iptracking.LogQueue.Backoff.{Round, PushEnd, faulted, done, sleeping}
use iptracking.Pamd.{Received, on_connection}

-- What the thread has: how many descriptors of sockets are open, whether the socket's file exists, and
-- whether it listens.
pub record Sockets : Type 0 where
  pub open_fds : ℕ
  pub file_exists : Bool
  pub listening : Bool

-- The answers to the calls that open the socket; `bind` answers over whether the file exists.
pub record Setup : Type 0 where
  pub socket_ok : Bool
  pub fcntl_ok : Bool
  pub bind_ok : Bool → Bool
  pub listen_ok : Bool

-- The start of the outer loop, up to the inner one or to the `continue`.
unfoldable pub setup_socket : Setup → Sockets → Sockets
setup_socket a s =
    if not a.socket_ok
    then s
    else if not a.fcntl_ok
    then record s { open_fds = suc s.open_fds }
    else if not (a.bind_ok s.file_exists)
    then s
    else if not a.listen_ok
    then record s { file_exists = true }
    else record s { open_fds = suc s.open_fds; file_exists = true; listening = true }

-- What `poll` answers: an error, which may be an interruption; no event; or the events.
pub data Polled : Type 0 where
  interrupted poll_failed timeout : Polled
  ready : ℕ → Polled

-- The bit of POLLIN.
abbrev pub pollin : ℕ
pollin = 1

-- The loop over `poll`: whether a connection is to be accepted, or `none` where it has not ended.
unfoldable pub poll_loop : List Polled → Option Bool
poll_loop [] = none
poll_loop (interrupted ∷ ps) = poll_loop ps
poll_loop (timeout ∷ ps) = poll_loop ps
poll_loop (poll_failed ∷ ps) = some false
poll_loop (ready revents ∷ ps) =
    let rest = poll_loop ps in if (revents == 0) || (revents == pollin) then some true else rest

-- What `accept` answers: an error that is okay, another one, or a client with what it sends and what the
-- other threads do while its event is pushed.
pub data Accepted : Type 0 where
  aborted accept_failed : Accepted
  client : Received → List Round → Accepted

-- Where the inner loop stands when there are no answers left: it was left, with the socket closed; it
-- waits for a connection; or it pushes an event.
pub data Served : Type 0 where
  lost waiting : LogQueue → Served
  pushing : PushEnd → Served

-- A round of the inner loop goes on, or the loop is at its end.
pub data RoundEnd : Type 0 where
  goes_on : LogQueue → RoundEnd
  is_over : Served → RoundEnd

unfoldable pub after_push : PushEnd → RoundEnd
after_push (done taken q) = goes_on q
after_push faulted = is_over (pushing faulted)
after_push (sleeping q w) = is_over (pushing (sleeping q w))

unfoldable pub after_poll : LogData → Option Bool → Accepted → LogQueue → RoundEnd
unfolding after_push on_connection
after_poll blank none a q = is_over (waiting q)
after_poll blank (some false) a q = is_over (lost q)
after_poll blank (some true) aborted q = goes_on q
after_poll blank (some true) accept_failed q = is_over (lost q)
after_poll blank (some true) (client r pushes) q = after_push (on_connection blank pushes r q)

-- The inner loop, over the answers of each round.
unfoldable pub serve : LogData → List (List Polled × Accepted) → LogQueue → Served
unfolding poll_loop after_poll
serve blank [] q = waiting q
serve blank ((ps, a) ∷ rounds) q = elim (after_poll blank (poll_loop ps) a q) [
  | goes_on q' ↦ serve blank rounds q'
  | is_over end ↦ end
]

-- The outer loop of `event_thread_entry`: over the answers for each time that the socket is opened, and
-- for the rounds of the inner loop then.
unfoldable pub event_thread :
    LogData → List (Setup × List (List Polled × Accepted)) → Sockets → LogQueue → Sockets × Served
unfolding setup_socket serve
event_thread blank [] s q = (s, lost q)
event_thread blank ((a, rounds) ∷ later) s q =
    let open_ = setup_socket a s in
    if open_.listening
    then elim (serve blank rounds q) [
      | lost q' ↦
          event_thread blank later
            (record open_ { open_fds = open_.open_fds - 1; listening = false }) q'
      | waiting q' ↦ (open_, waiting q')
      | pushing end ↦ (open_, pushing end)
    ]
    else event_thread blank later open_ q

-- The events that are ready are none but input.
abbrev pub IsInput : ℕ → Type 0
IsInput revents = (revents ≡ 0) ⊎ (revents ≡ pollin)

-- The answers of `poll` begin with ones that are passed over: interruptions, ends of the interval, and
-- events that are not just input.
pub data Passed : List Polled → List Polled → Type 0 where
  none_passed : (ps : List Polled) → Passed ps ps
  interrupted_passed : (ps rest : List Polled) → Passed ps rest → Passed (interrupted ∷ ps) rest
  timeout_passed : (ps rest : List Polled) → Passed ps rest → Passed (timeout ∷ ps) rest
  events_passed :
      (revents : ℕ) (ps rest : List Polled)
      → (IsInput revents → ⊥)
      → Passed ps rest
      → Passed (ready revents ∷ ps) rest

poll_loop-Passed : (ps rest : List Polled) → Passed ps rest → poll_loop ps ≡ poll_loop rest
unfolding poll_loop
poll_loop-Passed ps rest (none_passed _) = refl
poll_loop-Passed ps rest (interrupted_passed ps' _ passed) = poll_loop-Passed ps' rest passed
poll_loop-Passed ps rest (timeout_passed ps' _ passed) = poll_loop-Passed ps' rest passed
poll_loop-Passed ps rest (events_passed revents ps' _ other passed) =
    elim (Bool-cases ((revents == 0) || (revents == pollin))) [
      | inl input ↦ absurd (other (ground arith))
      | inr not_input ↦ rw not_input (poll_loop-Passed ps' rest passed)
    ]

accepts-Passed :
    (ps : List Polled)
    → poll_loop ps ≡ some true
    → (revents : ℕ) × (rest : List Polled) × Passed ps (ready revents ∷ rest) × IsInput revents
unfolding poll_loop
accepts-Passed [] e = cc
accepts-Passed (interrupted ∷ ps) e =
    let (revents, rest, passed, input) = accepts-Passed ps e in
    (revents, rest, interrupted_passed ps (ready revents ∷ rest) passed, input)
accepts-Passed (timeout ∷ ps) e =
    let (revents, rest, passed, input) = accepts-Passed ps e in
    (revents, rest, timeout_passed ps (ready revents ∷ rest) passed, input)
accepts-Passed (poll_failed ∷ ps) e = cc
accepts-Passed (ready n ∷ ps) e = elim (Bool-cases ((n == 0) || (n == pollin))) [
  | inl input ↦ (n, ps, none_passed (ready n ∷ ps), ground arith)
  | inr other ↦
      let (revents, rest, passed, input) = accepts-Passed ps (rw other at e) in
      (revents, rest, events_passed n ps (ready revents ∷ rest) (λ i. ground arith) passed, input)
]

-- The loop over `poll` goes on to accept a connection exactly where, behind interruptions, ends of the
-- interval, and events that are not just input, there comes an answer with no event but input.
pub poll_loop-accepts_iff :
    (ps : List Polled)
    → (poll_loop ps ≡ some true)
      ↔ ((revents : ℕ) × (rest : List Polled) × Passed ps (ready revents ∷ rest) × IsInput revents)
unfolding poll_loop
poll_loop-accepts_iff ps = (
  accepts-Passed ps,
  λ (revents, rest, passed, input).
      poll_loop-Passed ps (ready revents ∷ rest) passed ∙ ground arith,
)

-- `bind` fails where the socket's file exists.
abbrev pub RefusesFile : Setup → Type 0
RefusesFile a = a.bind_ok true ≡ false

abbrev pub AllRefuseFile : List (Setup × List (List Polled × Accepted)) → Type 0
AllRefuseFile [] = Unit
AllRefuseFile ((a, rounds) ∷ later) = RefusesFile a × AllRefuseFile later

abbrev IsDeaf : Sockets → Type 0
IsDeaf s = (s.listening ≡ false) × (s.file_exists ≡ true)

setup-deaf :
    (a : Setup) (s : Sockets)
    → RefusesFile a
    → s.file_exists ≡ true
    → s.listening ≡ false
    → ((setup_socket a s).listening ≡ false) × ((setup_socket a s).file_exists ≡ true)
unfolding setup_socket
setup-deaf a s refuses file deaf =
    if-cases (IsDeaf) (not a.socket_ok) _ _ (λ e. (deaf, file))
      (λ e.
        if-cases (IsDeaf) (not a.fcntl_ok) _ _ (λ f. (deaf, file))
          (λ f.
            if-cases (IsDeaf) (not (a.bind_ok s.file_exists)) _ _ (λ g. (deaf, file))
              (λ g. absurd (let h = (rw (file, refuses) at g) in cc))))

-- Where `bind` fails on a file that exists, as it does on Unix sockets: once the socket was bound and is
-- not listened on any more, the thread never listens again, and no event reaches the queue.
pub event_thread-deaf :
    (blank : LogData) (later : List (Setup × List (List Polled × Accepted))) (s : Sockets)
    (q : LogQueue)
    → AllRefuseFile later
    → s.file_exists ≡ true
    → s.listening ≡ false
    → (end : Sockets) × (event_thread blank later s q ≡ (end, lost q)) × (end.listening ≡ false)
unfolding event_thread
event_thread-deaf blank [] s q refuse file deaf = (s, refl, deaf)
event_thread-deaf blank ((a, rounds) ∷ later) s q (refuses, refuse) file deaf =
    let (still_deaf, still_file) = setup-deaf a s refuses file deaf in
    let (end, same, end_deaf) =
      event_thread-deaf blank later (setup_socket a s) q refuse still_file still_deaf in
    (end, simp (still_deaf) same, end_deaf)
