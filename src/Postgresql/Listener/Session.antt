-- ===== src/Postgresql/Listener/Session.antt =====
-- The listener's thread with its own connection: what it asks of libpq from its start to its end
-- (`__db_instance_postgresql_blocklist_async_notification_thread`).
use iptracking.Prelude.{
  ℕ, ◌≡◌, refl, Bool, true, false, Option, none, some, List, [], ◌∷◌, ◌++◌, drop, ◌==◌,
  if◌then◌else◌, Bool-cases, inl, inr,
}
use iptracking.Prelude.Text.{codes}
use iptracking.Db.Calls.{
  Call, connect, disconnect, acquire, release, fault, send, Value, text, Held, after_calls,
}

-- A round of the loop: `poll` finds nothing, what it finds cannot be read, or so many notifications are
-- there, with the block list that the enumerator then gives; and whether the socket is still there.
pub data Found : Type 0 where
  nothing unreadable : Found
  notified : ℕ → Option (List (List ℕ)) → Found

pub record Round : Type 0 where
  pub found : Found
  pub has_socket : Bool

-- What the thread meets once it is connected. `rounds` are those that `is_notify_running` lets it begin;
-- `listens` is the answer to LISTEN, `none` for a NULL result.
pub record Meeting : Type 0 where
  pub has_socket : Bool
  pub channel : Option (List ℕ)
  pub has_text : Bool
  pub listens : Option Bool
  pub rounds : List Round
  pub unlistens : Bool

-- The calls of the thread on its connection, and the block lists that it hands to the callback.
pub record Session : Type 0 where
  pub calls : List Call
  pub handed : List (Option (List (List ℕ)))

-- `db_notify_stmt_query`, NULL without a channel, or where the text is not made.
unfoldable pub unlisten_query : Option (List ℕ) → Bool → Option (List ℕ)
unlisten_query none has_text = none
unlisten_query (some channel) has_text =
    if has_text then some (codes "UNLISTEN " ++ channel) else none

-- The statement to begin with: the other one from its third character on.
unfoldable pub listen_statement : Option (List ℕ) → List ℕ
listen_statement none = codes "LISTEN"
listen_statement (some query) = drop 2 query

unfoldable pub unlisten_statement : Option (List ℕ) → List ℕ
unlisten_statement none = codes "UNLISTEN"
unlisten_statement (some query) = query

abbrev hands : Found → List (Option (List (List ℕ)))
hands nothing = []
hands unreadable = []
hands (notified n blocked) = if n == 0 then [] else blocked ∷ []

-- The loop: it ends with the rounds, or with the socket.
unfoldable pub runloop : List Round → List (Option (List (List ℕ)))
runloop [] = []
runloop (r ∷ rounds) =
    let more = runloop rounds in hands r.found ++ (if r.has_socket then more else [])

-- A statement and its result, which is cleared.
abbrev executed : List ℕ → Bool → List Call
executed statement has_result =
    send (text statement ∷ []) ∷ (if has_result then acquire ∷ release ∷ [] else [])

-- The thread from the answer to the first statement on.
unfoldable pub after_listen : Option (List ℕ) → List Round → Bool → Option Bool → Session
unfolding listen_statement unlisten_statement runloop
after_listen query rounds unlistens none = record {
  calls = executed (listen_statement query) false;
  handed = [];
}
after_listen query rounds unlistens (some false) = record {
  calls = executed (listen_statement query) true;
  handed = [];
}
after_listen query rounds unlistens (some true) = record {
  calls = executed (listen_statement query) true ++ executed (unlisten_statement query) unlistens;
  handed = runloop rounds;
}

-- The thread from its connection to its end, where it is not cancelled.
unfoldable pub session : Meeting → Session
unfolding unlisten_query after_listen
session m =
    let listening =
      after_listen (unlisten_query m.channel m.has_text) m.rounds m.unlistens m.listens in
    if m.has_socket
    then record listening { calls = connect ∷ (listening.calls ++ disconnect ∷ []) }
    else record { calls = connect ∷ disconnect ∷ []; handed = [] }

-- The statements among the calls.
pub statements : List Call → List (List Value)
statements [] = []
statements (send vs ∷ cs) = vs ∷ statements cs
statements (connect ∷ cs) = statements cs
statements (disconnect ∷ cs) = statements cs
statements (acquire ∷ cs) = statements cs
statements (release ∷ cs) = statements cs
statements (fault ∷ cs) = statements cs

abbrev pub nothing_held : Held
nothing_held = record { connections = 0; statements = 0 }

after_listen-IsBalanced :
    (query : Option (List ℕ)) (rounds : List Round) (unlistens : Bool) (listens : Option Bool)
    → after_calls
        (connect ∷ ((after_listen query rounds unlistens listens).calls ++ disconnect ∷ []))
        nothing_held
      ≡ some nothing_held
unfolding after_listen after_calls
after_listen-IsBalanced query rounds unlistens none = refl
after_listen-IsBalanced query rounds unlistens (some false) = refl
after_listen-IsBalanced query rounds false (some true) = refl
after_listen-IsBalanced query rounds true (some true) = refl

-- Whatever a thread that is not cancelled meets behind its connection: every result it gets is cleared, the
-- connection is closed once and after them, and nothing is freed twice.
pub session-IsBalanced :
    (m : Meeting) → after_calls (session m).calls nothing_held ≡ some nothing_held
unfolding session
session-IsBalanced m = elim (Bool-cases m.has_socket) [
  | inl there ↦
      rw there (
        after_listen-IsBalanced (unlisten_query m.channel m.has_text) m.rounds m.unlistens
          m.listens)
  | inr lost ↦ rw lost (unfold after_calls in refl)
]

channel_query :
    (c : Option (List ℕ)) (has_text : Bool) (channel : List ℕ)
    → c ≡ some channel
    → has_text ≡ true
    → unlisten_query c has_text ≡ some (codes "UNLISTEN " ++ channel)
unfolding unlisten_query
channel_query c has_text channel named made = rw (named, made) refl

sent_statements :
    (query : List ℕ) (rounds : List Round) (unlistens : Bool)
    → statements (
        connect
        ∷ ((after_listen (some query) rounds unlistens (some true)).calls ++ disconnect ∷ []))
      ≡ (text (drop 2 query) ∷ []) ∷ (text query ∷ []) ∷ []
unfolding after_listen statements
sent_statements query rounds true = refl
sent_statements query rounds false = refl

-- Where the connection has its socket, a channel is configured, its text is made, and LISTEN is done: the
-- thread sends LISTEN and at its end UNLISTEN, both with the name of the channel, and nothing else.
pub session-statements :
    (m : Meeting) (channel : List ℕ)
    → m.has_socket ≡ true
    → m.channel ≡ some channel
    → m.has_text ≡ true
    → m.listens ≡ some true
    → statements (session m).calls
      ≡ (text (codes "LISTEN " ++ channel) ∷ []) ∷ (text (codes "UNLISTEN " ++ channel) ∷ []) ∷ []
unfolding session statements
session-statements m channel socket named made done =
    let query : unlisten_query m.channel m.has_text ≡ some (codes "UNLISTEN " ++ channel) =
      channel_query m.channel m.has_text channel named made in
    rw (session, socket, query, done)
      (sent_statements (codes "UNLISTEN " ++ channel) m.rounds m.unlistens)
