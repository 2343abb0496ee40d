-- ===== src/Db/Notification.antt =====
-- When the asynchronous notification of a database runs.
use iptracking.Prelude.{
  ℕ, ◌≡◌, ◌≢◌, refl, inl, inr, Bool, true, false, Option, none, some, List, [], ◌∷◌, Option-cases,
}
use iptracking.Db.{Db, Answer, db_blocklist_async_notification_register}

abbrev pub is_set : Option ℕ → Bool
is_set none = false
is_set (some f) = true

-- A driver that is told to stop does not run, whatever it answers; told to start while it does not run, it
-- runs exactly if it answers true.
pub record Toggles (S : Type 0) (running : S → Bool) (toggle : S → Bool → Answer × S) : Type 0 where
  pub stops : (s : S) → running (toggle s false).1 ≡ false
  pub starts : (s : S) → running s ≡ false → running (toggle s true).1 ≡ (toggle s true).0.0

-- One registration after another; the results are dropped.
pub register_all : {S : Type 0} → Option (Db S) → List (Option ℕ × Option ℕ) → Option (Db S)
register_all db [] = db
register_all db ((notify, context) ∷ rest) =
    register_all (db_blocklist_async_notification_register db notify context).1 rest

-- The notification runs only when a callback is set.
abbrev pub IsInStep :
    {S : Type 0} (running : S → Bool) (toggle : S → Bool → Answer × S) → Db S → Type 0
IsInStep running toggle db =
    (db.no_firewall ≡ false)
    × (db.driver.toggle ≡ some toggle)
    × (db.callback ≡ none → running db.instance_state ≡ false)

-- What a registration comes to. Removing the callback stops the notification; setting one where none was
-- set is answered by whether it runs then; setting another changes nothing but the callback.
abbrev pub Registered : {S : Type 0} (running : S → Bool) → Db S → Option ℕ → Bool → Db S → Type 0
Registered running db none answer after =
    (after.callback ≡ none) × (running after.instance_state ≡ false)
Registered running db (some f) answer after =
    (after.callback ≡ some f)
    × (db.callback ≡ none → running after.instance_state ≡ answer)
    × (db.callback ≢ none → (answer ≡ true) × (after.instance_state ≡ db.instance_state))

module _ {S : Type 0} (running : S → Bool) (toggle : S → Bool → Answer × S)
    (works : Toggles S running toggle) where
  -- A registration on such a database: what it comes to, and that the notification still runs only when a
  -- callback is set.
  register-IsInStep :
      (db : Db S) (notify context : Option ℕ)
      → IsInStep running toggle db
      → (after : Db S) × ((db_blocklist_async_notification_register (some db) notify context).1
          ≡ some after)
        × Registered running db notify
            (db_blocklist_async_notification_register (some db) notify context).0.0
            after
        × IsInStep running toggle after
  unfolding db_blocklist_async_notification_register
  register-IsInStep db none context (fw, t, step) = (
    record db {
      callback = none;
      context = none;
      instance_state = (toggle db.instance_state false).1;
    },
    simp (fw, t) refl,
    (refl, works.stops db.instance_state),
    (fw, t, λ unset. works.stops db.instance_state),
  )
  register-IsInStep db (some f) context (fw, t, step) = elim (Option-cases db.callback) [
    | inl unset ↦ (
      record db {
        callback = some f;
        context = context;
        instance_state = (toggle db.instance_state true).1;
      },
      simp (fw, t, unset) refl,
      (
        refl,
        λ e. simp (fw, t, unset) (works.starts db.instance_state (step unset)),
        λ set. absurd (set unset),
      ),
      (fw, t, λ e. cc),
    )
    | inr (g, has) ↦ (
      record db { callback = some f; context = context },
      simp (fw, t, has) refl,
      (refl, λ e. cc, λ set. (simp (fw, t, has) refl, refl)),
      (fw, t, λ e. cc),
    )
  ]

  pub register_all-IsInStep :
      (db : Db S) (calls : List (Option ℕ × Option ℕ))
      → IsInStep running toggle db
      → (after : Db S) × (register_all (some db) calls ≡ some after) × IsInStep running toggle after
  unfolding register_all
  register_all-IsInStep db [] ok = (db, refl, ok)
  register_all-IsInStep db ((notify, context) ∷ rest) ok =
      let (next, way, what, next_ok) = register-IsInStep db notify context ok in
      let (after, further, after_ok) = register_all-IsInStep next rest next_ok in
      (after, rw way further, after_ok)

  -- After any sequence of registrations, one more: the state before it, and what it comes to.
  pub register_all-Registered :
      (db : Db S) (calls : List (Option ℕ × Option ℕ)) (notify context : Option ℕ)
      → IsInStep running toggle db
      → (before after : Db S) × (register_all (some db) calls ≡ some before)
        × ((db_blocklist_async_notification_register (some before) notify context).1 ≡ some after)
        × (before.callback ≡ none → running before.instance_state ≡ false)
        × Registered running before notify
            (db_blocklist_async_notification_register (some before) notify context).0.0
            after
  register_all-Registered db calls notify context ok =
      let (before, way, before_ok) = register_all-IsInStep db calls ok in
      let (after, last, what, after_ok) = register-IsInStep before notify context before_ok in
      (before, after, way, last, before_ok.2, what)

-- A database with firewall functions and a driver that has a toggle, and no callback set: after one
-- callback was registered, registering another tells the driver nothing and succeeds, whatever the
-- driver answered to the first.
pub register-again :
    {S : Type 0} (toggle : S → Bool → Answer × S) (db : Db S) (f : ℕ) (context : Option ℕ)
    → db.no_firewall ≡ false
    → db.driver.toggle ≡ some toggle
    → db.callback ≡ none
    → (second : ℕ)
    → (db_blocklist_async_notification_register
        (db_blocklist_async_notification_register (some db) (some f) context).1
        (some second)
        context)
      ≡ (
        (true, none),
        some (record db {
          callback = some second;
          context = context;
          instance_state = (toggle db.instance_state true).1;
        }),
      )
unfolding db_blocklist_async_notification_register
register-again toggle db f context fw t unset second = simp (fw, t, unset) refl
