-- ===== src/Db.antt =====
-- libiptracking/db_interface.c: the drivers by name, and the operations of a database through its
-- driver's callbacks.
pub mod Calls
pub mod Drivers
pub mod Enumerator
pub mod LastError
pub mod Shown
pub mod Notification
pub mod Property
mod Tests
use mathlib.Core.List.{reverse}
use iptracking.Prelude.{
  ℕ, zero, suc, ◌+◌, ◌-◌, Bool, true, false, ◌&&◌, ◌||◌, not, Option, none, some, List, [], ◌∷◌,
  ◌==◌, if◌then◌else◌, length, get_elem?,
}
use iptracking.Prelude.Text.{codes, is_space, skip_spaces, str_case_eq}
use iptracking.LogData.{LogData}
use iptracking.Db.Shown.{Line}
use iptracking.Yaml.{Document, Node, Strtol, yaml_helper_doc_node_at_path, scalar_value}

-- A result, with the text that is stored under `error_msg` where one is.
abbrev pub Answer : Type 0
Answer = Bool × Option (List ℕ)

-- `db_driver_callbacks_t`, over the state `S` of the drivers' instances. A pointer that may be NULL is an
-- option.
pub record Driver (S : Type 0) : Type 0 where
  pub driver_name : List ℕ
  pub alloc : Document → Node → Option S
  pub has_valid_configuration : S → Answer
  pub summarize_to_log : S → List Line
  pub open_ : S → Answer × S
  pub close : S → Answer × S
  pub log_one_event : S → LogData → Answer × S
  pub blocklist_enum_open : Option (S → Option (List (List ℕ)) × Option (List ℕ) × S)
  pub toggle : Option (S → Bool → Answer × S)

-- `db_instance_t`. The callback and its context are numbers; `options` has one flag for each of
-- `db_options_no_pam_logging` and `db_options_no_firewall`.
pub record Db (S : Type 0) : Type 0 where
  pub driver : Driver S
  pub instance_state : S
  pub no_pam_logging : Bool
  pub no_firewall : Bool
  pub last_error : Option (List ℕ)
  pub callback : Option ℕ
  pub context : Option ℕ

-- The loop that drops white space from the end, over the characters from the end on: one always stays.
unfoldable pub drop_back : List ℕ → List ℕ
unfolding is_space
drop_back [] = []
drop_back (c ∷ []) = c ∷ []
drop_back (c ∷ d ∷ before) = if is_space c then drop_back (d ∷ before) else c ∷ d ∷ before

-- `__db_instance_set_last_error` with a negative length.
unfoldable pub trimmed : List ℕ → List ℕ
unfolding drop_back skip_spaces
trimmed s = reverse (drop_back (reverse (skip_spaces s)))

-- `__db_driver_lookup`.
unfoldable pub db_driver_lookup : {S : Type 0} → List (Driver S) → List ℕ → Option (Driver S)
unfolding str_case_eq
db_driver_lookup [] name = none
db_driver_lookup (d ∷ ds) name =
    if str_case_eq name d.driver_name then some d else db_driver_lookup ds name

module _ {S : Type 0} (drivers : List (Driver S)) where
  unfoldable pub db_driver_is_available : List ℕ → Bool
  unfolding db_driver_lookup
  db_driver_is_available name = elim (db_driver_lookup drivers name) [
    | none ↦ false
    | some d ↦ true
  ]

  -- `db_driver_enumerate_drivers`: `none` is a NULL iterator, `some i` one that stands at the driver `i`.
  unfoldable pub db_driver_enumerate_drivers : ℕ → Option (List ℕ × ℕ)
  db_driver_enumerate_drivers i = elim (get_elem? drivers i) [
    | none ↦ none
    | some d ↦ some (d.driver_name, suc i)
  ]

  -- `db_alloc` with no driver name given: `none` is also the end of the program where the node has no
  -- `driver-name`, and the comparison with NULL where that is no scalar.
  unfoldable pub db_alloc : Strtol → Document → Node → Bool → Bool → Option (Db S)
  unfolding yaml_helper_doc_node_at_path scalar_value db_driver_lookup
  db_alloc strtol doc n no_pam no_fw =
      elim (yaml_helper_doc_node_at_path strtol doc (some n) (codes "driver-name")) [
        | none ↦ none
        | some found ↦ elim (scalar_value found) [
          | none ↦ none
          | some name ↦ elim (db_driver_lookup drivers name) [
            | none ↦ none
            | some d ↦ elim (d.alloc doc n) [
              | none ↦ none
              | some s ↦ some (record {
                driver = d;
                instance_state = s;
                no_pam_logging = no_pam;
                no_firewall = no_fw;
                last_error = none;
                callback = none;
                context = none;
              })
            ]
          ]
        ]
      ]

abbrev pub invalid_database : Option (List ℕ)
invalid_database = some (codes "Invalid database (NULL)")

module _ {S : Type 0} where
  abbrev with_state : Db S → Answer × S → Answer × Option (Db S)
  with_state db (a, s) = (a, some (record db { instance_state = s }))

  unfoldable pub db_has_valid_configuration : Option (Db S) → Answer
  db_has_valid_configuration none = (false, invalid_database)
  db_has_valid_configuration (some db) = db.driver.has_valid_configuration db.instance_state

  unfoldable pub db_summarize_to_log : Option (Db S) → List Line
  db_summarize_to_log none = []
  db_summarize_to_log (some db) = db.driver.summarize_to_log db.instance_state

  unfoldable pub db_open : Option (Db S) → Answer × Option (Db S)
  db_open none = ((false, invalid_database), none)
  db_open (some db) = with_state db (db.driver.open_ db.instance_state)

  unfoldable pub db_close : Option (Db S) → Answer × Option (Db S)
  db_close none = ((false, invalid_database), none)
  db_close (some db) = with_state db (db.driver.close db.instance_state)

  -- `db_dealloc`: the instance as it is when it is freed.
  unfoldable pub db_dealloc : Option (Db S) → Option S
  db_dealloc none = none
  db_dealloc (some db) = some (db.driver.close db.instance_state).1

  -- The text for a database without PAM functions is overwritten by the one for no database.
  unfoldable pub db_log_one_event : Option (Db S) → LogData → Answer × Option (Db S)
  db_log_one_event none event = ((false, invalid_database), none)
  db_log_one_event (some db) event =
      if db.no_pam_logging
      then ((false, invalid_database), some db)
      else with_state db (db.driver.log_one_event db.instance_state event)

  -- The enumerator as the entities that it will give.
  unfoldable pub db_blocklist_enum_open :
      Option (Db S) → (Option (List (List ℕ)) × Option (List ℕ)) × Option (Db S)
  db_blocklist_enum_open none = ((none, invalid_database), none)
  db_blocklist_enum_open (some db) =
      if db.no_firewall
      then ((none, some (codes "Firewall functionality not enabled")), some db)
      else elim db.driver.blocklist_enum_open [
        | none ↦ ((none, some (codes "No enumerator open callback")), some db)
        | some f ↦
            let (found, error, s) = f db.instance_state in
            elim found [
              | none ↦ (
                (none, some (codes "Failed to allocate enumerator")),
                some (record db { instance_state = s }),
              )
              | some entities ↦ ((some entities, error), some (record db { instance_state = s }))
            ]
      ]

  unfoldable pub db_has_blocklist_async_notification : Option (Db S) → Answer
  db_has_blocklist_async_notification none = (false, invalid_database)
  db_has_blocklist_async_notification (some db) =
      if db.no_firewall
      then (false, some (codes "Firewall functionality not enabled"))
      else elim db.driver.toggle [
        | none ↦ (false, some (codes "No async notification callback"))
        | some f ↦ (true, none)
      ]

  -- `db_blocklist_async_notification_register`.
  unfoldable pub db_blocklist_async_notification_register :
      Option (Db S) → Option ℕ → Option ℕ → Answer × Option (Db S)
  db_blocklist_async_notification_register none notify context = ((false, invalid_database), none)
  db_blocklist_async_notification_register (some db) notify context =
      if db.no_firewall
      then ((false, some (codes "Firewall functionality not enabled")), some db)
      else elim db.driver.toggle [
        | none ↦ ((false, some (codes "No async notification callback")), some db)
        | some toggle ↦ elim notify [
          | none ↦
              with_state (record db { callback = none; context = none })
                (toggle db.instance_state false)
          | some f ↦ elim db.callback [
            | none ↦
                with_state (record db { callback = some f; context = context })
                  (toggle db.instance_state true)
            | some _ ↦ ((true, none), some (record db { callback = some f; context = context }))
          ]
        ]
      ]
