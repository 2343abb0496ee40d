-- ===== src/Firewalld.antt =====
-- firewall-daemon/iptracking-firewalld.c: the configuration, and the rebuilding of the IP set by the
-- timer thread and by the notification callback. The children have the options, the threads that call
-- the two, and the two running at once.
pub mod Daemon
pub mod Main
pub mod Names
pub mod Options
pub mod Shutdown
pub mod Rebuild
pub mod Tests
use iptracking.Prelude.{
  ℕ, zero, suc, ◌+◌, ◌-◌, Bool, true, false, ◌&&◌, ◌||◌, not, Option, none, some, List, [], ◌∷◌,
  ◌++◌, ltb, leb, ◌==◌, if◌then◌else◌, length,
}
use iptracking.Prelude.Int.{ℤ, is_zero}
use iptracking.Prelude.Text.{codes, is_alnum, is_empty, str_eq}
use iptracking.Yaml.{
  Document, Node, Strtol, yaml_helper_doc_node_at_path, scalar_value, scalar_uint32_value,
}
use iptracking.Ipset.{
  Library, Helper, Done, ipset_helper_create, ipset_helper_add, ipset_helper_destroy,
  ipset_helper_activate,
}

-- `__is_valid_ipset_name`, with the count `l` of characters so far.
unfoldable pub valid_from : ℕ → List ℕ → Bool
unfolding is_alnum
valid_from l [] = ltb 0 l && leb l 256
valid_from l (c ∷ s) =
    let rest = valid_from (suc l) s in
    if leb l 256
    then if not (is_alnum c) && not (c == b'_') then false else rest
    else ltb 0 l && leb l 256

unfoldable pub is_valid_ipset_name : List ℕ → Bool
unfolding valid_from
is_valid_ipset_name s = valid_from 0 s

-- The static variables that the configuration sets.
pub record Settings : Type 0 where
  pub check_interval : ℕ
  pub production : List ℕ
  pub production_isset : Bool
  pub rebuild : List ℕ
  pub rebuild_isset : Bool

-- `config_validate`, over whether a database is configured and whether its configuration is valid; the
-- settings as it leaves them, or `none` for false.
unfoldable pub config_validate : Bool → Bool → Settings → Option Settings
unfolding is_valid_ipset_name str_eq
config_validate has_db db_is_valid c =
    if not has_db || not db_is_valid
    then none
    else if ltb c.check_interval 120
    then none
    else if not (is_valid_ipset_name c.production)
    then none
    else if not (is_valid_ipset_name c.rebuild)
    then none
    else if str_eq c.rebuild c.production
    then none
    else if c.production_isset && not c.rebuild_isset
    then some (record c { rebuild = c.production ++ codes "_update" })
    else some c

-- A setting at a path: kept where the path leads nowhere, `none` where the value is not taken.
unfoldable pub text_setting :
    Strtol → Document → Node → List ℕ → Settings → (List ℕ → Settings) → Option Settings
unfolding yaml_helper_doc_node_at_path scalar_value
text_setting strtol doc n path c write =
    elim (yaml_helper_doc_node_at_path strtol doc (some n) path) [
      | none ↦ some c
      | some found ↦ elim (scalar_value found) [ none ↦ none | some s ↦ some (write s) ]
    ]

unfoldable pub interval_setting : Strtol → Document → Node → Settings → Option Settings
unfolding yaml_helper_doc_node_at_path scalar_uint32_value
interval_setting strtol doc n c =
    elim (yaml_helper_doc_node_at_path strtol doc (some n) (codes "check-interval")) [
      | none ↦ some c
      | some found ↦ elim (scalar_uint32_value strtol found) [
        | none ↦ none
        | some v ↦ some (record c { check_interval = v })
      ]
    ]

abbrev and_then : Option Settings → (Settings → Option Settings) → Option Settings
and_then none f = none
and_then (some c) f = f c

-- The `firewalld` part of `config_read_yaml_file`, over the loaded document.
unfoldable pub read_settings : Strtol → Document → Node → Settings → Option Settings
unfolding text_setting interval_setting yaml_helper_doc_node_at_path
read_settings strtol doc root c =
    elim (yaml_helper_doc_node_at_path strtol doc (some root) (codes "firewalld")) [
      | none ↦ some c
      | some n ↦ and_then (interval_setting strtol doc n c) (λ c1.
          and_then
            (text_setting strtol doc n (codes "ipset-name.production") c1
              (λ s. record c1 { production = s; production_isset = true }))
            (λ c2.
              text_setting strtol doc n (codes "ipset-name.rebuild") c2
                (λ s. record c2 { rebuild = s; rebuild_isset = true })))
    ]

-- What the timer thread and the callback work on: the IP sets, when the timer runs out, and how often
-- the timer thread has been woken.
pub record World (K : Type 0) : Type 0 where
  pub helper : Helper
  pub kernel : K
  pub timer_abstime : ℕ
  pub broadcasts : ℕ

-- What the enumeration gives before its end; nothing where there is no enumerator.
abbrev pub listed : Option (List (List ℕ)) → List (List ℕ)
listed none = []
listed (some es) = es

module _ {K : Type 0} (lib : Library K) where
  -- The loop over the enumerated entities, an empty one passed over; a failed addition is only logged.
  unfoldable pub add_entities : List ℕ → List (List ℕ) → Helper → K → Option (Helper × K)
  unfolding ipset_helper_add
  add_entities name [] h k = some (h, k)
  add_entities name (e ∷ es) h k =
      if is_empty e then add_entities name es h k else elim (ipset_helper_add lib name e h k) [
        | none ↦ none
        | some done ↦ add_entities name es done.helper done.kernel
      ]

  -- The timer's end in `timer_thread_entry`: `blocked` is what the enumerator gives, `none` where
  -- there is none, and `now` what the clock shows at the end.
  unfoldable pub timer_elapsed :
      Option (List (List ℕ)) → ℕ → ℕ → List ℕ → List ℕ → World K → Option (World K)
  unfolding ipset_helper_destroy ipset_helper_create add_entities ipset_helper_activate
  timer_elapsed blocked now interval rebuild prod w =
      let destroyed = ipset_helper_destroy lib rebuild w.helper w.kernel in
      let created = ipset_helper_create lib rebuild destroyed.helper destroyed.kernel in
      if is_zero created.rc
      then elim (add_entities rebuild (listed blocked) created.helper created.kernel) [
        | none ↦ none
        | some (h, k) ↦
            let activated = ipset_helper_activate lib rebuild prod h k in
            some (record w {
              helper = activated.helper;
              kernel = activated.kernel;
              timer_abstime = now + interval;
            })
      ]
      else some (record w { helper = created.helper; kernel = created.kernel })

  -- `firewall_notify`; `lock_ok` is whether the timer's mutex is taken.
  unfoldable pub firewall_notify :
      Option (List (List ℕ)) → ℕ → Bool → ℕ → List ℕ → List ℕ → World K → Option (World K)
  unfolding ipset_helper_destroy ipset_helper_create add_entities ipset_helper_activate
  firewall_notify blocked now lock_ok interval rebuild prod w =
      let destroyed = ipset_helper_destroy lib rebuild w.helper w.kernel in
      let created = ipset_helper_create lib rebuild destroyed.helper destroyed.kernel in
      if is_zero created.rc
      then elim (add_entities rebuild (listed blocked) created.helper created.kernel) [
        | none ↦ none
        | some (h, k) ↦
            let activated = ipset_helper_activate lib rebuild prod h k in
            let after = record w { helper = activated.helper; kernel = activated.kernel } in
            some (
              if is_zero activated.rc && lock_ok
              then record after { timer_abstime = now + interval; broadcasts = suc w.broadcasts }
              else after)
      ]
      else some (record w { helper = created.helper; kernel = created.kernel })
