-- ===== src/Firewalld/Main/Leaves.antt =====
-- What a run of the firewall daemon leaves of the IP sets.
use iptracking.Prelude.{
  ℕ, ◌+◌, ◌≡◌, refl, Bool, true, false, Option, none, some, List, ap, ◌∙◌, map,
}
use iptracking.Prelude.Text.{str_eq, str_eq_iff}
use iptracking.Db.{Db, db_open, db_close, db_dealloc, db_blocklist_async_notification_register}
use iptracking.Ipset.{cmd_destroy, Library, ipset_helper_destroy}
use iptracking.Ipset.Session.{ipset_helper_init}
use iptracking.Ipset.Swap.{IsIpset}
use iptracking.Firewalld.{Settings}
use iptracking.Firewalld.Rebuild.{opened, entries, IsReady}
use iptracking.Firewalld.Options.{Opt, overrides}
use iptracking.Startup.{Cli, Startup, first_options}
use iptracking.Firewalld.Daemon.{last_listing, IsUpToDate, after_events-Shows}
use iptracking.Firewalld.Main.{
  as_override, config_read_yaml_file, validated, Surroundings, ended, serve, connect, main,
}

-- The production set holds the block list that came last, or is as before where there was none; the set for
-- rebuilding is gone, and no other set has changed.
abbrev pub Leaves :
    {K Contents : Type 0} (lib : Library K) (sets : K → List ℕ → Option Contents)
    (nothing : Contents) (with_entry : List ℕ → Contents → Contents) (rebuild prod : List ℕ)
    → Option (List (List ℕ))
    → K
    → K
    → Type 0
Leaves lib sets nothing with_entry rebuild prod listing k k' =
    (sets k' prod
      ≡ elim listing [ none ↦ sets k prod | some es ↦ some (entries lib with_entry nothing es) ])
    × (sets k' rebuild ≡ none)
    × ((n : List ℕ) → str_eq n prod ≡ false → str_eq n rebuild ≡ false → sets k' n ≡ sets k n)

module _ {K : Type 0} (Contents : Type 0) (lib : Library K) (sets : K → List ℕ → Option Contents)
    (nothing : Contents) (with_entry : List ℕ → Contents → Contents)
    (ipset : IsIpset K Contents lib sets nothing with_entry) (rebuild prod : List ℕ)
    (ready : IsReady K lib rebuild prod) where
  -- The set for rebuilding is destroyed once more at the end.
  destroyed-Leaves :
      (listing : Option (List (List ℕ))) (k k' : K)
      → IsUpToDate Contents lib sets nothing with_entry ipset rebuild prod listing k k'
      → Leaves lib sets nothing with_entry rebuild prod listing k
          (lib.run (cmd_destroy rebuild) k').1
  destroyed-Leaves none k k' same = (
    ipset.on_destroy rebuild k' prod ∙ rw ready.differ (ap (λ x. sets x prod) same),
    ipset.on_destroy rebuild k' rebuild ∙ rw ((str_eq_iff rebuild rebuild).1 refl) refl,
    λ n n_prod n_rebuild. ipset.on_destroy rebuild k' n ∙ rw n_rebuild (ap (λ x. sets x n) same),
  )
  destroyed-Leaves (some es) k k' (p, r, others) = (
    ipset.on_destroy rebuild k' prod ∙ rw ready.differ p,
    ipset.on_destroy rebuild k' rebuild ∙ rw ((str_eq_iff rebuild rebuild).1 refl) refl,
    λ n n_prod n_rebuild. ipset.on_destroy rebuild k' n ∙ rw n_rebuild (others n n_prod n_rebuild),
  )

  helper_destroy-kernel :
      (typed : Bool) (k : K)
      → (ipset_helper_destroy lib rebuild (opened typed) k).kernel
        ≡ (lib.run (cmd_destroy rebuild) k).1
  unfolding ipset_helper_destroy
  helper_destroy-kernel typed k = rw ready.rebuild_ok refl

module _ {S K : Type 0} (env : Surroundings S K) (Contents : Type 0)
    (sets : K → List ℕ → Option Contents) (nothing : Contents)
    (with_entry : List ℕ → Contents → Contents)
    (ipset : IsIpset K Contents env.lib sets nothing with_entry) (c : Settings)
    (ready : IsReady K env.lib c.rebuild c.production) (k : K) where
  serve-Leaves :
      (db : Option (Db S))
      → (k' : K) × (serve env c db (opened false) k ≡ ended (db_dealloc (db_close db).1) k')
        × Leaves env.lib sets nothing with_entry c.rebuild c.production
            (last_listing env.events)
            k
            k'
  unfolding serve
  serve-Leaves db =
      let (w, typed, way, shows, helper) =
        after_events-Shows Contents env.lib sets nothing with_entry ipset c.rebuild c.production
          ready c.check_interval env.events false k (env.now + 1) 0 in
      (
        (env.lib.run (cmd_destroy c.rebuild) w.kernel).1,
        rw (way, serve)
            (ap (ended (db_dealloc (db_close db).1)) (
              ap (λ h. (ipset_helper_destroy env.lib c.rebuild h w.kernel).kernel) helper
              ∙ helper_destroy-kernel Contents env.lib sets nothing with_entry ipset c.rebuild
                  c.production ready typed w.kernel)),
        destroyed-Leaves Contents env.lib sets nothing with_entry ipset c.rebuild c.production ready
            (last_listing env.events) k w.kernel shows,
      )

helper_opens :
    (has_memory has_session : Bool)
    → has_memory ≡ true
    → has_session ≡ true
    → (ipset_helper_init false has_memory has_session).helper ≡ some (opened false)
unfolding ipset_helper_init
helper_opens has_memory has_session memory session = rw (memory, session) refl

-- Where no option asks for help, the configuration is read, overridden and validated, the database opens,
-- the session of the IP sets opens, and the library behaves as ipset is documented to and takes the names:
-- whatever ends of the timer, wake-ups and notifications come, each handled before the next one, the program
-- ends with the database freed behind having been opened, given its callback, and closed, the production set holding the block list that came last, or being as
-- before where none came, the set for rebuilding gone, and every other set as before.
pub main-Leaves :
    {S K : Type 0} (env : Surroundings S K) (Contents : Type 0)
    (sets : K → List ℕ → Option Contents) (nothing : Contents)
    (with_entry : List ℕ → Contents → Contents)
    (ipset : IsIpset K Contents env.lib sets nothing with_entry) (opts : List (Cli Opt))
    (start s : Startup) (defaults read given c : Settings) (db : Option (Db S)) (k : K)
    → first_options opts start ≡ some s
    → config_read_yaml_file env.drivers env.strtol (env.files s.config_filepath) defaults
      ≡ some (read, db)
    → overrides env.strtol (map as_override opts) read ≡ some given
    → validated db given ≡ some c
    → (db_open db).0.0 ≡ true
    → env.has_memory ≡ true
    → env.has_session ≡ true
    → IsReady K env.lib c.rebuild c.production
    → (k' : K) × (main env opts start defaults k
        ≡ ended
            (db_dealloc
              (db_close
                (db_blocklist_async_notification_register (db_open db).1 (some 0) (some 0)).1).1)
            k')
      × Leaves env.lib sets nothing with_entry c.rebuild c.production (last_listing env.events) k k'
unfolding main connect
main-Leaves env Contents sets nothing with_entry ipset opts start s defaults read given c db k shown
      loads overridden valid opens memory session ready =
    let registered =
      (db_blocklist_async_notification_register (db_open db).1 (some 0) (some 0)).1 in
    let (k', way, leaves) =
      serve-Leaves env Contents sets nothing with_entry ipset c ready k registered in
    (
      k',
      rw
          (
            shown,
            main,
            loads,
            overridden,
            valid,
            connect,
            opens,
            helper_opens env.has_memory env.has_session memory session,
          )
          way,
      leaves,
    )
