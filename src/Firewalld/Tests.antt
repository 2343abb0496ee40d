-- ===== src/Firewalld/Tests.antt =====
-- Runs of the rebuilds and of the configuration.
use iptracking.Prelude.{ℕ, suc, ◌+◌, ◌≡◌, refl, true, false, Option, some, List, [], ◌∷◌, false}
use iptracking.Prelude.Text.{codes}
use iptracking.Ipset.Tests.{
  Entries, Sets, named_sets, contents, added, named_sets-IsIpset, rebuild, production, old_sets,
  names_differ,
}
use iptracking.Firewalld.{World, listed, timer_elapsed, firewall_notify, Settings, config_validate}
use iptracking.Firewalld.Rebuild.{
  opened, IsReady, IsRebuilt, timer_elapsed-IsRebuilt, firewall_notify-IsRebuilt,
}

pub ready : IsReady Sets named_sets rebuild production
ready = record {
  rebuild_ok = refl;
  prod_ok = refl;
  type_ok = refl;
  type_found = λ k. refl;
  differ = names_differ;
}

abbrev blocked : Option (List (List ℕ))
blocked = some (codes "10.0.0.1" ∷ [] ∷ codes "10.0.0.2" ∷ [])

abbrev world : World Sets
world = record { helper = opened false; kernel = old_sets; timer_abstime = 50; broadcasts = 0 }

timer_elapsed-IsRebuilt_example :
    (w : World Sets) × (timer_elapsed named_sets blocked 100 300 rebuild production world ≡ some w)
    × IsRebuilt Entries named_sets contents [] added named_sets-IsIpset rebuild production
        (listed blocked)
        old_sets
        w.kernel
    × (w.timer_abstime ≡ 100 + 300)
    × (w.helper ≡ opened true)
timer_elapsed-IsRebuilt_example =
    timer_elapsed-IsRebuilt Entries named_sets contents [] added named_sets-IsIpset rebuild
      production ready blocked old_sets 100 300 50 0 false

firewall_notify-IsRebuilt_example :
    (w : World Sets) × (firewall_notify named_sets blocked 100 true 300 rebuild production world
      ≡ some w)
    × IsRebuilt Entries named_sets contents [] added named_sets-IsIpset rebuild production
        (listed blocked)
        old_sets
        w.kernel
    × (w.timer_abstime ≡ 100 + 300)
    × (w.broadcasts ≡ suc 0)
    × (w.helper ≡ opened true)
firewall_notify-IsRebuilt_example =
    firewall_notify-IsRebuilt Entries named_sets contents [] added named_sets-IsIpset rebuild
      production ready blocked old_sets 100 300 50 0 false

abbrev given : Settings
given = record {
  check_interval = 300;
  production = codes "hosts";
  production_isset = true;
  rebuild = codes "x";
  rebuild_isset = false;
}

abbrev taken : Settings
taken = record given { rebuild = codes "hosts_update" }

given-taken : config_validate true true given ≡ some taken
unfolding config_validate
given-taken = refl
