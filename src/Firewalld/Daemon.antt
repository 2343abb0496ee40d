-- ===== src/Firewalld/Daemon.antt =====
-- The daemon from its timer's first end on: what its thread and the notifications do one after another.
use iptracking.Prelude.{
  ℕ, ◌≡◌, refl, Bool, true, Option, none, some, List, [], ◌∷◌, ap, ◌∙◌, ◌>>=◌, subst, sym,
}
use iptracking.Ipset.{Library}
use iptracking.Ipset.Swap.{IsIpset}
use iptracking.Firewalld.{World, listed, timer_elapsed, firewall_notify}
use iptracking.Firewalld.Rebuild.{
  opened, IsReady, IsRebuilt, timer_elapsed-IsRebuilt, firewall_notify-IsRebuilt,
}

-- What the wait of the timer's thread ends with, and what comes from the database: the time is over, the
-- thread is woken, or there is a notification. The block list is what the enumerator gives then.
pub data Event : Type 0 where
  timed_out : Option (List (List ℕ)) → ℕ → Event
  woken : Event
  is_notified : Option (List (List ℕ)) → ℕ → Event

-- The block list that is put into production last.
pub listing : Event → Option (List (List ℕ))
listing (timed_out blocked now) = some (listed blocked)
listing woken = none
listing (is_notified blocked now) = some (listed blocked)

pub later_or : Option (List (List ℕ)) → Option (List (List ℕ)) → Option (List (List ℕ))
later_or earlier none = earlier
later_or earlier (some es) = some es

pub last_listing : List Event → Option (List (List ℕ))
last_listing [] = none
last_listing (e ∷ es) = later_or (listing e) (last_listing es)

module _ {K : Type 0} (lib : Library K) (interval : ℕ) (rebuild prod : List ℕ) where
  -- A round of the loop of `timer_thread_entry`, or a call of `firewall_notify`.
  unfoldable pub after_event : Event → World K → Option (World K)
  unfolding timer_elapsed firewall_notify
  after_event (timed_out blocked now) w = timer_elapsed lib blocked now interval rebuild prod w
  after_event woken w = some w
  after_event (is_notified blocked now) w =
      firewall_notify lib blocked now true interval rebuild prod w

  unfoldable pub after_events : List Event → World K → Option (World K)
  after_events [] w = some w
  after_events (e ∷ es) w = do w ← after_event e w; after_events es w

-- The sets after events that put this block list into production last, or none.
abbrev pub IsUpToDate :
    {K : Type 0} (Contents : Type 0) (lib : Library K) (sets : K → List ℕ → Option Contents)
    (nothing : Contents) (with_entry : List ℕ → Contents → Contents)
    (ipset : IsIpset K Contents lib sets nothing with_entry) (rebuild prod : List ℕ)
    → Option (List (List ℕ))
    → K
    → K
    → Type 0
IsUpToDate Contents lib sets nothing with_entry ipset rebuild prod none k k' = k' ≡ k
IsUpToDate Contents lib sets nothing with_entry ipset rebuild prod (some es) k k' =
    IsRebuilt Contents lib sets nothing with_entry ipset rebuild prod es k k'

module _ {K : Type 0} (Contents : Type 0) (lib : Library K) (sets : K → List ℕ → Option Contents)
    (nothing : Contents) (with_entry : List ℕ → Contents → Contents)
    (ipset : IsIpset K Contents lib sets nothing with_entry) (rebuild prod : List ℕ)
    (ready : IsReady K lib rebuild prod) (interval : ℕ) where
  abbrev Shows : Option (List (List ℕ)) → K → K → Type 0
  Shows = IsUpToDate Contents lib sets nothing with_entry ipset rebuild prod

  Shows-trans :
      (first second : Option (List (List ℕ))) (k k1 k2 : K)
      → Shows first k k1
      → Shows second k1 k2
      → Shows (later_or first second) k k2
  unfolding later_or
  Shows-trans first none k k1 k2 was is = subst (λ x. Shows first k x) (sym is) was
  Shows-trans none (some es) k k1 k2 was is = subst (λ x. Shows (some es) x k2) was is
  Shows-trans (some es1) (some es) k k1 k2 (p, r, others) (p2, r2, others2) =
      (p2, r2, λ n n_prod n_rebuild. others2 n n_prod n_rebuild ∙ others n n_prod n_rebuild)

  after_event-Shows :
      (e : Event) (typed : Bool) (k : K) (at count : ℕ)
      → (w : World K) × (typed' : Bool) × (after_event lib interval rebuild prod e
            (record { helper = opened typed; kernel = k; timer_abstime = at; broadcasts = count })
          ≡ some w)
        × Shows (listing e) k w.kernel
        × (w.helper ≡ opened typed')
  unfolding after_event listing
  after_event-Shows (timed_out blocked now) typed k at count =
      let (w, way, rebuilt, time, helper) =
        timer_elapsed-IsRebuilt Contents lib sets nothing with_entry ipset rebuild prod ready
          blocked k now interval at count typed in
      (w, true, way, rebuilt, helper)
  after_event-Shows woken typed k at count = (
    record { helper = opened typed; kernel = k; timer_abstime = at; broadcasts = count },
    typed,
    refl,
    refl,
    refl,
  )
  after_event-Shows (is_notified blocked now) typed k at count =
      let (w, way, rebuilt, time, broadcast, helper) =
        firewall_notify-IsRebuilt Contents lib sets nothing with_entry ipset rebuild prod ready
          blocked k now interval at count typed in
      (w, true, way, rebuilt, helper)

  pub after_events-Shows :
      (events : List Event) (typed : Bool) (k : K) (at count : ℕ)
      → (w : World K) × (typed' : Bool) × (after_events lib interval rebuild prod events
            (record { helper = opened typed; kernel = k; timer_abstime = at; broadcasts = count })
          ≡ some w)
        × Shows (last_listing events) k w.kernel
        × (w.helper ≡ opened typed')
  unfolding after_events last_listing
  after_events-Shows [] typed k at count = (
    record { helper = opened typed; kernel = k; timer_abstime = at; broadcasts = count },
    typed,
    refl,
    refl,
    refl,
  )
  after_events-Shows (e ∷ es) typed k at count =
      let (w, typed', way, shows, helper) = after_event-Shows e typed k at count in
      let (w', typed2, further, shows', helper') =
        after_events-Shows es typed' w.kernel w.timer_abstime w.broadcasts in
      let whole : w ≡ record {
        helper = opened typed';
        kernel = w.kernel;
        timer_abstime = w.timer_abstime;
        broadcasts = w.broadcasts;
      } =
        ap (λ h. record w { helper = h }) helper in
      (
        w',
        typed2,
        rw way (ap (λ x. after_events lib interval rebuild prod es x) whole ∙ further),
        Shows-trans (listing e) (last_listing es) k w.kernel w'.kernel shows shows',
        helper',
      )

  -- Where the library behaves as ipset is documented to, the session is open, and the names are taken:
  -- after any sequence of ends of the timer, wake-ups and notifications, each after the one before, the
  -- production set holds the block list that was put there last, the set for rebuilding is gone, and
  -- no other set has changed; where there was none, nothing has changed.
  pub after_events-IsUpToDate :
      (events : List Event) (typed : Bool) (k : K) (at count : ℕ)
      → (w : World K) × (after_events lib interval rebuild prod events
            (record { helper = opened typed; kernel = k; timer_abstime = at; broadcasts = count })
          ≡ some w)
        × IsUpToDate Contents lib sets nothing with_entry ipset rebuild prod
            (last_listing events)
            k
            w.kernel
  after_events-IsUpToDate events typed k at count =
      let (w, typed', way, shows, helper) = after_events-Shows events typed k at count in
      (w, way, shows)
