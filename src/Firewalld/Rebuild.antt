-- ===== src/Firewalld/Rebuild.antt =====
-- What a rebuild leaves in the production set.
use iptracking.Prelude.{
  ℕ, suc, ◌+◌, ◌≡◌, refl, inl, inr, Bool, true, false, ◌&&◌, Option, none, some, List, [], ◌∷◌,
  Bool-cases, if◌then◌else◌, ap, ◌∙◌,
}
use iptracking.Prelude.Int.{ℤ, pos, is_zero}
use iptracking.Prelude.Text.{codes, is_empty, str_eq, str_eq_iff}
use iptracking.Ipset.{
  cmd_add, cmd_create, cmd_destroy, Library, Helper, Done, ipset_helper_create, ipset_helper_add,
  ipset_helper_destroy, ipset_helper_activate,
}
use iptracking.Ipset.Swap.{IsIpset, activate-sets}
use iptracking.Firewalld.{World, listed, add_entities, timer_elapsed, firewall_notify}

-- The contents after the entities were added one by one: the empty ones and those that the library
-- does not take as an entity are passed over.
pub entries :
    {K Contents : Type 0}
    → Library K
    → (List ℕ → Contents → Contents)
    → Contents
    → List (List ℕ)
    → Contents
entries lib with_entry c [] = c
entries lib with_entry c (e ∷ es) =
    if is_empty e
    then entries lib with_entry c es
    else if is_zero (lib.parse_elem e)
    then entries lib with_entry (with_entry e c) es
    else entries lib with_entry c es

taken {ℓ} : {A : Type ℓ} (x y : A) (rc : ℤ) → rc ≡ pos 0 → (if is_zero rc && true then x else y) ≡ x
taken x y rc e = rw e refl

-- A helper whose session is open.
abbrev pub opened : Bool → Helper
opened typed = record { has_session = true; has_type = typed }

-- What makes an update go through: two names and the type that the library takes.
pub record IsReady (K : Type 0) (lib : Library K) (rebuild prod : List ℕ) : Type 0 where
  pub rebuild_ok : lib.parse_setname rebuild ≡ pos 0
  pub prod_ok : lib.parse_setname prod ≡ pos 0
  pub type_ok : lib.parse_typename (codes "hash:net") ≡ pos 0
  pub type_found : (k : K) → lib.type_get k ≡ true
  pub differ : str_eq prod rebuild ≡ false

module _ {K : Type 0} (Contents : Type 0) (lib : Library K) (sets : K → List ℕ → Option Contents)
    (nothing : Contents) (with_entry : List ℕ → Contents → Contents)
    (ipset : IsIpset K Contents lib sets nothing with_entry) (rebuild prod : List ℕ) where
  pub add_entities-sets :
      (es : List (List ℕ)) (k : K) (c : Contents)
      → lib.parse_setname rebuild ≡ pos 0
      → sets k rebuild ≡ some c
      → (k' : K) × (add_entities lib rebuild es (opened true) k ≡ some (opened true, k'))
        × (sets k' rebuild ≡ some (entries lib with_entry c es))
        × ((n : List ℕ) → str_eq n rebuild ≡ false → sets k' n ≡ sets k n)
  unfolding add_entities ipset_helper_add entries
  add_entities-sets [] k c name_ok there = (k, refl, there, λ n other. refl)
  add_entities-sets ([] ∷ es) k c name_ok there = add_entities-sets es k c name_ok there
  add_entities-sets ((b ∷ e) ∷ es) k c name_ok there =
      elim (Bool-cases (is_zero (lib.parse_elem (b ∷ e)))) [
        | inl ok ↦
            let added = ipset.on_add rebuild (b ∷ e) k c there in
            let here : sets (lib.run (cmd_add rebuild (b ∷ e)) k).1 rebuild
                ≡ some (with_entry (b ∷ e) c) =
              added.1 rebuild ∙ rw ((str_eq_iff rebuild rebuild).1 refl) refl in
            let (k', way, contents, others) =
              add_entities-sets es (lib.run (cmd_add rebuild (b ∷ e)) k).1 (with_entry (b ∷ e) c)
                name_ok here in
            (
              k',
              rw (name_ok, ok) way,
              rw ok contents,
              λ n other. others n other ∙ added.1 n ∙ rw other refl,
            )
        | inr bad ↦
            let (k', way, contents, others) = add_entities-sets es k c name_ok there in
            (k', rw (name_ok, bad) way, rw bad contents, others)
      ]

  -- The production set holds the entities, the set for rebuilding is gone, and nothing else has changed.
  abbrev pub IsRebuilt : List (List ℕ) → K → K → Type 0
  IsRebuilt es k k' =
      (sets k' prod ≡ some (entries lib with_entry nothing es))
      × (sets k' rebuild ≡ none)
      × ((n : List ℕ) → str_eq n prod ≡ false → str_eq n rebuild ≡ false → sets k' n ≡ sets k n)

  module _ (ready : IsReady K lib rebuild prod) (es : List (List ℕ)) (k : K) where
    cleared : K
    cleared = (lib.run (cmd_destroy rebuild) k).1

    fresh : K
    fresh = (lib.run (cmd_create rebuild) cleared).1

    cleared-none : sets cleared rebuild ≡ none
    unfolding cleared
    cleared-none =
        ipset.on_destroy rebuild k rebuild ∙ rw ((str_eq_iff rebuild rebuild).1 refl) refl

    fresh-nothing : sets fresh rebuild ≡ some nothing
    unfolding fresh
    fresh-nothing =
        (ipset.on_create rebuild cleared cleared-none).1 rebuild
        ∙ rw ((str_eq_iff rebuild rebuild).1 refl) refl

    fresh-other : (n : List ℕ) → str_eq n rebuild ≡ false → sets fresh n ≡ sets k n
    unfolding fresh cleared
    fresh-other n other =
        (ipset.on_create rebuild cleared cleared-none).1 n
        ∙ rw other (ipset.on_destroy rebuild k n ∙ rw other refl)

    -- The steps of a rebuild, from the fresh set on.
    filled :
        (k' : K) × (add_entities lib rebuild es (opened true) fresh ≡ some (opened true, k'))
        × ((ipset_helper_activate lib rebuild prod (opened true) k').rc ≡ pos 0)
        × IsRebuilt es k (ipset_helper_activate lib rebuild prod (opened true) k').kernel
    filled =
        let (k', way, contents, others) =
          add_entities-sets es fresh nothing ready.rebuild_ok fresh-nothing in
        let (rc, result) =
          activate-sets Contents lib sets nothing with_entry ipset rebuild prod (opened true) k'
            (entries lib with_entry nothing es) refl ready.rebuild_ok ready.prod_ok ready.differ
            contents in
        (
          k',
          way,
          rc,
          (
            result prod ∙ rw (ready.differ, (str_eq_iff prod prod).1 refl) refl,
            result rebuild ∙ rw ((str_eq_iff rebuild rebuild).1 refl) refl,
            λ n n_prod n_rebuild.
                result n ∙ rw (n_rebuild, n_prod) (others n n_rebuild ∙ fresh-other n n_rebuild),
          ),
        )

  module _ (ready : IsReady K lib rebuild prod) (blocked : Option (List (List ℕ))) (k : K)
      (now interval at count : ℕ) (typed : Bool) where
    activate-opened :
        (k' : K) → (ipset_helper_activate lib rebuild prod (opened true) k').helper ≡ opened true
    unfolding ipset_helper_activate
    activate-opened k' = refl

    abbrev before : World K
    before = record { helper = opened typed; kernel = k; timer_abstime = at; broadcasts = count }

    abbrev ended : Done K → ℕ → World K
    ended done n = record {
      helper = done.helper;
      kernel = done.kernel;
      timer_abstime = now + interval;
      broadcasts = n;
    }

    -- Where the library behaves as ipset is documented to, the session is open, and the names are
    -- taken: when the timer runs out, the production set afterwards holds what the enumeration gave,
    -- or nothing where there was no enumeration, whatever it held before; the set for rebuilding is
    -- gone, no other set has changed, the timer runs for another interval, and the session is open.
    pub timer_elapsed-IsRebuilt :
        (w : World K) × (timer_elapsed lib blocked now interval rebuild prod before ≡ some w)
        × IsRebuilt (listed blocked) k w.kernel
        × (w.timer_abstime ≡ now + interval)
        × (w.helper ≡ opened true)
    unfolding timer_elapsed ipset_helper_destroy ipset_helper_create cleared fresh
    timer_elapsed-IsRebuilt =
        let (k', way, rc, rebuilt) = filled ready (listed blocked) k in
        let gone = cleared ready (listed blocked) k in
        let new = (ipset.on_create rebuild gone (cleared-none ready (listed blocked) k)).0 in
        let done = ipset_helper_activate lib rebuild prod (opened true) k' in
        (ended done count, steps way new (ended done count) refl, rebuilt, refl, activate-opened k')
      where
        steps :
            {k' : K}
            → add_entities lib rebuild
                (listed blocked)
                (opened true)
                (fresh ready (listed blocked) k)
              ≡ some (opened true, k')
            → (lib.run (cmd_create rebuild) (cleared ready (listed blocked) k)).0 ≡ pos 0
            → (w : World K)
            → ended (ipset_helper_activate lib rebuild prod (opened true) k') count ≡ w
            → timer_elapsed lib blocked now interval rebuild prod before ≡ some w
        steps way new w e =
            rw
              (
                ready.rebuild_ok,
                ready.type_ok,
                ready.type_found (cleared ready (listed blocked) k),
                new,
                way,
              )
              (ap some e)

    -- Where the library behaves as ipset is documented to, the session is open, the names are taken,
    -- and the timer's mutex is taken: after a notification the production set holds what the
    -- enumeration gave, or nothing where there was no enumeration; the set for rebuilding is gone,
    -- no other set has changed, the timer runs for another interval, its thread is woken once, and the
    -- session is open.
    pub firewall_notify-IsRebuilt :
        (w : World K) × (firewall_notify lib blocked now true interval rebuild prod before ≡ some w)
        × IsRebuilt (listed blocked) k w.kernel
        × (w.timer_abstime ≡ now + interval)
        × (w.broadcasts ≡ suc count)
        × (w.helper ≡ opened true)
    unfolding firewall_notify ipset_helper_destroy ipset_helper_create cleared fresh
    firewall_notify-IsRebuilt =
        let (k', way, rc, rebuilt) = filled ready (listed blocked) k in
        let gone = cleared ready (listed blocked) k in
        let new = (ipset.on_create rebuild gone (cleared-none ready (listed blocked) k)).0 in
        let done = ipset_helper_activate lib rebuild prod (opened true) k' in
        (
          ended done (suc count),
          steps way new (ended done (suc count)) refl rc,
          rebuilt,
          refl,
          refl,
          activate-opened k',
        )
      where
        steps :
            {k' : K}
            → add_entities lib rebuild
                (listed blocked)
                (opened true)
                (fresh ready (listed blocked) k)
              ≡ some (opened true, k')
            → (lib.run (cmd_create rebuild) (cleared ready (listed blocked) k)).0 ≡ pos 0
            → (w : World K)
            → ended (ipset_helper_activate lib rebuild prod (opened true) k') (suc count) ≡ w
            → (ipset_helper_activate lib rebuild prod (opened true) k').rc ≡ pos 0
            → firewall_notify lib blocked now true interval rebuild prod before ≡ some w
        steps {k' = k'} way new w e rc =
            rw
              (
                ready.rebuild_ok,
                ready.type_ok,
                ready.type_found (cleared ready (listed blocked) k),
                new,
                way,
              )
              (ap some
                (taken _ _ (ipset_helper_activate lib rebuild prod (opened true) k').rc rc ∙ e))
