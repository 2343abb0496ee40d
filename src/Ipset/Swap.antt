-- ===== src/Ipset/Swap.antt =====
-- What putting a rebuilt set into production does, where the library behaves as ipset is documented to.
use iptracking.Prelude.{
  ℕ, ◌≡◌, refl, inl, inr, true, false, Option, none, some, List, Bool-cases, Option-cases,
  if◌then◌else◌, ◌∙◌, ap,
}
use iptracking.Prelude.Int.{pos, is_zero}
use iptracking.Prelude.Text.{str_eq}
use iptracking.Ipset.{
  cmd_create, cmd_add, cmd_swap, cmd_rename, cmd_destroy, Library, Helper, swap_or_rename,
  ipset_helper_activate,
}

-- What stands under a name after it has been written under another.
abbrev pub put_at {ℓ} : {A : Type ℓ} → List ℕ → Option A → (List ℕ → Option A) → List ℕ → Option A
put_at name v before n = if str_eq n name then v else before n

-- Sets by name: what each holds. The commands on them, as the manual page of ipset gives them, for sets
-- that no rule refers to by name in a way that keeps them from being destroyed.
pub record IsIpset (K : Type 0) (Contents : Type 0) (lib : Library K)
    (sets : K → List ℕ → Option Contents) (nothing : Contents)
    (with_entry : List ℕ → Contents → Contents) : Type 0 where
  pub on_create :
      (name : List ℕ) (k : K)
      → sets k name ≡ none
      → ((lib.run (cmd_create name) k).0 ≡ pos 0)
        × ((n : List ℕ)
            → sets (lib.run (cmd_create name) k).1 n ≡ put_at name (some nothing) (sets k) n)
  pub on_add :
      (name e : List ℕ) (k : K) (c : Contents)
      → sets k name ≡ some c
      → ((lib.run (cmd_add name e) k).0 ≡ pos 0)
        × ((n : List ℕ)
            → sets (lib.run (cmd_add name e) k).1 n
              ≡ put_at name (some (with_entry e c)) (sets k) n)
  pub on_destroy :
      (name : List ℕ) (k : K) (n : List ℕ)
      → sets (lib.run (cmd_destroy name) k).1 n ≡ put_at name none (sets k) n
  pub on_swap :
      (a b : List ℕ) (k : K) (c d : Contents)
      → sets k a ≡ some c
      → sets k b ≡ some d
      → ((lib.run (cmd_swap a b) k).0 ≡ pos 0)
        × ((n : List ℕ)
            → sets (lib.run (cmd_swap a b) k).1 n
              ≡ put_at a (some d) (put_at b (some c) (sets k)) n)
  pub on_no_swap :
      (a b : List ℕ) (k : K)
      → sets k b ≡ none
      → (is_zero (lib.run (cmd_swap a b) k).0 ≡ false)
        × ((n : List ℕ) → sets (lib.run (cmd_swap a b) k).1 n ≡ sets k n)
  pub on_rename :
      (a b : List ℕ) (k : K) (c : Contents)
      → sets k a ≡ some c
      → sets k b ≡ none
      → ((lib.run (cmd_rename a b) k).0 ≡ pos 0)
        × ((n : List ℕ)
            → sets (lib.run (cmd_rename a b) k).1 n ≡ put_at a none (put_at b (some c) (sets k)) n)

module _ {K : Type 0} (Contents : Type 0) (lib : Library K) (sets : K → List ℕ → Option Contents)
    (nothing : Contents) (with_entry : List ℕ → Contents → Contents)
    (ipset : IsIpset K Contents lib sets nothing with_entry) (rebuild prod : List ℕ) (h : Helper)
    (k : K) (c : Contents) (session : h.has_session ≡ true)
    (r_ok : lib.parse_setname rebuild ≡ pos 0) (p_ok : lib.parse_setname prod ≡ pos 0)
    (differ : str_eq prod rebuild ≡ false) (there : sets k rebuild ≡ some c) where
  by_swap :
      (d : Contents)
      → sets k prod ≡ some d
      → swap_or_rename lib rebuild prod k ≡ (pos 0, true, (lib.run (cmd_swap rebuild prod) k).1)
  unfolding swap_or_rename
  by_swap d present = rw (r_ok, p_ok, (ipset.on_swap rebuild prod k c d there present).0) refl

  by_rename :
      sets k prod ≡ none
      → (swap_or_rename lib rebuild prod k ≡ (
        pos 0,
        false,
        (lib.run (cmd_rename rebuild prod) (lib.run (cmd_swap rebuild prod) k).1).1,
      ))
        × ((n : List ℕ)
            → sets (lib.run (cmd_rename rebuild prod) (lib.run (cmd_swap rebuild prod) k).1).1 n
              ≡ put_at rebuild none (put_at prod (some c) (sets k)) n)
  unfolding swap_or_rename
  by_rename absent =
      let no_swap = ipset.on_no_swap rebuild prod k absent in
      let renamed =
        ipset.on_rename rebuild prod (lib.run (cmd_swap rebuild prod) k).1 c
          (no_swap.1 rebuild ∙ there) (no_swap.1 prod ∙ absent) in
      (
        rw (r_ok, p_ok, no_swap.0, renamed.0) refl,
        λ n.
            renamed.1 n
            ∙ ap (λ v. if str_eq n rebuild then none else if str_eq n prod then some c else v)
                (no_swap.1 n),
      )

  -- Where the library behaves as ipset is documented to, the session is open, both names are taken
  -- and differ, and the rebuilt set exists: activation returns 0 and leaves the rebuilt set's
  -- contents under the production name and nothing under the rebuilt name, whether or not the
  -- production set existed, and every other set as it was.
  pub activate-sets :
      ((ipset_helper_activate lib rebuild prod h k).rc ≡ pos 0)
      × ((n : List ℕ)
          → sets (ipset_helper_activate lib rebuild prod h k).kernel n
            ≡ put_at rebuild none (put_at prod (some c) (sets k)) n)
  unfolding ipset_helper_activate
  activate-sets = elim (Option-cases (sets k prod)) [
    | inl absent ↦ let (way, result) = by_rename absent in rw (session, way) (refl, result)
    | inr (d, present) ↦
        rw (session, by_swap d present)
          (
            refl,
            λ n.
                ipset.on_destroy rebuild (lib.run (cmd_swap rebuild prod) k).1 n
                ∙ elim (Bool-cases (str_eq n rebuild)) [
                  | inl e ↦ rw e refl
                  | inr e ↦ rw e ((ipset.on_swap rebuild prod k c d there present).1 n ∙ rw e refl)
                ],
          )
  ]
