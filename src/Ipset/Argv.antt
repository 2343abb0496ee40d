-- ===== src/Ipset/Argv.antt =====
-- The operations as they are built over `ipset_parse_argv`, which libipset has from version 7 on, in place
-- of its sessions.
use iptracking.Prelude.{
  ℕ, ◌≡◌, refl, inl, inr, true, false, List, [], ◌∷◌, if◌then◌else◌, Bool-cases, ap, ◌∙◌, sym,
}
use iptracking.Prelude.Int.{ℤ, pos, is_zero}
use iptracking.Prelude.Text.{codes}
use iptracking.Ipset.{
  Command, cmd_create, cmd_add, cmd_swap, cmd_rename, cmd_destroy, Library, Helper, swap_or_rename,
  ipset_helper_activate,
}

-- The words of a command.
unfoldable pub words : Command → List (List ℕ)
words (cmd_create name) = codes "ipset" ∷ codes "create" ∷ name ∷ codes "hash:net" ∷ []
words (cmd_add name entity) = codes "ipset" ∷ codes "add" ∷ name ∷ entity ∷ codes "-exist" ∷ []
words (cmd_swap a b) = codes "ipset" ∷ codes "swap" ∷ a ∷ b ∷ []
words (cmd_rename a b) = codes "ipset" ∷ codes "rename" ∷ a ∷ b ∷ []
words (cmd_destroy name) = codes "ipset" ∷ codes "destroy" ∷ name ∷ []

-- `ipset_helper_activate` over the run of a command: the result is the one of the last command.
unfoldable pub activate_by : {K : Type 0} → (Command → K → ℤ × K) → List ℕ → List ℕ → K → ℤ × K
activate_by run rebuild prod k =
    let swapped = run (cmd_swap rebuild prod) k in
    let renamed = run (cmd_rename rebuild prod) swapped.1 in
    if is_zero swapped.0
    then run (cmd_destroy rebuild) swapped.1
    else if is_zero renamed.0
    then renamed
    else run (cmd_destroy rebuild) renamed.1

module _ {K : Type 0} (parse_argv : List (List ℕ) → K → ℤ × K) where
  -- `ipset_helper_create`, `ipset_helper_add`, `ipset_helper_destroy` and `ipset_helper_activate`.
  unfoldable pub argv_create : List ℕ → K → ℤ × K
  unfolding words
  argv_create name k = parse_argv (words (cmd_create name)) k

  unfoldable pub argv_add : List ℕ → List ℕ → K → ℤ × K
  unfolding words
  argv_add name entity k = parse_argv (words (cmd_add name entity)) k

  unfoldable pub argv_destroy : List ℕ → K → ℤ × K
  unfolding words
  argv_destroy name k = parse_argv (words (cmd_destroy name)) k

  unfoldable pub argv_activate : List ℕ → List ℕ → K → ℤ × K
  unfolding words activate_by
  argv_activate rebuild prod k = activate_by (λ c k. parse_argv (words c) k) rebuild prod k

-- The words run the command.
abbrev pub RunsWords : (K : Type 0) → (List (List ℕ) → K → ℤ × K) → Library K → Type 0
RunsWords K parse_argv lib = (c : Command) (k : K) → parse_argv (words c) k ≡ lib.run c k

module _ {K : Type 0} (parse_argv : List (List ℕ) → K → ℤ × K) (lib : Library K)
    (runs : RunsWords K parse_argv lib) (rebuild prod : List ℕ) (h : Helper) (k : K)
    (session : h.has_session ≡ true) (r_ok : lib.parse_setname rebuild ≡ pos 0)
    (p_ok : lib.parse_setname prod ≡ pos 0) where
  by_runs : argv_activate parse_argv rebuild prod k ≡ activate_by lib.run rebuild prod k
  unfolding argv_activate
  by_runs = ap (λ run. activate_by run rebuild prod k) (λ i c x. runs c x i)

  abbrev swapped : ℤ × K
  swapped = lib.run (cmd_swap rebuild prod) k

  abbrev renamed : ℤ × K
  renamed = lib.run (cmd_rename rebuild prod) swapped.1

  by_session : ipset_helper_activate lib rebuild prod h k ≡ record {
    rc = if is_zero swapped.0 then swapped.0 else renamed.0;
    helper = h;
    kernel =
        if is_zero swapped.0
        then (lib.run (cmd_destroy rebuild) swapped.1).1
        else if is_zero renamed.0
        then renamed.1
        else (lib.run (cmd_destroy rebuild) renamed.1).1;
  }
  unfolding ipset_helper_activate swap_or_rename
  by_session = elim (Bool-cases (is_zero swapped.0)) [
    | inl swap ↦ simp (session, r_ok, p_ok, swap) refl
    | inr no_swap ↦ elim (Bool-cases (is_zero renamed.0)) [
      | inl rename ↦ simp (session, r_ok, p_ok, no_swap, rename) refl
      | inr no_rename ↦ simp (session, r_ok, p_ok, no_swap, no_rename) refl
    ]
  ]

  -- Where the words run the commands, a session is open, and both names are taken: the two ways to put a
  -- rebuilt set into production leave the same sets behind.
  pub argv_activate-same :
      (argv_activate parse_argv rebuild prod k).1
      ≡ (ipset_helper_activate lib rebuild prod h k).kernel
  unfolding activate_by
  argv_activate-same =
      ap (λ r. r.1) by_runs
      ∙ (elim (Bool-cases (is_zero swapped.0)) [
        | inl swap ↦ simp (swap) refl
        | inr no_swap ↦ elim (Bool-cases (is_zero renamed.0)) [
          | inl rename ↦ simp (no_swap, rename) refl
          | inr no_rename ↦ simp (no_swap, no_rename) refl
        ]
      ]
          ∙ sym (ap (λ d. d.kernel) by_session))

  -- Under the same conditions, where neither the swap nor the rename succeeds, the session's way gives the
  -- error of the rename, and the other one the result of destroying the rebuilt set, which may be 0.
  pub argv_activate-masks :
      is_zero (lib.run (cmd_swap rebuild prod) k).0 ≡ false
      → is_zero (lib.run (cmd_rename rebuild prod) (lib.run (cmd_swap rebuild prod) k).1).0 ≡ false
      → (is_zero (ipset_helper_activate lib rebuild prod h k).rc ≡ false)
        × ((argv_activate parse_argv rebuild prod k).0
            ≡ (lib.run
                (cmd_destroy rebuild)
                (lib.run (cmd_rename rebuild prod) (lib.run (cmd_swap rebuild prod) k).1).1).0)
  unfolding activate_by
  argv_activate-masks no_swap no_rename = (
    ap (λ d. is_zero d.rc) by_session ∙ simp (no_swap) no_rename,
    ap (λ r. r.0) by_runs ∙ simp (no_swap, no_rename) refl,
  )
