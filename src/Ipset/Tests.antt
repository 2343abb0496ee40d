-- ===== src/Ipset/Tests.antt =====
-- A library of sets that are kept in a function from names, and runs of the operations over it.
use iptracking.Prelude.{
  ℕ, ◌≡◌, refl, true, false, Option, none, some, List, [], ◌∷◌, subst, sym, length, ◌==◌, ◌+◌,
  if◌then◌else◌,
}
use iptracking.Prelude.Int.{ℤ, pos, negsuc, is_zero}
use iptracking.Prelude.Text.{codes, str_eq}
use iptracking.Ipset.{
  Command, cmd_create, cmd_add, cmd_swap, cmd_rename, cmd_destroy, Library, Helper,
  ipset_helper_activate,
}
use iptracking.Ipset.Argv.{words, argv_activate, argv_activate-same}
use iptracking.Ipset.Swap.{put_at, IsIpset, activate-sets}

abbrev pub Entries : Type 0
Entries = List (List ℕ)

abbrev pub Sets : Type 0
Sets = List ℕ → Option Entries

-- The commands, over what stands under the names that they are given.
abbrev create_in : Option Entries → List ℕ → Sets → ℤ × Sets
create_in none name k = (pos 0, put_at name (some []) k)
create_in (some c) name k = (negsuc 0, k)

abbrev add_in : Option Entries → List ℕ → List ℕ → Sets → ℤ × Sets
add_in none name e k = (negsuc 0, k)
add_in (some c) name e k = (pos 0, put_at name (some (e ∷ c)) k)

abbrev swap_in : Option Entries → Option Entries → List ℕ → List ℕ → Sets → ℤ × Sets
swap_in (some c) (some d) a b k = (pos 0, put_at a (some d) (put_at b (some c) k))
swap_in none _ a b k = (negsuc 0, k)
swap_in (some c) none a b k = (negsuc 0, k)

abbrev rename_in : Option Entries → Option Entries → List ℕ → List ℕ → Sets → ℤ × Sets
rename_in (some c) none a b k = (pos 0, put_at a none (put_at b (some c) k))
rename_in none _ a b k = (negsuc 0, k)
rename_in (some c) (some d) a b k = (negsuc 0, k)

abbrev run_named : Command → Sets → ℤ × Sets
run_named (cmd_create name) k = create_in (k name) name k
run_named (cmd_add name e) k = add_in (k name) name e k
run_named (cmd_destroy name) k = (pos 0, put_at name none k)
run_named (cmd_swap a b) k = swap_in (k a) (k b) a b k
run_named (cmd_rename a b) k = rename_in (k a) (k b) a b k

abbrev pub named_sets : Library Sets
named_sets = record {
  parse_setname = λ name. pos 0;
  parse_typename = λ name. pos 0;
  type_get = λ k. true;
  parse_elem = λ e. pos 0;
  run = run_named;
}

abbrev pub contents : Sets → List ℕ → Option Entries
contents k n = k n

abbrev pub added : List ℕ → Entries → Entries
added e c = e ∷ c

no_swap :
    (o p : Option Entries) (a b : List ℕ) (k : Sets) → p ≡ none → swap_in o p a b k ≡ (negsuc 0, k)
no_swap none p a b k e = refl
no_swap (some c) none a b k e = refl
no_swap (some c) (some d) a b k e = cc

pub named_sets-IsIpset : IsIpset Sets Entries named_sets contents [] added
named_sets-IsIpset = record {
  on_create = λ name k e.
      subst
        (λ o.
          ((create_in o name k).0 ≡ pos 0)
          × ((n : List ℕ) → (create_in o name k).1 n ≡ put_at name (some []) k n))
        (sym e) (refl, λ n. refl);
  on_add = λ name entry k c e.
      subst
        (λ o.
          ((add_in o name entry k).0 ≡ pos 0)
          × ((n : List ℕ) → (add_in o name entry k).1 n ≡ put_at name (some (entry ∷ c)) k n))
        (sym e) (refl, λ n. refl);
  on_destroy = λ name k n. refl;
  on_swap = λ a b k c d e f.
      subst
        (λ (o : Option Entries × Option Entries).
          ((swap_in o.0 o.1 a b k).0 ≡ pos 0)
          × ((n : List ℕ)
              → (swap_in o.0 o.1 a b k).1 n ≡ put_at a (some d) (put_at b (some c) k) n))
        (sym (both e f)) (refl, λ n. refl);
  on_no_swap = λ a b k f.
      subst (λ (r : ℤ × Sets). (is_zero r.0 ≡ false) × ((n : List ℕ) → r.1 n ≡ k n))
        (sym (no_swap (k a) (k b) a b k f)) (refl, λ n. refl);
  on_rename = λ a b k c e f.
      subst
        (λ (o : Option Entries × Option Entries).
          ((rename_in o.0 o.1 a b k).0 ≡ pos 0)
          × ((n : List ℕ) → (rename_in o.0 o.1 a b k).1 n ≡ put_at a none (put_at b (some c) k) n))
        (sym (both e f)) (refl, λ n. refl);
}
  where
    both :
        {o p o' p' : Option Entries}
        → o ≡ o'
        → p ≡ p'
        → ◌≡◌ {A = Option Entries × Option Entries} (o, p) (o', p')
    both e f = cc

abbrev pub rebuild : List ℕ
rebuild = codes "hosts_update"

abbrev pub production : List ℕ
production = codes "hosts"

abbrev pub open_helper : Helper
open_helper = record { has_session = true; has_type = true }

abbrev pub old_sets : Sets
old_sets = put_at production (some (codes "10.0.0.9" ∷ [])) (λ n. none)

abbrev two_sets : Sets
two_sets = put_at rebuild (some (codes "10.0.0.1" ∷ [])) old_sets

pub names_differ : str_eq production rebuild ≡ false
unfolding str_eq
names_differ = refl

there : contents two_sets rebuild ≡ some (codes "10.0.0.1" ∷ [])
unfolding str_eq
there = refl

activate-sets_example :
    ((ipset_helper_activate named_sets rebuild production open_helper two_sets).rc ≡ pos 0)
    × ((n : List ℕ)
        → contents
            (ipset_helper_activate named_sets rebuild production open_helper two_sets).kernel
            n
          ≡ put_at rebuild none
              (put_at production (some (codes "10.0.0.1" ∷ [])) (contents two_sets))
              n)
activate-sets_example =
    activate-sets Entries named_sets contents [] added named_sets-IsIpset rebuild production
      open_helper two_sets (codes "10.0.0.1" ∷ []) refl refl refl names_differ there

-- Commands are counted, and only the one of three words, which destroys a set, succeeds.
abbrev counted : List (List ℕ) → ℕ → ℤ × ℕ
counted ws k = (if length ws == 3 then pos 0 else negsuc 0, k + 1)

abbrev counting : Library ℕ
counting = record {
  parse_setname = λ name. pos 0;
  parse_typename = λ name. pos 0;
  type_get = λ k. true;
  parse_elem = λ e. pos 0;
  run = λ c k. counted (words c) k;
}

argv_activate-same_example :
    (argv_activate counted rebuild production 0).1
    ≡ (ipset_helper_activate counting rebuild production open_helper 0).kernel
argv_activate-same_example =
    argv_activate-same counted counting (λ c k. refl) rebuild production open_helper 0 refl refl
      refl
