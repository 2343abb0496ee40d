-- ===== src/Ipset.antt =====
-- firewall-daemon/ipset_helper.c: the operations on an IP set, over the calls of libipset.
pub mod Argv
pub mod Commands
pub mod Session
pub mod Swap
pub mod Tests
use iptracking.Prelude.{
  ℕ, zero, suc, ◌+◌, ◌-◌, Bool, true, false, ◌&&◌, ◌||◌, not, Option, none, some, List, [], ◌∷◌,
  ◌++◌, ltb, leb, ◌==◌, if◌then◌else◌, length, take, ◌>>=◌,
}
use mathlib.Core.List.{reverse}
use iptracking.Prelude.Int.{ℤ, pos, negsuc, is_zero}
use iptracking.Prelude.Text.{codes, is_space, is_empty, skip_spaces}

-- The commands as libipset is told to run them, with their arguments.
pub data Command : Type 0 where
  cmd_create : List ℕ → Command
  cmd_add : List ℕ → List ℕ → Command
  cmd_swap : List ℕ → List ℕ → Command
  cmd_rename : List ℕ → List ℕ → Command
  cmd_destroy : List ℕ → Command

-- The library, over the state `K` that it and the kernel keep: whether `ipset_parse_setname`,
-- `ipset_parse_typename` and `ipset_parse_elem` take a text, whether a type is found, and what a
-- command returns and does. An answer is 0 for success.
pub record Library (K : Type 0) : Type 0 where
  pub parse_setname : List ℕ → ℤ
  pub parse_typename : List ℕ → ℤ
  pub type_get : K → Bool
  pub parse_elem : List ℕ → ℤ
  pub run : Command → K → ℤ × K

-- `ipset_helper_t`: whether a session is open, and whether `set_type` has been set.
pub record Helper : Type 0 where
  pub has_session : Bool
  pub has_type : Bool

-- What an operation leaves: its result, the helper, and the state.
pub record Done (K : Type 0) : Type 0 where
  pub rc : ℤ
  pub helper : Helper
  pub kernel : K

module _ {K : Type 0} (lib : Library K) where
  abbrev ran : Helper → ℤ × K → Done K
  ran h answer = record { rc = answer.0; helper = h; kernel = answer.1 }

  abbrev failed : ℤ → Helper → K → Done K
  failed rc h k = record { rc = rc; helper = h; kernel = k }

  -- `ipset_helper_create`.
  unfoldable pub ipset_helper_create : List ℕ → Helper → K → Done K
  ipset_helper_create name h k =
      if not h.has_session
      then failed (negsuc 0) h k
      else if not (is_zero (lib.parse_setname name))
      then failed (lib.parse_setname name) h k
      else if not (is_zero (lib.parse_typename (codes "hash:net")))
      then failed (lib.parse_typename (codes "hash:net")) h k
      else if lib.type_get k
      then ran (record h { has_type = true }) (lib.run (cmd_create name) k)
      else failed (negsuc 21) (record h { has_type = false }) k

  -- `ipset_helper_add`; `none` is the read of a field of a `set_type` that is NULL.
  unfoldable pub ipset_helper_add : List ℕ → List ℕ → Helper → K → Option (Done K)
  ipset_helper_add name entity h k =
      if not h.has_session
      then some (failed (negsuc 0) h k)
      else if not (is_zero (lib.parse_setname name))
      then some (failed (lib.parse_setname name) h k)
      else if not h.has_type
      then none
      else if not (is_zero (lib.parse_elem entity))
      then some (failed (lib.parse_elem entity) h k)
      else some (ran h (lib.run (cmd_add name entity) k))

  -- `ipset_helper_destroy`.
  unfoldable pub ipset_helper_destroy : List ℕ → Helper → K → Done K
  ipset_helper_destroy name h k =
      if not h.has_session
      then failed (negsuc 0) h k
      else if not (is_zero (lib.parse_setname name))
      then failed (lib.parse_setname name) h k
      else ran h (lib.run (cmd_destroy name) k)

  -- The swap, and the rename where the swap fails: the result, whether the rebuilt set is to be
  -- destroyed, and the state.
  unfoldable pub swap_or_rename : List ℕ → List ℕ → K → ℤ × Bool × K
  swap_or_rename rebuild prod k =
      if not (is_zero (lib.parse_setname rebuild))
      then (lib.parse_setname rebuild, true, k)
      else if not (is_zero (lib.parse_setname prod))
      then (lib.parse_setname prod, true, k)
      else let swapped = lib.run (cmd_swap rebuild prod) k in
        let renamed = lib.run (cmd_rename rebuild prod) swapped.1 in
        if is_zero swapped.0
        then (swapped.0, true, swapped.1)
        else (renamed.0, not (is_zero renamed.0), renamed.1)

  -- `ipset_helper_activate`; the result of destroying the rebuilt set is dropped.
  unfoldable pub ipset_helper_activate : List ℕ → List ℕ → Helper → K → Done K
  unfolding swap_or_rename
  ipset_helper_activate rebuild prod h k =
      let (rc, should_destroy, k') = swap_or_rename rebuild prod k in
      if not h.has_session
      then failed (negsuc 0) h k
      else failed rc h (if should_destroy then (lib.run (cmd_destroy rebuild) k').1 else k')

-- `while ( e > s && (*e || isspace(*e)) ) e--`: how far `e` stands behind `s` at the end, over the
-- characters from `e` backwards.
unfoldable pub backtrack : ℕ → List ℕ → ℕ
unfolding is_space
backtrack e [] = e
backtrack zero (c ∷ before) = zero
backtrack (suc e) (c ∷ before) = if not (c == 0) || is_space c then backtrack e before else suc e

-- `ipset_helper_last_error_message`, over the session's message.
unfoldable pub ipset_helper_last_error_message : Option (List ℕ) → List ℕ
unfolding backtrack skip_spaces
ipset_helper_last_error_message none = []
ipset_helper_last_error_message (some message) =
    let s = skip_spaces message in
    let n = backtrack (length s) (0 ∷ reverse s) in take (if leb 256 n then 255 else n) s
