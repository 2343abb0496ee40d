-- ===== src/Ipset/Session.antt =====
-- The opening and closing of the helper, over the session interface and over ipset_parse_argv.
use iptracking.Prelude.{
  Bool, true, false, not, Option, none, some, List, [], ◌∷◌, ◌++◌, if◌then◌else◌,
}
use iptracking.Ipset.{Helper}

-- The calls that the opening and the closing make.
pub data SessionCall : Type 0 where
  load_types allocates opens_session sets_output closes_session frees : SessionCall

-- What the opening gives: the helper, and the calls.
pub record Opening : Type 0 where
  pub helper : Option Helper
  pub types_loaded : Bool
  pub calls : List SessionCall

-- `__ipset_helper_types_loaded` keeps the types from being loaded twice.
abbrev pub loading : Bool → List SessionCall
loading types_loaded = if types_loaded then [] else load_types ∷ []

-- `ipset_helper_init` over the session interface: whether there is memory, and whether a session opens.
unfoldable pub ipset_helper_init : Bool → Bool → Bool → Opening
ipset_helper_init types_loaded has_memory has_session =
    if not has_memory
    then record { helper = none; types_loaded = true; calls = loading types_loaded }
    else if not has_session
    then record {
      helper = none;
      types_loaded = true;
      calls = allocates ∷ (loading types_loaded ++ frees ∷ []);
    }
    else record {
      helper = some (record { has_session = true; has_type = false });
      types_loaded = true;
      calls = allocates ∷ (loading types_loaded ++ opens_session ∷ sets_output ∷ []);
    }

-- `ipset_helper_fini`.
unfoldable pub ipset_helper_fini : Helper → List SessionCall
ipset_helper_fini h = if h.has_session then closes_session ∷ frees ∷ [] else frees ∷ []

-- `ipset_helper_init` over ipset_parse_argv: the library's object is the helper.
unfoldable pub argv_init : Bool → Bool → Opening
argv_init types_loaded has_session = record {
  helper = if has_session then some (record { has_session = true; has_type = false }) else none;
  types_loaded = true;
  calls = loading types_loaded ++ (if has_session then opens_session ∷ sets_output ∷ [] else []);
}

-- `ipset_helper_fini` over ipset_parse_argv.
unfoldable pub argv_fini : List SessionCall
argv_fini = closes_session ∷ []
