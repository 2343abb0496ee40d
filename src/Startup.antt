-- ===== src/Startup.antt =====
-- What the daemons do alike before they start (`main` of firewall-daemon/iptracking-firewalld.c and of
-- pam-daemon/iptracking-pamd.c): the first loop over the options, and the file of the configuration.
use iptracking.Prelude.{Option, none, some, List, [], ◌∷◌, ℕ}
use iptracking.Logging.{Flag, Verbosity, on_flag}
use iptracking.Yaml.{Document, Node}

-- An option of the command line with its argument, as `getopt_long` finds it: the first four are taken
-- before the configuration, the others after it.
pub data Cli (O : Type 0) : Type 0 where
  help version : Cli O
  flag : Flag → Cli O
  config : List ℕ → Cli O
  override : O → Cli O

-- What the first loop over the options sets.
pub record Startup : Type 0 where
  pub verbosity : Verbosity
  pub config_filepath : List ℕ

-- The first loop; `none` is the end of the program, with the status 0.
unfoldable pub first_options : {O : Type 0} → List (Cli O) → Startup → Option Startup
unfolding on_flag
first_options [] s = some s
first_options (help ∷ opts) s = none
first_options (version ∷ opts) s = none
first_options (flag f ∷ opts) s =
    first_options opts (record s { verbosity = on_flag s.verbosity f })
first_options (config path ∷ opts) s = first_options opts (record s { config_filepath = path })
first_options (override o ∷ opts) s = first_options opts s

-- A file as libyaml reads it: with `not_loaded` the file, the parser, or the document fails, and the program
-- ends.
pub data File : Type 0 where
  not_loaded : File
  loaded : Document → Option Node → File
