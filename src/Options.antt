-- ===== src/Options.antt =====
-- The options of `main` in idevicerestore/src/idevicerestore.c. `getopt_long` is a parameter: it hands
-- over the options that it has recognised, each with its argument, and others as '?'.
pub mod Flags
mod Runs
use irestore.Prelude.{ℕ, Bool, true, false, List, [], ◌∷◌, Option, none, some, ◌==◌, if◌then◌else◌}

-- the flags of `client->flags` that options set, `use_apple_server` and `uuid`
pub record Settings : Type 0 where
  pub debug : Bool
  pub erase : Bool
  pub custom : Bool
  pub exclude : Bool
  pub use_apple_server : ℕ
  pub uuid : Option (List ℕ)

-- What an option makes of the settings, or how it ends the program.
pub data Step : Type 0 where
  settings : Settings → Step
  usage_shown : Step
  usage_error : Step

abbrev pub start : Settings
start = record {
  debug = false;
  erase = false;
  custom = false;
  exclude = false;
  use_apple_server = 1;
  uuid = none;
}

-- The `switch`; there is no `break` behind the case 's'.
unfoldable pub set_option : ℕ → List ℕ → Settings → Step
set_option opt argument s =
    if opt == b'h'
    then usage_shown
    else if opt == b'd'
    then settings (record s { debug = true })
    else if opt == b'e'
    then settings (record s { erase = true })
    else if opt == b'c'
    then settings (record s { custom = true })
    else if opt == b's'
    then settings (record s { use_apple_server = 0; exclude = true })
    else if opt == b'x'
    then settings (record s { exclude = true })
    else if opt == b'u'
    then settings (record s { uuid = some argument })
    else usage_error

abbrev pub after_option : Step → (Settings → Step) → Step
after_option (settings s) next = next s
after_option usage_shown next = usage_shown
after_option usage_error next = usage_error

-- the `while` loop
unfoldable pub option_loop : List (ℕ × List ℕ) → Settings → Step
option_loop [] s = settings s
option_loop ((opt, argument) ∷ opts) s = after_option (set_option opt argument s) (option_loop opts)
