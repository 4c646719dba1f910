-- ===== src/Options/Flags.antt =====
-- Which options set which flags.
use irestore.Prelude.{
  ℕ, ◌≡◌, ◌∙◌, refl, arith, Bool, false, ◌||◌, List, [], ◌∷◌, Option, some, ◌==◌, if◌then◌else◌,
}
use irestore.Options.{
  Settings, Step, settings, usage_shown, usage_error, start, set_option, after_option, option_loop,
}

-- whether an option occurs
abbrev pub given : ℕ → List (ℕ × List ℕ) → Bool
given c [] = false
given c ((opt, argument) ∷ opts) = opt == c || given c opts

-- the argument of the last option with this letter
abbrev pub last_argument : ℕ → Option (List ℕ) → List (ℕ × List ℕ) → Option (List ℕ)
last_argument c before [] = before
last_argument c before ((opt, argument) ∷ opts) =
    last_argument c (if opt == c then some argument else before) opts

-- the settings that options make of earlier ones, by the options that occur
abbrev pub settings_of : Settings → List (ℕ × List ℕ) → Settings
settings_of s opts = record {
  debug = s.debug || given b'd' opts;
  erase = s.erase || given b'e' opts;
  custom = s.custom || given b'c' opts;
  exclude = s.exclude || (given b's' opts || given b'x' opts);
  use_apple_server = if given b's' opts then 0 else s.use_apple_server;
  uuid = last_argument b'u' s.uuid opts;
}

set_option-given :
    (opt : ℕ) (argument : List ℕ) (opts : List (ℕ × List ℕ)) (s t : Settings)
    → set_option opt argument s ≡ settings t
    → settings_of t opts ≡ settings_of s ((opt, argument) ∷ opts)
unfolding set_option
set_option-given opt argument opts s t h = ground arith

after_option-settings :
    (step : Step) (next : Settings → Step) (t : Settings)
    → after_option step next ≡ settings t
    → (s : Settings) × (step ≡ settings s) × (next s ≡ settings t)
after_option-settings (settings s) next t h = (s, refl, h)
after_option-settings usage_shown next t h = absurd (ground arith)
after_option-settings usage_error next t h = absurd (ground arith)

option_loop-settings_of :
    (opts : List (ℕ × List ℕ)) (s t : Settings)
    → option_loop opts s ≡ settings t
    → t ≡ settings_of s opts
unfolding option_loop
option_loop-settings_of [] s t h = ground arith
option_loop-settings_of ((opt, argument) ∷ opts) s t h =
    let (s', e, rest) = after_option-settings (set_option opt argument s) (option_loop opts) t h in
    option_loop-settings_of opts s' t rest ∙ set_option-given opt argument opts s s' e

-- If `main` accepts its options, then each of debug, erase and custom is set exactly if its option is
-- given, the last argument of -u is the UUID, Apple's server is asked exactly if -s is not given, and
-- the NOR is excluded exactly if -x or -s is given.
pub option_loop-start :
    (opts : List (ℕ × List ℕ)) (t : Settings)
    → option_loop opts start ≡ settings t
    → t ≡ settings_of start opts
option_loop-start opts t h = option_loop-settings_of opts start t h
