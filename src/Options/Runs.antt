-- ===== src/Options/Runs.antt =====
-- Concrete options, and the theorem at these.
use irestore.Prelude.{ℕ, ◌≡◌, refl, true, List, [], ◌∷◌, some}
use irestore.Options.{settings, usage_error, start, set_option, option_loop}
use irestore.Options.Flags.{settings_of, option_loop-start}

abbrev options : List (ℕ × List ℕ)
options = (b's', []) ∷ (b'u', 4 ∷ 2 ∷ []) ∷ []

option_loop_unknown : option_loop ((b'?', []) ∷ []) start ≡ usage_error
unfolding option_loop set_option
option_loop_unknown = refl

option_loop_lem :
    option_loop options start
    ≡ settings (record start { use_apple_server = 0; exclude = true; uuid = some (4 ∷ 2 ∷ []) })
unfolding option_loop set_option
option_loop_lem = refl

option_loop-start_example :
    record start { use_apple_server = 0; exclude = true; uuid = some (4 ∷ 2 ∷ []) }
    ≡ settings_of start options
option_loop-start_example =
    option_loop-start options
      (record start { use_apple_server = 0; exclude = true; uuid = some (4 ∷ 2 ∷ []) })
      option_loop_lem
