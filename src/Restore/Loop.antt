-- ===== src/Restore/Loop.antt =====
-- `restore_device` of idevicerestore/src/restore.c.
pub mod Results
pub mod Endings
use irestore.Prelude.{ℕ, Bool, true, false, not, List, [], ◌∷◌, Option, none, some, if◌then◌else◌}
use irestore.Effects.{State, ok, pure, and_then, require, ◌>>=◌, ◌>>◌}
use irestore.Text.{codes, same_text}
use irestore.Plists.{Plists, string, typed_item}
use irestore.Ipsw.{Zip}
use irestore.Asr.Validation.{Verdict, accepted, refused, waiting}
use irestore.Restore.Session.{Phone, callback, device_remove, open_session, client_free}
use irestore.Restore.World.{World, set_quit, on_client}
use irestore.Restore.Components.{Setting}
use irestore.Restore.Messages.{handle_progress, handle_status, handle_data_request}

-- A round of the loop: what `restored_receive` gives, and whether the device is removed before the
-- next look at FLAG_QUIT.
pub record Turn (Node : Type 0) : Type 0 where
  pub message : Option Node
  pub removed : Bool

-- the end of a round: the callback, if the device is removed
abbrev pub end_turn : {Node : Type 0} → Bool → State (World Node) (Unit {0})
end_turn true w = ok tt (record w { client = callback device_remove w.client })
end_turn false w = ok tt w

-- `if (error < 0)`
abbrev pub check_error : {Node : Type 0} → Bool → State (World Node) (Unit {0})
check_error true = set_quit
check_error false = pure tt

-- the new value of `error`, or none if the handler waits for ever
abbrev pub error_of : Verdict → Option Bool
error_of accepted = some false
error_of refused = some true
error_of waiting = none

-- what follows the handler in its round
abbrev pub after_dispatch : {Node : Type 0} → Option Bool → State (World Node) (Option Bool)
after_dispatch none = pure none
after_dispatch (some failed) = check_error failed >> pure (some failed)

-- the end of a round and the rounds behind it, unless the handler waits
abbrev pub continue_with :
    {Node : Type 0}
    → Bool
    → (Bool → State (World Node) Verdict)
    → Option Bool
    → State (World Node) Verdict
continue_with removed next none = pure waiting
continue_with removed next (some failed) = end_turn removed >> next failed

module _ (zip : Zip) (lib : Plists) (setting : Setting lib.Node) (connects : ℕ → Bool)
    (filesystem : Option (List ℕ)) where
  open lib use {Node, string_val}

  -- the message goes to the handler of its type; `error` keeps its value where there is none
  unfoldable pub dispatch : Bool → List ℕ → Node → State (World Node) (Option Bool)
  dispatch error type msg =
      if same_text type (codes "DataRequestMsg")
      then (do v ← handle_data_request zip lib setting connects filesystem msg; pure (error_of v))
      else if same_text type (codes "ProgressMsg")
      then (do v ← handle_progress zip lib msg; pure (error_of v))
      else if same_text type (codes "StatusMsg")
      then (do v ← handle_status zip lib msg; pure (error_of v))
      else pure (some error)

  -- one round up to the callback
  unfoldable pub turn : Bool → Option Node → State (World Node) (Option Bool)
  turn error none = pure (some error)
  turn error (some msg) =
      require (some error) (typed_item lib msg (codes "MsgType") string)
        λ type. dispatch error (string_val type) msg >>= after_dispatch

  -- The `while` loop on the rounds that will come: it ends with FLAG_QUIT, or waits.
  unfoldable pub restore_loop : Bool → List (Turn Node) → State (World Node) Verdict
  restore_loop error [] w = ok (if w.client.quit then accepted else waiting) w
  restore_loop error (t ∷ ts) w =
      if w.client.quit
      then ok accepted w
      else and_then (turn error t.message w)
          (continue_with t.removed λ failed. restore_loop failed ts)

  -- behind the loop
  unfoldable pub finish : Verdict → State (World Node) Verdict
  finish waiting = pure waiting
  finish _ = on_client client_free >> pure accepted

  -- `restore_device`; `starts` is the outcome of `restored_start_restore`
  unfoldable pub restore_device : Phone → Bool → List (Turn Node) → State (World Node) Verdict
  restore_device phone starts turns = do
    done ← on_client (open_session phone)
    if not done
        then pure refused
        else if not starts
        then on_client client_free >> pure refused
        else do v ← restore_loop false turns; finish v
