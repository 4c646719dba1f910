-- ===== src/Restore/World.antt =====
-- What a restore works on: the session, the flags, the memory, the ASR connection, what restored
-- got, and what was reported to the user.
use irestore.Prelude.{ℕ, ◌+◌, Bool, true, false, List, [], ◌∷◌, ◌++◌, if◌then◌else◌}
use irestore.Effects.{Run, State, ok, fault, out_of_fuel}
use irestore.Memory.{Mem, M}
use irestore.Asr.Link.{Link}
use irestore.Restore.Session.{Client}

-- `print_progress_bar`, or a line
pub data Report : Type 0 where
  bar : ℕ → Report
  line : List ℕ → Report

-- `accepts n` is whether the `n`-th `restored_send` succeeds, `sent` what those got over that did.
pub record World (Node : Type 0) : Type 0 where
  pub client : Client
  pub exclude : Bool
  pub memory : Mem
  pub link : Link
  pub accepts : ℕ → Bool
  pub sends : ℕ
  pub sent : List Node
  pub reports : List Report

module _ {Node : Type 0} where
  abbrev pub put_link : {A : Type 0} → World Node → Run Link A → Run (World Node) A
  put_link w (ok a s) = ok a (record w { link = s })
  put_link w fault = fault
  put_link w out_of_fuel = out_of_fuel

  -- a step of the ASR connection
  abbrev pub on_link : {A : Type 0} → State Link A → State (World Node) A
  on_link f w = put_link w (f w.link)

  abbrev pub put_memory : {A : Type 0} → World Node → Run Mem A → Run (World Node) A
  put_memory w (ok a m) = ok a (record w { memory = m })
  put_memory w fault = fault
  put_memory w out_of_fuel = out_of_fuel

  -- a step of the memory
  abbrev pub on_memory : {A : Type 0} → M A → State (World Node) A
  on_memory f w = put_memory w (f w.memory)

  abbrev pub put_client : {A : Type 0} → World Node → Run Client A → Run (World Node) A
  put_client w (ok a c) = ok a (record w { client = c })
  put_client w fault = fault
  put_client w out_of_fuel = out_of_fuel

  -- a step of the session
  abbrev pub on_client : {A : Type 0} → State Client A → State (World Node) A
  on_client f w = put_client w (f w.client)

  -- `restored_send`
  unfoldable pub restored_send : Node → State (World Node) Bool
  restored_send message w =
      if w.accepts w.sends
      then ok true (record w { sends = w.sends + 1; sent = w.sent ++ message ∷ [] })
      else ok false (record w { sends = w.sends + 1 })

  abbrev pub report : Report → State (World Node) (Unit {0})
  report r w = ok tt (record w { reports = w.reports ++ r ∷ [] })

  -- `client->flags |= FLAG_QUIT`
  abbrev pub set_quit : State (World Node) (Unit {0})
  set_quit w = ok tt (record w { client = record (w.client) { quit = true } })
