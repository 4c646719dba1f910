-- ===== src/Main/Machine.antt =====
-- What `main` of idevicerestore/src/idevicerestore.c works on, and what the system and the device answer.
use irestore.Prelude.{ℕ, Bool, true, false, List, Option}
use irestore.Effects.{Run, State, ok, fault, out_of_fuel}
use irestore.Devices.{Line}
use irestore.Identify.{
  Mode, dfu_mode, recovery_mode, restore_mode, normal_mode, unknown_mode, Answers,
}
use irestore.Normal.Probes.{Usb}
use irestore.Restore.Session.{Phone}
use irestore.Restore.World.{World}
use irestore.Restore.Loop.{Turn}
use irestore.Recovery.{Handset}

-- The device in normal and recovery mode, the device in restore mode, and the files that `main` has
-- removed. Memory and session are those of the handset; the world takes them over for its steps.
pub record Machine (Node : Type 0) : Type 0 where
  pub handset : Handset
  pub world : World Node
  pub unlinked : List (List ℕ)

-- The answers, in the order of the course: the malloc of the client, the probes of the mode, the
-- model or product, the identifiers read over USB, the reboot out of restore mode, the ECID by
-- lockdownd, the TSS server, the files that open for writing, the way out of normal mode, the reset of a
-- device in DFU mode, the session
-- with restored, and its rounds. `junk` and `behind` are bytes that nothing has written.
pub record Scene (Node : Type 0) : Type 0 where
  pub grants : Bool
  pub usb : Usb
  pub lockdown : Line
  pub restored : Line
  pub model : Answers Node
  pub product : Answers Node
  pub cpid : Option ℕ
  pub bdid : Option ℕ
  pub ecid : Option ℕ
  pub reboot_phone : Phone
  pub reboots : Bool
  pub ecid_line : Line
  pub unique_chip : Option Node
  pub post : List ℕ → List ℕ → Option (List (List ℕ))
  pub creates : List ℕ → Bool
  pub leaves : Line
  pub takes_null : Bool
  pub dfu_resets : Bool
  pub recovery_phone : Phone
  pub restore_phone : Phone
  pub connects : ℕ → Bool
  pub starts : Bool
  pub turns : List (Turn Node)
  pub junk : ℕ
  pub response_junk : ℕ
  pub behind : List ℕ

module _ {Node : Type 0} where
  abbrev pub put_handset : {A : Type 0} → Machine Node → Run Handset A → Run (Machine Node) A
  put_handset m (ok a s) = ok a (record m { handset = s })
  put_handset m fault = fault
  put_handset m out_of_fuel = out_of_fuel

  -- a step in normal or recovery mode
  abbrev pub on_handset : {A : Type 0} → State Handset A → State (Machine Node) A
  on_handset f m = put_handset m (f m.handset)

  abbrev pub taken : Handset → World Node → Handset
  taken s w = record s { memory = w.memory; client = w.client }

  abbrev pub put_world : {A : Type 0} → Machine Node → Run (World Node) A → Run (Machine Node) A
  put_world m (ok a w) = ok a (record m { handset = taken m.handset w; world = w })
  put_world m fault = fault
  put_world m out_of_fuel = out_of_fuel

  -- the world with the memory and the session of the handset
  abbrev pub world_of : Machine Node → World Node
  world_of m = record (m.world) { memory = m.handset.memory; client = m.handset.client }

  -- a step in restore mode
  abbrev pub on_world : {A : Type 0} → State (World Node) A → State (Machine Node) A
  on_world f m = put_world m (f (world_of m))

  -- a step that reads nothing of the machine
  abbrev pub put_unit : {A : Type 0} → Machine Node → Run (Unit {0}) A → Run (Machine Node) A
  put_unit m (ok a _) = ok a m
  put_unit m fault = fault
  put_unit m out_of_fuel = out_of_fuel

  abbrev pub apart : {A : Type 0} → State (Unit {0}) A → State (Machine Node) A
  apart f m = put_unit m (f tt)

  -- `client->mode = &idevicerestore_modes[mode]`
  abbrev pub set_mode : Mode → State (Machine Node) Mode
  set_mode mode m = ok mode (record m { handset = record (m.handset) { mode = mode } })

abbrev pub same_mode : Mode → Mode → Bool
same_mode dfu_mode dfu_mode = true
same_mode recovery_mode recovery_mode = true
same_mode restore_mode restore_mode = true
same_mode normal_mode normal_mode = true
same_mode unknown_mode unknown_mode = true
same_mode _ _ = false
