-- ===== src/Recovery.antt =====
-- idevicerestore/src/recovery.c: a device in recovery mode, and how it is brought into restore mode. The
-- USB library is a parameter: the outcomes of its calls by their number.
pub mod Opening
pub mod Doing
pub mod Protocol
mod Runs
use irestore.Prelude.{
  ℕ, zero, suc, ◌+◌, Bool, true, false, not, List, [], ◌∷◌, ◌++◌, Option, none, some, if◌then◌else◌,
}
use irestore.Effects.{Run, State, ok, fault, out_of_fuel, pure, ◌>>=◌, ◌>>◌, require}
use irestore.Memory.{Mem, M, free}
use irestore.Text.{codes}
use irestore.Plists.{Plists}
use irestore.Ipsw.{Zip}
use irestore.Devices.{Held}
use irestore.Identify.{Mode, restore_mode}
use irestore.Signing.{get_component_by_path}
use irestore.Restore.Session.{Pointer, valid, junk, Client, Phone, open_session, client_free}
use irestore.Restore.Components.{Setting, component_path}

-- What the device gets: over USB, and from lockdownd the request to enter recovery mode.
pub data Sent : Type 0 where
  reset : Sent
  recovery_request : Sent
  buffer : List ℕ → Sent
  command : List ℕ → Sent

-- `recovery` is `client->recovery` with its handle, `opens n` the outcome of the `n`-th `irecv_open`,
-- `accepts n` that of the `n`-th buffer or command, `log` what the device got, `grants` the
-- `malloc` of `recovery_client_new`, `mode` is `client->mode`, and `held` are the
-- handles of libimobiledevice.
pub record Handset : Type 0 where
  pub recovery : Option Pointer
  pub opens : ℕ → Bool
  pub tries : ℕ
  pub accepts : ℕ → Bool
  pub requests : ℕ
  pub log : List Sent
  pub grants : Bool
  pub memory : Mem
  pub client : Client
  pub mode : Mode
  pub held : Held

abbrev pub put_memory : {A : Type 0} → Handset → Run Mem A → Run Handset A
put_memory s (ok a m) = ok a (record s { memory = m })
put_memory s fault = fault
put_memory s out_of_fuel = out_of_fuel

abbrev pub on_memory : {A : Type 0} → M A → State Handset A
on_memory f s = put_memory s (f s.memory)

abbrev pub put_client : {A : Type 0} → Handset → Run Client A → Run Handset A
put_client s (ok a c) = ok a (record s { client = c })
put_client s fault = fault
put_client s out_of_fuel = out_of_fuel

abbrev pub on_client : {A : Type 0} → State Client A → State Handset A
on_client f s = put_client s (f s.client)

abbrev pub put_held : {A : Type 0} → Handset → Run Held A → Run Handset A
put_held s (ok a h) = ok a (record s { held = h })
put_held s fault = fault
put_held s out_of_fuel = out_of_fuel

abbrev pub on_held : {A : Type 0} → State Held A → State Handset A
on_held f s = put_held s (f s.held)

-- the attempts of `recovery_open_with_timeout`
unfoldable pub open_loop : ℕ → State Handset Bool
open_loop zero s = ok false s
open_loop (suc left) s = elim (s.opens s.tries) [
  | true ↦ ok true (record s { tries = s.tries + 1; recovery = some valid })
  | false ↦ open_loop left (record s { tries = s.tries + 1 })
]

-- `recovery_client_free`
unfoldable pub recovery_client_free : State Handset (Unit {0})
recovery_client_free s = elim s.recovery [
  | none ↦ ok tt s
  | some junk ↦ fault
  | some _ ↦ ok tt (record s { recovery = none })
]

-- `recovery_client_new`
unfoldable pub recovery_client_new : State Handset Bool
recovery_client_new s =
    if not s.grants
    then ok false s
    else (do
      done ← open_loop 10
      if not done then recovery_client_free >> pure false else pure true)
        (record s { recovery = some junk })

-- `recovery_open_with_timeout`
unfoldable pub recovery_open : State Handset Bool
recovery_open s = elim s.recovery [ none ↦ recovery_client_new s | some _ ↦ open_loop 10 s ]

-- a call with the handle of `client->recovery`
abbrev pub with_handle : {A : Type 0} → Option Pointer → State Handset A → State Handset A
with_handle (some valid) call = call
with_handle _ call = λ _. fault

-- `irecv_send_command` and `irecv_send_buffer`
unfoldable pub send : Sent → State Handset Bool
send what s =
    with_handle s.recovery
      (λ s.
        ok (s.accepts s.requests)
          (record s { requests = s.requests + 1; log = s.log ++ what ∷ [] }))
      s

-- `irecv_reset`, whose result is dropped
unfoldable pub send_reset : State Handset Bool
send_reset s = with_handle s.recovery (λ s. ok true (record s { log = s.log ++ reset ∷ [] })) s

-- `if (step < 0) return -1;` and what follows
infixr 4 ◌then_if◌
abbrev pub ◌then_if◌ : State Handset Bool → State Handset Bool → State Handset Bool
step then_if next = do done ← step; if not done then pure false else next

-- `recovery_enable_autoboot`
unfoldable pub enable_autoboot : State Handset Bool
enable_autoboot =
    send (command (codes "setenv auto-boot true"))
    then_if send (command (codes "saveenv"))
    then_if pure true

-- `if(client->recovery == NULL)` in front of an opening
abbrev pub open_unless : Option Pointer → State Handset Bool
open_unless none = recovery_open
open_unless (some _) = pure true

unfoldable pub open_if_null : State Handset Bool
open_if_null s = open_unless s.recovery s

-- `recovery_get_ecid`, `recovery_get_cpid` and `recovery_get_bdid`; `read` is what the library reads
unfoldable pub recovery_get_id : Option ℕ → State Handset (Option ℕ)
recovery_get_id read = do
  done ← open_if_null
  if not done then pure none else λ s. with_handle s.recovery (pure read) s

-- the end of `recovery_enter_restore`: the session with restored is opened and given back
unfoldable pub await_restore : Phone → State Handset Bool
await_restore phone =
    on_client (open_session phone)
    then_if (do on_client client_free; λ s. ok true (record s { mode = restore_mode }))

module _ (zip : Zip) (lib : Plists) (setting : Setting lib.Node) where
  -- `recovery_send_component`
  unfoldable pub send_component : List ℕ → State Handset Bool
  send_component name = require false (component_path zip lib setting name) λ path.
      send_reset >> (do
        got ← on_memory (get_component_by_path zip lib setting.junk setting.ipsw setting.tss path)
        require false got λ (bytes, _). do done ← send (buffer bytes); on_memory free; pure done)

  -- `recovery_send_ibec`, `recovery_send_applelogo`, `recovery_send_devicetree`,
  -- `recovery_send_ramdisk` and `recovery_send_kernelcache`
  unfoldable pub send_ibec : State Handset Bool
  send_ibec = send_component (codes "iBEC") then_if send (command (codes "go")) then_if pure true

  unfoldable pub send_applelogo : State Handset Bool
  send_applelogo =
      recovery_open
      then_if send_component (codes "AppleLogo")
      then_if send (command (codes "setpicture 1"))
      then_if send (command (codes "bgcolor 0 0 0"))
      then_if pure true

  unfoldable pub send_devicetree : State Handset Bool
  send_devicetree =
      open_if_null
      then_if send_component (codes "RestoreDeviceTree")
      then_if send (command (codes "devicetree"))
      then_if pure true

  unfoldable pub send_ramdisk : State Handset Bool
  send_ramdisk =
      open_if_null
      then_if send_component (codes "RestoreRamDisk")
      then_if send (command (codes "ramdisk"))
      then_if pure true

  unfoldable pub send_kernel : State Handset Bool
  send_kernel =
      recovery_open
      then_if send_component (codes "RestoreKernelCache")
      then_if send (command (codes "bootx"))
      then_if pure true

  -- `recovery_enter_restore`
  unfoldable pub enter_restore : Phone → State Handset Bool
  enter_restore phone =
      enable_autoboot
      then_if send_ibec
      then_if send_applelogo
      then_if send_devicetree
      then_if send_ramdisk
      then_if send_kernel
      then_if await_restore phone
