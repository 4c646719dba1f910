-- ===== src/Restore/Session.antt =====
-- The connection with restored: `restore_open_with_timeout`, `restore_client_new`,
-- `restore_client_free`, `restore_device_callback` and `restore_reboot`. A field of a block that was
-- never written holds junk, and a call with junk is a fault.
pub mod Handles
use irestore.Prelude.{ℕ, Bool, true, false, not, ◌&&◌, ◌||◌, Option, none, some, if◌then◌else◌}
use irestore.Effects.{State, ok, fault, pure, ◌>>=◌, ◌>>◌}
use irestore.Asr.Link.{connect_loop}

pub data Pointer : Type 0 where
  null valid junk : Pointer

-- the fields of `restore_client_t` that the code uses
pub record Session : Type 0 where
  pub client : Pointer
  pub device : Pointer

-- `client->restore`, FLAG_QUIT of `client->flags`, and `restore_device_connected`
pub record Client : Type 0 where
  pub restore : Option Session
  pub quit : Bool
  pub connected : Bool

-- What the system and the device answer: the mallocs of `restore_open_with_timeout` and of
-- `restore_client_new`, `idevice_event_subscribe`, whether the device is connected at the n-th look,
-- `idevice_new`, `restored_client_new` and `restored_query_type`.
pub record Phone : Type 0 where
  pub grants : Bool
  pub grants_new : Bool
  pub subscribes : Bool
  pub arrives : ℕ → Bool
  pub opens : Bool
  pub client_opens : Bool
  pub answers : Bool

pub data Event : Type 0 where
  device_add device_remove : Event

-- `restore_device_callback`
abbrev pub callback : Event → Client → Client
callback device_add c = record c { connected = true }
callback device_remove c = record c { connected = false; quit = true }

-- the steps of `restore_open_with_timeout` behind the allocation
abbrev pub reached : Option ℕ → Bool
reached none = false
reached (some _) = true

unfoldable pub opens_all : Phone → Bool
opens_all phone =
    phone.subscribes
    && (reached (connect_loop phone.arrives 1 10)
        && (phone.opens && (phone.client_opens && phone.answers)))

abbrev pub opened : Session
opened = record { client = valid; device = valid }

abbrev pub unwritten : Session
unwritten = record { client = junk; device = junk }

-- `restore_open_with_timeout`, by whether the result is 0
unfoldable pub open_session : Phone → State Client Bool
open_session phone c = elim c.restore [
  | none ↦
      if not phone.grants
      then ok false c
      else if opens_all phone
      then ok true (record c { restore = some opened })
      else ok false (record c { restore = some unwritten })
  | some session ↦
      if opens_all phone then ok true (record c { restore = some opened }) else ok false c
]

abbrev pub is_junk : Pointer → Bool
is_junk junk = true
is_junk _ = false

-- `restore_client_free`
unfoldable pub client_free : State Client (Unit {0})
client_free c = elim c.restore [
  | none ↦ ok tt c
  | some session ↦
      if is_junk session.client || is_junk session.device
      then fault
      else ok tt (record c { restore = none })
]

-- `restore_client_new`
unfoldable pub client_new : Phone → State Client Bool
client_new phone = if not phone.grants_new then pure false else do
  done ← open_session phone
  if not done then client_free >> pure false else λ c.
      ok true (record c { restore = some unwritten })

-- `restored_reboot` with the handle of a session, by whether it succeeds
abbrev pub reboot_with : Bool → Option Session → State Client Bool
reboot_with reboots none = λ _. fault
reboot_with reboots (some session) = if is_junk session.client then (λ _. fault) else pure reboots

-- `restore_reboot`; `reboots` is the outcome of `restored_reboot`
unfoldable pub reboot : Phone → Bool → State Client Bool
reboot phone reboots c = elim c.restore [
  | none ↦
      (do
        done ← open_session phone
        if not done then pure false else λ c'. reboot_with reboots c'.restore c')
        c
  | some session ↦ reboot_with reboots (some session) c
]
