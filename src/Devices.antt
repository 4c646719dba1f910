-- ===== src/Devices.antt =====
-- The handles of libimobiledevice: `idevice_new`, a client of a service on the device, and how both are
-- given back. Giving back what is not held is a fault.
use irestore.Prelude.{ℕ, ◌+◌, ◌-◌, Bool, true, false, ◌==◌, if◌then◌else◌}
use irestore.Effects.{State, ok, fault, pure, ◌>>=◌, ◌>>◌}

-- the device and client handles that are held
pub record Held : Type 0 where
  pub devices : ℕ
  pub clients : ℕ

-- What a device answers: `idevice_new`, the opening of the client, and the call behind it.
pub record Line : Type 0 where
  pub found : Bool
  pub client : Bool
  pub answers : Bool

-- `idevice_new`
abbrev pub idevice_new : Bool → State Held Bool
idevice_new true h = ok true (record h { devices = h.devices + 1 })
idevice_new false h = ok false h

-- `lockdownd_client_new` or `restored_client_new`
abbrev pub service_new : Bool → State Held Bool
service_new true h = ok true (record h { clients = h.clients + 1 })
service_new false h = ok false h

unfoldable pub idevice_free : State Held (Unit {0})
idevice_free h = if h.devices == 0 then fault else ok tt (record h { devices = h.devices - 1 })

-- `lockdownd_client_free` or `restored_client_free`
unfoldable pub service_free : State Held (Unit {0})
service_free h = if h.clients == 0 then fault else ok tt (record h { clients = h.clients - 1 })

-- `if (error != 0) { idevice_free(device); return -1; }`, by the outcome of the client's opening
abbrev pub or_free_device : {A : Type 0} → A → Bool → State Held A → State Held A
or_free_device failure true next = next
or_free_device failure false next = idevice_free >> pure failure

-- `if (device_error != 0) return -1;`
abbrev pub or_fail : {A : Type 0} → A → Bool → State Held A → State Held A
or_fail failure true next = next
or_fail failure false next = pure failure

-- what each function begins with: the device, a client, and its release if that fails
abbrev pub with_client : {A : Type 0} → A → Line → State Held A → State Held A
with_client failure line next = do
  found ← idevice_new line.found
  or_fail failure found (do opened ← service_new line.client; or_free_device failure opened next)

-- both handles given back
abbrev pub free_both : {A : Type 0} → A → State Held A
free_both result = service_free >> idevice_free >> pure result
