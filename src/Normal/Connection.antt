-- ===== src/Normal/Connection.antt =====
-- The connection with lockdownd: `normal_device_callback`, `normal_open_with_timeout`,
-- `normal_client_new` and `normal_client_free` of idevicerestore/src/normal.c.
pub mod Waiting
use irestore.Prelude.{
  ℕ, zero, suc, ◌+◌, Bool, true, false, not, List, [], ◌∷◌, Option, none, some, if◌then◌else◌,
}
use irestore.Effects.{Run, State, ok, fault, out_of_fuel, pure, ◌>>=◌, ◌>>◌}
use irestore.Devices.{
  Held, Line, service_free, idevice_free, idevice_new, service_new, or_fail, or_free_device,
  free_both,
}
use irestore.Restore.Session.{
  Pointer, null, valid, junk, Session, Event, device_add, device_remove, opened, unwritten,
}

-- `client->normal`, `normal_device_connected`, and the handles of libimobiledevice
pub record NormalClient : Type 0 where
  pub normal : Option Session
  pub connected : Bool
  pub held : Held

abbrev pub put_held : {A : Type 0} → NormalClient → Run Held A → Run NormalClient A
put_held c (ok a h) = ok a (record c { held = h })
put_held c fault = fault
put_held c out_of_fuel = out_of_fuel

abbrev pub on_held : {A : Type 0} → State Held A → State NormalClient A
on_held f c = put_held c (f c.held)

-- `normal_device_callback`: `idevice_event_subscribe` was given NULL for the user data, and a removal
-- changes the flags of this client.
unfoldable pub normal_callback : Event → State NormalClient (Unit {0})
normal_callback device_add c = ok tt (record c { connected = true })
normal_callback device_remove c = fault

-- the events that come before a look
unfoldable pub deliver : List Event → State NormalClient (Unit {0})
deliver [] = pure tt
deliver (e ∷ es) = normal_callback e >> deliver es

-- The attempts of `normal_open_with_timeout`, with `left` behind this one: `events i` come before the
-- `i`-th look.
unfoldable pub wait_loop : (ℕ → List Event) → ℕ → ℕ → State NormalClient Bool
wait_loop events i zero = deliver (events i) >> λ c. ok c.connected c
wait_loop events i (suc left) =
    let rest = wait_loop events (i + 1) left in
    deliver (events i) >> λ c. if c.connected then ok true c else rest c

-- What the system and the device answer: the mallocs of `normal_open_with_timeout` and of
-- `normal_client_new`, `idevice_event_subscribe`, the events, and the calls of libimobiledevice.
pub record Surroundings : Type 0 where
  pub grants : Bool
  pub grants_new : Bool
  pub subscribes : Bool
  pub events : ℕ → List Event
  pub line : Line

-- the device is connected: the handles, which go into `client->normal`
unfoldable pub connect : Line → State NormalClient Bool
connect line = do
  found ← on_held (idevice_new line.found)
  if not found then pure false else do
    client ← on_held (service_new line.client)
    if not client
        then on_held (idevice_free >> pure false)
        else if not line.answers
        then on_held (free_both false)
        else λ c. ok true (record c { normal = some opened })

-- behind the allocation of `client->normal`
unfoldable pub subscribe_and_connect : Surroundings → State NormalClient Bool
subscribe_and_connect around = if not around.subscribes then pure false else do
  there ← wait_loop around.events 1 9
  if not there then pure false else connect around.line

-- `normal_open_with_timeout`, by whether the result is 0
unfoldable pub normal_open : Surroundings → State NormalClient Bool
normal_open around c = elim c.normal [
  | none ↦
      if not around.grants
      then ok false c
      else subscribe_and_connect around (record c { normal = some unwritten })
  | some session ↦ subscribe_and_connect around c
]

-- one handle of `normal_client_free`
abbrev pub free_handle : Pointer → State Held (Unit {0}) → State NormalClient (Unit {0})
free_handle null free = pure tt
free_handle valid free = on_held free
free_handle junk free = λ _. fault

-- `normal_client_free`
unfoldable pub normal_client_free : State NormalClient (Unit {0})
normal_client_free c = elim c.normal [
  | none ↦ ok tt c
  | some session ↦
      (do
        free_handle session.client service_free
        free_handle session.device idevice_free
        λ c. ok tt (record c { normal = none }))
        c
]

-- `normal_client_new`; its own block takes the place of the one that was opened
unfoldable pub normal_client_new : Surroundings → State NormalClient Bool
normal_client_new around = if not around.grants_new then pure false else do
  done ← normal_open around
  if not done then normal_client_free >> pure false else λ c.
      ok true (record c { normal = some unwritten })
