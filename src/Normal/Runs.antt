-- ===== src/Normal/Runs.antt =====
-- Concrete devices in normal mode, and the theorems at these.
use irestore.Prelude.{
  ℕ, ◌≡◌, refl, arith, true, false, List, [], ◌∷◌, some, none, ◌==◌, if◌then◌else◌,
}
use irestore.Effects.{Ensures, ok, fault}
use irestore.Plists.{Plists, of_kind}
use irestore.Plists.Tree.{text, number, trees}
use irestore.Text.{codes, same_text}
use irestore.Devices.{Held, Line}
use irestore.Identify.{
  normal_mode, same_model, find_model, find_product, restore_check_device, normal_check_device,
}
use irestore.Restore.Session.{Event, device_add, device_remove}
use irestore.Recovery.{Handset}
use irestore.Recovery.Opening.{Keeps}
use irestore.Normal.Probes.{normal_check_mode, restore_check_mode, normal_get_ecid, probes-Held}
use irestore.Normal.Connection.{
  NormalClient, Surroundings, normal_open, normal_client_free, normal_client_new,
  subscribe_and_connect, wait_loop, deliver,
}
use irestore.Normal.Connection.Waiting.{Quiet, failed, connected_to, normal_open-first_event}
use irestore.Normal.Leaving.{asked, normal_enter_recovery, normal_enter_recovery-asked}

abbrev lib : Plists
lib = trees (λ _. none)

-- a device that answers
abbrev line : Line
line = record { found = true; client = true; answers = true }

abbrev none_held : Held
none_held = record { devices = 0; clients = 0 }

probes-Held_example :
    (normal_check_mode line none_held ≡ ok true none_held)
    × (restore_check_mode line none_held ≡ ok true none_held)
    × (normal_get_ecid lib line (some (number 77)) none_held ≡ ok (some 77) none_held)
    × (restore_check_device lib
          (record { line = line; gives = true; value = some (text (codes "n81ap")) })
          none_held
        ≡ ok (some 8) none_held)
    × (normal_check_device lib
          (record { line = line; gives = true; value = some (text (codes "n81ap")) })
          none_held
        ≡ ok none none_held)
unfolding of_kind find_model same_model find_product same_text
probes-Held_example =
    probes-Held lib line true (some (number 77)) (some (text (codes "n81ap"))) none_held

-- The device comes before the second look.
abbrev events : ℕ → List Event
events n = if n == 2 then device_add ∷ [] else []

abbrev around : Surroundings
around = record {
  grants = true;
  grants_new = true;
  subscribes = true;
  events = events;
  line = line;
}

abbrev client : NormalClient
client = record { normal = none; connected = false; held = record { devices = 0; clients = 0 } }

first-Quiet : Quiet events 1 1
first-Quiet k below = ground arith

normal_open-first_event_example :
    (events 2 ≡ device_add ∷ []
      → true ≡ true
      → (normal_open around client ≡ ok true (connected_to client))
        × (normal_client_free (connected_to client)
            ≡ ok tt (record client { connected = true; normal = none })))
    × (events 2 ≡ device_remove ∷ [] → normal_open around client ≡ fault)
    × (Quiet events 1 10
        → (normal_open around client ≡ ok false (failed client))
          × (normal_client_free (failed client) ≡ fault))
normal_open-first_event_example =
    normal_open-first_event around 1 [] client refl refl refl refl (omega arith) first-Quiet

-- The block of `normal_client_new` takes the place of the one that was opened, and was never written.
normal_client_new_fault : normal_client_new (record around { events = λ _. [] }) client ≡ fault
unfolding normal_client_new normal_open subscribe_and_connect wait_loop deliver normal_client_free
normal_client_new_fault = refl

abbrev handset : Handset
handset = record {
  recovery = none;
  opens = λ _. true;
  tries = 0;
  accepts = λ _. true;
  requests = 0;
  log = [];
  grants = true;
  memory = record { grants = λ _. true; calls = 0; live = 0 };
  client = record { restore = none; quit = false; connected = false };
  mode = normal_mode;
  held = record { devices = 0; clients = 0 };
}

normal_enter_recovery-asked_example :
    Ensures
      (λ r t. (r ≡ false) × Keeps (asked line handset) t)
      (normal_enter_recovery line false handset)
normal_enter_recovery-asked_example = normal_enter_recovery-asked line handset
