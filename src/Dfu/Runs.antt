-- ===== src/Dfu/Runs.antt =====
-- A concrete device in DFU mode, and the theorem at it.
use irestore.Prelude.{◌≡◌, refl, true, false, [], none, some}
use irestore.Effects.{Ensures, Allows, fault}
use irestore.Plists.{Plists}
use irestore.Plists.Tree.{Tree, text, trees}
use irestore.Ipsw.{Zip}
use irestore.Ipsw.Sample.{many_files}
use irestore.Restore.Components.{Setting}
use irestore.Identify.{dfu_mode}
use irestore.Restore.Session.{valid}
use irestore.Recovery.{Handset, recovery_open, open_loop}
use irestore.Recovery.Opening.{Keeps}
use irestore.Dfu.{
  k_dfu_mode, enter_from, Bus, attempts, dfu_open, free_old, dfu_client_new, dfu_enter_recovery,
  dfu-never,
}

abbrev bus : Bus
bus = record { dfu = none; opens = λ _. true; tries = 0 }

abbrev handset : Handset
handset = record {
  recovery = some valid;
  opens = λ _. true;
  tries = 0;
  accepts = λ _. true;
  requests = 0;
  log = [];
  grants = true;
  memory = record { grants = λ _. true; calls = 0; live = 0 };
  client = record { restore = none; quit = false; connected = false };
  mode = dfu_mode;
  held = record { devices = 0; clients = 0 };
}

-- With a device that opens at once, both are a fault.
dfu_client_new_fault : dfu_client_new true true 10 bus ≡ fault
unfolding dfu_client_new free_old dfu_open attempts
dfu_client_new_fault = refl

-- no component and no archive
abbrev lib : Plists
lib = trees (λ _. none)

abbrev zip : Zip
zip = many_files []

abbrev setting : Setting Tree
setting = record { ipsw = []; tss = none; identity = text []; junk = 0; behind = [] }

dfu_enter_recovery_fault : dfu_enter_recovery zip lib setting none true handset ≡ fault
unfolding dfu_enter_recovery enter_from recovery_open open_loop
dfu_enter_recovery_fault = refl

dfu-never_example :
    Ensures (λ r _. r ≡ false) (dfu_client_new true true 10 bus)
    × Ensures
        (λ r u. (r ≡ false) × Keeps handset u)
        (dfu_enter_recovery zip lib setting (some valid) true handset)
    × Allows
        (λ r _. r ≡ false)
        (enter_from zip lib setting (some k_dfu_mode) (some valid) true handset)
dfu-never_example =
    dfu-never zip lib setting true true 10 bus (some k_dfu_mode) (some valid) true handset
