-- ===== src/Identify/Runs.antt =====
-- Concrete devices.
use irestore.Prelude.{ℕ, ◌≡◌, refl, true, false, none, some}
use irestore.Effects.{ok, fault}
use irestore.Text.{codes, same_text}
use irestore.Plists.{Plists, of_kind}
use irestore.Plists.Tree.{Tree, text, trees}
use irestore.Devices.{Held, idevice_free, service_free}
use irestore.Identify.{
  Readings, Answers, recovery_mode, restore_mode, normal_mode, same_model, find_model, find_product,
  device_for, read_id, get_cpid, restore_check_device, normal_check_device, check_device,
}

abbrev lib : Plists
lib = trees (λ _. none)

abbrev nothing : Readings
nothing = record { by_normal = none; by_recovery = none }

abbrev reading : ℕ → Readings
reading n = record { by_normal = none; by_recovery = some n }

abbrev silent : Answers Tree
silent = record {
  line = record { found = false; client = false; answers = false };
  gives = false;
  value = none;
}

abbrev held : Held
held = record { devices = 0; clients = 0 }

abbrev named : Tree → Answers Tree
named name = record {
  line = record { found = true; client = true; answers = true };
  gives = true;
  value = some name;
}

-- an A4 device with board 8
check_device_recovery :
    check_device lib false recovery_mode silent silent (reading 8930) (reading 8) held
    ≡ ok (some 8) held
unfolding check_device get_cpid read_id device_for
check_device_recovery = refl

-- A chip that cannot be read is noted in a device that is not there.
check_device_unread :
    check_device lib false recovery_mode silent silent nothing nothing held ≡ fault
unfolding check_device get_cpid read_id
check_device_unread = refl

check_device_restore :
    check_device lib false restore_mode (named (text (codes "n81ap"))) silent nothing nothing held
    ≡ ok (some 8) held
unfolding check_device restore_check_device idevice_free service_free of_kind find_model same_model
check_device_restore = refl

check_device_normal :
    check_device lib false normal_mode silent
      (named (text (codes "iPhone3,1")))
      nothing
      nothing
      held
    ≡ ok (some 7) held
unfolding check_device normal_check_device idevice_free service_free of_kind find_product same_text
check_device_normal = refl
