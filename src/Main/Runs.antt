-- ===== src/Main/Runs.antt =====
-- A concrete device and archive for `main`.
mod Whole
use irestore.Prelude.{
  ℕ, ◌≡◌, refl, ap, arith, ◌+◌, Bool, true, false, List, [], ◌∷◌, ◌++◌, Option, none, some, length,
}
use irestore.Effects.{Allows, ok}
use irestore.Memory.{Mem, Plenty}
use irestore.Text.{codes, same_text}
use irestore.Plists.{of_kind, typed_item, array}
use irestore.Plists.Tree.{Tree, row, to_items, find}
use irestore.Ipsw.{Zip, extract_build_manifest}
use irestore.Ipsw.Extract.{HasFile, HoldsBytes, extract_to_memory-HoldsBytes}
use irestore.Ipsw.Sample.{locate_in, bytes_at, many_files, many_files-HoldsBytes, many_files-Reads}
use irestore.Devices.{Line}
use irestore.Identify.{recovery_mode, unknown_mode, device_for}
use irestore.Manifest.{
  get_build_identity, get_identity_count, get_component_path, get_elem?, extract_filesystem,
}
use irestore.Manifest.Lookup.{extract_filesystem-content}
use irestore.Options.{Settings, settings, start, option_loop, set_option}
use irestore.Normal.Probes.{recovery_check_mode}
use irestore.Restore.Session.{opens_all}
use irestore.Restore.Sample.{
  lib, image, first_request, link, link-IsSound, first_request-IsRequest, payload,
  payload-IsCommand, connects, connects-third, phone, phone-opens_all, client, world, quiet,
  quiet_message, filesystem_request, full_identity, manifest,
}
use irestore.Restore.Filesystem.Delivered.{transfer}
use irestore.Restore.Components.{Setting, component_path}
use irestore.Restore.Components.Nor.{unsigned-Gets}
use irestore.Restore.Loop.{Turn}
use irestore.Restore.Loop.Results.{HasType}
use irestore.Restore.Loop.Endings.{AsksFilesystem}
use irestore.Recovery.{Handset}
use irestore.Recovery.Protocol.{HasAll, HasComponent, protocol}
use irestore.Main.Machine.{Machine, Scene}
use irestore.Main.Identity.{choose_identity, identity_loop}
use irestore.Main.Identity.Chosen.{choose_identity-ends}
use irestore.Main.Course.{course, setting_of, main}
use irestore.Main.Course.Modes.{Succeeds}
use irestore.Main.Course.Found.{found_mode, course-Succeeds}
use irestore.Main.Course.Restored.{Delivery}
use irestore.Main.Course.Prepared.{IsFresh, IsRestorable, unsigned}
use irestore.Main.Course.Whole.{Restores, main-Restores}

abbrev files : List (List ℕ × List ℕ)
files =
    (codes "BuildManifesto.plist", 3 ∷ [])
    ∷ (codes "a", 1 ∷ [])
    ∷ (codes "b", 2 ∷ [])
    ∷ (codes "c", 3 ∷ [])
    ∷ (codes "d", 4 ∷ [])
    ∷ (codes "e", 5 ∷ [])
    ∷ (codes "r", image)
    ∷ []

abbrev zip : Zip
zip = many_files files

abbrev silent : Line
silent = record { found = false; client = false; answers = false }

-- An iPhone 3GS in recovery mode.
abbrev scene : Scene Tree
scene = record {
  grants = true;
  usb = record { opens = true; in_dfu = false };
  lockdown = silent;
  restored = silent;
  model = record {
    line = record { found = false; client = false; answers = false };
    gives = false;
    value = none;
  };
  product = record {
    line = record { found = false; client = false; answers = false };
    gives = false;
    value = none;
  };
  cpid = some 8920;
  bdid = some 0;
  ecid = some 77;
  reboot_phone = phone;
  reboots = true;
  ecid_line = silent;
  unique_chip = none;
  post = λ _ _. none;
  creates = λ _. true;
  leaves = silent;
  takes_null = false;
  dfu_resets = true;
  recovery_phone = phone;
  restore_phone = phone;
  connects = connects;
  starts = true;
  turns =
      quiet
      ++ record { message = some filesystem_request; removed = false }
        ∷ (quiet ++ record { message = none; removed = true } ∷ []);
  junk = 0;
  response_junk = 0;
  behind = [];
}

abbrev machine : Machine Tree
machine = record {
  handset = record {
    recovery = none;
    opens = λ _. true;
    tries = 0;
    accepts = λ _. true;
    requests = 0;
    log = [];
    grants = true;
    memory = record { grants = λ _. true; calls = 0; live = 0 };
    client = client;
    mode = unknown_mode;
    held = record { devices = 0; clients = 0 };
  };
  world = world;
  unlinked = [];
}

-- `-e`
abbrev erasing : Settings
erasing = record start { erase = true }

machine-IsFresh : IsFresh machine.handset
machine-IsFresh = record {
  unopened = refl;
  granted = refl;
  reopens = λ _. refl;
  takes = λ _. refl;
  plenty = λ _. refl;
  closed = refl;
  goes = refl;
}

os_path : get_component_path lib full_identity (codes "OS") ≡ some (codes "r")
unfolding get_component_path typed_item of_kind find same_text
os_path = refl

image-HasFile : HasFile zip [] (codes "r") (length image) image
unfolding same_text locate_in bytes_at
image-HasFile = record {
  archive = tt;
  index = 6;
  opened = refl;
  located = refl;
  sized = refl;
  file_opened = refl;
}

manifest_file-HoldsBytes : HoldsBytes zip [] (codes "BuildManifesto.plist") (3 ∷ [])
unfolding locate_in bytes_at same_text
manifest_file-HoldsBytes =
    many_files-HoldsBytes files 0 (codes "BuildManifesto.plist") (3 ∷ []) refl refl

reads_manifest :
    (m : Mem)
    → Plenty m
    → (t : Mem) × (extract_build_manifest zip lib [] m ≡ ok (some (false, some manifest)) t)
      × Plenty t
unfolding extract_build_manifest
reads_manifest m plenty = (
  record m { calls = m.calls + 2; live = m.live + 1 },
  rw
      (extract_to_memory-HoldsBytes zip [] (codes "BuildManifesto.plist") (3 ∷ []) m
        manifest_file-HoldsBytes (omega arith) plenty)
      refl,
  plenty,
)

reads_filesystem :
    (m : Mem)
    → Plenty m
    → (t : Mem) × (extract_filesystem lib zip (λ _. true) [] full_identity m
        ≡ ok (some (codes "r", image)) t)
      × Plenty t
reads_filesystem m plenty = (
  record m { calls = m.calls + 2 },
  extract_filesystem-content lib zip (λ f. f) (many_files-Reads files) (λ _. true) [] (codes "r")
      full_identity image m os_path refl image-HasFile (omega arith) plenty,
  plenty,
)

scene-IsRestorable : IsRestorable zip lib scene erasing [] (codes "r") image full_identity none
unfolding recovery_check_mode device_for choose_identity get_build_identity typed_item of_kind find
    same_text get_elem?
scene-IsRestorable = record {
  found = refl;
  chip = 8920;
  device = 4;
  has_chip = refl;
  known = refl;
  enabled = false;
  manifest = manifest;
  has_manifest = reads_manifest;
  chosen = refl;
  signs = unsigned refl;
  has_filesystem = reads_filesystem;
}
