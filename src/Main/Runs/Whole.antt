-- ===== src/Main/Runs/Whole.antt =====
-- Whole runs of `main`, and the theorems at these.
use irestore.Prelude.{ℕ, ◌≡◌, refl, arith, ◌<◌, true, false, List, [], ◌∷◌, none, some, length}
use irestore.Effects.{Allows}
use irestore.Text.{codes, same_text}
use irestore.Plists.{of_kind, typed_item, dict}
use irestore.Plists.Tree.{Tree, text, row, to_items, find}
use irestore.Ipsw.Sample.{locate_in, bytes_at, many_files-HoldsBytes}
use irestore.Manifest.{get_component_path}
use irestore.Options.{settings, start, option_loop, set_option}
use irestore.Restore.Sample.{
  lib, image, first_request, link, link-IsSound, first_request-IsRequest, payload,
  payload-IsCommand, connects, connects-third, phone-opens_all, quiet, quiet_message,
  filesystem_request, full_identity, manifest,
}
use irestore.Restore.Filesystem.Delivered.{transfer}
use irestore.Restore.Components.{Setting, component_path}
use irestore.Restore.Components.Nor.{unsigned-Gets}
use irestore.Restore.Loop.Endings.{AsksFilesystem}
use irestore.Recovery.Protocol.{HasAll, HasComponent, protocol}
use irestore.Main.Identity.{choose_identity}
use irestore.Main.Identity.Chosen.{choose_identity-ends}
use irestore.Main.Course.{course, setting_of, main}
use irestore.Main.Course.Modes.{Succeeds}
use irestore.Main.Course.Found.{found_mode, course-Succeeds}
use irestore.Main.Course.Restored.{Delivery}
use irestore.Main.Course.Whole.{Restores, main-Restores}
use irestore.Main.Runs.{files, zip, scene, machine, erasing, machine-IsFresh, scene-IsRestorable}

abbrev setting : Setting Tree
setting = setting_of zip lib scene [] none full_identity

component-HasComponent :
    (n : ℕ) (name path bytes : List ℕ)
    → component_path zip lib setting name ≡ some path
    → locate_in 0 files path ≡ some n
    → bytes_at n files ≡ bytes
    → length bytes < 2147483648
    → HasComponent zip lib setting name bytes
component-HasComponent n name path bytes at located is small = record {
  path = path;
  has_path = at;
  gets =
      unsigned-Gets zip lib setting path bytes refl
        (many_files-HoldsBytes files n path bytes located is) small;
}

setting-HasAll : HasAll zip lib setting (1 ∷ []) (2 ∷ []) (3 ∷ []) (4 ∷ []) (5 ∷ [])
unfolding component_path get_component_path typed_item of_kind find same_text locate_in bytes_at
setting-HasAll = record {
  has_ibec =
      component-HasComponent 1 (codes "iBEC") (codes "a") (1 ∷ []) refl refl refl (omega arith);
  has_logo =
      component-HasComponent 2 (codes "AppleLogo") (codes "b") (2 ∷ []) refl refl refl
        (omega arith);
  has_tree =
      component-HasComponent 3 (codes "RestoreDeviceTree") (codes "c") (3 ∷ []) refl refl refl
        (omega arith);
  has_ramdisk =
      component-HasComponent 4 (codes "RestoreRamDisk") (codes "d") (4 ∷ []) refl refl refl
        (omega arith);
  has_kernel =
      component-HasComponent 5 (codes "RestoreKernelCache") (codes "e") (5 ∷ []) refl refl refl
        (omega arith);
}

request-AsksFilesystem : AsksFilesystem zip lib setting connects (some image) filesystem_request
unfolding typed_item of_kind find same_text
request-AsksFilesystem = record {
  is_request = record { node = text (codes "DataRequestMsg"); has = refl; named = refl };
  node = text (codes "SystemImageData");
  has_type = refl;
  named = refl;
}

scene-Delivery : Delivery zip lib scene setting link image (first_request ∷ [])
scene-Delivery = record {
  starts = refl;
  granted = refl;
  opens = phone-opens_all;
  before = quiet;
  between = quiet;
  behind = [];
  msg = filesystem_request;
  turns_are = refl;
  quiet_before = ((refl, λ msg e. cc), ((refl, λ msg e. rw (payload_is msg e) quiet_message), tt));
  quiet_between = ((refl, λ msg e. cc), ((refl, λ msg e. rw (payload_is msg e) quiet_message), tt));
  asks = request-AsksFilesystem;
  attempt = 3;
  reached = connects-third;
  sound = link-IsSound;
  first = [];
  last = 2 ∷ [];
  end = payload;
  rest = [];
  waits = refl;
  in_image = (first_request-IsRequest, tt);
  payload = payload-IsCommand;
  small_info = omega arith;
  small = omega arith;
}
  where
    payload_is : (msg : Tree) → some payload ≡ some msg → msg ≡ payload
    payload_is msg e = cc

options_erasing : option_loop ((b'e', []) ∷ []) start ≡ settings erasing
unfolding option_loop set_option
options_erasing = refl

main-Restores_example :
    Restores zip lib scene
      (main zip lib scene ((b'e', []) ∷ []) (some []))
      machine
      (protocol zip lib setting (1 ∷ []) (2 ∷ []) (3 ∷ []) (4 ∷ []) (5 ∷ []))
      (transfer lib image (first_request ∷ []))
      (codes "r")
main-Restores_example =
    main-Restores zip lib scene erasing [] (codes "r") image (1 ∷ []) (2 ∷ []) (3 ∷ []) (4 ∷ [])
      (5 ∷ []) full_identity none (first_request ∷ []) ((b'e', []) ∷ []) machine refl
      options_erasing machine-IsFresh scene-IsRestorable setting-HasAll refl phone-opens_all
      scene-Delivery

course-Succeeds_example :
    Allows
      (Succeeds zip lib scene (found_mode zip lib scene))
      (course zip lib scene erasing [] machine)
course-Succeeds_example = course-Succeeds zip lib scene erasing [] machine refl

choose_identity-ends_example :
    (choose_identity lib true (some manifest) ≡ of_kind lib dict (some full_identity))
    × (choose_identity lib false (some manifest) ≡ of_kind lib dict (some full_identity))
unfolding typed_item of_kind find same_text
choose_identity-ends_example =
    choose_identity-ends lib manifest (row (to_items (full_identity ∷ []))) full_identity
      full_identity [] [] refl refl refl
