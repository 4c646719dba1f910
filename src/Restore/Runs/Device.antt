-- ===== src/Restore/Runs/Device.antt =====
-- Whole restores, and the theorems at these.
use irestore.Prelude.{
  ℕ, ◌≡◌, refl, arith, ◌+◌, ◌≢◌, Bool, true, false, List, [], ◌∷◌, ◌++◌, none, some,
}
use irestore.Effects.{ok}
use irestore.Memory.{malloc-grown}
use irestore.Text.{codes, same_text}
use irestore.Plists.{of_kind, typed_item}
use irestore.Plists.Tree.{Tree, text, number, find}
use irestore.Signing.{get_component_by_path}
use irestore.Ipsw.{extract_to_memory, ipsw_open}
use irestore.Ipsw.Sample.{locate_in, bytes_at}
use irestore.Manifest.{get_component_path}
use irestore.Tss.Response.{strstr, starts_with}
use irestore.Asr.Validation.{accepted}
use irestore.Restore.Session.{opened}
use irestore.Restore.World.{World, line}
use irestore.Restore.Components.{until_zero, strtok_lines, component_path, send_nor}
use irestore.Restore.Components.Nor.{
  IsLine, lines_text, strtok_lines-lines_text, HasNor, Lacks, nor_message, unsigned-Gets,
  send_nor-nor_message,
}
use irestore.Restore.Messages.{progress_string, handle_progress}
use irestore.Restore.Loop.{Turn, turn, dispatch, restore_device}
use irestore.Restore.Loop.Results.{HasType, Handled, no_round, round_then}
use irestore.Restore.Loop.Endings.{
  AsksFilesystem, AsksNor, stopped, restore_device-error, restore_device-transfer,
  restore_device-excluded,
}
use irestore.Restore.Runs.{directory, zip, setting, files}
use irestore.Restore.Sample.{
  lib, image, first_request, link, link-IsSound, first_request-IsRequest, payload,
  payload-IsCommand, connects, connects-third, phone, phone-opens_all, world, message, quiet,
  quiet_message, filesystem_request,
}
use irestore.Ipsw.Sample.{many_files-HoldsBytes}
use irestore.Restore.Filesystem.Delivered.{transfer}

data_message-HasType :
    HasType zip lib setting connects (some image) filesystem_request (codes "DataRequestMsg")
unfolding typed_item of_kind find same_text
data_message-HasType = record { node = text (codes "DataRequestMsg"); has = refl; named = refl }

request-AsksFilesystem : AsksFilesystem zip lib setting connects (some image) filesystem_request
unfolding typed_item of_kind find same_text
request-AsksFilesystem = record {
  is_request = data_message-HasType;
  node = text (codes "SystemImageData");
  has_type = refl;
  named = refl;
}

restore_device-transfer_example :
    (t : World Tree) × (restore_device zip lib setting connects
        (some image)
        phone
        true
        (quiet
          ++ record { message = some filesystem_request; removed = false }
            ∷ (quiet ++ record { message = none; removed = true } ∷ []))
        world
      ≡ ok accepted t)
    × (t.link.delivered ≡ [] ++ transfer lib image (first_request ∷ []))
    × (t.client.restore ≡ none)
restore_device-transfer_example =
    restore_device-transfer zip lib setting connects phone quiet quiet [] filesystem_request world 3
      image [] (2 ∷ []) payload (first_request ∷ []) [] refl refl refl phone-opens_all
      ((refl, λ msg e. cc), ((refl, λ msg e. rw (payload_is msg e) quiet_message), tt))
      ((refl, λ msg e. cc), ((refl, λ msg e. rw (payload_is msg e) quiet_message), tt))
      request-AsksFilesystem connects-third link-IsSound refl (first_request-IsRequest, tt)
      payload-IsCommand (omega arith) (omega arith)
  where
    payload_is : (msg : Tree) → some payload ≡ some msg → msg ≡ payload
    payload_is msg e = cc

-- a progress message without a progress
abbrev bad_progress : Tree
bad_progress = message (codes "ProgressMsg") ((codes "Operation", number 14) ∷ [])

bad-HasType : HasType zip lib setting connects none bad_progress (codes "ProgressMsg")
unfolding typed_item of_kind find same_text
bad-HasType = record { node = text (codes "ProgressMsg"); has = refl; named = refl }

abbrev open_world : World Tree
open_world = record world { client = record (world.client) { restore = some opened } }

-- a progress message with a progress
abbrev good_progress : Tree
good_progress =
    message (codes "ProgressMsg")
      ((codes "Operation", number 14) ∷ (codes "Progress", number 0) ∷ [])

abbrev progressed : World Tree → World Tree
progressed w = record w { reports = w.reports ++ line (codes "Restoring image") ∷ [] }

-- a round that brings nothing, and one with the progress
abbrev rounds : List (Turn Tree)
rounds =
    record { message = none; removed = false }
    ∷ record { message = some good_progress; removed = false }
    ∷ []

rounds-Handled :
    (excludes : Bool)
    → Handled zip lib setting connects none
        (record open_world { exclude = excludes })
        rounds
        (progressed (record open_world { exclude = excludes }))
unfolding turn dispatch handle_progress progress_string typed_item of_kind find same_text
rounds-Handled excludes = round_then refl refl (round_then refl refl no_round)

bad_progress-fails :
    dispatch zip lib setting connects none false
      (codes "ProgressMsg")
      bad_progress
      (progressed open_world)
    ≡ ok (some true) (progressed open_world)
unfolding dispatch handle_progress typed_item of_kind find same_text
bad_progress-fails = refl

restore_device-error_example :
    (t : World Tree) × (restore_device zip lib setting connects none phone true
        (rounds
          ++ record { message = some bad_progress; removed = false }
            ∷ record { message = some filesystem_request; removed = false }
            ∷ [])
        world
      ≡ ok accepted t)
    × (t.sent ≡ [])
    × (t.link ≡ link)
    × (t.client.restore ≡ none)
restore_device-error_example =
    restore_device-error zip lib setting connects none phone rounds bad_progress
      (codes "ProgressMsg") false
      (record { message = some filesystem_request; removed = false } ∷ []) world
      (progressed open_world) (progressed open_world) refl refl phone-opens_all
      (rounds-Handled false) refl bad-HasType bad_progress-fails refl

abbrev nor_request : Tree
nor_request = message (codes "DataRequestMsg") ((codes "DataType", text (codes "NORData")) ∷ [])

request-AsksNor : AsksNor zip lib setting connects none nor_request
unfolding typed_item of_kind find same_text
request-AsksNor = record {
  is_request = record { node = text (codes "DataRequestMsg"); has = refl; named = refl };
  node = text (codes "NORData");
  has_type = refl;
  named = refl;
}

restore_device-excluded_example :
    restore_device zip lib setting connects none phone true
      (rounds ++ record { message = some nor_request; removed = false } ∷ [])
      (record world { exclude = true })
    ≡ ok accepted
        (stopped zip lib setting connects (progressed (record open_world { exclude = true })))
restore_device-excluded_example =
    restore_device-excluded zip lib setting connects none phone rounds [] nor_request
      (record world { exclude = true }) (progressed (record open_world { exclude = true })) refl
      refl phone-opens_all (rounds-Handled true) refl refl refl request-AsksNor

handle_progress_lem :
    handle_progress zip lib
      (message
        (codes "ProgressMsg")
        ((codes "Operation", number 4294967310) ∷ (codes "Progress", number 0) ∷ []))
      world
    ≡ ok accepted (record world { reports = line (codes "Restoring image") ∷ [] })
unfolding handle_progress progress_string typed_item of_kind find same_text
handle_progress_lem = refl

llb_name-IsLine : IsLine (65 ∷ [])
llb_name-IsLine = record { filled = λ e. cc; plain = one }
  where
    one : (c : ℕ) (before after : List ℕ) → (65 ∷ []) ≡ before ++ c ∷ after → ◌≢◌ {A = ℕ} c 10
    one c [] after e nl = cc
    one c (b ∷ []) after e nl = cc
    one c (b ∷ d ∷ bs) after e nl = cc

strtok_lines-lines_text_example :
    strtok_lines [] (lines_text ((65 ∷ []) ∷ (65 ∷ []) ∷ [])) ≡ (65 ∷ []) ∷ (65 ∷ []) ∷ []
strtok_lines-lines_text_example =
    strtok_lines-lines_text ((65 ∷ []) ∷ (65 ∷ []) ∷ []) (llb_name-IsLine, (llb_name-IsLine, tt))

abbrev manifest_text : List ℕ
manifest_text = codes "LLB.img3" ++ (10 ∷ (codes "iBoot.img3" ++ (10 ∷ codes "lost.img3")))

lost-Lacks : Lacks zip lib setting (codes "all_flash/lost.img3")
unfolding get_component_by_path extract_to_memory ipsw_open locate_in same_text
lost-Lacks m plenty =
    (record m { calls = m.calls + 1; live = m.live + 1 }, rw (malloc-grown m plenty))

world-HasNor :
    HasNor zip lib setting
      (codes "all_flash/LLB.img3")
      directory
      manifest_text
      (codes "LLB.img3")
      (1 ∷ 2 ∷ [])
      ((codes "iBoot.img3", 3 ∷ []) ∷ [])
      (codes "lost.img3" ∷ [])
unfolding typed_item of_kind find same_text component_path get_component_path strstr starts_with
    until_zero strtok_lines locate_in bytes_at
world-HasNor = record {
  at = 10;
  has_path = refl;
  has_name = refl;
  in_directory = omega arith;
  short = omega arith;
  directory_is = refl;
  manifest = many_files-HoldsBytes files 0 (codes "all_flash/manifest") manifest_text refl refl;
  small = omega arith;
  listed = refl;
  gets_llb =
      unsigned-Gets zip lib setting (codes "all_flash/LLB.img3") (1 ∷ 2 ∷ []) refl
        (many_files-HoldsBytes files 1 (codes "all_flash/LLB.img3") (1 ∷ 2 ∷ []) refl refl)
        (omega arith);
  gets_all = (
    unsigned-Gets zip lib setting (codes "all_flash/iBoot.img3") (3 ∷ []) refl
        (many_files-HoldsBytes files 2 (codes "all_flash/iBoot.img3") (3 ∷ []) refl refl)
        (omega arith),
    tt,
  );
  stops = lost-Lacks;
}

send_nor-nor_message_example :
    (t : World Tree) × (send_nor zip lib setting world ≡ ok true t)
    × (t.sent
        ≡ [] ++ nor_message zip lib setting (1 ∷ 2 ∷ []) ((codes "iBoot.img3", 3 ∷ []) ∷ []) ∷ [])
send_nor-nor_message_example =
    send_nor-nor_message zip lib setting (codes "all_flash/LLB.img3") directory manifest_text
      (codes "LLB.img3") (1 ∷ 2 ∷ []) ((codes "iBoot.img3", 3 ∷ []) ∷ []) (codes "lost.img3" ∷ [])
      world world-HasNor (λ _. refl) refl
