-- ===== src/Restore/Runs.antt =====
-- Concrete restores, and the theorems at these.
mod Device
use irestore.Prelude.{
  ℕ, ◌+◌, ◌≡◌, refl, arith, ap, take_all, drop_all, Bool, true, false, List, [], ◌∷◌, ◌++◌, Option,
  none, some, length, ◌==◌, ltb, if◌then◌else◌,
}
use irestore.Restore.Sample.{
  request, payload, manifest, parse, lib, image, first_request, link, link-IsSound,
  first_request-IsRequest, payload-IsCommand, connects, connects-third, phone, phone-opens_all,
  client, world, message, quiet, quiet_message, filesystem_request,
}
use irestore.Effects.{ok, fault, ◌>>=◌}
use irestore.Memory.{Mem}
use irestore.Text.{codes, same_text}
use irestore.Plists.{Plists, string, of_kind, typed_item}
use irestore.Plists.Tree.{Tree, text, number, blob, table, to_entries, find, trees}
use irestore.Ipsw.{Zip}
use irestore.Ipsw.Sample.{locate_in, bytes_at, many_files}
use irestore.Ipsw.Extract.{HasFile, HoldsBytes}
use irestore.Manifest.{get_component_path}
use irestore.Tss.Response.{strstr, starts_with}
use irestore.Asr.Link.{Link, Receive, received, connect_loop, open_with_timeout}
use irestore.Asr.Payload.Perfect.{IsPerfect}
use irestore.Asr.Validation.{accepted, refused}
use irestore.Asr.Validation.Requests.{IsSound, IsCommand, Asks, Request, IsRequest, messages}
use irestore.Restore.Session.{
  Phone, Client, opened, opens_all, open_session, client_free, client_new,
}
use irestore.Restore.Session.Handles.{open_session-client_free, client_new-client_free}
use irestore.Restore.World.{World, restored_send}
use irestore.Restore.Filesystem.{send_filesystem}
use irestore.Restore.Filesystem.Delivered.{transfer, send_filesystem-transfer}
use irestore.Restore.Components.{
  Setting, until_zero, strtok_lines, join_path, component_path, send_nor,
}
use irestore.Restore.Components.Nor.{
  IsLine, lines_text, strtok_lines-lines_text, HasNor, nor_message, unsigned-Gets,
  send_nor-nor_message,
}
use irestore.Restore.Messages.{progress_string, handle_progress, handle_status}
use irestore.Restore.Loop.{Turn, dispatch, restore_device}
use irestore.Restore.Loop.Results.{HasType}
use irestore.Restore.Loop.Endings.{
  AsksFilesystem, AsksNor, stopped, restore_device-error, restore_device-transfer,
  restore_device-excluded,
}

send_filesystem-transfer_example :
    (t : Link) × (send_filesystem lib true connects (some image) link ≡ ok accepted t)
    × (t.delivered ≡ [] ++ transfer lib image (first_request ∷ []))
    × (t.connected ≡ false)
send_filesystem-transfer_example =
    send_filesystem-transfer lib connects 3 image [] (2 ∷ []) payload (first_request ∷ []) [] link
      connects-third link-IsSound refl (first_request-IsRequest, tt) payload-IsCommand (omega arith)
      (omega arith)

open_session-client_free_run :
    (open_session phone >>= λ _. client_free) client
    ≡ (if opens_all phone then ok tt client else fault)
open_session-client_free_run = open_session-client_free phone client refl refl

client_new-client_free_run : (client_new phone >>= λ _. client_free) client ≡ fault
client_new-client_free_run = client_new-client_free phone client refl refl refl

abbrev directory : List ℕ
directory = codes "all_flash"

abbrev files : List (List ℕ × List ℕ)
files =
    (
      codes "all_flash/manifest",
      codes "LLB.img3" ++ (10 ∷ (codes "iBoot.img3" ++ (10 ∷ codes "lost.img3"))),
    )
    ∷ (codes "all_flash/LLB.img3", 1 ∷ 2 ∷ [])
    ∷ (codes "all_flash/iBoot.img3", 3 ∷ [])
    ∷ []

abbrev zip : Zip
zip = many_files files

abbrev identity : Tree
identity = table (
    to_entries (
      (
        codes "Manifest",
        table (
            to_entries (
              (
                codes "LLB",
                table (
                    to_entries (
                      (
                        codes "Info",
                        table (to_entries ((codes "Path", text (codes "all_flash/LLB.img3")) ∷ [])),
                      )
                      ∷ [])),
              )
              ∷ [])),
      )
      ∷ []))

abbrev setting : Setting Tree
setting = record { ipsw = []; tss = none; identity = identity; junk = 0; behind = [] }
