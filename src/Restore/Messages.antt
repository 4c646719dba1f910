-- ===== src/Restore/Messages.antt =====
-- The handlers of restored's messages: `restore_progress_string`, `restore_handle_progress_msg`,
-- `restore_handle_status_msg` and `restore_handle_data_request_msg`.
use irestore.Prelude.{
  ℕ, ◌%◌, Bool, true, false, not, ◌&&◌, List, Option, none, some, ltb, ◌==◌, if◌then◌else◌,
}
use irestore.Effects.{State, fault, pure, ◌>>=◌, ◌>>◌}
use irestore.Text.{codes, same_text}
use irestore.Plists.{Plists, string, uint, typed_item}
use irestore.Ipsw.{Zip}
use irestore.Asr.Validation.{Verdict, accepted, refused}
use irestore.Restore.World.{World, bar, line, report, set_quit, on_link}
use irestore.Restore.Filesystem.{send_filesystem}
use irestore.Restore.Components.{Setting, send_kernelcache, send_nor}

-- `restore_progress_string`
unfoldable pub progress_string : ℕ → List ℕ
progress_string operation =
    if operation == 11
    then codes "Waiting for storage device"
    else if operation == 12
    then codes "Creating partition map"
    else if operation == 13
    then codes "Creating filesystem"
    else if operation == 14
    then codes "Restoring image"
    else if operation == 15
    then codes "Verifying restore"
    else if operation == 16
    then codes "Checking filesystems"
    else if operation == 17
    then codes "Mounting filesystems"
    else if operation == 19
    then codes "Flashing NOR"
    else if operation == 20
    then codes "Updating baseband"
    else if operation == 21
    then codes "Finalizing NAND epoch update"
    else if operation == 26
    then codes "Modifying persistent boot-args"
    else if operation == 30
    then codes "Unmounting filesystems"
    else if operation == 28
    then codes "Partition NAND device"
    else if operation == 29
    then codes "Waiting for NAND"
    else if operation == 33
    then codes "Waiting for device"
    else if operation == 27
    then codes "Loading kernelcache"
    else if operation == 36
    then codes "Loading NOR data to flash"
    else codes "Unknown operation"

-- the line for the value of a status
unfoldable pub status_string : ℕ → List ℕ
status_string value =
    if value == 0
    then codes "Status: Restore Finished"
    else if value == 6
    then codes "Status: Disk Failure"
    else if value == 14
    then codes "Status: Fail"
    else codes "Unknown status message."

abbrev pub as_verdict : Bool → Verdict
as_verdict true = accepted
as_verdict false = refused

module _ (zip : Zip) (lib : Plists) where
  open lib use {Node, string_val, uint_val}

  -- `restore_handle_progress_msg`
  unfoldable pub handle_progress : Node → State (World Node) Verdict
  handle_progress msg = elim (typed_item lib msg (codes "Operation") uint) [
    | none ↦ pure refused
    | some operation ↦ elim (typed_item lib msg (codes "Progress") uint) [
      | none ↦ pure refused
      | some progress ↦
          (if ltb 0 (uint_val progress) && ltb (uint_val progress) 100
            then report (bar (uint_val progress))
            else report (line (progress_string (uint_val operation % 4294967296))))
          >> pure accepted
    ]
  ]

  -- `restore_handle_status_msg`; `plist_get_uint_val` of a node that is no integer aborts
  unfoldable pub handle_status : Node → State (World Node) Verdict
  handle_status msg = elim (typed_item lib msg (codes "Status") uint) [
    | none ↦ λ _. fault
    | some status ↦
        report (line (codes "Got status message"))
        >> report (line (status_string (uint_val status)))
        >> pure accepted
  ]

  module _ (setting : Setting lib.Node) (connects : ℕ → Bool) (filesystem : Option (List ℕ)) where
    -- the branches of `restore_handle_data_request_msg`, by the type of the data
    unfoldable pub handle_data_type : List ℕ → State (World Node) Verdict
    handle_data_type type =
        if same_text type (codes "SystemImageData")
        then on_link (send_filesystem lib true connects filesystem)
        else if same_text type (codes "KernelCache")
        then (do done ← send_kernelcache zip lib setting; pure (as_verdict done))
        else if same_text type (codes "NORData")
        then (λ w.
            (if not w.exclude
                then (do done ← send_nor zip lib setting; pure (as_verdict done))
                else set_quit >> pure accepted)
              w)
        else pure accepted

    -- `restore_handle_data_request_msg`
    unfoldable pub handle_data_request : Node → State (World Node) Verdict
    handle_data_request msg = elim (typed_item lib msg (codes "DataType") string) [
      | none ↦ pure accepted
      | some type ↦ handle_data_type (string_val type)
    ]
