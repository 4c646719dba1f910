-- ===== src/Signing.antt =====
-- `ipsw_get_component_by_path` of idevicerestore/src/idevicerestore.c: a component of the firmware,
-- signed for the device. It takes files from Ipsw, blobs from Tss, and signs with Img3.
pub mod Signed
pub mod Guarded
mod Runs
use irestore.Prelude.{ℕ, ◌+◌, not, List, Option, none, some, length, if◌then◌else◌}
use irestore.Memory.{M, ok, pure, ◌>>=◌, ◌>>◌, free, require}
use irestore.Plists.{Plists}
use irestore.Ipsw.{Zip, extract_to_memory}
use irestore.Tss.Blob.{get_blob_by_path}
use irestore.Img3.{Image}
use irestore.Img3.Parse.{parse_file, free_image}
use irestore.Img3.Build.{get_data}
use irestore.Img3.Signature.{replace_signature}

-- the block that `plist_get_data_val` allocates for a blob
unfoldable pub blob_block : M (Unit {0})
blob_block m = ok tt (record m { live = m.live + 1 })

-- Behind the signing: the image is written and released, whether writing succeeds or not.
unfoldable pub rebuild : ℕ → Image → M (Option (List ℕ × ℕ))
rebuild junk image = do written ← get_data junk image; free_image image >> pure written

-- An image and the blob that the response has for it, or none.
unfoldable pub sign_with : ℕ → Image → Option (List ℕ) → M (Option (List ℕ × ℕ))
sign_with junk image none = free_image image >> pure none
sign_with junk image (some signature) = do
  blob_block
  (signed, changed) ← replace_signature image signature
  free
  if not signed then free_image changed >> pure none else rebuild junk changed

module _ (zip : Zip) (lib : Plists) where
  open lib use {Node}

  -- Where there is a TSS response: the file as an image, with the signature of the response.
  unfoldable pub sign : ℕ → Node → List ℕ → List ℕ → M (Option (List ℕ × ℕ))
  sign junk tss path file = do
    parsed ← parse_file file (length file)
    free
    require none parsed λ image. sign_with junk image (get_blob_by_path lib tss path)

  -- `ipsw_get_component_by_path`, without the copy that is written for debugging: `*data` and `*size`,
  -- or none for -1. `junk` is what a fresh block holds in the field `shsh_offset`.
  unfoldable pub get_component_by_path : ℕ → List ℕ → Option Node → List ℕ → M (Option (List ℕ × ℕ))
  get_component_by_path junk ipsw tss path = do
    extracted ← extract_to_memory zip ipsw path
    require none extracted λ file. elim tss [
      | none ↦ pure (some (file, length file))
      | some response ↦ sign junk response path file
    ]
