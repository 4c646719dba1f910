-- ===== src/Signing/Guarded.antt =====
-- `ipsw_get_component_by_path` ends, and with a TSS response it returns nothing that is unsigned.
use irestore.Prelude.{ℕ, ◌<◌, ◌≡◌, List, Option, some, length}
use irestore.Memory.{Mem, Run, ok, Ensures}
use irestore.Plists.{Plists}
use irestore.Ipsw.{Zip, extract_to_memory}
use irestore.Tss.Blob.{get_blob_by_path}
use irestore.Img3.{Element, Image}
use irestore.Img3.Parse.Loop.{IsImageOf}
use irestore.Img3.Build.{get_data}
use irestore.Img3.Signature.Replace.{signed, IsSignature}

abbrev Ends : {A : Type 0} → Run Mem A → Type 0
Ends r = Ensures (λ _ _. Unit {0}) r

-- What is returned is what `img3_get_data` writes of the image of the archive's file, with the three
-- elements that are the front of the blob as its signature.
pub record IsPersonalized (file blob : List ℕ) (out : List ℕ × ℕ) : Type 0 where
  pub before : Image
  pub parsed : IsImageOf file before
  pub ecid : Element
  pub shsh : Element
  pub cert : Element
  pub of_blob : IsSignature blob ecid shsh cert
  pub junk : ℕ
  pub at_write : Mem
  pub after : Mem
  pub written : get_data junk (signed ecid shsh cert before) at_write ≡ ok (some out) after

module _ (zip : Zip) where
  open zip use {Archive, File, zip_open, locate, stat_size, fopen, fread}

  abbrev IsSmall : Option (List ℕ) → Mem → Type 0
  IsSmall r m = (file : List ℕ) → r ≡ some file → length file < 2147483648

  module _ (lib : Plists) where
    -- None, or an image of the file that is signed by the blob of the path.
    abbrev pub Signs : lib.Node → List ℕ → List ℕ → Option (List ℕ × ℕ) → Type 0
    Signs tss path file r =
        (out : List ℕ × ℕ)
        → r ≡ some out
        → (blob : List ℕ) × (get_blob_by_path lib tss path ≡ some blob)
          × IsPersonalized file blob out

    -- With a response: none, or an image of the path's file in the archive, so signed.
    abbrev pub Guarded : List ℕ → lib.Node → List ℕ → Mem → Option (List ℕ × ℕ) → Type 0
    Guarded ipsw tss path m r =
        (out : List ℕ × ℕ)
        → r ≡ some out
        → (file : List ℕ) × (m' : Mem) × (extract_to_memory zip ipsw path m ≡ ok (some file) m')
          × Signs tss path file r
