-- ===== src/Img3.antt =====
-- idevicerestore/src/img3.c: signed firmware images as a header and tagged elements. Pointers into
-- a buffer are the bytes from there on; an `img3_element` keeps the bytes that its `header` and
-- `data` both point at.
pub mod Slots
pub mod Parse
pub mod Whole
pub mod Build
pub mod Signature
mod Refill
pub mod RoundTrip
pub mod Release
mod Runs
use irestore.Prelude.{ℕ, List, [], ◌∷◌, Option, none, some}
use irestore.Memory.{M, demand}
use irestore.Words.{word}

abbrev pub image_container : ℕ
image_container = 0x496D6733

-- `enum img3_element_type`, as far as the parser knows its members
pub data Slot : Type 0 where
  type_slot data_slot vers_slot sepo_slot bord_slot kbag1_slot kbag2_slot : Slot
  ecid_slot shsh_slot cert_slot unkn_slot : Slot

abbrev pub signature_of : Slot → ℕ
signature_of type_slot = 0x54595045
signature_of data_slot = 0x44415441
signature_of vers_slot = 0x56455253
signature_of sepo_slot = 0x5345504F
signature_of bord_slot = 0x424F5244
signature_of kbag1_slot = 0x4B424147
signature_of kbag2_slot = 0x4B424147
signature_of ecid_slot = 0x45434944
signature_of shsh_slot = 0x53485348
signature_of cert_slot = 0x43455254
signature_of unkn_slot = 0x53414c54

pub record Header : Type 0 where
  pub signature : ℕ
  pub full_size : ℕ
  pub data_size : ℕ
  pub shsh_offset : ℕ
  pub image_type : ℕ

pub record Element : Type 0 where
  pub bytes : List ℕ
  pub type : ℕ

pub record Image : Type 0 where
  pub header : Option Header
  pub type_element : Option Element
  pub data_element : Option Element
  pub vers_element : Option Element
  pub sepo_element : Option Element
  pub bord_element : Option Element
  pub kbag1_element : Option Element
  pub kbag2_element : Option Element
  pub ecid_element : Option Element
  pub shsh_element : Option Element
  pub cert_element : Option Element
  pub unkn_element : Option Element

abbrev pub get_slot : Slot → Image → Option Element
get_slot type_slot i = i.type_element
get_slot data_slot i = i.data_element
get_slot vers_slot i = i.vers_element
get_slot sepo_slot i = i.sepo_element
get_slot bord_slot i = i.bord_element
get_slot kbag1_slot i = i.kbag1_element
get_slot kbag2_slot i = i.kbag2_element
get_slot ecid_slot i = i.ecid_element
get_slot shsh_slot i = i.shsh_element
get_slot cert_slot i = i.cert_element
get_slot unkn_slot i = i.unkn_element

abbrev pub set_slot : Slot → Option Element → Image → Image
set_slot type_slot e i = record i { type_element = e }
set_slot data_slot e i = record i { data_element = e }
set_slot vers_slot e i = record i { vers_element = e }
set_slot sepo_slot e i = record i { sepo_element = e }
set_slot bord_slot e i = record i { bord_element = e }
set_slot kbag1_slot e i = record i { kbag1_element = e }
set_slot kbag2_slot e i = record i { kbag2_element = e }
set_slot ecid_slot e i = record i { ecid_element = e }
set_slot shsh_slot e i = record i { shsh_element = e }
set_slot cert_slot e i = record i { cert_element = e }
set_slot unkn_slot e i = record i { unkn_element = e }

-- the order of the elements in `img3_free`, and in both passes of `img3_get_data`
abbrev pub slot_order : List Slot
slot_order =
    type_slot ∷ data_slot ∷ vers_slot ∷ sepo_slot ∷ bord_slot ∷ kbag1_slot ∷ kbag2_slot ∷ ecid_slot
    ∷ shsh_slot ∷ cert_slot ∷ unkn_slot ∷ []

-- after `memset`
abbrev pub empty_image : Image
empty_image = record {
  header = none;
  type_element = none;
  data_element = none;
  vers_element = none;
  sepo_element = none;
  bord_element = none;
  kbag1_element = none;
  kbag2_element = none;
  ecid_element = none;
  shsh_element = none;
  cert_element = none;
  unkn_element = none;
}

-- `element->header->full_size`
abbrev pub full_size : Element → M ℕ
full_size e = demand (word 4 e.bytes)

abbrev pub u32_mod : ℕ
u32_mod = 4294967296

abbrev pub i32_end : ℕ
i32_end = 2147483648
