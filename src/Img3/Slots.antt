-- ===== src/Img3/Slots.antt =====
-- The element fields of `img3_file` as a map from slots.
use irestore.Prelude.{◌≡◌, refl, ◌≢◌, Option}
use irestore.Img3.{
  Slot, type_slot, data_slot, vers_slot, sepo_slot, bord_slot, kbag1_slot, kbag2_slot, ecid_slot,
  shsh_slot, cert_slot, unkn_slot, Element, Image, get_slot, set_slot,
}

pub get_slot-set_slot :
    (s : Slot) (e : Option Element) (i : Image) → get_slot s (set_slot s e i) ≡ e
get_slot-set_slot type_slot e i = refl
get_slot-set_slot _ e i = refl

pub get_slot-set_ne :
    (s t : Slot) (e : Option Element) (i : Image)
    → s ≢ t
    → get_slot t (set_slot s e i) ≡ get_slot t i
get_slot-set_ne type_slot type_slot e i h = absurd (h refl)
get_slot-set_ne type_slot data_slot e i h = refl
get_slot-set_ne data_slot data_slot e i h = absurd (h refl)
get_slot-set_ne vers_slot vers_slot e i h = absurd (h refl)
get_slot-set_ne sepo_slot sepo_slot e i h = absurd (h refl)
get_slot-set_ne bord_slot bord_slot e i h = absurd (h refl)
get_slot-set_ne kbag1_slot kbag1_slot e i h = absurd (h refl)
get_slot-set_ne kbag2_slot kbag2_slot e i h = absurd (h refl)
get_slot-set_ne ecid_slot ecid_slot e i h = absurd (h refl)
get_slot-set_ne shsh_slot shsh_slot e i h = absurd (h refl)
get_slot-set_ne cert_slot cert_slot e i h = absurd (h refl)
get_slot-set_ne unkn_slot unkn_slot e i h = absurd (h refl)
get_slot-set_ne _ _ e i h = refl

pub Slot-cases : (s t : Slot) → Dec (s ≡ t)
Slot-cases = Slot-discrete
  where
    Slot-discrete : Discrete Slot
    Slot-discrete = hlevel

pub header-set_slot :
    (s : Slot) (e : Option Element) (i : Image) → (set_slot s e i).header ≡ i.header
header-set_slot type_slot e i = refl
header-set_slot _ e i = refl
