-- ===== src/Img3/Parse.antt =====
-- `img3_parse_element`, `img3_free` and `img3_parse_file` of idevicerestore/src/img3.c.
pub mod Sound
pub mod Loop
use irestore.Prelude.{
  ℕ, zero, suc, ◌+◌, ◌%◌, not, List, [], ◌∷◌, Option, none, some, length, drop, ltb, ◌==◌,
  if◌then◌else◌,
}
use irestore.Memory.{M, fault, out_of_fuel, pure, ◌>>=◌, ◌>>◌, malloc, free, demand, memcpy}
use irestore.Words.{word}
use irestore.Img3.{
  image_container, Slot, type_slot, data_slot, vers_slot, sepo_slot, bord_slot, kbag1_slot,
  kbag2_slot, ecid_slot, shsh_slot, cert_slot, unkn_slot, signature_of, Header, Element, Image,
  get_slot, set_slot, slot_order, empty_image, u32_mod, i32_end,
}

-- The `switch` of `img3_parse_file`: where an element with this signature goes. A first KBAG fills
-- one field, a later one the other.
unfoldable pub slot_for : ℕ → Image → Option Slot
slot_for s i =
    if s == signature_of type_slot
    then some type_slot
    else if s == signature_of data_slot
    then some data_slot
    else if s == signature_of vers_slot
    then some vers_slot
    else if s == signature_of sepo_slot
    then some sepo_slot
    else if s == signature_of bord_slot
    then some bord_slot
    else if s == signature_of kbag1_slot
    then (elim i.kbag1_element [ none ↦ some kbag1_slot | some _ ↦ some kbag2_slot ])
    else if s == signature_of ecid_slot
    then some ecid_slot
    else if s == signature_of shsh_slot
    then some shsh_slot
    else if s == signature_of cert_slot
    then some cert_slot
    else if s == signature_of unkn_slot
    then some unkn_slot
    else none

-- `img3_parse_element`: the copy is as long as the element's own header says.
unfoldable pub parse_element : List ℕ → M (Option Element)
parse_element buffer = do
  got ← malloc
  if not got then pure none else do
    size ← demand (word 4 buffer)
    got_data ← malloc
    if not got_data then free >> pure none else do
      bytes ← memcpy size buffer
      signature ← demand (word 0 bytes)
      pure (some (record { bytes = bytes; type = signature }))

-- `img3_free_element`; `data` is never null in an element that was parsed
unfoldable pub free_element : Option Element → M (Unit {0})
free_element none = pure tt
free_element (some _) = free >> free

unfoldable pub free_slots : List Slot → Image → M (Unit {0})
free_slots [] image = pure tt
free_slots (s ∷ ss) image = free_element (get_slot s image) >> free_slots ss image

unfoldable pub free_header : Option Header → M (Unit {0})
free_header none = pure tt
free_header (some _) = free

-- `img3_free`
unfoldable pub free_image : Image → M (Unit {0})
free_image image = free_header image.header >> free_slots slot_order image >> free

-- The `while` loop of `img3_parse_file`. `data_offset` is an `int`: a sum past its range is negative
-- and the next round reads before the buffer.
unfoldable pub parse_loop : ℕ → List ℕ → ℕ → ℕ → Image → M (Option Image)
parse_loop zero buffer size offset image = λ _. out_of_fuel
parse_loop (suc fuel) buffer size offset image =
    if not (ltb offset size) then pure (some image) else do
      signature ← demand (word 0 (drop offset buffer))
      elim (slot_for signature image) [
        | none ↦ free_image image >> pure none
        | some s ↦ do
          element ← parse_element (drop offset buffer)
          elim element [
            | none ↦ free_image (set_slot s none image) >> pure none
            | some e ↦ do
              step ← demand (word 4 (drop offset buffer))
              if ltb ((offset + step) % u32_mod) i32_end
                  then parse_loop fuel buffer size ((offset + step) % u32_mod)
                      (set_slot s (some e) image)
                  else λ _. fault
          ]
      ]

-- The five words that `memcpy` takes into `image->header`.
unfoldable pub read_header : List ℕ → M Header
read_header buffer = do
  signature ← demand (word 0 buffer)
  full ← demand (word 4 buffer)
  part ← demand (word 8 buffer)
  shsh ← demand (word 12 buffer)
  type ← demand (word 16 buffer)
  pure (record {
    signature = signature;
    full_size = full;
    data_size = part;
    shsh_offset = shsh;
    image_type = type;
  })

-- `img3_parse_file`. Each round takes four bytes at least, so `length buffer + 1` rounds are enough.
unfoldable pub parse_file : List ℕ → ℕ → M (Option Image)
parse_file buffer size = do
  signature ← demand (word 0 buffer)
  if not (signature == image_container) then pure none else do
    got ← malloc
    if not got then pure none else do
      got_header ← malloc
      if not got_header then free_image empty_image >> pure none else do
        header ← read_header buffer
        parse_loop (length buffer + 1) buffer size 20 (record empty_image { header = some header })
