-- ===== src/Img3/Signature.antt =====
-- `img3_replace_signature` of idevicerestore/src/img3.c.
pub mod Replace
use irestore.Prelude.{
  ℕ, not, Bool, true, false, List, Option, none, some, drop, ◌==◌, if◌then◌else◌,
}
use irestore.Memory.{M, pure, ◌>>=◌, ◌>>◌}
use irestore.Img3.{
  Slot, ecid_slot, shsh_slot, cert_slot, signature_of, Element, Image, get_slot, set_slot,
  full_size,
}
use irestore.Img3.Parse.{parse_element, free_element}

-- One of the three steps of `img3_replace_signature`: the element at the front of the rest of the
-- signature if it has the type that is wanted, and what stands behind it.
unfoldable pub take_element : Slot → List ℕ → M (Option (Element × List ℕ))
take_element s rest = do
  element ← parse_element rest
  elim element [
    | none ↦ pure none
    | some e ↦
        if not (e.type == signature_of s)
        then pure none
        else do n ← full_size e; pure (some (e, drop n rest))
  ]

unfoldable pub replace_slot : Slot → Element → Image → M Image
replace_slot s e image = free_element (get_slot s image) >> pure (set_slot s (some e) image)

-- `img3_replace_signature`: the image afterwards, and whether the result is 0
unfoldable pub replace_signature : Image → List ℕ → M (Bool × Image)
replace_signature image signature = do
  first ← take_element ecid_slot signature
  elim first [
    | none ↦ pure (false, image)
    | some (ecid, rest) ↦ do
      second ← take_element shsh_slot rest
      elim second [
        | none ↦ pure (false, image)
        | some (shsh, rest') ↦ do
          third ← take_element cert_slot rest'
          elim third [
            | none ↦ pure (false, image)
            | some (cert, _) ↦ do
              with_ecid ← replace_slot ecid_slot ecid image
              with_shsh ← replace_slot shsh_slot shsh with_ecid
              with_cert ← replace_slot cert_slot cert with_shsh
              pure (true, with_cert)
          ]
      ]
  ]
