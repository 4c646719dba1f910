-- ===== src/Img3/Whole.antt =====
-- Elements that agree with their own headers, and the parser on one of them.
use irestore.Prelude.{
  ℕ, ◌+◌, ◌≡◌, arith, List, [], ◌∷◌, ◌++◌, none, some, length, length-append, take-append, le→leb,
}
use irestore.Memory.{Mem, ok, grown, malloc-grown, Plenty}
use irestore.Words.{word, word-append}
use irestore.Img3.{Slot, signature_of, Element, Image, get_slot}
use irestore.Img3.Parse.{parse_element}

-- An element whose header agrees with its bytes and with the field that holds it.
pub record IsElement (s : Slot) (e : Element) : Type 0 where
  pub tagged : word 0 e.bytes ≡ some e.type
  pub sized : word 4 e.bytes ≡ some (length e.bytes)
  pub kind : e.type ≡ signature_of s

abbrev pub AllElements : Image → Type 0
AllElements i = (s : Slot) (e : Element) → get_slot s i ≡ some e → IsElement s e

-- how many elements an image has
unfoldable pub count : List Slot → Image → ℕ
count [] src = 0
count (s ∷ ss) src = elim (get_slot s src) [ none ↦ count ss src | some _ ↦ count ss src + 1 ]

pub parse_element-bytes :
    (s : Slot) (e : Element) (rest : List ℕ) (m : Mem)
    → IsElement s e
    → Plenty m
    → parse_element (e.bytes ++ rest) m ≡ ok (some e) (grown 2 m)
unfolding parse_element
parse_element-bytes s e rest m is plenty =
    rw
      (
        malloc-grown m plenty,
        word-append 4 e.bytes rest (is.sized),
        malloc-grown (grown 1 m) plenty,
        le→leb (length e.bytes) (length (e.bytes ++ rest))
            (omega (arith, length-append e.bytes rest)),
        take-append e.bytes rest,
        is.tagged,
      )
      (ground arith)
