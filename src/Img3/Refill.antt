-- ===== src/Img3/Refill.antt =====
-- The loop of `img3_parse_file` on elements that stand one behind the other.
use irestore.Prelude.{
  ℕ, zero, suc, ◌+◌, ◌*◌, ◌%◌, ◌≤◌, ◌<◌, ◌≡◌, sym, ◌∙◌, ap, arith, inl, inr, List, [], ◌∷◌, ◌++◌,
  append_assoc, append-nil, none, some, length, length-append, drop, drop-append, lt→ltb, le→ltb,
  Option-cases,
}
use irestore.Memory.{Mem, ok, demand_bind, grown, grown-grown, Plenty}
use irestore.Words.{word, word-append, word-length}
use irestore.Img3.{Slot, type_slot, signature_of, Element, Image, get_slot, set_slot}
use irestore.Img3.Whole.{IsElement, AllElements, count, parse_element-bytes}
use irestore.Img3.Parse.{slot_for, parse_loop}
use irestore.Img3.Build.Output.{body}

-- the image with the elements of the other one in the slots
unfoldable pub fill : List Slot → Image → Image → Image
fill [] src acc = acc
fill (s ∷ ss) src acc = fill ss src (set_slot s (get_slot s src) acc)

-- The parser sends each element back to the field that it came from.
abbrev pub Routes : List Slot → Image → Image → Type 0
Routes [] src acc = Unit {0}
Routes (s ∷ ss) src acc =
    (get_slot s acc ≡ none)
    × ((e : Element) → get_slot s src ≡ some e → slot_for (signature_of s) acc ≡ some s)
    × Routes ss src (set_slot s (get_slot s src) acc)

set_slot-none : (s : Slot) (acc : Image) → get_slot s acc ≡ none → set_slot s none acc ≡ acc
set_slot-none type_slot acc h = ground arith
set_slot-none _ acc h = ground arith

-- One round of the loop, on an element that stands at the offset.
parse_loop-step :
    (fuel : ℕ) (buffer rest : List ℕ) (size offset : ℕ) (acc : Image) (s : Slot) (e : Element)
    (m : Mem)
    → drop offset buffer ≡ e.bytes ++ rest
    → offset < size
    → offset + length e.bytes < 2147483648
    → IsElement s e
    → slot_for (signature_of s) acc ≡ some s
    → Plenty m
    → parse_loop (suc fuel) buffer size offset acc m
      ≡ parse_loop fuel buffer size (offset + length e.bytes) (set_slot s (some e) acc) (grown 2 m)
unfolding parse_loop
parse_loop-step fuel buffer rest size offset acc s e m at_offset more small is route plenty =
    let step : (offset + length e.bytes) % 4294967296 ≡ offset + length e.bytes = omega arith in
    let tag : word 0 (e.bytes ++ rest) ≡ some (signature_of s) =
      word-append 0 e.bytes rest (is.tagged ∙ ap some (is.kind)) in
    rw (lt→ltb offset size more, at_offset)
      (demand_bind (word 0 (e.bytes ++ rest)) (signature_of s) _ m tag
        ∙ rw (route, at_offset, parse_element-bytes s e rest m is plenty)
            (rw (
              at_offset,
              word-append 4 e.bytes rest (is.sized),
              step,
              lt→ltb (offset + length e.bytes) 2147483648 small,
            )))

parse_loop-end :
    (fuel : ℕ) (buffer : List ℕ) (size offset : ℕ) (acc : Image) (m : Mem)
    → size ≤ offset
    → parse_loop (suc fuel) buffer size offset acc m ≡ ok (some acc) m
unfolding parse_loop
parse_loop-end fuel buffer size offset acc m past = rw (le→ltb offset size past)

pub parse_loop-fill :
    (ss : List Slot) (fuel : ℕ) (buffer front : List ℕ) (offset : ℕ) (src acc : Image) (m : Mem)
    → AllElements src
    → Routes ss src acc
    → buffer ≡ front ++ body ss src
    → offset ≡ length front
    → length (body ss src) < fuel
    → length buffer < 2147483648
    → Plenty m
    → parse_loop fuel buffer (length buffer) offset acc m
      ≡ ok (some (fill ss src acc)) (grown (2 * count ss src) m)
unfolding fill count body
parse_loop-fill ss zero buffer front offset src acc m whole routes is at enough small plenty =
    absurd (omega arith)
parse_loop-fill [] (suc fuel) buffer front offset src acc m whole routes is at enough small plenty =
    let same : buffer ≡ front = is ∙ append-nil front in
    let len : length buffer ≤ offset = omega (arith, ap length same) in
    parse_loop-end fuel buffer (length buffer) offset acc m len ∙ ground arith
parse_loop-fill (s ∷ ss) (suc fuel) buffer front offset src acc m whole (free_slot, route, routes)
      is at enough small plenty =
    elim (Option-cases (get_slot s src)) [
      | inl e ↦
          rw (e, count, set_slot-none s acc free_slot)
            (parse_loop-fill ss (suc fuel) buffer front offset src acc m whole
              (rw (e, set_slot-none s acc free_slot) at routes) (rw e at is) at (rw e at enough)
              small plenty)
      | inr (x, e) ↦
          let el = whole s x e in
          let len : length (x.bytes ++ body ss src) ≡ length x.bytes + length (body ss src) =
            length-append x.bytes (body ss src) in
          let is' : buffer ≡ front ++ (x.bytes ++ body ss src) = rw e at is in
          let enough' : length (x.bytes ++ body ss src) < suc fuel = rw e at enough in
          let total = ap length is' ∙ length-append front (x.bytes ++ body ss src) in
          let eight = word-length 4 x.bytes (el.sized) in
          rw (e, count)
            (parse_loop-step fuel buffer (body ss src) (length buffer) offset acc s x m
                (rw (is', at) (drop-append front (x.bytes ++ body ss src))) (omega arith)
                (omega arith) el (route x e) plenty
              ∙ parse_loop-fill ss fuel buffer (front ++ x.bytes) (offset + length x.bytes) src
                  (set_slot s (some x) acc) (grown 2 m) whole (rw e at routes)
                  (is' ∙ sym (append_assoc front x.bytes (body ss src)))
                  (omega (arith, length-append front x.bytes)) (omega arith) small plenty
              ∙ ap (λ t. ok (some (fill ss src (set_slot s (some x) acc))) t)
                  (grown-grown 2 (2 * count ss src) m ∙ ap (λ (t : ℕ). grown t m) (omega arith)))
    ]
