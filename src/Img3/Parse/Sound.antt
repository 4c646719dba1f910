-- ===== src/Img3/Parse/Sound.antt =====
-- What `img3_parse_element` and `img3_parse_file` return, on any buffer.
use irestore.Prelude.{
  ℕ, ◌+◌, ◌≤◌, ◌≡◌, sym, ◌∙◌, arith, not, List, Option, some, length, length-take, length-drop,
  take, drop,
}
use irestore.Memory.{
  Mem, Ensures, ends, bind, free-Ensures, malloc-Ensures, memcpy-Ensures, branch, demand-Ensures,
}
use irestore.Words.{word, front_word-take}
use irestore.Img3.{Slot, signature_of, Header, Element, Image, get_slot, set_slot}
use irestore.Img3.Slots.{get_slot-set_slot, get_slot-set_ne, Slot-cases, header-set_slot}
use irestore.Img3.Parse.{slot_for, parse_element}

-- The element is the part of the buffer at `offset` that its own header delimits.
pub record IsAt (buffer : List ℕ) (offset : ℕ) (e : Element) : Type 0 where
  pub tagged : word 0 (drop offset buffer) ≡ some e.type
  pub sized : word 4 (drop offset buffer) ≡ some (length e.bytes)
  pub copied : e.bytes ≡ take (length e.bytes) (drop offset buffer)
  pub within : offset + length e.bytes ≤ length buffer
  pub whole : 4 ≤ length e.bytes

slice :
    (buffer : List ℕ) (offset n : ℕ) (bytes : List ℕ) (s : ℕ)
    → word 4 (drop offset buffer) ≡ some n
    → (bytes ≡ take n (drop offset buffer)) × (n ≤ length (drop offset buffer))
    → word 0 bytes ≡ some s
    → (e : Element) → some (record { bytes = bytes; type = s }) ≡ some e
    → IsAt buffer offset e
unfolding word
slice buffer offset n bytes s sized (copied, fits) tagged e h =
    let prefix = front_word-take n (drop offset buffer) (rw copied at tagged) in
    let e_bytes : e.bytes ≡ bytes = cc in
    let size : length e.bytes ≡ n =
      rw (e_bytes, copied) (length-take n (drop offset buffer) fits) in
    let there = rw length-drop at fits in
    record {
      tagged = cc (prefix.0);
      sized = rw size sized;
      copied = rw size (rw (e_bytes) copied);
      within = omega (arith, size, there, prefix.1);
      whole = rw size prefix.1;
    }

pub parse_element-IsAt :
    (buffer : List ℕ) (offset : ℕ) (m : Mem)
    → Ensures
        (λ r _. (e : Element) → r ≡ some e → IsAt buffer offset e)
        (parse_element (drop offset buffer) m)
unfolding parse_element
parse_element-IsAt buffer offset m = bind (malloc-Ensures m) λ got m₁ _.
    branch (not got) _ _ m₁ (λ _. ends λ e h. cc)
      λ _. bind (demand-Ensures (word 4 (drop offset buffer)) m₁) λ n m₂ sized.
        bind (malloc-Ensures m₂) λ got_data m₃ _.
          branch (not got_data) _ _ m₃ (λ _. bind (free-Ensures m₃) λ _ _ _. ends λ e h. cc)
            λ _. bind (memcpy-Ensures n (drop offset buffer) m₃) λ bytes m₄ copied.
              bind (demand-Ensures (word 0 bytes) m₄)
                λ s m₅ tagged. ends λ e h. slice buffer offset n bytes s sized copied tagged e h

-- The `switch` sends an element only to a field with its signature.
pub slot_for-signature_of :
    (x : ℕ) (i : Image) (s : Slot) → slot_for x i ≡ some s → x ≡ signature_of s
unfolding slot_for
slot_for-signature_of x i s h = ground arith

-- Every field holds an element of the buffer that has the field's signature.
pub record FromBuffer (buffer : List ℕ) (s : Slot) (e : Element) : Type 0 where
  pub offset : ℕ
  pub found : IsAt buffer offset e
  pub kind : e.type ≡ signature_of s

pub record IsParsed (buffer : List ℕ) (h : Option Header) (i : Image) : Type 0 where
  pub kept : i.header ≡ h
  pub elements : (s : Slot) (e : Element) → get_slot s i ≡ some e → FromBuffer buffer s e

pub IsParsed-set_slot :
    (buffer : List ℕ) (h : Option Header) (i : Image) (s : Slot) (e : Element)
    → IsParsed buffer h i
    → FromBuffer buffer s e
    → IsParsed buffer h (set_slot s (some e) i)
IsParsed-set_slot buffer h i s e p new = record {
  kept = header-set_slot s (some e) i ∙ p.kept;
  elements = λ t e' at_t. elim (Slot-cases s t) [
    | yes same ↦
        let found = rw (← same) at at_t in
        let e_eq : e' ≡ e = cc (get_slot-set_slot s (some e) i) in rw (← same, e_eq) new
    | no other ↦ p.elements t e' (sym (get_slot-set_ne s t (some e) i other) ∙ at_t)
  ];
}
