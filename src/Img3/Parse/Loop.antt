-- ===== src/Img3/Parse/Loop.antt =====
-- The loop of `img3_parse_file` ends, and fills the image from the buffer.
use irestore.Prelude.{
  ℕ, zero, suc, ◌+◌, ◌%◌, ◌≤◌, ◌<◌, ◌≡◌, refl, arith, inl, inr, not, List, [], ◌∷◌, Option, none,
  some, length, drop, ltb, ◌==◌, Option-cases,
}
use irestore.Memory.{
  ◌>>◌, pure, Mem, Ensures, ends, faults, bind, mono, branch, malloc-Ensures, free-Ensures,
  demand-Ensures,
}
use irestore.Words.{word, word-length}
use irestore.Img3.{
  image_container, Slot, type_slot, Header, Element, Image, get_slot, set_slot, slot_order,
  empty_image,
}
use irestore.Img3.Parse.{
  slot_for, free_element, free_slots, free_header, free_image, parse_loop, read_header, parse_file,
}
use irestore.Img3.Parse.Sound.{
  IsParsed, IsParsed-set_slot, parse_element-IsAt, slot_for-signature_of,
}

free_element-Ensures : (e : Option Element) (m : Mem) → Ensures (λ _ _. Unit {0}) (free_element e m)
unfolding free_element
free_element-Ensures none m = ends tt
free_element-Ensures (some e) m = bind (free-Ensures m) λ _ m' _. free-Ensures m'

free_slots-Ensures :
    (ss : List Slot) (i : Image) (m : Mem) → Ensures (λ _ _. Unit {0}) (free_slots ss i m)
unfolding free_slots
free_slots-Ensures [] i m = ends tt
free_slots-Ensures (s ∷ ss) i m =
    bind (free_element-Ensures (get_slot s i) m) λ _ m' _. free_slots-Ensures ss i m'

pub free_image-Ensures : (i : Image) (m : Mem) → Ensures (λ _ _. Unit {0}) (free_image i m)
unfolding free_image free_header
free_image-Ensures i m =
    bind (bind (header i.header m) λ _ m₁ _. free_slots-Ensures slot_order i m₁)
      λ _ m₂ _. free-Ensures m₂
  where
    header : (h : Option Header) (m : Mem) → Ensures (λ _ _. Unit {0}) (free_header h m)
    header none m = ends tt
    header (some h) m = free-Ensures m

-- A null result, or an image that stands for the buffer.
abbrev pub Outcome : List ℕ → Option Header → Option Image → Mem → Type 0
Outcome buffer h r m = (i : Image) → r ≡ some i → IsParsed buffer h i

give_up :
    (buffer : List ℕ) (h : Option Header) (i : Image) (m : Mem)
    → Ensures (Outcome buffer h) ((free_image i >> pure none) m)
give_up buffer h i m = bind (free_image-Ensures i m) λ _ _ _. ends λ j e. cc

-- The next offset is the end of the element: it neither wraps nor passes the end of the buffer.
no_wrap :
    (offset step len : ℕ)
    → offset + step ≤ len
    → len < 2147483648
    → (offset + step) % 4294967296 ≡ offset + step
no_wrap offset step len h small = omega arith

module _ (buffer : List ℕ) (size : ℕ) (small : length buffer < 2147483648) (h : Option Header) where
  parse_loop-Outcome :
      (fuel offset : ℕ) (i : Image) (m : Mem)
      → length buffer < offset + fuel
      → offset ≤ length buffer
      → IsParsed buffer h i
      → Ensures (Outcome buffer h) (parse_loop fuel buffer size offset i m)
  unfolding parse_loop
  parse_loop-Outcome zero offset i m enough inside p = absurd (omega arith)
  parse_loop-Outcome (suc fuel) offset i m enough inside p =
      branch (not (ltb offset size)) _ _ m (λ _. ends λ j e. let same : i ≡ j = cc in rw same at p)
        λ _. bind (demand-Ensures (word 0 (drop offset buffer)) m) λ x m₁ read.
          elim (Option-cases (slot_for x i)) [
            | inl unknown ↦ rw unknown (give_up buffer h i m₁)
            | inr (s, known) ↦ rw known (
                bind (parse_element-IsAt buffer offset m₁) λ r m₂ parsed. elim (Option-cases r) [
                  | inl failed ↦ rw failed (give_up buffer h (set_slot s none i) m₂)
                  | inr (e, got) ↦
                      let found = parsed e got in
                      rw got (
                        bind (demand-Ensures (word 4 (drop offset buffer)) m₂) λ n m₃ step.
                          let size_eq : n ≡ length e.bytes = cc (found.sized) in
                          let next : (offset + n) % 4294967296 ≡ offset + n =
                            no_wrap offset n (length buffer) (omega (arith, found.within)) small in
                          branch (ltb ((offset + n) % 4294967296) 2147483648) _ _ m₃
                            (λ _.
                              parse_loop-Outcome fuel ((offset + n) % 4294967296)
                                (set_slot s (some e) i) m₃ (omega (arith, found.whole))
                                (omega (arith, found.within))
                                (IsParsed-set_slot buffer h i s e p (record {
                                  offset = offset;
                                  found = found;
                                  kind = cc (found.tagged, slot_for-signature_of x i s known);
                                })))
                            λ _. faults)
                ])
          ]

-- The five words at the front of the buffer.
pub record IsHeader (buffer : List ℕ) (h : Header) : Type 0 where
  pub signature : word 0 buffer ≡ some h.signature
  pub full_size : word 4 buffer ≡ some h.full_size
  pub data_size : word 8 buffer ≡ some h.data_size
  pub shsh_offset : word 12 buffer ≡ some h.shsh_offset
  pub image_type : word 16 buffer ≡ some h.image_type

read_header-IsHeader :
    (buffer : List ℕ) (m : Mem) → Ensures (λ h _. IsHeader buffer h) (read_header buffer m)
unfolding read_header
read_header-IsHeader buffer m = bind (demand-Ensures (word 0 buffer) m) λ a m₁ at_0.
    bind (demand-Ensures (word 4 buffer) m₁) λ b m₂ at_4.
      bind (demand-Ensures (word 8 buffer) m₂) λ c m₃ at_8.
        bind (demand-Ensures (word 12 buffer) m₃) λ d m₄ at_12.
          bind (demand-Ensures (word 16 buffer) m₄) λ f m₅ at_16. ends (record {
            signature = at_0;
            full_size = at_4;
            data_size = at_8;
            shsh_offset = at_12;
            image_type = at_16;
          })

-- An image that `img3_parse_file` returned: its header is the buffer's and has the container's
-- signature, and every element is a part of the buffer.
pub record IsImageOf (buffer : List ℕ) (i : Image) : Type 0 where
  pub header : Header
  pub read : IsHeader buffer header
  pub container : header.signature ≡ image_container
  pub parsed : IsParsed buffer (some header) i

empty-IsParsed :
    (buffer : List ℕ) (h : Header)
    → IsParsed buffer (some h) (record empty_image { header = some h })
empty-IsParsed buffer h = record {
  kept = refl;
  elements = λ s e at_s. absurd (no_element s e at_s);
}
  where
    no_element :
        (s : Slot) (e : Element) → get_slot s (record empty_image { header = some h }) ≡ some e → ⊥
    no_element type_slot e at_s = cc
    no_element _ e at_s = cc

-- On every buffer shorter than 2^31 bytes, with any declared size and any supply of memory,
-- `img3_parse_file` ends: it reads outside the buffer, or it returns null, or it returns an image
-- whose header is the buffer's, with the container's signature, and each of whose elements is the
-- part of the buffer that the element's own header delimits, in the field of its signature.
pub parse_file-IsImageOf :
    (buffer : List ℕ) (size : ℕ) (m : Mem)
    → length buffer < 2147483648
    → Ensures (λ r _. (i : Image) → r ≡ some i → IsImageOf buffer i) (parse_file buffer size m)
unfolding parse_file
parse_file-IsImageOf buffer size m small = bind (demand-Ensures (word 0 buffer) m) λ x m₁ read.
    branch (not (x == image_container)) _ _ m₁ (λ _. ends λ i e. cc)
      λ container. bind (malloc-Ensures m₁) λ got m₂ _.
        branch (not got) _ _ m₂ (λ _. ends λ i e. cc)
          λ _. bind (malloc-Ensures m₂) λ got_header m₃ _.
            branch (not got_header) _ _ m₃
              (λ _. bind (free_image-Ensures empty_image m₃) λ _ _ _. ends λ i e. cc)
              λ _. bind (read_header-IsHeader buffer m₃) λ h m₄ is.
                let x_eq : x ≡ h.signature = cc (is.signature) in
                mono
                  (parse_loop-Outcome buffer size small (some h) (length buffer + 1) 20 _ m₄
                    (omega arith) (word-length 16 buffer (is.image_type)) (empty-IsParsed buffer h))
                  λ r m₅ out i e. record {
                    header = h;
                    read = is;
                    container = ground arith;
                    parsed = out i e;
                  }
