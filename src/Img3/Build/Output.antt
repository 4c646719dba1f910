-- ===== src/Img3/Build/Output.antt =====
-- What `img3_get_data` writes for a whole image.
use irestore.Prelude.{
  ℕ, ◌+◌, ◌-◌, ◌%◌, ◌≤◌, ◌<◌, ◌≡◌, refl, ◌∙◌, ap, arith, inl, inr, List, [], ◌∷◌, ◌++◌,
  append_assoc, append-nil, Option, none, some, length, length-append, le→leb, lt→ltb, eq→==,
  if◌then◌else◌, take_all, Bool-cases, Option-cases,
}
use irestore.Memory.{Mem, ok, malloc, demand_bind}
use irestore.Words.{word_bytes}
use irestore.Img3.{
  data_slot, vers_slot, sepo_slot, bord_slot, kbag1_slot, kbag2_slot, ecid_slot, shsh_slot,
  cert_slot, unkn_slot, type_slot, Slot, Header, Element, Image, get_slot, slot_order,
}
use irestore.Img3.Whole.{AllElements}
use irestore.Img3.Build.{sum_sizes, copy_slots, note_shsh, write_file, get_data}

abbrev pub bytes_of : Option Element → List ℕ
bytes_of none = []
bytes_of (some e) = e.bytes

-- the elements of an image, one behind the other
unfoldable pub body : List Slot → Image → List ℕ
body [] i = []
body (s ∷ ss) i = bytes_of (get_slot s i) ++ body ss i

shsh_fold : List Slot → Image → ℕ → ℕ → ℕ
shsh_fold [] i offset shsh = shsh
shsh_fold (s ∷ ss) i offset shsh = elim (get_slot s i) [
  | none ↦ shsh_fold ss i offset shsh
  | some e ↦ shsh_fold ss i (offset + length e.bytes) (note_shsh s offset shsh)
]

-- The turns of these slots leave `shsh_offset` alone.
abbrev KeepsShsh : List Slot → Type 0
KeepsShsh [] = Unit {0}
KeepsShsh (s ∷ ss) = ((offset shsh : ℕ) → note_shsh s offset shsh ≡ shsh) × KeepsShsh ss

shsh_fold-append :
    (before rest : List Slot) (i : Image) (offset shsh : ℕ)
    → KeepsShsh before
    → shsh_fold (before ++ rest) i offset shsh
      ≡ shsh_fold rest i (offset + length (body before i)) shsh
unfolding shsh_fold body
shsh_fold-append [] rest i offset shsh keeps = ap (λ (t : ℕ). shsh_fold rest i t shsh) (omega arith)
shsh_fold-append (s ∷ ss) rest i offset shsh (keep, keeps) = elim (Option-cases (get_slot s i)) [
  | inl e ↦ rw (e, shsh_fold) (shsh_fold-append ss rest i offset shsh keeps)
  | inr (x, e) ↦
      rw (e, shsh_fold, keep offset shsh)
        (shsh_fold-append ss rest i (offset + length x.bytes) shsh keeps
          ∙ ap (λ (t : ℕ). shsh_fold rest i t shsh)
              (omega (arith, length-append x.bytes (body ss i))))
]

abbrev before_shsh : List Slot
before_shsh =
    type_slot ∷ data_slot ∷ vers_slot ∷ sepo_slot ∷ bord_slot ∷ kbag1_slot ∷ kbag2_slot ∷ ecid_slot
    ∷ []

-- The length of the elements in front of the SHSH element; without one, the word that was there.
unfoldable pub shsh_offset : Image → ℕ → ℕ
unfolding body
shsh_offset i junk = elim i.shsh_element [
  | none ↦ junk
  | some _ ↦ length (body before_shsh i) % 4294967296
]

shsh_behind :
    (i : Image) (offset shsh : ℕ) → shsh_fold (cert_slot ∷ unkn_slot ∷ []) i offset shsh ≡ shsh
shsh_behind i offset shsh =
    shsh_fold-append (cert_slot ∷ unkn_slot ∷ []) [] i offset shsh (λ _ _. refl, (λ _ _. refl, tt))
    ∙ unfold shsh_fold in refl

shsh_turn :
    (i : Image) (offset junk : ℕ)
    → shsh_fold (shsh_slot ∷ cert_slot ∷ unkn_slot ∷ []) i (0 + offset) junk
      ≡ elim i.shsh_element [ none ↦ junk | some _ ↦ offset % 4294967296 ]
unfolding shsh_fold
shsh_turn i offset junk = elim (Option-cases i.shsh_element) [
  | inl e ↦ ground (arith, shsh_behind i (0 + offset) junk)
  | inr (x, e) ↦
      ground (arith, shsh_behind i (0 + offset + length x.bytes) ((0 + offset) % 4294967296))
]

shsh_fold-shsh_offset : (i : Image) (junk : ℕ) → shsh_fold slot_order i 0 junk ≡ shsh_offset i junk
unfolding shsh_offset
shsh_fold-shsh_offset i junk =
    shsh_fold-append before_shsh (shsh_slot ∷ cert_slot ∷ unkn_slot ∷ []) i 0 junk (
      λ _ _. refl,
      (
        λ _ _. refl,
        (
          λ _ _. refl,
          (λ _ _. refl, (λ _ _. refl, (λ _ _. refl, (λ _ _. refl, (λ _ _. refl, tt))))),
        ),
      ),
    )
    ∙ shsh_turn i (length (body before_shsh i)) junk

module _ (i : Image) (whole : AllElements i) where
  sum_sizes-length :
      (ss : List Slot) (size : ℕ) (m : Mem)
      → size + length (body ss i) < 4294967296
      → sum_sizes ss i size m ≡ ok (size + length (body ss i)) m
  unfolding sum_sizes body
  sum_sizes-length [] size m fits = ground arith
  sum_sizes-length (s ∷ ss) size m fits = elim (Option-cases (get_slot s i)) [
    | inl e ↦ rw (e, sum_sizes) (sum_sizes-length ss size m (rw e at fits))
    | inr (x, e) ↦
        let len : length (x.bytes ++ body ss i) ≡ length x.bytes + length (body ss i) =
          length-append x.bytes (body ss i) in
        let fits' = rw (e) at fits in
        let wide : size + length x.bytes + length (body ss i) < 4294967296 = omega arith in
        let step : (size + length x.bytes) % 4294967296 ≡ size + length x.bytes = omega arith in
        rw (e, sum_sizes, (whole s x e).sized, step)
          (sum_sizes-length ss (size + length x.bytes) m wide ∙ ap (λ t. ok t m) (omega arith))
  ]

  copy_slots-body :
      (ss : List Slot) (room : ℕ) (out : List ℕ) (shsh : ℕ) (m : Mem)
      → 20 + length out + length (body ss i) ≤ room
      → copy_slots ss i room out shsh m ≡ ok (out ++ body ss i, shsh_fold ss i (length out) shsh) m
  unfolding copy_slots body shsh_fold
  copy_slots-body [] room out shsh m fits = rw append-nil
  copy_slots-body (s ∷ ss) room out shsh m fits = elim (Option-cases (get_slot s i)) [
    | inl e ↦ rw (e, copy_slots, shsh_fold) (copy_slots-body ss room out shsh m (rw e at fits))
    | inr (x, e) ↦
        let fits' = rw (e) at fits in
        let len : length (x.bytes ++ body ss i) ≡ length x.bytes + length (body ss i) =
          length-append x.bytes (body ss i) in
        let out_len : length (out ++ x.bytes) ≡ length out + length x.bytes =
          length-append out x.bytes in
        let room' : 20 + length (out ++ x.bytes) + length (body ss i) ≤ room = omega arith in
        rw
          (
            e,
            copy_slots,
            shsh_fold,
            (whole s x e).sized,
            le→leb (length x.bytes) (length x.bytes) (omega arith),
            take_all x.bytes,
            le→leb (20 + length out + length x.bytes) room (omega arith),
          )
          (copy_slots-body ss room (out ++ x.bytes) (note_shsh s (length out) shsh) m room'
            ∙ rw (out_len, append_assoc))
  ]

-- An image that can be written: it has a header, its elements are whole, and the file stays below
-- 2^31 bytes.
pub record IsWhole (i : Image) (h : Header) : Type 0 where
  pub has_header : i.header ≡ some h
  pub elements : AllElements i
  pub fits : 20 + length (body slot_order i) < 2147483648

abbrev pub total_size : Image → ℕ
total_size i = 20 + length (body slot_order i)

-- the file that `img3_get_data` writes: five words and the elements
abbrev pub file_bytes : ℕ → Image → Header → List ℕ
file_bytes junk i h =
    word_bytes h.signature
    ++ (word_bytes (total_size i)
        ++ (word_bytes (length (body slot_order i))
            ++ (word_bytes (shsh_offset i junk) ++ (word_bytes h.image_type ++ body slot_order i))))

write_file-file_bytes :
    (junk : ℕ) (i : Image) (h : Header) (m : Mem)
    → IsWhole i h
    → write_file junk i (total_size i) h m ≡ ok (some (file_bytes junk i h, total_size i)) m
unfolding write_file
write_file-file_bytes junk i h m w =
    let fits : 20 + length (body slot_order i) < 2147483648 = w.fits in
    let part : (20 + length (body slot_order i) + 4294967296 - 20) % 4294967296
        ≡ length (body slot_order i) =
      omega arith in
    rw (
      lt→ltb (20 + length (body slot_order i)) 2147483648 fits,
      copy_slots-body i w.elements slot_order (20 + length (body slot_order i)) [] junk m
          (omega arith),
      eq→== ((20 + length (body slot_order i)) % 4294967296) (20 + length (body slot_order i))
          (omega arith),
      part,
      shsh_fold-shsh_offset i junk,
    )

-- On a whole image `img3_get_data` fails only if `malloc` does. Otherwise it returns the header
-- words and the elements in order, as many bytes as it says, in one new block.
pub get_data-file_bytes :
    (junk : ℕ) (i : Image) (h : Header) (m : Mem)
    → IsWhole i h
    → get_data junk i m ≡ (
        if m.grants m.calls
        then ok
            (some (file_bytes junk i h, total_size i))
            (record m { calls = m.calls + 1; live = m.live + 1 })
        else ok none (record m { calls = m.calls + 1 }))
unfolding get_data malloc
get_data-file_bytes junk i h m w =
    let fits : 20 + length (body slot_order i) < 2147483648 = w.fits in
    rw (sum_sizes-length i w.elements slot_order 20 m (omega arith))
      (elim (Bool-cases (m.grants m.calls)) [
        | inr refused ↦ rw refused
        | inl granted ↦
            rw
              (
                granted,
                lt→ltb (20 + length (body slot_order i)) 2147483648 fits,
                le→leb 20 (20 + length (body slot_order i)) (omega arith),
              )
              (demand_bind i.header h (write_file junk i (total_size i)) _ w.has_header
                ∙ write_file-file_bytes junk i h _ w)
      ])
