-- ===== src/Img3/RoundTrip.antt =====
-- `img3_parse_file` reads back what `img3_get_data` wrote.
use irestore.Prelude.{
  ℕ, ◌+◌, ◌*◌, ◌<◌, ◌≡◌, ◌≢◌, refl, ◌∙◌, ap, arith, List, ◌++◌, none, some, length,
}
use mathlib.Core.Path.{subst}
use irestore.Memory.{Mem, ok, grown, grown-grown, malloc-grown, Plenty}
use irestore.Words.{word, word_bytes, word-word_bytes, word_behind, IsU32}
use irestore.Img3.{
  image_container, kbag2_slot, signature_of, Header, Element, Image, slot_order, empty_image,
}
use irestore.Img3.Whole.{count}
use irestore.Img3.Parse.{slot_for, parse_loop, read_header, parse_file}
use irestore.Img3.Build.Output.{body, IsWhole, total_size, file_bytes, shsh_offset}
use irestore.Img3.Refill.{fill, Routes, parse_loop-fill}

-- A second KBAG element comes only with a first.
abbrev pub KbagsInOrder : Image → Type 0
KbagsInOrder i = i.kbag1_element ≡ none → i.kbag2_element ≡ none

slot_for-second_kbag :
    (acc : Image)
    → acc.kbag1_element ≢ none
    → slot_for (signature_of kbag2_slot) acc ≡ some kbag2_slot
unfolding slot_for
slot_for-second_kbag acc h = ground arith

slot_order-Routes :
    (i : Image) (h : Header)
    → KbagsInOrder i
    → Routes slot_order i (record empty_image { header = some h })
unfolding slot_for
slot_order-Routes i h order = (
  refl,
  λ _ _. refl,
  (
    refl,
    λ _ _. refl,
    (
      refl,
      λ _ _. refl,
      (
        refl,
        λ _ _. refl,
        (
          refl,
          λ _ _. refl,
          (
            refl,
            λ _ _. refl,
            (
              refl,
              λ e at_2. second e at_2,
              (
                refl,
                λ _ _. refl,
                (refl, λ _ _. refl, (refl, λ _ _. refl, (refl, λ _ _. refl, tt))),
              ),
            ),
          ),
        ),
      ),
    ),
  ),
)
  where
    acc : Image
    acc =
        record (record (record empty_image {
          header = some h;
          type_element = i.type_element;
          data_element = i.data_element;
        }) { vers_element = i.vers_element; sepo_element = i.sepo_element }) {
          bord_element = i.bord_element;
          kbag1_element = i.kbag1_element;
        }

    second :
        (e : Element)
        → i.kbag2_element ≡ some e
        → slot_for (signature_of kbag2_slot) acc ≡ some kbag2_slot
    second e at_2 = slot_for-second_kbag acc (λ no_first. cc (order no_first))

fill-slot_order :
    (i : Image) (h : Header)
    → fill slot_order i (record empty_image { header = some h }) ≡ record i { header = some h }
unfolding fill
fill-slot_order i h = refl

-- the header of the file that `img3_get_data` writes
abbrev pub written_header : ℕ → Image → Header → Header
written_header junk i h = record {
  signature = h.signature;
  full_size = total_size i;
  data_size = length (body slot_order i);
  shsh_offset = shsh_offset i junk;
  image_type = h.image_type;
}

front_words :
    (a b c d f : ℕ) (rest : List ℕ) (m : Mem)
    → IsU32 a
    → IsU32 b
    → IsU32 c
    → IsU32 d
    → IsU32 f
    → read_header
        (word_bytes a
          ++ (word_bytes b ++ (word_bytes c ++ (word_bytes d ++ (word_bytes f ++ rest)))))
        m
      ≡ ok
          (record { signature = a; full_size = b; data_size = c; shsh_offset = d; image_type = f })
          m
unfolding read_header
front_words a b c d f rest m ha hb hc hd hf =
    let r1 = word_bytes f ++ rest in
    let r2 = word_bytes d ++ r1 in
    let r3 = word_bytes c ++ r2 in
    let r4 = word_bytes b ++ r3 in
    rw (
      word-word_bytes a r4 ha,
      word_behind 0 a r4 ∙ word-word_bytes b r3 hb,
      word_behind 4 a r4 ∙ word_behind 0 b r3 ∙ word-word_bytes c r2 hc,
      word_behind 8 a r4 ∙ word_behind 4 b r3 ∙ word_behind 0 c r2 ∙ word-word_bytes d r1 hd,
      word_behind 12 a r4
          ∙ word_behind 8 b r3
          ∙ word_behind 4 c r2
          ∙ word_behind 0 d r1
          ∙ word-word_bytes f rest hf,
    )

shsh_offset-IsU32 : (i : Image) (junk : ℕ) → IsU32 junk → IsU32 (shsh_offset i junk)
unfolding shsh_offset
shsh_offset-IsU32 i junk h = ground arith

-- What a header must satisfy for the file to be read back.
pub record IsReadable (i : Image) (h : Header) (junk : ℕ) : Type 0 where
  pub whole : IsWhole i h
  pub kbags : KbagsInOrder i
  pub container : h.signature ≡ image_container
  pub type_fits : IsU32 h.image_type
  pub junk_fits : IsU32 junk

pub length-file_bytes :
    (junk : ℕ) (i : Image) (h : Header) → length (file_bytes junk i h) ≡ total_size i
unfolding word_bytes
length-file_bytes junk i h = omega arith

parse_file-parse_loop :
    (buffer : List ℕ) (size : ℕ) (h : Header) (m : Mem)
    → word 0 buffer ≡ some image_container
    → ((m' : Mem) → read_header buffer m' ≡ ok h m')
    → Plenty m
    → parse_file buffer size m
      ≡ parse_loop
          (length buffer + 1)
          buffer
          size
          20
          (record empty_image { header = some h })
          (grown 2 m)
unfolding parse_file
parse_file-parse_loop buffer size h m tag read plenty =
    rw (tag, malloc-grown m plenty, malloc-grown (grown 1 m) plenty, read)
      (ap (parse_loop (length buffer + 1) buffer size 20 (record empty_image { header = some h }))
        (grown-grown 1 1 m))

-- `img3_parse_file` reads what `img3_get_data` wrote for a readable image: every element is back in
-- its field, the header holds the sizes that were written, and the image takes two blocks, and two
-- for each element, of memory that is plenty.
pub parse_file-file_bytes :
    (junk : ℕ) (i : Image) (h : Header) (m : Mem)
    → IsReadable i h junk
    → Plenty m
    → parse_file (file_bytes junk i h) (total_size i) m
      ≡ ok
          (some (record i { header = some (written_header junk i h) }))
          (grown (2 + 2 * count slot_order i) m)
parse_file-file_bytes junk i h m r plenty =
    let w = r.whole in
    let fits : 20 + length (body slot_order i) < 2147483648 = w.fits in
    let n : ℕ = length (body slot_order i) in
    let s : ℕ = shsh_offset i junk in
    let h' = written_header junk i h in
    let buffer = file_bytes junk i h in
    let len : length buffer ≡ 20 + n = length-file_bytes junk i h in
    let front =
      word_bytes h.signature
      ++ (word_bytes (20 + n) ++ (word_bytes n ++ (word_bytes s ++ (word_bytes h.image_type)))) in
    let sig : IsU32 h.signature = rw (r.container) (omega arith) in
    let s_fits = shsh_offset-IsU32 i junk (r.junk_fits) in
    let read = λ (m' : Mem).
      front_words h.signature (20 + n) n s h.image_type (body slot_order i) m' sig (omega arith)
        (omega arith) s_fits (r.type_fits) in
    let tag : word 0 buffer ≡ some image_container =
      word-word_bytes h.signature _ sig ∙ ap some (r.container) in
    let start = record empty_image { header = some h' } in
    let loop =
      parse_loop-fill slot_order (length buffer + 1) buffer front 20 i start (grown 2 m)
        (w.elements) (slot_order-Routes i h' (r.kbags)) (unfold word_bytes in refl)
        (unfold word_bytes in refl) (omega arith) (omega arith) plenty in
    parse_file-parse_loop buffer (20 + n) h' m tag read plenty
    ∙ subst
        (λ (t : ℕ).
          parse_loop (length buffer + 1) buffer t 20 start (grown 2 m)
          ≡ ok (some (fill slot_order i start)) (grown (2 * count slot_order i) (grown 2 m)))
        len loop
    ∙ rw (fill-slot_order i h')
        (ap (ok (some (record i { header = some h' }))) (grown-grown 2 (2 * count slot_order i) m))
