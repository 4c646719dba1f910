-- ===== src/Img3/Release.antt =====
-- Writing an image and reading it back, and what `img3_free` gives back.
use irestore.Prelude.{
  ℕ, ◌+◌, ◌*◌, ◌≡◌, refl, ◌∙◌, ap, arith, inl, inr, List, [], ◌∷◌, Option, none, some, Option-cases,
}
use irestore.Memory.{Mem, M, ok, pure, ◌>>=◌, free, grown, grown-grown, Plenty}
use irestore.Img3.{Slot, Header, Image, get_slot, slot_order}
use irestore.Img3.Whole.{count}
use irestore.Img3.Parse.{free_slots, free_header, free_image, parse_file}
use irestore.Img3.Build.{get_data}
use irestore.Img3.Build.Output.{get_data-file_bytes, total_size, file_bytes}
use irestore.Img3.RoundTrip.{IsReadable, written_header, parse_file-file_bytes}
use irestore.Img3.Signature.Replace.{released, free_element-released}

free_slots-released :
    (ss : List Slot) (i : Image) (m : Mem) → free_slots ss i m ≡ ok tt (released (2 * count ss i) m)
unfolding free_slots count
free_slots-released [] i m = ground arith
free_slots-released (s ∷ ss) i m = elim (Option-cases (get_slot s i)) [
  | inl e ↦
      rw (free_element-released, e, count) (free_slots-released ss i (released 0 m) ∙ ground arith)
  | inr (x, e) ↦
      rw (free_element-released, e, count) (free_slots-released ss i (released 2 m) ∙ ground arith)
]

free_header-released :
    (o : Option Header) (h : Header) (m : Mem) → o ≡ some h → free_header o m ≡ ok tt (released 1 m)
unfolding free_header free
free_header-released o h m e = rw e

-- `img3_free` releases the image, its header if it has one, and two blocks for each element.
pub free_image-released :
    (i : Image) (h : Header) (m : Mem)
    → i.header ≡ some h
    → free_image i m ≡ ok tt (released (2 + 2 * count slot_order i) m)
unfolding free_image free
free_image-released i h m has =
    rw (free_header-released i.header h m has, free_slots-released slot_order i (released 1 m))
      (ground arith)

-- parse what `img3_get_data` returned
abbrev pub read_back : Option (List ℕ × ℕ) → M (Option Image)
read_back none = pure none
read_back (some (file, size)) = parse_file file size

abbrev pub free_result : Option Image → M (Unit {0})
free_result none = pure tt
free_result (some i) = free_image i

-- With plenty of memory, `img3_get_data` of a readable image and then `img3_parse_file` of what it
-- wrote give the image back: every element in its field, and a header with the sizes that were
-- written and the same type. One block is the file, two are the image and its header, and each
-- element takes two.
pub get_data-read_back :
    (junk : ℕ) (i : Image) (h : Header) (m : Mem)
    → IsReadable i h junk
    → Plenty m
    → (get_data junk i >>= read_back) m
      ≡ ok
          (some (record i { header = some (written_header junk i h) }))
          (grown (3 + 2 * count slot_order i) m)
get_data-read_back junk i h m r plenty =
    rw (get_data-file_bytes junk i h m (r.whole), plenty m.calls)
      (parse_file-file_bytes junk i h (grown 1 m) r plenty
        ∙ ap (ok (some (record i { header = some (written_header junk i h) }))) (
            grown-grown 1 (2 + 2 * count slot_order i) m ∙ ap (λ (t : ℕ). grown t m) (omega arith)))

released-grown : (k : ℕ) (m : Mem) → released k (grown k m) ≡ record m { calls = m.calls + k }
released-grown k m = ground arith

-- The file that `img3_get_data` writes of a readable image, read with plenty of memory and the image then
-- freed: as many blocks are live as before. Such a file has no element twice but the KBAG.
pub parse_file-free_image :
    (junk : ℕ) (i : Image) (h : Header) (m : Mem)
    → IsReadable i h junk
    → Plenty m
    → (parse_file (file_bytes junk i h) (total_size i) >>= free_result) m
      ≡ ok tt (record m { calls = m.calls + (2 + 2 * count slot_order i) })
parse_file-free_image junk i h m r plenty = rw (parse_file-file_bytes junk i h m r plenty) (
    free_image-released (record i { header = some (written_header junk i h) })
      (written_header junk i h) (grown (2 + 2 * count slot_order i) m) refl
    ∙ ap (ok tt) (unfold count in released-grown (2 + 2 * count slot_order i) m))
