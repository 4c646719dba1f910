-- ===== src/Img3/Runs.antt =====
-- Concrete images of idevicerestore/src/img3.c, and the theorems at these images.
use irestore.Prelude.{ℕ, ◌+◌, ◌*◌, ◌≡◌, refl, arith, true, false, List, [], ◌∷◌, ◌++◌, some, length}
use irestore.Memory.{Mem, ok, fault, malloc, free, ◌>>=◌, grown, Ensures}
use irestore.Words.{word, front_word, word_bytes}
use irestore.Img3.{
  image_container, type_slot, shsh_slot, ecid_slot, cert_slot, Header, Element, Image, empty_image,
  slot_order,
}
use irestore.Img3.Whole.{IsElement, AllElements, count}
use irestore.Img3.Parse.{
  slot_for, parse_element, free_element, free_slots, free_header, free_image, parse_loop,
  read_header, parse_file,
}
use irestore.Img3.Parse.Loop.{IsImageOf, parse_file-IsImageOf}
use irestore.Img3.Build.{get_data}
use irestore.Img3.Build.Output.{
  body, IsWhole, total_size, file_bytes, get_data-file_bytes, shsh_offset,
}
use irestore.Img3.RoundTrip.{IsReadable, written_header}
use irestore.Img3.Release.{read_back, free_result, get_data-read_back, parse_file-free_image}
use irestore.Img3.Signature.{replace_signature}
use irestore.Img3.Signature.Replace.{
  signed, released, signature_blocks, Outcome, replace_signature-signed, replace_signature-leak,
  replace_signature-Outcome,
}

abbrev start : Mem
start = record { grants = λ _. true; calls = 0; live = 0 }

abbrev element : ℕ → List ℕ → Element
element signature payload = record {
  bytes =
      word_bytes signature
      ++ (word_bytes (12 + length payload) ++ (word_bytes (length payload) ++ payload));
  type = signature;
}

abbrev type_part : Element
type_part = element 0x54595045 (1 ∷ 2 ∷ 3 ∷ 4 ∷ [])

abbrev ecid_part : Element
ecid_part = element 0x45434944 (9 ∷ [])

abbrev shsh_part : Element
shsh_part = element 0x53485348 (7 ∷ 8 ∷ [])

abbrev cert_part : Element
cert_part = element 0x43455254 []

type-IsElement : IsElement type_slot type_part
unfolding word front_word word_bytes
type-IsElement = record { tagged = refl; sized = refl; kind = refl }

ecid-IsElement : IsElement ecid_slot ecid_part
unfolding word front_word word_bytes
ecid-IsElement = record { tagged = refl; sized = refl; kind = refl }

shsh-IsElement : IsElement shsh_slot shsh_part
unfolding word front_word word_bytes
shsh-IsElement = record { tagged = refl; sized = refl; kind = refl }

cert-IsElement : IsElement cert_slot cert_part
unfolding word front_word word_bytes
cert-IsElement = record { tagged = refl; sized = refl; kind = refl }

abbrev header : Header
header = record {
  signature = image_container;
  full_size = 0;
  data_size = 0;
  shsh_offset = 0;
  image_type = 0x6C6C6220;
}

-- an image with a TYPE and an SHSH element
abbrev image : Image
image = record empty_image {
  header = some header;
  type_element = some type_part;
  shsh_element = some shsh_part;
}

image-AllElements : AllElements image
image-AllElements type_slot e h = let same : type_part ≡ e = cc in rw same at type-IsElement
image-AllElements shsh_slot e h = let same : shsh_part ≡ e = cc in rw same at shsh-IsElement
image-AllElements _ e h = absurd (cc)

image-IsWhole : IsWhole image header
unfolding body word_bytes
image-IsWhole = record { has_header = refl; elements = image-AllElements; fits = omega arith }

image-IsReadable : IsReadable image header 5
image-IsReadable = record {
  whole = image-IsWhole;
  kbags = λ _. refl;
  container = refl;
  type_fits = omega arith;
  junk_fits = omega arith;
}

-- the file of this image
abbrev file : List ℕ
file = file_bytes 5 image header

parse_file_lem :
    parse_file file 50 start
    ≡ ok (some (record image { header = some (written_header 5 image header) })) (grown 6 start)
unfolding parse_file parse_loop read_header slot_for parse_element free_image free_slots
    free_element free_header malloc free word front_word word_bytes body shsh_offset
parse_file_lem = refl

-- An element that claims more bytes than are there is copied all the same.
parse_file_overrun :
    parse_file
      (word_bytes image_container
        ++ (word_bytes 0
            ++ (word_bytes 0
                ++ (word_bytes 0 ++ (word_bytes 0 ++ (word_bytes 0x54595045 ++ (word_bytes 99)))))))
      28
      start
    ≡ fault
unfolding parse_file parse_loop read_header slot_for parse_element malloc free word front_word
    word_bytes
parse_file_overrun = refl

-- A second TYPE element takes the place of the first, whose two blocks stay allocated.
parse_file_repeated :
    (parse_file
          (word_bytes image_container
            ++ (word_bytes 0
                ++ (word_bytes 0
                    ++ (word_bytes 0 ++ (word_bytes 0 ++ (type_part.bytes ++ type_part.bytes))))))
          52
        >>= free_result)
      start
    ≡ ok tt (record start { calls = 6; live = 2 })
unfolding parse_file parse_loop read_header slot_for parse_element free_image free_slots
    free_element free_header malloc free word front_word word_bytes
parse_file_repeated = refl

parse_file-IsImageOf_example :
    Ensures (λ r _. (i : Image) → r ≡ some i → IsImageOf file i) (parse_file file 50 start)
parse_file-IsImageOf_example =
    parse_file-IsImageOf file 50 start (unfold body word_bytes in omega arith)

get_data-file_bytes_example :
    get_data 5 image start ≡ ok (some (file, total_size image)) (grown 1 start)
get_data-file_bytes_example = get_data-file_bytes 5 image header start image-IsWhole

get_data-read_back_example :
    (get_data 5 image >>= read_back) start
    ≡ ok
        (some (record image { header = some (written_header 5 image header) }))
        (grown (3 + 2 * count slot_order image) start)
get_data-read_back_example = get_data-read_back 5 image header start image-IsReadable (λ _. refl)

parse_file-free_image_example :
    (parse_file file (total_size image) >>= free_result) start
    ≡ ok tt (record start { calls = start.calls + (2 + 2 * count slot_order image) })
parse_file-free_image_example =
    parse_file-free_image 5 image header start image-IsReadable (λ _. refl)

-- a whole signature
abbrev signature : List ℕ
signature = ecid_part.bytes ++ (shsh_part.bytes ++ (cert_part.bytes ++ []))

replace_signature-signed_example :
    replace_signature image (ecid_part.bytes ++ (shsh_part.bytes ++ (cert_part.bytes ++ []))) start
    ≡ ok
        (true, signed ecid_part shsh_part cert_part image)
        (released (signature_blocks image) (grown 6 start))
replace_signature-signed_example =
    replace_signature-signed image ecid_part shsh_part cert_part [] start ecid-IsElement
      shsh-IsElement cert-IsElement (λ _. refl)

replace_signature-leak_run :
    replace_signature image (ecid_part.bytes ++ (shsh_part.bytes ++ (type_part.bytes ++ []))) start
    ≡ ok (false, image) (grown 6 start)
replace_signature-leak_run =
    replace_signature-leak image ecid_part shsh_part type_part type_slot [] start ecid-IsElement
      shsh-IsElement type-IsElement (omega arith) (λ _. refl)

replace_signature-Outcome_example :
    Ensures (λ r _. Outcome signature image r) (replace_signature image signature start)
replace_signature-Outcome_example = replace_signature-Outcome image signature start
