-- ===== src/Signing/Runs.antt =====
-- A concrete component and response, and the theorems at these.
use irestore.Prelude.{ℕ, ◌+◌, ◌*◌, ◌≡◌, refl, arith, true, List, [], ◌∷◌, ◌++◌, none, some, length}
use irestore.Memory.{Mem, ok}
use irestore.Text.{codes, same_text}
use irestore.Words.{word, front_word, word_bytes}
use irestore.Plists.{Plists, of_kind, typed_item}
use irestore.Plists.Tree.{Tree, text, blob, table, to_entries, find, trees}
use irestore.Ipsw.{Zip}
use irestore.Ipsw.Sample.{one_file}
use irestore.Ipsw.Extract.{HoldsBytes}
use irestore.Tss.Blob.{blob_loop, get_blob_by_path}
use irestore.Img3.{image_container, data_slot, Header, Element, Image, empty_image, slot_order}
use irestore.Img3.Whole.{IsElement, AllElements, count}
use irestore.Img3.Build.Output.{body, total_size, file_bytes, shsh_offset}
use irestore.Img3.RoundTrip.{IsReadable, written_header}
use irestore.Signing.{get_component_by_path}
use irestore.Signing.Signed.{IsSignable, personalized, get_component_by_path-personalized}
use irestore.Signing.Guarded.{Guarded}

abbrev start : Mem
start = record { grants = λ _. true; calls = 0; live = 0 }

abbrev element : ℕ → List ℕ → Element
element signature payload = record {
  bytes =
      word_bytes signature
      ++ (word_bytes (12 + length payload) ++ (word_bytes (length payload) ++ payload));
  type = signature;
}

abbrev data_part : Element
data_part = element 0x44415441 (1 ∷ 2 ∷ 3 ∷ [])

abbrev ecid_part : Element
ecid_part = element 0x45434944 (9 ∷ [])

abbrev shsh_part : Element
shsh_part = element 0x53485348 (7 ∷ 8 ∷ [])

abbrev cert_part : Element
cert_part = element 0x43455254 []

data-IsElement : IsElement data_slot data_part
unfolding word front_word word_bytes
data-IsElement = record { tagged = refl; sized = refl; kind = refl }

abbrev header : Header
header = record {
  signature = image_container;
  full_size = 0;
  data_size = 0;
  shsh_offset = 0;
  image_type = 0x6C6C6220;
}

abbrev image : Image
image = record empty_image { header = some header; data_element = some data_part }

image-AllElements : AllElements image
image-AllElements data_slot e h = let same : data_part ≡ e = cc in rw same at data-IsElement
image-AllElements _ e h = absurd (cc)

image-IsReadable : IsReadable image header 0
unfolding body word_bytes
image-IsReadable = record {
  whole = record { has_header = refl; elements = image-AllElements; fits = omega arith };
  kbags = λ _. refl;
  container = refl;
  type_fits = omega arith;
  junk_fits = omega arith;
}

abbrev path : List ℕ
path = codes "Firmware/LLB"

abbrev zip : Zip
zip = one_file (λ n. n) path (file_bytes 0 image header)

abbrev signature : List ℕ
signature = ecid_part.bytes ++ (shsh_part.bytes ++ (cert_part.bytes ++ []))

abbrev response : Tree
response = table (
    to_entries (
      (
        codes "LLB",
        table (to_entries ((codes "Path", text path) ∷ (codes "Blob", blob signature) ∷ [])),
      )
      ∷ []))

abbrev lib : Plists
lib = trees (λ _. none)

response-has_blob : get_blob_by_path lib response path ≡ some signature
unfolding get_blob_by_path blob_loop typed_item of_kind find same_text word_bytes
response-has_blob = refl

zip-HoldsBytes : HoldsBytes zip [] path (file_bytes 0 image header)
unfolding same_text body word_bytes shsh_offset
zip-HoldsBytes = record {
  file = file_bytes 0 image header;
  next = [];
  has_file = record {
    archive = tt;
    index = 0;
    opened = refl;
    located = refl;
    sized = refl;
    file_opened = refl;
  };
  reads = refl;
}

image-IsSignable :
    IsSignable zip lib [] path response 0 image header ecid_part shsh_part cert_part []
unfolding word front_word word_bytes body
image-IsSignable = record {
  readable = image-IsReadable;
  holds = zip-HoldsBytes;
  has_blob = response-has_blob;
  is_ecid = record { tagged = refl; sized = refl; kind = refl };
  is_shsh = record { tagged = refl; sized = refl; kind = refl };
  is_cert = record { tagged = refl; sized = refl; kind = refl };
  fits = omega arith;
}

get_component_by_path-personalized_example :
    get_component_by_path zip lib 5 [] (some response) path start
    ≡ ok
        (some (
          file_bytes 5
              (personalized 0 image header ecid_part shsh_part cert_part)
              (written_header 0 image header),
          total_size (personalized 0 image header ecid_part shsh_part cert_part),
        ))
        (record start {
          calls = start.calls + (11 + 2 * count slot_order image);
          live = start.live + 1;
        })
get_component_by_path-personalized_example =
    get_component_by_path-personalized zip lib [] path response 0 5 image header ecid_part shsh_part
      cert_part [] start image-IsSignable (λ _. refl)
