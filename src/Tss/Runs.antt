-- ===== src/Tss/Runs.antt =====
-- Concrete requests and responses, and the theorems at these.
use irestore.Prelude.{ℕ, ◌+◌, ◌<◌, ◌≡◌, ◌≢◌, ◌↔◌, inl, refl, arith, List, [], ◌∷◌, ◌++◌, some}
use irestore.Effects.{ok}
use irestore.Text.{codes, same_text}
use irestore.Plists.{Plists, string, bytes, dict, of_kind, typed_item}
use irestore.Plists.Tree.{Tree, text, blob, table, to_entries, find, trees}
use irestore.Tss.Blob.{blob_loop, get_blob_by_path}
use irestore.Tss.Search.{FirstHolds, get_blob_by_path_iff}
use irestore.Tss.Request.{decimal, scan_hex, create_request}
use irestore.Tss.Assembly.{
  read_decimal, read_decimal-decimal, AllDicts, IsIdentity, request_of, create_request-request_of,
  create_request-IsIdentity,
}
use irestore.Tss.Assembly.Fields.{AllDecimal, IsHexText, value, fields, create_request-fields}
use irestore.Tss.Response.{send_request}
use irestore.Tss.Transfer.{concat, reply, send_request-reply}

abbrev document : Tree
document = text (codes "signed")

abbrev lib : Plists
lib = trees (λ _. some document)

abbrev entry : List ℕ → List ℕ → Tree
entry path content =
    table (to_entries ((codes "Path", text path) ∷ (codes "Blob", blob content) ∷ []))

abbrev response : Tree
response = table (
    to_entries (
      (codes "@ServerVersion", text (codes "1"))
      ∷ (codes "iBEC", entry (codes "Firmware/iBEC") (1 ∷ []))
      ∷ (codes "LLB", entry (codes "Firmware/LLB") (2 ∷ 3 ∷ []))
      ∷ []))

get_blob_by_path_lem : get_blob_by_path lib response (codes "Firmware/LLB") ≡ some (2 ∷ 3 ∷ [])
unfolding get_blob_by_path blob_loop typed_item of_kind find same_text
get_blob_by_path_lem = refl

get_blob_by_path_iff_example :
    (get_blob_by_path lib response (codes "Firmware/LLB") ≡ some (2 ∷ 3 ∷ [])) ↔ (
      (◌≢◌ {A = List ℕ} (2 ∷ 3 ∷ []) [])
      × FirstHolds lib (codes "Firmware/LLB") (2 ∷ 3 ∷ []) (lib.entries response))
get_blob_by_path_iff_example = get_blob_by_path_iff lib response (codes "Firmware/LLB") (2 ∷ 3 ∷ [])

abbrev parts : List (List ℕ × Tree)
parts = (codes "LLB", entry (codes "Firmware/LLB") []) ∷ []

abbrev identity : Tree
identity = table (
    to_entries (
      (codes "UniqueBuildID", blob (5 ∷ []))
      ∷ (codes "ApChipID", text (codes "0x8930"))
      ∷ (codes "ApBoardID", text (codes "0x00"))
      ∷ (codes "ApSecurityDomain", text (codes "0x01"))
      ∷ (codes "Manifest", table (to_entries parts))
      ∷ []))

scan_hex_lem : scan_hex (codes " 0x8930") ≡ 0x8930
unfolding scan_hex
scan_hex_lem = refl

identity_items :
    (typed_item lib identity (codes "UniqueBuildID") bytes ≡ some (blob (5 ∷ [])))
    × (typed_item lib identity (codes "ApChipID") string ≡ some (text (codes "0x8930")))
    × (typed_item lib identity (codes "ApBoardID") string ≡ some (text (codes "0x00")))
    × (typed_item lib identity (codes "ApSecurityDomain") string ≡ some (text (codes "0x01")))
    × (typed_item lib identity (codes "Manifest") dict ≡ some (table (to_entries parts)))
    × AllDicts lib parts
unfolding typed_item of_kind find same_text
identity_items = (refl, refl, refl, refl, refl, (refl, tt))

abbrev identity_is : IsIdentity lib identity
identity_is = record {
  build = blob (5 ∷ []);
  chip = text (codes "0x8930");
  board = text (codes "0x00");
  domain = text (codes "0x01");
  manifest = table (to_entries parts);
  has_build = identity_items.0;
  has_chip = identity_items.1;
  has_board = identity_items.2;
  has_domain = identity_items.3;
  has_manifest = identity_items.4;
  all_dicts = identity_items.5;
}

create_request-request_of_run :
    create_request lib identity 77 ≡ some (request_of lib identity identity_is 77)
create_request-request_of_run = create_request-request_of lib identity 77 identity_is (omega arith)

create_request-IsIdentity_example : IsIdentity lib identity × (◌≢◌ {A = ℕ} 77 0)
create_request-IsIdentity_example =
    create_request-IsIdentity lib identity (request_of lib identity identity_is 77) 77
      create_request-request_of_run

chip-IsHexText : IsHexText (codes "0x8930") 0x8930
unfolding value
chip-IsHexText = record {
  written = codes "8930";
  digits = 8 ∷ 9 ∷ 3 ∷ 0 ∷ [];
  prefixed = refl;
  spelled = (inl (omega arith), (inl (omega arith), (inl (omega arith), (inl (omega arith), tt))));
  is = refl;
}

small-IsHexText : (c n : ℕ) → c ≡ n + 48 → n < 10 → IsHexText (48 ∷ 120 ∷ 48 ∷ c ∷ []) n
unfolding value
small-IsHexText c n is small = record {
  written = 48 ∷ c ∷ [];
  digits = 0 ∷ n ∷ [];
  prefixed = refl;
  spelled = (inl (omega arith), (inl (omega arith), tt));
  is = omega arith;
}

create_request-fields_example :
    (digits : List ℕ) × AllDecimal digits
    × (read_decimal 0 digits ≡ 77)
    × (create_request lib identity 77
        ≡ some (lib.new_dict (fields lib digits 0x8930 0 1 (5 ∷ []) ++ parts)))
create_request-fields_example =
    create_request-fields lib identity 77 0x8930 0 1 identity_is (omega arith) (omega arith)
      chip-IsHexText (omega arith) (small-IsHexText 48 0 (omega arith) (omega arith)) (omega arith)
      (small-IsHexText 49 1 (omega arith) (omega arith)) (omega arith)

read_decimal-decimal_run : read_decimal 0 (decimal 18446744073709551615) ≡ 18446744073709551615
read_decimal-decimal_run = read_decimal-decimal 18446744073709551615 (omega arith)

abbrev pieces : List (List ℕ)
pieces = codes "STATUS=0&MESSAGE=SUC" ∷ codes "CESS&REQUEST_STRING=<?xml" ∷ codes " version>" ∷ []

send_request-reply_example :
    send_request lib (λ _ _. some pieces) 1 200 identity tt ≡ ok (reply lib (concat pieces)) tt
send_request-reply_example =
    send_request-reply lib (λ _ _. some pieces) 1 200 identity pieces refl (λ e. cc) (ground arith)
