-- ===== src/Manifest/Runs.antt =====
-- A concrete build manifest, and the theorems at it.
use irestore.Prelude.{ℕ, ◌<◌, ◌≤◌, ◌≡◌, refl, arith, true, List, [], ◌∷◌, none, some, length, drop}
use irestore.Effects.{ok}
use irestore.Text.{codes, same_text}
use irestore.Plists.{Plists, of_kind, typed_item}
use irestore.Plists.Tree.{Tree, flag, text, blob, table, row, to_entries, to_items, find, trees}
use irestore.Ipsw.{Zip}
use irestore.Ipsw.Sample.{one_file}
use irestore.Ipsw.Extract.{HasFile, Reads}
use irestore.Tss.Assembly.{IsIdentity}
use irestore.Tss.Transfer.{concat, reply}
use irestore.Manifest.{
  get_build_identity, get_identity_count, get_component_path, get_shsh_blobs, extract_filesystem,
}
use irestore.Manifest.Lookup.{
  identities, checked, get_build_identity-get_identity_count, get_shsh_blobs-reply,
  extract_filesystem-content,
}

abbrev document : Tree
document = text (codes "signed")

abbrev lib : Plists
lib = trees (λ _. some document)

abbrev component : List ℕ → Tree
component path =
    table (to_entries ((codes "Info", table (to_entries ((codes "Path", text path) ∷ []))) ∷ []))

abbrev identity : Tree
identity = table (
    to_entries (
      (codes "UniqueBuildID", blob (5 ∷ []))
      ∷ (codes "ApChipID", text (codes "0x8930"))
      ∷ (codes "ApBoardID", text (codes "0x00"))
      ∷ (codes "ApSecurityDomain", text (codes "0x01"))
      ∷ (codes "Manifest", table (to_entries ((codes "OS", component (codes "root.dmg")) ∷ [])))
      ∷ []))

abbrev manifest : Tree
manifest =
    table (to_entries ((codes "BuildIdentities", row (to_items (identity ∷ flag true ∷ []))) ∷ []))

get_build_identity-get_identity_count_example :
    (get_identity_count lib manifest ≡ some 2)
    × (identities lib manifest 0 2 ≡ checked lib (identity ∷ flag true ∷ []))
    × ((k : ℕ) → 2 ≤ k → get_build_identity lib manifest k ≡ none)
unfolding typed_item of_kind find same_text
get_build_identity-get_identity_count_example =
    get_build_identity-get_identity_count lib manifest (row (to_items (identity ∷ flag true ∷ [])))
      refl

identity-IsIdentity : IsIdentity lib identity
unfolding typed_item of_kind find same_text
identity-IsIdentity = record {
  build = blob (5 ∷ []);
  chip = text (codes "0x8930");
  board = text (codes "0x00");
  domain = text (codes "0x01");
  manifest = table (to_entries ((codes "OS", component (codes "root.dmg")) ∷ []));
  has_build = refl;
  has_chip = refl;
  has_board = refl;
  has_domain = refl;
  has_manifest = refl;
  all_dicts = (refl, tt);
}

abbrev pieces : List (List ℕ)
pieces = codes "STATUS=0&MESSAGE=SUC" ∷ codes "CESS&REQUEST_STRING=<?xml" ∷ codes " version>" ∷ []

get_shsh_blobs-reply_example :
    get_shsh_blobs lib (λ _ _. some pieces) 1 200 77 identity tt ≡ ok (reply lib (concat pieces)) tt
get_shsh_blobs-reply_example =
    get_shsh_blobs-reply lib (λ _ _. some pieces) 1 200 77 identity identity-IsIdentity pieces
      (omega arith) refl (λ e. cc) (ground arith)

abbrev zip : Zip
zip = one_file (λ _. 1) (codes "root.dmg") (10 ∷ 20 ∷ [])

zip-Reads : (file : List ℕ) (n : ℕ) → 0 < n → 0 < length file → Reads zip (λ f. f) file n
zip-Reads file n asked left = record {
  k = 1;
  next = drop 1 file;
  some_byte = omega arith;
  no_more = omega arith;
  inside = omega arith;
  reads = refl;
  left = refl;
}

zip-HasFile : HasFile zip [] (codes "root.dmg") 2 (10 ∷ 20 ∷ [])
unfolding same_text
zip-HasFile = record {
  archive = tt;
  index = 0;
  opened = refl;
  located = refl;
  sized = refl;
  file_opened = refl;
}

os_path : get_component_path lib identity (codes "OS") ≡ some (codes "root.dmg")
unfolding get_component_path typed_item of_kind find same_text
os_path = refl

extract_filesystem-content_example :
    extract_filesystem lib zip
      (λ _. true)
      []
      identity
      (record { grants = λ _. true; calls = 0; live = 0 })
    ≡ ok
        (some (codes "root.dmg", 10 ∷ 20 ∷ []))
        (record { grants = λ _. true; calls = 2; live = 0 })
extract_filesystem-content_example =
    extract_filesystem-content lib zip (λ f. f) zip-Reads (λ _. true) [] (codes "root.dmg") identity
      (10 ∷ 20 ∷ []) (record { grants = λ _. true; calls = 0; live = 0 }) os_path refl zip-HasFile
      (omega arith) (λ _. refl)
