-- ===== src/Tss/Blob.antt =====
-- `tss_get_entry_path`, `tss_get_blob_by_path` and `tss_get_blob_by_name` of
-- idevicerestore/src/tss.c.
use irestore.Prelude.{ℕ, List, [], ◌∷◌, Option, none, some, if◌then◌else◌}
use irestore.Text.{codes, same_text}
use irestore.Plists.{Plists, string, dict, bytes, of_kind, typed_item}

-- `blob_data == NULL || blob_size <= 0`: no blob, or one with no bytes, is none.
abbrev pub nonempty : Option (List ℕ) → Option (List ℕ)
nonempty none = none
nonempty (some []) = none
nonempty (some (b ∷ bs)) = some (b ∷ bs)

-- `Option.map`
abbrev pub value_of : {A B : Type 0} → (A → B) → Option A → Option B
value_of f none = none
value_of f (some a) = some (f a)

module _ (lib : Plists) where
  open lib use {Node, entries, string_val, data_val}

  -- `tss_get_entry_path`: `*path`, or none for -1
  unfoldable pub get_entry_path : Node → List ℕ → Option (List ℕ)
  get_entry_path tss name = elim (typed_item lib tss name dict) [
    | none ↦ none
    | some entry ↦ value_of string_val (typed_item lib entry (codes "Path") string)
  ]

  -- The loop of `tss_get_blob_by_path` on the entries that are left: an entry that is no dictionary
  -- is skipped, and one with no path ends the search with an error.
  unfoldable pub blob_loop : List ℕ → List (List ℕ × Node) → Option (List ℕ)
  blob_loop path [] = none
  blob_loop path ((name, node) ∷ rest) =
      let next = blob_loop path rest in
      elim (of_kind lib dict (some node)) [
        | none ↦ next
        | some entry ↦ elim (typed_item lib entry (codes "Path") string) [
          | none ↦ none
          | some path_node ↦
              if same_text path (string_val path_node)
              then value_of data_val (typed_item lib entry (codes "Blob") bytes)
              else next
        ]
      ]

  -- `tss_get_blob_by_path`: `*blob`, or none for -1
  unfoldable pub get_blob_by_path : Node → List ℕ → Option (List ℕ)
  get_blob_by_path tss path = nonempty (blob_loop path (entries tss))

  -- `tss_get_blob_by_name`
  unfoldable pub get_blob_by_name : Node → List ℕ → Option (List ℕ)
  get_blob_by_name tss name = elim (typed_item lib tss name dict) [
    | none ↦ none
    | some entry ↦ value_of data_val (typed_item lib entry (codes "Blob") bytes)
  ]
