-- ===== src/Manifest.antt =====
-- The build manifest of idevicerestore/src/idevicerestore.c: its identities, their components, the
-- SHSH blobs for an identity and the extraction of its filesystem.
pub mod Lookup
mod Runs
use irestore.Prelude.{
  ℕ, zero, suc, Bool, true, false, not, List, [], ◌∷◌, Option, none, some, length, leb,
  if◌then◌else◌,
}
use irestore.Effects.{State}
use irestore.Memory.{M, pure, ◌>>=◌, require}
use irestore.Text.{codes}
use irestore.Plists.{Plists, string, array, dict, of_kind, typed_item}
use irestore.Ipsw.{Zip, extract_to_file}
use irestore.Tss.Request.{create_request}
use irestore.Tss.Response.{send_request}

-- `plist_array_get_item`, null out of range
unfoldable pub get_elem? : {A : Type 0} → ℕ → List A → Option A
get_elem? n [] = none
get_elem? zero (x ∷ xs) = some x
get_elem? (suc n) (x ∷ xs) = get_elem? n xs

module _ (lib : Plists) where
  open lib use {Node, items, string_val}

  -- `build_manifest_get_build_identity`; none is NULL
  unfoldable pub get_build_identity : Node → ℕ → Option Node
  get_build_identity manifest identity =
      elim (typed_item lib manifest (codes "BuildIdentities") array) [
        | none ↦ none
        | some identities ↦
            if leb (length (items identities)) identity
            then none
            else of_kind lib dict (get_elem? identity (items identities))
      ]

  -- `build_manifest_get_identity_count`; none is -1
  unfoldable pub get_identity_count : Node → Option ℕ
  get_identity_count manifest = elim (typed_item lib manifest (codes "BuildIdentities") array) [
    | none ↦ none
    | some identities ↦ some (length (items identities))
  ]

  -- `build_identity_get_component_path`: `*path`, or none for -1
  unfoldable pub get_component_path : Node → List ℕ → Option (List ℕ)
  get_component_path identity component = elim (typed_item lib identity (codes "Manifest") dict) [
    | none ↦ none
    | some manifest ↦ elim (typed_item lib manifest component dict) [
      | none ↦ none
      | some node ↦ elim (typed_item lib node (codes "Info") dict) [
        | none ↦ none
        | some info ↦ elim (typed_item lib info (codes "Path") string) [
          | none ↦ none
          | some path ↦ some (string_val path)
        ]
      ]
    ]
  ]

  -- `get_shsh_blobs`: `*tss`, or none for -1. `post` is the transfer, `use_apple_server` the server
  -- that is asked, `junk` the byte in the response's block before anything has come.
  unfoldable pub get_shsh_blobs :
      (List ℕ → List ℕ → Option (List (List ℕ))) → ℕ → ℕ → ℕ → Node → State (Unit {0}) (Option Node)
  get_shsh_blobs post use_apple_server junk ecid identity s =
      elim (create_request lib identity ecid) [
        | none ↦ pure none s
        | some request ↦ send_request lib post use_apple_server junk request s
      ]

  -- `ipsw_extract_filesystem`: the file's name, and what was given to `fwrite`, or none for -1.
  -- `opens` says which files can be opened for writing.
  unfoldable pub extract_filesystem :
      Zip → (List ℕ → Bool) → List ℕ → Node → M (Option (List ℕ × List ℕ))
  extract_filesystem zip opens ipsw identity =
      require none (get_component_path identity (codes "OS")) λ filename. do
        (done, written) ← extract_to_file zip (opens filename) ipsw filename
        if not done then pure none else pure (some (filename, written))
