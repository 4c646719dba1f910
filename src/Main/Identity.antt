-- ===== src/Main/Identity.antt =====
-- The build identity that `main` of idevicerestore/src/idevicerestore.c restores, and what it prints of it.
pub mod Chosen
use irestore.Prelude.{
  ℕ, zero, suc, ◌+◌, Bool, true, false, List, [], ◌∷◌, ◌++◌, Option, none, some, if◌then◌else◌,
}
use irestore.Text.{codes, same_text}
use irestore.Plists.{Plists, string, dict, typed_item}
use irestore.Manifest.{get_build_identity, get_identity_count}

module _ (lib : Plists) where
  open lib use {Node, string_val}

  -- The loop of `main` over the build identities, with `left` rounds to go.
  unfoldable pub identity_loop : Node → ℕ → ℕ → Option Node → Option Node
  identity_loop manifest i zero identity = identity
  identity_loop manifest i (suc left) identity =
      identity_loop manifest (i + 1) left (get_build_identity lib manifest i)

  -- how many rounds an `int` count means: a count of -1 is none
  abbrev pub rounds : Option ℕ → ℕ
  rounds none = 0
  rounds (some n) = n

  -- `build_identity`: the first one under FLAG_ERASE, else what the loop leaves; a NULL manifest has
  -- none.
  unfoldable pub choose_identity : Bool → Option Node → Option Node
  choose_identity erase none = none
  choose_identity erase (some manifest) =
      if erase
      then get_build_identity lib manifest 0
      else identity_loop manifest 0 (rounds (get_identity_count lib manifest)) none

  -- `info` with a label in front of a text
  abbrev line_of : List ℕ → Node → List ℕ
  line_of label node = label ++ string_val node

  -- `build_manifest_print_information`: the lines that it prints
  unfoldable pub manifest_lines : Node → List (List ℕ)
  manifest_lines manifest = elim (typed_item lib manifest (codes "ProductVersion") string) [
    | none ↦ []
    | some version ↦
        line_of (codes "Product Version: ") version
        ∷ elim (typed_item lib manifest (codes "ProductBuildVersion") string) [
          | none ↦ []
          | some build ↦ line_of (codes "Product Build: ") build ∷ []
        ]
  ]

  -- what `build_identity_print_information` says of a restore behaviour
  abbrev behaviour_lines : List ℕ → List (List ℕ)
  behaviour_lines value =
      (if same_text value (codes "Erase")
        then codes "This restore will erase your device data." ∷ []
        else [])
      ++ (if same_text value (codes "Update")
          then codes "This restore will update your device without losing data." ∷ []
          else [])

  -- `build_identity_print_information`: the lines that it prints
  unfoldable pub identity_lines : Node → List (List ℕ)
  identity_lines identity = elim (typed_item lib identity (codes "Info") dict) [
    | none ↦ []
    | some info ↦ elim (typed_item lib info (codes "Variant") string) [
      | none ↦ []
      | some variant ↦
          line_of (codes "Variant: ") variant
          ∷ elim (typed_item lib info (codes "RestoreBehavior") string) [
            | none ↦ []
            | some behaviour ↦ behaviour_lines (string_val behaviour)
          ]
    ]
  ]
