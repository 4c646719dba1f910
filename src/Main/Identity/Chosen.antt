-- ===== src/Main/Identity/Chosen.antt =====
-- Which build identity `main` of idevicerestore/src/idevicerestore.c takes.
use irestore.Prelude.{
  ℕ, zero, suc, ◌+◌, ◌≡◌, ◌∙◌, ap, arith, length-append, true, false, List, [], ◌∷◌, ◌++◌, Option,
  none, some, length,
}
use irestore.Text.{codes}
use irestore.Plists.{Plists, array, dict, of_kind, typed_item}
use irestore.Manifest.{get_build_identity, get_identity_count}
use irestore.Manifest.Lookup.{get_build_identity-behind}
use irestore.Main.Identity.{identity_loop, choose_identity}

module _ (lib : Plists) where
  open lib use {Node, items}

  -- The loop leaves what its last round has found.
  identity_loop-last :
      (manifest : Node) (n i k : ℕ) (identity : Option Node)
      → k ≡ i + n
      → identity_loop lib manifest i (suc n) identity ≡ get_build_identity lib manifest k
  unfolding identity_loop
  identity_loop-last manifest zero i k identity e =
      ap (λ (j : ℕ). get_build_identity lib manifest j) (omega (arith, e))
  identity_loop-last manifest (suc n) i k identity e =
      identity_loop-last manifest n (i + 1) k (get_build_identity lib manifest i) (omega arith)

  -- For a manifest with an array of build identities that is not empty: under FLAG_ERASE `main` takes the
  -- first one, and otherwise the last one, in each case NULL if that is no dictionary.
  pub choose_identity-ends :
      (manifest ids first last : Node) (before behind : List Node)
      → typed_item lib manifest (codes "BuildIdentities") array ≡ some ids
      → items ids ≡ first ∷ behind
      → items ids ≡ before ++ last ∷ []
      → (choose_identity lib true (some manifest) ≡ of_kind lib dict (some first))
        × (choose_identity lib false (some manifest) ≡ of_kind lib dict (some last))
  unfolding choose_identity get_identity_count
  choose_identity-ends manifest ids first last before behind has begins ends = (
    get_build_identity-behind lib manifest ids [] behind first has begins,
    rw (get_identity_count, has)
        (ap (λ (n : ℕ). identity_loop lib manifest 0 n none) (many (items ids) ends)
          ∙ identity_loop-last manifest (length before) 0 (length before) none (omega arith)
          ∙ get_build_identity-behind lib manifest ids before [] last has ends),
  )
    where
      many : (all : List Node) → all ≡ before ++ last ∷ [] → length all ≡ suc (length before)
      many all e = rw e (omega (arith, length-append before (last ∷ [])))
