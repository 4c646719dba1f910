-- ===== src/Manifest/Lookup.antt =====
-- What the build manifest gives: all of its identities, the blobs for one, and its filesystem.
use irestore.Prelude.{
  ℕ, zero, suc, ◌+◌, ◌<◌, ◌≤◌, ◌≡◌, ◌≢◌, ◌∙◌, ap, sym, refl, le→leb, length-append, append_assoc,
  arith, Bool, true, false, List, [], ◌∷◌, ◌++◌, Option, none, some, length, leb,
}
use irestore.Effects.{ok}
use irestore.Memory.{Mem, Plenty}
use irestore.Text.{codes}
use irestore.Plists.{Plists, array, dict, of_kind, typed_item}
use irestore.Ipsw.{Zip}
use irestore.Ipsw.Extract.{HasFile, Reads, extract_to_file-content}
use irestore.Tss.Assembly.{IsIdentity, request_of, create_request-request_of}
use irestore.Tss.Response.{server_url}
use irestore.Tss.Transfer.{concat, NoZero, reply, send_request-reply}
use irestore.Manifest.{
  get_elem?, get_build_identity, get_identity_count, get_component_path, get_shsh_blobs,
  extract_filesystem,
}

past : (a b : ℕ) → b < a → leb a b ≡ false
past a b h = ground arith

module _ (lib : Plists) where
  open lib use {Node, items, to_xml}

  -- the results of `build_manifest_get_build_identity` for `n` indices from `k` on
  abbrev pub identities : Node → ℕ → ℕ → List (Option Node)
  identities manifest k zero = []
  identities manifest k (suc n) = get_build_identity lib manifest k ∷ identities manifest (k + 1) n

  abbrev pub checked : List Node → List (Option Node)
  checked [] = []
  checked (x ∷ xs) = of_kind lib dict (some x) ∷ checked xs

  get_elem?-behind :
      (before after : List Node) (x : Node)
      → get_elem? (length before) (before ++ x ∷ after) ≡ some x
  unfolding get_elem?
  get_elem?-behind [] after x = refl
  get_elem?-behind (y ∷ before) after x = get_elem?-behind before after x

  pub get_build_identity-behind :
      (manifest ids : Node) (before after : List Node) (x : Node)
      → typed_item lib manifest (codes "BuildIdentities") array ≡ some ids
      → items ids ≡ before ++ x ∷ after
      → get_build_identity lib manifest (length before) ≡ of_kind lib dict (some x)
  unfolding get_build_identity
  get_build_identity-behind manifest ids before after x has all = rw (
    get_build_identity,
    has,
    all,
    past (length (before ++ x ∷ after)) (length before)
        (omega (arith, length-append before (x ∷ after))),
    get_elem?-behind before after x,
  )

  identities-behind :
      (manifest ids : Node) (before after : List Node)
      → typed_item lib manifest (codes "BuildIdentities") array ≡ some ids
      → items ids ≡ before ++ after
      → identities manifest (length before) (length after) ≡ checked after
  identities-behind manifest ids before [] has all = refl
  identities-behind manifest ids before (x ∷ after) has all =
      rw (get_build_identity-behind manifest ids before after x has all) (
        ap (λ t. of_kind lib dict (some x) ∷ t)
          (ap (λ (k : ℕ). identities manifest k (length after))
              (omega (arith, length-append before (x ∷ [])))
            ∙ identities-behind manifest ids (before ++ x ∷ []) after has
                (all ∙ sym (append_assoc before (x ∷ []) after))))

  -- For a manifest with an array of build identities, `build_manifest_get_identity_count` is the number
  -- of its items, `build_manifest_get_build_identity` for the indices below that number gives the items
  -- in order, NULL for those that are no dictionary, and NULL for every other index.
  pub get_build_identity-get_identity_count :
      (manifest ids : Node)
      → typed_item lib manifest (codes "BuildIdentities") array ≡ some ids
      → (get_identity_count lib manifest ≡ some (length (items ids)))
        × (identities manifest 0 (length (items ids)) ≡ checked (items ids))
        × ((k : ℕ) → length (items ids) ≤ k → get_build_identity lib manifest k ≡ none)
  unfolding get_identity_count get_build_identity
  get_build_identity-get_identity_count manifest ids has = (
    rw (get_identity_count, has),
    identities-behind manifest ids [] (items ids) has refl,
    λ k outside. rw (get_build_identity, has, le→leb (length (items ids)) k outside),
  )

  -- For an identity with all that a request needs and an ECID that is not 0, `get_shsh_blobs` posts
  -- the request for this identity and ECID, and however the answer is cut into pieces, if it has a
  -- byte and no byte 0, its result is the document of the answer if the answer reports success, and an
  -- error otherwise.
  pub get_shsh_blobs-reply :
      (post : List ℕ → List ℕ → Option (List (List ℕ))) (use_apple_server junk ecid : ℕ)
      (identity : Node) (is : IsIdentity lib identity) (pieces : List (List ℕ))
      → ecid ≢ 0
      → post (server_url use_apple_server) (to_xml (request_of lib identity is ecid)) ≡ some pieces
      → concat pieces ≢ []
      → NoZero (concat pieces)
      → get_shsh_blobs lib post use_apple_server junk ecid identity tt
        ≡ ok (reply lib (concat pieces)) tt
  unfolding get_shsh_blobs
  get_shsh_blobs-reply post use_apple_server junk ecid identity is pieces nonzero answered filled
        plain =
      rw (get_shsh_blobs, create_request-request_of lib identity ecid is nonzero)
        (send_request-reply lib post use_apple_server junk (request_of lib identity is ecid) pieces
          answered filled plain)

  module _ (zip : Zip) (content : zip.File → List ℕ)
      (law : (file : zip.File) (n : ℕ)
        → 0 < n
        → 0 < length (content file)
        → Reads zip content file n) where
    -- Where the identity has a path for its filesystem, and the archive has a file below 2^31 bytes
    -- there, which can also be opened for writing: `ipsw_extract_filesystem` ends and succeeds with
    -- this path as the name, it has written exactly the bytes of the file, and with plenty of memory it
    -- has freed all that it allocated.
    pub extract_filesystem-content :
        (opens : List ℕ → Bool) (ipsw path : List ℕ) (identity : Node) (file : zip.File) (m : Mem)
        → get_component_path lib identity (codes "OS") ≡ some path
        → opens path ≡ true
        → HasFile zip ipsw path (length (content file)) file
        → length (content file) < 2147483648
        → Plenty m
        → extract_filesystem lib zip opens ipsw identity m
          ≡ ok (some (path, content file)) (record m { calls = m.calls + 2 })
    unfolding extract_filesystem
    extract_filesystem-content opens ipsw path identity file m has opened held small plenty =
        rw (has, opened, extract_to_file-content zip content law ipsw path file m held small plenty)
