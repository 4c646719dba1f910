-- ===== src/Tss/Search.antt =====
-- `tss_get_blob_by_path` finds the first entry with the path.
use irestore.Prelude.{
  ℕ, ◌≡◌, ◌≢◌, ◌↔◌, refl, sym, ◌∙◌, arith, inl, inr, true, false, List, [], ◌∷◌, Option, none, some,
  Bool-cases, Option-cases,
}
use irestore.Text.{codes, same_text, same_text_refl, same_text→eq}
use irestore.Plists.{Plists, string, dict, bytes, of_kind, typed_item}
use irestore.Tss.Blob.{nonempty, value_of, blob_loop, get_blob_by_path}

nonempty-some :
    (o : Option (List ℕ)) (blob : List ℕ) → nonempty o ≡ some blob → (blob ≢ []) × (o ≡ some blob)
nonempty-some none blob h = cc
nonempty-some (some []) blob h = cc
nonempty-some (some (b ∷ bs)) blob h = (λ e. cc, h)

nonempty_filled : (blob : List ℕ) → blob ≢ [] → nonempty (some blob) ≡ some blob
nonempty_filled [] h = absurd (h refl)
nonempty_filled (b ∷ bs) h = refl

module _ (lib : Plists) where
  open lib use {Node, entries, string_val, data_val}

  -- An entry that the search passes over: no dictionary, or a dictionary with another path.
  pub data Passed (path : List ℕ) (node : Node) : Type 0 where
    no_dict : of_kind lib dict (some node) ≡ none → Passed path node
    other_path :
        (entry path_node : Node)
        → of_kind lib dict (some node) ≡ some entry
        → typed_item lib entry (codes "Path") string ≡ some path_node
        → path ≢ string_val path_node
        → Passed path node

  -- An entry with this path and this blob.
  pub record Holds (path blob : List ℕ) (node : Node) : Type 0 where
    pub entry : Node
    pub path_node : Node
    pub blob_node : Node
    pub is_dict : of_kind lib dict (some node) ≡ some entry
    pub has_path : typed_item lib entry (codes "Path") string ≡ some path_node
    pub path_is : path ≡ string_val path_node
    pub has_blob : typed_item lib entry (codes "Blob") bytes ≡ some blob_node
    pub blob_is : data_val blob_node ≡ blob

  -- The first entry that is not passed over holds the blob.
  pub data FirstHolds (path blob : List ℕ) : List (List ℕ × Node) → Type 0 where
    here :
        {name : List ℕ} {node : Node} {rest : List (List ℕ × Node)}
        → Holds path blob node
        → FirstHolds path blob ((name, node) ∷ rest)
    later :
        {name : List ℕ} {node : Node} {rest : List (List ℕ × Node)}
        → Passed path node
        → FirstHolds path blob rest
        → FirstHolds path blob ((name, node) ∷ rest)

  blob_loop-Passed :
      (path name : List ℕ) (node : Node) (rest : List (List ℕ × Node))
      → Passed path node
      → blob_loop lib path ((name, node) ∷ rest) ≡ blob_loop lib path rest
  unfolding blob_loop
  blob_loop-Passed path name node rest (no_dict e) = rw (e, blob_loop)
  blob_loop-Passed path name node rest (other_path entry path_node e has ne) =
      rw (e, blob_loop, has, differs)
    where
      differs : same_text path (string_val path_node) ≡ false
      differs = elim (Bool-cases (same_text path (string_val path_node))) [
        | inl same ↦ absurd (ne (same_text→eq path (string_val path_node) same))
        | inr no_match ↦ no_match
      ]

  blob_loop-Holds :
      (path blob name : List ℕ) (node : Node) (rest : List (List ℕ × Node))
      → Holds path blob node
      → blob_loop lib path ((name, node) ∷ rest) ≡ some blob
  unfolding blob_loop
  blob_loop-Holds path blob name node rest h =
      let match : same_text path (string_val h.path_node) ≡ true =
        rw (← h.path_is) (same_text_refl path) in
      rw (h.is_dict, blob_loop, h.has_path, match, h.has_blob, h.blob_is)

  FirstHolds→found :
      (path blob : List ℕ) {es : List (List ℕ × Node)}
      → FirstHolds path blob es
      → blob_loop lib path es ≡ some blob
  FirstHolds→found path blob (here {name} {node} {rest} h) =
      blob_loop-Holds path blob name node rest h
  FirstHolds→found path blob (later {name} {node} {rest} p f) =
      blob_loop-Passed path name node rest p ∙ FirstHolds→found path blob f

  -- A dictionary whose path was found.
  at_path :
      (path blob name : List ℕ) (node entry path_node : Node) (rest : List (List ℕ × Node))
      → of_kind lib dict (some node) ≡ some entry
      → typed_item lib entry (codes "Path") string ≡ some path_node
      → blob_loop lib path ((name, node) ∷ rest) ≡ some blob
      → (blob_loop lib path rest ≡ some blob → FirstHolds path blob rest)
      → FirstHolds path blob ((name, node) ∷ rest)
  unfolding blob_loop
  at_path path blob name node entry path_node rest e has h next =
      elim (Bool-cases (same_text path (string_val path_node))) [
        | inl same ↦
            let found = rw (e, blob_loop, has, same) at h in
            let found' : value_of data_val (typed_item lib entry (codes "Blob") bytes) ≡ some blob =
              found in
            elim (Option-cases (typed_item lib entry (codes "Blob") bytes)) [
              | inl lacks ↦ absurd (lacking (rw lacks at found'))
              | inr (blob_node, got) ↦ here (record {
                entry = entry;
                path_node = path_node;
                blob_node = blob_node;
                is_dict = e;
                has_path = has;
                path_is = same_text→eq path (string_val path_node) same;
                has_blob = got;
                blob_is = let is : some (data_val blob_node) ≡ some blob = rw got at found' in cc;
              })
            ]
        | inr differs ↦
            let ne : path ≢ string_val path_node = λ same. clash same differs in
            later (other_path entry path_node e has ne)
              (next (rw (e, blob_loop, has, differs) at h))
      ]
    where
      lacking : ◌≡◌ {A = Option (List ℕ)} none (some blob) → ⊥
      lacking x = cc

      clash : path ≡ string_val path_node → same_text path (string_val path_node) ≡ false → ⊥
      clash same differs =
          let refl_match : same_text path (string_val path_node) ≡ true =
            rw (← same) (same_text_refl path) in
          ground arith

  -- A dictionary without a path ends the search.
  no_path :
      (path name : List ℕ) (node entry : Node) (rest : List (List ℕ × Node))
      → of_kind lib dict (some node) ≡ some entry
      → typed_item lib entry (codes "Path") string ≡ none
      → blob_loop lib path ((name, node) ∷ rest) ≡ none
  unfolding blob_loop
  no_path path name node entry rest e lacks = rw (e, blob_loop, lacks)

  found→FirstHolds :
      (path blob : List ℕ) (es : List (List ℕ × Node))
      → blob_loop lib path es ≡ some blob
      → FirstHolds path blob es
  found→FirstHolds path blob [] h = absurd (unfold blob_loop in cc)
  found→FirstHolds path blob ((name, node) ∷ rest) h =
      elim (Option-cases (of_kind lib dict (some node))) [
        | inl e ↦ later (no_dict e) (
            found→FirstHolds path blob rest
              (sym (blob_loop-Passed path name node rest (no_dict e)) ∙ h))
        | inr (entry, e) ↦ elim (Option-cases (typed_item lib entry (codes "Path") string)) [
          | inl lacks ↦ absurd (cc (no_path path name node entry rest e lacks))
          | inr (path_node, has) ↦
              at_path path blob name node entry path_node rest e has h
                (found→FirstHolds path blob rest)
        ]
      ]

  -- `tss_get_blob_by_path` returns a blob exactly if the blob has bytes and the first entry of the
  -- response that is a dictionary with this path holds it, where every dictionary in front of that
  -- entry has a path of its own.
  pub get_blob_by_path_iff :
      (tss : Node) (path blob : List ℕ)
      → (get_blob_by_path lib tss path ≡ some blob)
        ↔ ((blob ≢ []) × FirstHolds path blob (entries tss))
  unfolding get_blob_by_path
  get_blob_by_path_iff tss path blob = (
    λ h.
        let (filled, found) = nonempty-some (blob_loop lib path (entries tss)) blob h in
        (filled, found→FirstHolds path blob (entries tss) found),
    λ (filled, first). rw (FirstHolds→found path blob first) (nonempty_filled blob filled),
  )
