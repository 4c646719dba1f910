-- ===== src/Restore/Components/Nor.antt =====
-- What `restore_send_nor` sends.
use irestore.Prelude.{
  ℕ, ◌+◌, ◌-◌, ◌<◌, ◌≤◌, ◌≡◌, ◌≢◌, ◌∙◌, ap, sym, refl, arith, true, false, List, [], ◌∷◌, ◌++◌,
  append_assoc, append-nil, none, some, length, take, ne→==, leb,
}
use irestore.Effects.{ok}
use irestore.Memory.{Mem, Plenty, free}
use irestore.Text.{codes}
use irestore.Plists.{Plists}
use irestore.Ipsw.{Zip}
use irestore.Ipsw.Extract.{HoldsBytes, extract_to_memory-HoldsBytes}
use irestore.Signing.{get_component_by_path}
use irestore.Tss.Response.{strstr}
use irestore.Restore.World.{World, restored_send}
use irestore.Restore.Components.{
  Setting, until_zero, push, strtok_lines, join_path, component_path, component, nor_loop,
  send_images, send_files, send_nor,
}

-- a name that can stand in a manifest: it has characters, and no newline
pub record IsLine (name : List ℕ) : Type 0 where
  pub filled : name ≢ []
  pub plain : (c : ℕ) (before after : List ℕ) → name ≡ before ++ c ∷ after → c ≢ 10

abbrev pub AllLines : List (List ℕ) → Type 0
AllLines [] = Unit {0}
AllLines (n ∷ ns) = IsLine n × AllLines ns

-- the names, a newline behind each
unfoldable pub lines_text : List (List ℕ) → List ℕ
lines_text [] = []
lines_text (n ∷ ns) = n ++ (10 ∷ lines_text ns)

push_filled : (word : List ℕ) (words : List (List ℕ)) → word ≢ [] → push word words ≡ word ∷ words
push_filled [] words filled = absurd (filled refl)
push_filled (c ∷ cs) words filled = refl

strtok_lines-word :
    (word name rest : List ℕ)
    → ((c : ℕ) (before after : List ℕ) → name ≡ before ++ c ∷ after → c ≢ 10)
    → strtok_lines word (name ++ (10 ∷ rest)) ≡ push (word ++ name) (strtok_lines [] rest)
unfolding strtok_lines
strtok_lines-word word [] rest plain =
    ap (λ t. push t (strtok_lines [] rest)) (sym (append-nil word))
strtok_lines-word word (c ∷ cs) rest plain =
    rw (strtok_lines, ne→== c 10 (plain c [] cs refl))
      (strtok_lines-word (word ++ c ∷ []) cs rest
          (λ d before after e. plain d (c ∷ before) after (ap (λ t. c ∷ t) e))
        ∙ ap (λ t. push t (strtok_lines [] rest)) (append_assoc word (c ∷ []) cs))

-- `strtok` with newlines gives back the names of a manifest that has a newline behind each.
pub strtok_lines-lines_text :
    (names : List (List ℕ)) → AllLines names → strtok_lines [] (lines_text names) ≡ names
unfolding strtok_lines lines_text
strtok_lines-lines_text [] all = refl
strtok_lines-lines_text (n ∷ ns) (is, all) =
    strtok_lines-word [] n (lines_text ns) is.plain
    ∙ (push_filled n (strtok_lines [] (lines_text ns)) is.filled
        ∙ ap (λ t. n ∷ t) (strtok_lines-lines_text ns all))

positive : (n : ℕ) → 0 < n → n ≢ 0
positive n h e = absurd (omega arith)

fits : (n : ℕ) → n ≤ 256 → leb 257 n ≡ false
fits n h = ground arith

module _ (zip : Zip) (lib : Plists) (setting : Setting lib.Node) where
  open lib use {Node, new_dict, new_data, new_array}

  -- With plenty of memory the component at this path is these bytes.
  abbrev pub Gets : List ℕ → List ℕ → Type 0
  Gets path bytes =
      (m : Mem)
      → Plenty m
      → (size : ℕ) × (m' : Mem) × (get_component_by_path zip lib setting.junk setting.ipsw
            setting.tss path m
          ≡ ok (some (bytes, size)) m')
        × Plenty m'

  -- With plenty of memory there is no component at this path.
  abbrev pub Lacks : List ℕ → Type 0
  Lacks path =
      (m : Mem)
      → Plenty m
      → (m' : Mem) × (get_component_by_path zip lib setting.junk setting.ipsw setting.tss path m
          ≡ ok none m')

  -- the names and the bytes of components in a directory
  abbrev pub AllGets : List ℕ → List (List ℕ × List ℕ) → Type 0
  AllGets directory [] = Unit {0}
  AllGets directory ((name, bytes) ∷ had) =
      Gets (join_path directory name) bytes × AllGets directory had

  abbrev pub names_of : List (List ℕ × List ℕ) → List (List ℕ)
  names_of [] = []
  names_of ((name, bytes) ∷ had) = name ∷ names_of had

  abbrev pub images_of : List (List ℕ × List ℕ) → List Node
  images_of [] = []
  images_of ((name, bytes) ∷ had) = new_data bytes ∷ images_of had

  -- The first of these names, if there is one, cannot be had.
  abbrev pub Stops : List ℕ → List (List ℕ) → Type 0
  Stops directory [] = Unit {0}
  Stops directory (name ∷ names) = Lacks (join_path directory name)

  -- what a run that touched only the memory has changed
  abbrev with_memory : World Node → Mem → World Node
  with_memory w m = record w { memory = m }

  nor_loop-images_of :
      (directory : List ℕ) (had : List (List ℕ × List ℕ)) (rest : List (List ℕ))
      (images : List Node) (w : World Node)
      → AllGets directory had
      → Stops directory rest
      → Plenty w.memory
      → (m : Mem) × (nor_loop zip lib setting directory (names_of had ++ rest) images w
          ≡ ok (images ++ images_of had) (with_memory w m))
  unfolding nor_loop component free
  nor_loop-images_of directory [] [] images w all stops plenty =
      (w.memory, ap (λ t. ok t w) (sym (append-nil images)))
  nor_loop-images_of directory [] (name ∷ names) images w all stops plenty =
      let (m, e) = stops w.memory plenty in
      (m, rw (component, e) (ap (λ t. ok t (with_memory w m)) (sym (append-nil images))))
  nor_loop-images_of directory ((name, bytes) ∷ had) rest images w (gets, all) stops plenty =
      let (size, m, e, plenty') = gets w.memory plenty in
      let m' : Mem = record m { live = m.live - 1 } in
      let more =
        nor_loop-images_of directory had rest (images ++ new_data bytes ∷ []) (with_memory w m') all
          stops plenty' in
      (
        more.0,
        rw (component, e)
            (more.1
              ∙ ap (λ t. ok t (with_memory w (more.0)))
                  (append_assoc images (new_data bytes ∷ []) (images_of had))),
      )

  -- the message for the LLB and the images of the components that were had
  abbrev pub nor_message : List ℕ → List (List ℕ × List ℕ) → Node
  nor_message llb had = new_dict (
      (codes "LlbImageData", new_data llb) ∷ (codes "NorImageData", new_array (images_of had)) ∷ [])

  send_files-nor_message :
      (directory llb_name llb : List ℕ) (had : List (List ℕ × List ℕ)) (rest : List (List ℕ))
      (w : World Node)
      → Gets (join_path directory llb_name) llb
      → AllGets directory had
      → Stops directory rest
      → Plenty w.memory
      → w.accepts w.sends ≡ true
      → (t : World Node) × (send_files zip lib setting directory
            (llb_name ∷ (names_of had ++ rest))
            w
          ≡ ok true t)
        × (t.sent ≡ w.sent ++ nor_message llb had ∷ [])
  unfolding send_files send_images component restored_send
  send_files-nor_message directory llb_name llb had rest w gets all stops plenty accepts =
      let (size, m, e, plenty') = gets w.memory plenty in
      let (m', e') = nor_loop-images_of directory had rest [] (with_memory w m) all stops plenty' in
      (
        record w { memory = m'; sends = w.sends + 1; sent = w.sent ++ nor_message llb had ∷ [] },
        rw (component, e) (rw e' (rw accepts)),
        refl,
      )

  -- What is there for the NOR: a path of the LLB in a directory whose name is shorter than 256, and in
  -- that directory a manifest, whose lines up to the first 0 in memory are the LLB, names of components
  -- that can be had, and others of which the first cannot.
  pub record HasNor (llb_path directory text llb_name llb : List ℕ) (had : List (List ℕ × List ℕ))
      (rest : List (List ℕ)) : Type 0 where
    pub at : ℕ
    pub has_path : component_path zip lib setting (codes "LLB") ≡ some llb_path
    pub has_name : strstr llb_path (codes "LLB") ≡ some at
    pub in_directory : 0 < at
    pub short : at ≤ 256
    pub directory_is : take (at - 1) llb_path ≡ directory
    pub manifest : HoldsBytes zip setting.ipsw (join_path directory (codes "manifest")) text
    pub small : length text < 2147483648
    pub listed :
        strtok_lines [] (until_zero (text ++ setting.behind)) ≡ llb_name ∷ (names_of had ++ rest)
    pub gets_llb : Gets (join_path directory llb_name) llb
    pub gets_all : AllGets directory had
    pub stops : Stops directory rest

  -- With plenty of memory and a device that takes the message, `restore_send_nor` succeeds, and has
  -- sent the LLB and the images of the manifest in order, up to the first that cannot be had: that one
  -- and those behind it are left out, and the result is 0 nevertheless.
  pub send_nor-nor_message :
      (llb_path directory text llb_name llb : List ℕ) (had : List (List ℕ × List ℕ))
      (rest : List (List ℕ)) (w : World Node)
      → HasNor llb_path directory text llb_name llb had rest
      → Plenty w.memory
      → w.accepts w.sends ≡ true
      → (t : World Node) × (send_nor zip lib setting w ≡ ok true t)
        × (t.sent ≡ w.sent ++ nor_message llb had ∷ [])
  unfolding send_nor
  send_nor-nor_message llb_path directory text llb_name llb had rest w has plenty accepts =
      let m : Mem = record w.memory { calls = w.memory.calls + 2; live = w.memory.live + 1 } in
      let sent =
        send_files-nor_message directory llb_name llb had rest (with_memory w m) has.gets_llb
          has.gets_all has.stops plenty accepts in
      (
        sent.0,
        rw (has.has_path, has.has_name)
            (rw
              (
                ne→== has.at 0 (positive has.at has.in_directory),
                fits has.at has.short,
                has.directory_is,
              )
              (rw
                (extract_to_memory-HoldsBytes zip setting.ipsw
                  (join_path directory (codes "manifest")) text w.memory has.manifest has.small
                  plenty)
                (rw has.listed (sent.1)))),
        sent.2,
      )

  -- Without a TSS response a component is its file.
  pub unsigned-Gets :
      (path bytes : List ℕ)
      → setting.tss ≡ none
      → HoldsBytes zip setting.ipsw path bytes
      → length bytes < 2147483648
      → Gets path bytes
  unfolding get_component_by_path
  unsigned-Gets path bytes unsigned holds small m plenty = (
    length bytes,
    record m { calls = m.calls + 2; live = m.live + 1 },
    rw (unsigned, extract_to_memory-HoldsBytes zip setting.ipsw path bytes m holds small plenty),
    plenty,
  )
