-- ===== src/Restore/Components.antt =====
-- `restore_send_kernelcache` and `restore_send_nor` of idevicerestore/src/restore.c.
pub mod Nor
use irestore.Prelude.{
  ℕ, zero, suc, ◌+◌, ◌-◌, Bool, true, false, not, ◌||◌, List, [], ◌∷◌, ◌++◌, Option, none, some,
  take, length, leb, ◌==◌, if◌then◌else◌,
}
use irestore.Effects.{State, ok, fault, pure, ◌>>=◌, ◌>>◌, require}
use irestore.Memory.{free}
use irestore.Text.{codes}
use irestore.Plists.{Plists}
use irestore.Ipsw.{Zip, extract_to_memory}
use irestore.Signing.{get_component_by_path}
use irestore.Manifest.{get_component_path}
use irestore.Tss.Blob.{get_entry_path}
use irestore.Tss.Response.{strstr}
use irestore.Restore.World.{World, on_memory, restored_send}

-- What a restore is given: the archive's name, the TSS response if there is one, the identity, and
-- two contents of memory that no code has written: the field `shsh_offset` of a fresh image block,
-- and what is behind the block of a file up to the first 0.
pub record Setting (Node : Type 0) : Type 0 where
  pub ipsw : List ℕ
  pub tss : Option Node
  pub identity : Node
  pub junk : ℕ
  pub behind : List ℕ

-- the bytes in front of the first 0
unfoldable pub until_zero : List ℕ → List ℕ
until_zero [] = []
until_zero (b ∷ bs) = if b == 0 then [] else b ∷ until_zero bs

abbrev pub push : List ℕ → List (List ℕ) → List (List ℕ)
push [] words = words
push (c ∷ cs) words = (c ∷ cs) ∷ words

-- All that `strtok(_, "\n")` gives for a text, `word` being the characters in front: the pieces
-- between newlines that are not empty.
unfoldable pub strtok_lines : List ℕ → List ℕ → List (List ℕ)
strtok_lines word [] = push word []
strtok_lines word (c ∷ cs) = elim (c == b'\n') [
  | true ↦ push word (strtok_lines [] cs)
  | false ↦ strtok_lines (word ++ c ∷ []) cs
]

-- `snprintf(_, 256, "%s/%s", directory, name)`
abbrev pub join_path : List ℕ → List ℕ → List ℕ
join_path directory name = take 255 (directory ++ (b'/' ∷ name))

module _ (zip : Zip) (lib : Plists) (setting : Setting lib.Node) where
  open lib use {Node, new_dict, new_data, new_array}

  -- the path of a component, from the response if there is one
  unfoldable pub component_path : List ℕ → Option (List ℕ)
  component_path name = elim setting.tss [
    | none ↦ get_component_path lib setting.identity name
    | some tss ↦ get_entry_path lib tss name
  ]

  -- a component, signed if there is a response: its bytes
  unfoldable pub component : List ℕ → State (World Node) (Option (List ℕ))
  component path = do
    got ← on_memory (get_component_by_path zip lib setting.junk setting.ipsw setting.tss path)
    require none got λ (bytes, _). pure (some bytes)

  -- `restore_send_kernelcache`, by whether the result is 0
  unfoldable pub send_kernelcache : State (World Node) Bool
  send_kernelcache = require false (component_path (codes "KernelCache")) λ path. do
    got ← component path
    require false got λ kernel. do
      sent ← restored_send (new_dict ((codes "KernelCacheFile", new_data kernel) ∷ []))
      if not sent then pure false else on_memory free >> pure true

  -- The loop over the NOR images: a component that cannot be had ends it, and the images so far
  -- are kept.
  unfoldable pub nor_loop : List ℕ → List (List ℕ) → List Node → State (World Node) (List Node)
  nor_loop directory [] images = pure images
  nor_loop directory (name ∷ names) images = do
    got ← component (join_path directory name)
    elim got [
      | none ↦ pure images
      | some bytes ↦ on_memory free >> nor_loop directory names (images ++ new_data bytes ∷ [])
    ]

  -- the NOR images, and the message, behind the LLB
  unfoldable pub send_images :
      List ℕ → List (List ℕ) → List (List ℕ × Node) → State (World Node) Bool
  send_images directory names entries = do
    images ← nor_loop directory names []
    restored_send (new_dict (entries ++ (codes "NorImageData", new_array images) ∷ []))

  -- the files that the manifest names
  unfoldable pub send_files : List ℕ → List (List ℕ) → State (World Node) Bool
  send_files directory [] = send_images directory [] []
  send_files directory (llb ∷ names) = do
    got ← component (join_path directory llb)
    require false got
        λ bytes. send_images directory names ((codes "LlbImageData", new_data bytes) ∷ [])

  -- `restore_send_nor`, by whether the result is 0. A path that begins with LLB is a copy of -1 bytes,
  -- and a directory of 256 or more does not fit its buffer. The manifest is read as text, up to the
  -- first 0 behind its block.
  unfoldable pub send_nor : State (World Node) Bool
  send_nor = require false (component_path (codes "LLB")) λ llb_path.
      require false (strstr llb_path (codes "LLB")) λ at.
        if at == 0 || leb 257 at then (λ _. fault) else do
          let directory = take (at - 1) llb_path
          manifest ←
              on_memory
                (extract_to_memory zip setting.ipsw (join_path directory (codes "manifest")))
          require false manifest
              λ text. send_files directory (strtok_lines [] (until_zero (text ++ setting.behind)))
