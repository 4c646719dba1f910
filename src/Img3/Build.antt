-- ===== src/Img3/Build.antt =====
-- `img3_get_data` of idevicerestore/src/img3.c.
pub mod Output
use irestore.Prelude.{
  ℕ, ◌+◌, ◌-◌, ◌%◌, not, List, [], ◌∷◌, ◌++◌, Option, none, some, length, ltb, leb, ◌==◌,
  if◌then◌else◌,
}
use irestore.Memory.{M, fault, pure, ◌>>=◌, ◌>>◌, malloc, free, demand, memcpy}
use irestore.Words.{word_bytes}
use irestore.Img3.{
  Slot, shsh_slot, Header, Image, get_slot, slot_order, full_size, u32_mod, i32_end,
}

-- The first pass of `img3_get_data`: `int size` by unsigned additions, kept as its bit pattern.
unfoldable pub sum_sizes : List Slot → Image → ℕ → M ℕ
sum_sizes [] image size = pure size
sum_sizes (s ∷ ss) image size = elim (get_slot s image) [
  | none ↦ sum_sizes ss image size
  | some e ↦ do n ← full_size e; sum_sizes ss image ((size + n) % u32_mod)
]

-- What `malloc(size)` gives: a negative `int` becomes a huge `size_t`.
abbrev pub capacity : ℕ → ℕ
capacity size = if ltb size i32_end then size else size + 18446744069414584320

-- What the SHSH element's turn writes to `shsh_offset`: the offset behind the header.
abbrev pub note_shsh : Slot → ℕ → ℕ → ℕ
note_shsh shsh_slot offset shsh = offset % u32_mod
note_shsh _ offset shsh = shsh

-- The second pass: `out` is the buffer behind its header, `shsh` the header's `shsh_offset`.
unfoldable pub copy_slots : List Slot → Image → ℕ → List ℕ → ℕ → M (List ℕ × ℕ)
copy_slots [] image room out shsh = pure (out, shsh)
copy_slots (s ∷ ss) image room out shsh = elim (get_slot s image) [
  | none ↦ copy_slots ss image room out shsh
  | some e ↦ do
    n ← full_size e
    bytes ← memcpy n e.bytes
    if not (leb (20 + length out + n) room)
        then (λ _. fault)
        else copy_slots ss image room (out ++ bytes) (note_shsh s (length out) shsh)
]

-- The rest of `img3_get_data` once the block is there. The result is `*pdata` and `*psize`.
unfoldable pub write_file : ℕ → Image → ℕ → Header → M (Option (List ℕ × ℕ))
write_file junk image size header = do
  (out, shsh) ← copy_slots slot_order image (capacity size) [] junk
  if not ((20 + length out) % u32_mod == size)
      then free >> pure none
      else pure (
          some (
            word_bytes header.signature
                ++ (word_bytes size
                    ++ (word_bytes ((size + u32_mod - 20) % u32_mod)
                        ++ (word_bytes shsh ++ (word_bytes header.image_type ++ out)))),
            size,
          ))

-- `img3_get_data`; `junk` is what the fresh block holds in `shsh_offset`, which is written only if
-- there is an SHSH element.
unfoldable pub get_data : ℕ → Image → M (Option (List ℕ × ℕ))
get_data junk image = do
  size ← sum_sizes slot_order image 20
  got ← malloc
  if not got
      then pure none
      else if not (leb 20 (capacity size))
      then (λ _. fault)
      else do header ← demand image.header; write_file junk image size header
