-- ===== src/Files.antt =====
-- idevicerestore/src/common.c: `write_file` and `read_file`, on a disk that maps names to contents.
mod Runs
use irestore.Prelude.{
  ℕ, ◌≡◌, ◌%◌, refl, Bool, true, false, not, List, Option, none, some, length, take, take_all,
  length-take, eq→==, ne→==, ◌==◌, ◌<◌, arith, if◌then◌else◌,
}
use irestore.Effects.{Run, State, ok, fault, out_of_fuel, pure, require, ◌>>=◌, ◌>>◌}
use irestore.Memory.{Mem, Plenty, malloc, free, malloc-grown, grown}
use irestore.Text.{same_text, same_text_refl}

-- `holds name` is the content of the file with this name; `memory` serves the buffers.
pub record Disk : Type 0 where
  pub holds : List ℕ → Option (List ℕ)
  pub memory : Mem

abbrev pub with_file : List ℕ → List ℕ → Disk → Disk
with_file name bytes d = record d {
  holds = λ n. if same_text n name then some bytes else d.holds n;
}

-- `write_file`: the size as the 32 bits of an `int`, or none for -1. `opens` is whether the file opens
-- for writing, which empties it, and `takes` how many bytes `fwrite` takes.
unfoldable pub write_file : Bool → ℕ → List ℕ → List ℕ → State Disk (Option ℕ)
write_file opens takes name bytes d =
    if not opens
    then ok none d
    else ok
        (if not (length (take takes bytes) == length bytes)
          then none
          else some (length bytes % 4294967296))
        (with_file name (take takes bytes) d)

abbrev pub put_memory : {A : Type 0} → Disk → Run Mem A → Run Disk A
put_memory d (ok a m) = ok a (record d { memory = m })
put_memory d fault = fault
put_memory d out_of_fuel = out_of_fuel

abbrev pub on_memory : {A : Type 0} → State Mem A → State Disk A
on_memory f d = put_memory d (f d.memory)

-- the buffer of `read_file`, of which `fread` fills at most `gives` bytes
unfoldable pub read_buffer : ℕ → List ℕ → State Disk (Option (List ℕ))
read_buffer gives bytes = do
  got ← on_memory malloc
  if not got
      then pure none
      else if not (length (take gives bytes) == length bytes)
      then on_memory free >> pure none
      else pure (some (take gives bytes))

-- `read_file`: the buffer, whose length is `*size`, or none for -1
unfoldable pub read_file : ℕ → List ℕ → State Disk (Option (List ℕ))
read_file gives name = λ d. require none (d.holds name) (read_buffer gives) d

-- A file that is written whole reads back as it was written, where it opens, reads are whole, and there is
-- plenty of memory; `write_file` then gives the size, as its low 32 bits, and the other files are as
-- they were. A write that is cut short is an error, and leaves what was taken.
pub write_file-read_file :
    (name bytes : List ℕ) (takes : ℕ) (d : Disk)
    → Plenty d.memory
    → (t : Disk) × (write_file true (length bytes) name bytes d
        ≡ ok (some (length bytes % 4294967296)) t)
      × (read_file (length bytes) name t ≡ ok (some bytes) (record t { memory = grown 1 d.memory }))
      × ((other : List ℕ) → same_text other name ≡ false → t.holds other ≡ d.holds other)
      × (takes < length bytes
          → write_file true takes name bytes d ≡ ok none (with_file name (take takes bytes) d))
unfolding write_file read_file read_buffer
write_file-read_file name bytes takes d plenty = (
  with_file name bytes d,
  rw (take_all bytes, eq→== (length bytes) (length bytes) refl) refl,
  rw (same_text_refl name) (
      rw (malloc-grown d.memory plenty, take_all bytes, eq→== (length bytes) (length bytes) refl)
        refl),
  λ other differs. rw differs refl,
  λ short.
      rw (length-take takes bytes (omega arith), ne→== takes (length bytes) (λ e. omega arith))
        refl,
)
