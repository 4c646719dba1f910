-- ===== src/Ipsw.antt =====
-- idevicerestore/src/ipsw.c: files of a firmware archive. The archive library is a parameter.
pub mod Extract
pub mod Sample
mod Runs
use irestore.Prelude.{
  ℕ, zero, suc, ◌+◌, ◌-◌, ◌%◌, Bool, true, false, not, List, [], ◌∷◌, ◌++◌, Option, none, some,
  length, ltb, ◌==◌, if◌then◌else◌,
}
use irestore.Memory.{Mem, M, ok, out_of_fuel, pure, ◌>>=◌, ◌>>◌, malloc, free, require}
use irestore.Text.{codes}
use irestore.Plists.{Plists}

-- What the code uses of libzip: each none is an error. `fread` gives the bytes that it has read and
-- the file behind them.
pub record Zip : Type 1 where
  pub Archive : Type 0
  pub File : Type 0
  pub zip_open : List ℕ → Option Archive
  pub locate : Archive → List ℕ → Option ℕ
  pub stat_size : Archive → ℕ → Option ℕ
  pub fopen : Archive → ℕ → Option File
  pub fread : File → ℕ → Option (List ℕ × File)

-- `malloc(size)` of an `int`: a negative one is more than there is.
unfoldable pub malloc_int : ℕ → M Bool
malloc_int size =
    if ltb size 2147483648 then malloc else λ m. ok false (record m { calls = m.calls + 1 })

-- an `int` that is positive, and 0 for the others
abbrev pub as_positive : ℕ → ℕ
as_positive n = if ltb n 2147483648 then n else 0

module _ (zip : Zip) where
  open zip use {Archive, File, zip_open, locate, stat_size, fopen, fread}

  unfoldable pub ipsw_open : List ℕ → M (Option Archive)
  ipsw_open ipsw = do
    got ← malloc
    if not got
        then pure none
        else elim (zip_open ipsw) [ none ↦ free >> pure none | some archive ↦ pure (some archive) ]

  -- The loop of `ipsw_extract_to_file`, with `i` bytes left and `written` given to `fwrite`: the
  -- result is whether no read has failed, and all that was given to `fwrite`.
  unfoldable pub copy_loop : ℕ → File → ℕ → List ℕ → M (Bool × List ℕ)
  copy_loop zero file i written = λ _. out_of_fuel
  copy_loop (suc fuel) file i written =
      if i == 0
      then pure (true, written)
      else elim (fread file (if ltb i 1048576 then i else 1048576)) [
        | none ↦ pure (false, written)
        | some (bytes, next) ↦ copy_loop fuel next (i - length bytes) (written ++ bytes)
      ]

  -- Behind the loop: a read that failed gives back the buffer, and the end of the file also the
  -- archive.
  unfoldable pub finish_copy : Bool × List ℕ → M (Bool × List ℕ)
  finish_copy (true, written) = free >> free >> pure (true, written)
  finish_copy (false, written) = free >> pure (false, written)

  -- `ipsw_extract_to_file`: whether the result is 0, and what was given to `fwrite`. `opens` says
  -- whether the file to write opens. `int i = zstat.size` keeps 32 bits, and a negative one is no
  -- round. A round that reads a byte or more makes `i` smaller, so `size + 1` rounds are enough for
  -- these.
  unfoldable pub extract_to_file : Bool → List ℕ → List ℕ → M (Bool × List ℕ)
  extract_to_file opens ipsw infile = do
    opened ← ipsw_open ipsw
    require (false, []) opened
        λ archive.
          require (false, []) (locate archive infile)
            λ index.
              require (false, []) (stat_size archive index)
                λ size. do
                  got ← malloc
                  if not got
                      then pure (false, [])
                      else require (false, []) (fopen archive index)
                          λ file. if not opens then pure (false, []) else do
                            copied ←
                                copy_loop (as_positive (size % 4294967296) + 1) file
                                  (as_positive (size % 4294967296)) []
                            finish_copy copied

  -- The end of `ipsw_extract_to_memory`, for `int size`: the buffer, filled by one `zip_fread`.
  unfoldable pub read_whole : File → ℕ → M (Option (List ℕ))
  read_whole file size = do
    got ← malloc_int size
    if not got then pure none else elim (fread file size) [
      | none ↦ free >> pure none
      | some (bytes, _) ↦
          if not (length bytes == size) then free >> pure none else free >> pure (some bytes)
    ]

  -- `ipsw_extract_to_memory`: the buffer, whose length is `*psize`, or none for -1
  unfoldable pub extract_to_memory : List ℕ → List ℕ → M (Option (List ℕ))
  extract_to_memory ipsw infile = do
    opened ← ipsw_open ipsw
    require none opened λ archive. require none (locate archive infile) λ index.
        require none (stat_size archive index)
          λ size. require none (fopen archive index) λ file. read_whole file (size % 4294967296)

  -- `ipsw_extract_build_manifest`: `*tss_enabled` and the manifest, which is null if the file is no
  -- XML, or none for -1. The buffers stay allocated.
  unfoldable pub extract_build_manifest :
      (lib : Plists) → List ℕ → M (Option (Bool × Option lib.Node))
  extract_build_manifest lib ipsw = do
    old ← extract_to_memory ipsw (codes "BuildManifesto.plist")
    elim old [
      | some text ↦ pure (some (false, lib.from_xml text))
      | none ↦ do
        new ← extract_to_memory ipsw (codes "BuildManifest.plist")
        elim new [ some text ↦ pure (some (true, lib.from_xml text)) | none ↦ pure none ]
    ]
