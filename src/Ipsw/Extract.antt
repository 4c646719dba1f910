-- ===== src/Ipsw/Extract.antt =====
-- Archives that hold a file, and what `ipsw_extract_to_memory` and `ipsw_extract_to_file` make of
-- them.
use irestore.Prelude.{
  ℕ, zero, suc, ◌+◌, ◌-◌, ◌%◌, ◌≤◌, ◌<◌, ◌≡◌, refl, sym, ap, ◌∙◌, arith, inl, inr, true, false,
  List, [], ◌++◌, some, length, take, drop, take-drop, length_zero, length-take, length-drop,
  lt→ltb, eq→==, ne→==, ltb, ◌==◌, Bool-cases, append_assoc, append-nil, if◌then◌else◌,
}
use irestore.Memory.{Mem, ok, out_of_fuel, grown, Plenty, free, malloc-grown}
use irestore.Ipsw.{
  Zip, malloc_int, ipsw_open, copy_loop, finish_copy, extract_to_file, read_whole,
  extract_to_memory, as_positive,
}

module _ (zip : Zip) where
  open zip use {Archive, File, zip_open, locate, stat_size, fopen, fread}

  -- `ipsw` is an archive with a file `infile` of this size, which opens.
  pub record HasFile (ipsw infile : List ℕ) (size : ℕ) (file : File) : Type 0 where
    pub archive : Archive
    pub index : ℕ
    pub opened : zip_open ipsw ≡ some archive
    pub located : locate archive infile ≡ some index
    pub sized : stat_size archive index ≡ some size
    pub file_opened : fopen archive index ≡ some file

  -- one read gives the whole file
  pub record HoldsBytes (ipsw infile bytes : List ℕ) : Type 0 where
    pub file : File
    pub next : File
    pub has_file : HasFile ipsw infile (length bytes) file
    pub reads : fread file (length bytes) ≡ some (bytes, next)

  -- `ipsw_extract_to_memory` of a file below 2^31 bytes that one read gives returns its bytes, and
  -- with plenty of memory one block more is allocated afterwards, which holds them.
  pub extract_to_memory-HoldsBytes :
      (ipsw infile bytes : List ℕ) (m : Mem)
      → HoldsBytes ipsw infile bytes
      → length bytes < 2147483648
      → Plenty m
      → extract_to_memory zip ipsw infile m
        ≡ ok (some bytes) (record m { calls = m.calls + 2; live = m.live + 1 })
  unfolding extract_to_memory ipsw_open read_whole malloc_int free
  extract_to_memory-HoldsBytes ipsw infile bytes m holds small plenty =
      let has = holds.has_file in
      let size : length bytes % 4294967296 ≡ length bytes = omega arith in
      rw
        (
          malloc-grown m plenty,
          has.opened,
          has.located,
          has.sized,
          has.file_opened,
          size,
          lt→ltb (length bytes) 2147483648 small,
          malloc-grown (grown 1 m) plenty,
          holds.reads,
          eq→== (length bytes) (length bytes % 4294967296) (sym size),
        )
        (ground arith)

  -- The documented behaviour of `zip_fread` on files whose bytes are `content`: it reads a byte or
  -- more of what is left, and no more than asked.
  pub record Reads (content : File → List ℕ) (file : File) (n : ℕ) : Type 0 where
    pub k : ℕ
    pub next : File
    pub some_byte : 0 < k
    pub no_more : k ≤ n
    pub inside : k ≤ length (content file)
    pub reads : fread file n ≡ some (take k (content file), next)
    pub left : content next ≡ drop k (content file)

  module _ (content : File → List ℕ)
      (law : (file : File) (n : ℕ) → 0 < n → 0 < length (content file) → Reads content file n) where
    -- a round, for the rounds behind it
    copy_round :
        (fuel : ℕ) (file : File) (i : ℕ) (written : List ℕ) (m : Mem)
        → Reads content file (if ltb i 1048576 then i else 1048576)
        → (i == 0) ≡ false
        → i ≡ length (content file)
        → i < suc fuel
        → ((next : File) (j : ℕ) (more : List ℕ)
            → j ≡ length (content next)
            → j < fuel
            → copy_loop zip fuel next j more m ≡ ok (true, more ++ content next) m)
        → copy_loop zip (suc fuel) file i written m ≡ ok (true, written ++ content file) m
    unfolding copy_loop
    copy_round fuel file i written m r e whole enough rest =
        let got : length (take r.k (content file)) ≡ r.k =
          length-take (r.k) (content file) (r.inside) in
        let remains : length (content r.next) ≡ length (content file) - r.k =
          ap length (r.left) ∙ length-drop (r.k) (content file) in
        let byte : 0 < r.k = r.some_byte in
        rw (e, r.reads)
          (rest (r.next) (i - length (take r.k (content file))) (written ++ take r.k (content file))
              (omega arith) (omega arith)
            ∙ ap (λ t. ok (true, t) m)
                (append_assoc written (take r.k (content file)) (content r.next)
                  ∙ rw (r.left) (ap (λ t. written ++ t) (take-drop (r.k) (content file)))))

    copy_loop-content :
        (fuel : ℕ) (file : File) (i : ℕ) (written : List ℕ) (m : Mem)
        → i ≡ length (content file)
        → i < fuel
        → copy_loop zip fuel file i written m ≡ ok (true, written ++ content file) m
    unfolding copy_loop
    copy_loop-content zero file i written m whole enough = absurd (omega arith)
    copy_loop-content (suc fuel) file i written m whole enough = elim (Bool-cases (i == 0)) [
      | inl e ↦ rw e (
          ap (λ t. ok (true, t) m)
            (sym (append-nil written)
              ∙ ap (λ t. written ++ t) (sym (length_zero (content file) (ground arith)))))
      | inr e ↦
          copy_round fuel file i written m
            (law file (if ltb i 1048576 then i else 1048576) (ground arith) (ground arith)) e whole
            enough (λ next j more same less. copy_loop-content fuel next j more m same less)
    ]

    -- `ipsw_extract_to_file` of a file below 2^31 bytes ends, however many bytes each read gives: it
    -- succeeds, has written exactly the bytes of the file, and with plenty of memory has freed all
    -- that it allocated.
    pub extract_to_file-content :
        (ipsw infile : List ℕ) (file : File) (m : Mem)
        → HasFile ipsw infile (length (content file)) file
        → length (content file) < 2147483648
        → Plenty m
        → extract_to_file zip true ipsw infile m
          ≡ ok (true, content file) (record m { calls = m.calls + 2 })
    unfolding extract_to_file ipsw_open finish_copy free
    extract_to_file-content ipsw infile file m has small plenty =
        let size : as_positive (length (content file) % 4294967296) ≡ length (content file) =
          ground arith in
        rw
          (
            malloc-grown m plenty,
            has.opened,
            has.located,
            has.sized,
            malloc-grown (grown 1 m) plenty,
            has.file_opened,
          )
          (rw
            (
              size,
              copy_loop-content (length (content file) + 1) file (length (content file)) []
                  (grown 1 (grown 1 m)) refl (omega arith),
            )
            (ground arith))

  -- A file that ends before its size is reached, so that each further read gives no byte: the loop
  -- of `ipsw_extract_to_file` does not end, whatever the number of its rounds.
  pub copy_loop-stuck :
      (fuel : ℕ) (file : File) (i : ℕ) (written : List ℕ) (m : Mem)
      → 0 < i
      → ((n : ℕ) → fread file n ≡ some ([], file))
      → copy_loop zip fuel file i written m ≡ out_of_fuel
  unfolding copy_loop
  copy_loop-stuck zero file i written m left ended = refl
  copy_loop-stuck (suc fuel) file i written m left ended =
      rw (ne→== i 0 (λ e. omega arith), ended (if ltb i 1048576 then i else 1048576))
        (copy_loop-stuck fuel file (i - 0) (written ++ []) m (omega arith) ended)
