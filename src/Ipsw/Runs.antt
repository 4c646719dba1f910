-- ===== src/Ipsw/Runs.antt =====
-- Concrete archives, and the theorems at these.
use irestore.Prelude.{ℕ, ◌<◌, ◌≡◌, refl, arith, true, List, [], ◌∷◌, none, some, drop, length}
use irestore.Memory.{Mem, ok, out_of_fuel, malloc, free}
use irestore.Text.{codes, same_text}
use irestore.Plists.Tree.{text, trees}
use irestore.Ipsw.{
  Zip, malloc_int, ipsw_open, copy_loop, finish_copy, extract_to_file, read_whole,
  extract_to_memory, extract_build_manifest,
}
use irestore.Ipsw.Sample.{one_file}
use irestore.Ipsw.Extract.{
  HasFile, HoldsBytes, Reads, extract_to_memory-HoldsBytes, extract_to_file-content,
  copy_loop-stuck,
}

abbrev start : Mem
start = record { grants = λ _. true; calls = 0; live = 0 }

abbrev bytes : List ℕ
bytes = 10 ∷ 20 ∷ 30 ∷ []

abbrev name : List ℕ
name = codes "BuildManifest.plist"

-- one byte for each read
abbrev slow : Zip
slow = one_file (λ _. 1) name bytes

abbrev fast : Zip
fast = one_file (λ n. n) name bytes

extract_to_file_lem :
    extract_to_file slow true [] name start ≡ ok (true, bytes) (record start { calls = 2 })
unfolding extract_to_file ipsw_open copy_loop finish_copy malloc free same_text
extract_to_file_lem = refl

-- A file that is not there leaves the archive open.
extract_to_memory_missing :
    extract_to_memory fast [] (codes "a") start ≡ ok none (record start { calls = 1; live = 1 })
unfolding extract_to_memory ipsw_open malloc free same_text
extract_to_memory_missing = refl

-- The old kind of manifest is not there; the archive of that search and the buffer of the new one
-- stay allocated.
extract_build_manifest_lem :
    extract_build_manifest fast (trees (λ _. some (text name))) [] start
    ≡ ok (some (true, some (text name))) (record start { calls = 3; live = 2 })
unfolding extract_build_manifest extract_to_memory ipsw_open read_whole malloc_int malloc free
    same_text
extract_build_manifest_lem = refl

slow-HasFile : HasFile slow [] name 3 bytes
unfolding same_text
slow-HasFile = record {
  archive = tt;
  index = 0;
  opened = refl;
  located = refl;
  sized = refl;
  file_opened = refl;
}

fast-HoldsBytes : HoldsBytes fast [] name bytes
unfolding same_text
fast-HoldsBytes = record {
  file = bytes;
  next = [];
  has_file = record {
    archive = tt;
    index = 0;
    opened = refl;
    located = refl;
    sized = refl;
    file_opened = refl;
  };
  reads = refl;
}

extract_to_memory-HoldsBytes_example :
    extract_to_memory fast [] name start ≡ ok (some bytes) (record start { calls = 2; live = 1 })
extract_to_memory-HoldsBytes_example =
    extract_to_memory-HoldsBytes fast [] name bytes start fast-HoldsBytes (omega arith) (λ _. refl)

slow-Reads : (file : List ℕ) (n : ℕ) → 0 < n → 0 < length file → Reads slow (λ f. f) file n
slow-Reads file n asked left = record {
  k = 1;
  next = drop 1 file;
  some_byte = omega arith;
  no_more = omega arith;
  inside = omega arith;
  reads = refl;
  left = refl;
}

extract_to_file-content_example :
    extract_to_file slow true [] name start ≡ ok (true, bytes) (record start { calls = 2 })
extract_to_file-content_example =
    extract_to_file-content slow (λ f. f) slow-Reads [] name bytes start slow-HasFile (omega arith)
      (λ _. refl)

copy_loop-stuck_run : copy_loop (one_file (λ _. 0) name bytes) 1000 [] 3 bytes start ≡ out_of_fuel
copy_loop-stuck_run =
    copy_loop-stuck (one_file (λ _. 0) name bytes) 1000 [] 3 bytes start (omega arith) (λ n. refl)
