-- ===== src/Ipsw/Sample.antt =====
-- A concrete archive of one file, whose reads give at most as many bytes as `step` says.
use irestore.Prelude.{
  ℕ, ◌<◌, leb, Bool-cases, inl, inr, arith, ◌≡◌, ◌∙◌, sym, take_over, drop_over, refl, ap, take_all,
  drop_all, ◌+◌, ◌-◌, ◌==◌, List, [], ◌∷◌, Option, none, some, length, take, drop, if◌then◌else◌,
}
use irestore.Text.{same_text}
use irestore.Ipsw.{Zip}
use irestore.Ipsw.Extract.{HoldsBytes, Reads}

abbrev pub one_file : (ℕ → ℕ) → List ℕ → List ℕ → Zip
one_file step path bytes = record {
  Archive = Unit {0};
  File = List ℕ;
  zip_open = λ _. some tt;
  locate = λ _ name. if same_text name path then some 0 else none;
  stat_size = λ _ _. some (length bytes);
  fopen = λ _ _. some bytes;
  fread = λ file n. some (take (step n) file, drop (step n) file);
}

-- the file with this name and its number
unfoldable pub locate_in : ℕ → List (List ℕ × List ℕ) → List ℕ → Option ℕ
locate_in n [] name = none
locate_in n ((file, bytes) ∷ files) name =
    if same_text name file then some n else locate_in (n + 1) files name

unfoldable pub bytes_at : ℕ → List (List ℕ × List ℕ) → List ℕ
bytes_at n [] = []
bytes_at n ((file, bytes) ∷ files) = if n == 0 then bytes else bytes_at (n - 1) files

-- an archive of several files
abbrev pub many_files : List (List ℕ × List ℕ) → Zip
many_files files = record {
  Archive = Unit {0};
  File = List ℕ;
  zip_open = λ _. some tt;
  locate = λ _ name. locate_in 0 files name;
  stat_size = λ _ n. some (length (bytes_at n files));
  fopen = λ _ n. some (bytes_at n files);
  fread = λ file n. some (take n file, drop n file);
}

-- what such an archive holds
pub many_files-HoldsBytes :
    (files : List (List ℕ × List ℕ)) (n : ℕ) (name bytes : List ℕ)
    → locate_in 0 files name ≡ some n
    → bytes_at n files ≡ bytes
    → HoldsBytes (many_files files) [] name bytes
many_files-HoldsBytes files n name bytes located is = record {
  file = bytes;
  next = [];
  has_file = record {
    archive = tt;
    index = n;
    opened = refl;
    located = located;
    sized = ap (λ b. some (length b)) is;
    file_opened = ap some is;
  };
  reads = rw (take_all bytes, drop_all bytes);
}

-- A read of such an archive gives what is left, or as much as was asked for.
pub many_files-Reads :
    (files : List (List ℕ × List ℕ)) (file : List ℕ) (n : ℕ)
    → 0 < n
    → 0 < length file
    → Reads (many_files files) (λ f. f) file n
many_files-Reads files file n asked left = elim (Bool-cases (leb n (length file))) [
  | inl e ↦ record {
    k = n;
    next = drop n file;
    some_byte = asked;
    no_more = omega arith;
    inside = ground arith;
    reads = refl;
    left = refl;
  }
  | inr e ↦ record {
    k = length file;
    next = drop n file;
    some_byte = left;
    no_more = ground arith;
    inside = omega arith;
    reads = ap (λ t. some (t, drop n file)) (take_over n file (ground arith) ∙ sym (take_all file));
    left = drop_over n file (ground arith) ∙ sym (drop_all file);
  }
]
