-- ===== src/Activate/Cache/Kept.antt =====
-- What the cache of ideviceactivate keeps, and how it is read back.
use irestore.Prelude.{
  ℕ, zero, suc, ◌-◌, ◌<◌, ◌≤◌, ◌≡◌, ap, refl, sym, arith, true, false, List, [], ◌∷◌, ◌++◌, Option,
  some, take, drop, length, take_over, drop_over, length_zero, leb, ◌==◌, if◌then◌else◌, ne→==,
  Option-cases, inl, inr,
}
use irestore.Effects.{ok, fault}
use irestore.Text.{same_text, same_text_refl, codes}
use irestore.Tss.Transfer.{NoZero}
use irestore.Activate.Bench.{Bench, with_file, until_zero}
use irestore.Activate.Cache.{
  Cache, bufsize, join, write_file, read_loop, read_file, cache, get_from_cache,
  lockdownd_get_string_value, check_cache,
}

until_zero-NoZero : (text : List ℕ) → NoZero text → until_zero text ≡ text
unfolding until_zero
until_zero-NoZero [] h = refl
until_zero-NoZero (b ∷ bs) (nonzero, h) =
    rw (ne→== b 0 nonzero) (ap (λ t. b ∷ t) (until_zero-NoZero bs h))

-- The directory can be written, the name fits its buffer and the text its own, and the file has room.
pub record CanKeep (c : Cache) (name text : List ℕ) (b : Bench) : Type 0 where
  pub on : c.backup_to_cache ≡ true
  pub writable : b.writable (join c.cachedir name) ≡ true
  pub fits : length (join c.cachedir name) < 512
  pub plain : NoZero text
  pub small : length text < bufsize
  pub room : length text ≤ b.room

-- the bench with the text kept
abbrev pub kept : Cache → List ℕ → List ℕ → Bench → Bench
kept c name text b = with_file (join c.cachedir name) text b

pub cache-kept :
    (c : Cache) (name text : List ℕ) (b : Bench)
    → CanKeep c name text b
    → cache c name text b ≡ ok true (kept c name text b)
unfolding cache write_file
cache-kept c name text b can =
    rw
      (
        can.on,
        past (length (join c.cachedir name)) (can.fits),
        take_over (bufsize - 1) text (short bufsize (length text) (can.small)),
        can.writable,
        until_zero-NoZero text (can.plain),
        take_over b.room text (can.room),
      )
      refl
  where
    past : (n : ℕ) → n < 512 → leb 512 n ≡ false
    past n h = ground arith

    short : (size n : ℕ) → n < size → n ≤ size - 1
    short size n h = omega arith

-- A round past the end of the file changes nothing.
read_loop-end : (fuel : ℕ) (buffer : List ℕ) → read_loop fuel [] buffer ≡ buffer
unfolding read_loop
read_loop-end zero buffer = refl
read_loop-end (suc fuel) buffer = rw (take_nothing bufsize) refl
  where
    take_nothing : (n : ℕ) → take {A = ℕ} n [] ≡ []
    take_nothing zero = refl
    take_nothing (suc n) = refl

-- One round reads a file that is smaller than the buffer.
read_loop-small :
    (file buffer : List ℕ)
    → length file < bufsize
    → read_loop (suc (length file)) file buffer ≡ file ++ drop (length file) buffer
unfolding read_loop
read_loop-small file buffer small =
    rw (take_over bufsize file (omega arith), drop_over bufsize file (omega arith))
      (step (length file) refl)
  where
    step :
        (n : ℕ)
        → n ≡ length file
        → (if n == 0
            then buffer
            else read_loop (length file) [] (file ++ drop (length file) buffer))
          ≡ file ++ drop (length file) buffer
    step zero e = rw (length_zero file (sym e)) refl
    step (suc n) e =
        rw (ne→== (suc n) 0 (λ h. omega arith))
          (read_loop-end (length file) (file ++ drop (length file) buffer))

-- A text that is kept, where the name and the text fit: the file with this name then holds it, every
-- other file is as it was, and `read_file` puts the text in front of what was in the buffer, with no 0
-- byte behind it.
pub cache-read_file :
    (c : Cache) (name text buffer : List ℕ) (b : Bench)
    → CanKeep c name text b
    → (t : Bench) × (cache c name text b ≡ ok true t)
      × (read_file (join c.cachedir name) buffer t ≡ ok (text ++ drop (length text) buffer) t)
      × ((other : List ℕ)
          → t.holds other
            ≡ (if same_text other (join c.cachedir name) then some text else b.holds other))
unfolding read_file
cache-read_file c name text buffer b can = (
  kept c name text b,
  cache-kept c name text b can,
  rw (same_text_refl (join c.cachedir name))
      (ap (λ r. ok r (kept c name text b)) (read_loop-small text buffer can.small)),
  λ other. refl,
)

-- `check_cache` is a fault whatever the cache holds and whatever device is connected: it compares a
-- buffer that is gone with NULL, if it does not fault before for want of a file.
pub check_cache-fault :
    {Node : Type 0} (c : Cache) (junk : List ℕ) (device : Option Node) (b : Bench)
    → check_cache c junk device b ≡ fault
unfolding check_cache get_from_cache read_file lockdownd_get_string_value
check_cache-fault c junk device b =
    elim (Option-cases (b.holds (take 511 (join c.cachedir (codes "UUID"))))) [
      | inl e ↦ rw e refl
      | inr (file, e) ↦ rw e refl
    ]
