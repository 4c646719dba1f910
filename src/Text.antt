-- ===== src/Text.antt =====
-- C strings as lists of bytes, and `strcmp` for equality.
use irestore.Prelude.{◌==◌, ℕ, ◌≡◌, refl, arith, Bool, true, false, ◌&&◌, List, [], ◌∷◌, String}
use Prim.Native.Char.{code}

-- the bytes of a literal
abbrev pub codes : String → List ℕ
codes String.[] = []
codes (String.◌∷◌ c s) = code c ∷ codes s

-- `strcmp(a, b) == 0`
unfoldable pub same_text : List ℕ → List ℕ → Bool
same_text [] [] = true
same_text [] (y ∷ ys) = false
same_text (x ∷ xs) [] = false
same_text (x ∷ xs) (y ∷ ys) = x == y && same_text xs ys

pub same_text_refl : (xs : List ℕ) → same_text xs xs ≡ true
unfolding same_text
same_text_refl [] = refl
same_text_refl (x ∷ xs) = ground (arith, same_text_refl xs)

pub same_text→eq : (xs ys : List ℕ) → same_text xs ys ≡ true → xs ≡ ys
unfolding same_text
same_text→eq [] [] h = refl
same_text→eq [] (y ∷ ys) h = cc
same_text→eq (x ∷ xs) [] h = cc
same_text→eq (x ∷ xs) (y ∷ ys) h = ground (arith, same_text→eq xs ys)
