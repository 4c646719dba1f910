-- ===== src/Prelude/Lists.antt =====
-- Lists measured and indexed by native numbers, under the library's names.
use Prim.Native.Nat.{ℕ, zero, suc, ◌+◌, ◌-◌, ◌≤◌}
use mathlib.Core.Path.{◌≡◌, refl, ap}
use mathlib.Core.List.{List, [], ◌∷◌, ◌++◌}
use native.Mathlib.Omega.{arith}

module _ {ℓ} {A : Type ℓ} where
  abbrev pub length : List A → ℕ
  length [] = 0
  length (x ∷ xs) = suc (length xs)

  abbrev pub take : ℕ → List A → List A
  take zero xs = []
  take (suc n) [] = []
  take (suc n) (x ∷ xs) = x ∷ take n xs

  abbrev pub drop : ℕ → List A → List A
  drop zero xs = xs
  drop (suc n) [] = []
  drop (suc n) (x ∷ xs) = drop n xs

  pub length-append : (xs ys : List A) → length (xs ++ ys) ≡ length xs + length ys
  length-append [] ys = omega arith
  length-append (x ∷ xs) ys = omega (arith, length-append xs ys)

  pub take-append : (xs ys : List A) → take (length xs) (xs ++ ys) ≡ xs
  take-append [] ys = refl
  take-append (x ∷ xs) ys = ap (λ t. x ∷ t) (take-append xs ys)

  pub drop-append : (xs ys : List A) → drop (length xs) (xs ++ ys) ≡ ys
  drop-append [] ys = refl
  drop-append (x ∷ xs) ys = drop-append xs ys

  pub length-take : (n : ℕ) (xs : List A) → n ≤ length xs → length (take n xs) ≡ n
  length-take zero xs h = refl
  length-take (suc n) [] h = absurd (omega arith)
  length-take (suc n) (x ∷ xs) h = ap suc (length-take n xs (omega arith))

  pub length-drop : (n : ℕ) (xs : List A) → length (drop n xs) ≡ length xs - n
  length-drop zero xs = omega arith
  length-drop (suc n) [] = omega arith
  length-drop (suc n) (x ∷ xs) = omega (arith, length-drop n xs)

  pub take_all : (xs : List A) → take (length xs) xs ≡ xs
  take_all [] = refl
  take_all (x ∷ xs) = ap (λ t. x ∷ t) (take_all xs)

  pub take-take_le : (n p : ℕ) (xs : List A) → n ≤ p → take n (take p xs) ≡ take n xs
  take-take_le zero p xs h = refl
  take-take_le (suc n) zero xs h = absurd (omega arith)
  take-take_le (suc n) (suc p) [] h = refl
  take-take_le (suc n) (suc p) (x ∷ xs) h = ap (λ t. x ∷ t) (take-take_le n p xs (omega arith))

  pub take-take_ge : (n p : ℕ) (xs : List A) → p ≤ n → take n (take p xs) ≡ take p xs
  take-take_ge zero zero xs h = refl
  take-take_ge (suc n) zero xs h = refl
  take-take_ge zero (suc p) xs h = absurd (omega arith)
  take-take_ge (suc n) (suc p) [] h = refl
  take-take_ge (suc n) (suc p) (x ∷ xs) h = ap (λ t. x ∷ t) (take-take_ge n p xs (omega arith))

  -- `n` items and then `k` more.
  pub take_sum : (n k s : ℕ) (xs : List A) → s ≡ n + k → take n xs ++ take k (drop n xs) ≡ take s xs
  take_sum zero k s xs h = ap (λ (t : ℕ). take t xs) (omega arith)
  take_sum (suc n) k zero xs h = absurd (omega arith)
  take_sum (suc n) zero (suc s) [] h = refl
  take_sum (suc n) (suc k) (suc s) [] h = refl
  take_sum (suc n) k (suc s) (x ∷ xs) h = ap (λ t. x ∷ t) (take_sum n k s xs (omega arith))

  pub drop_sum : (n k s : ℕ) (xs : List A) → s ≡ n + k → drop k (drop n xs) ≡ drop s xs
  drop_sum zero k s xs h = ap (λ (t : ℕ). drop t xs) (omega arith)
  drop_sum (suc n) k zero xs h = absurd (omega arith)
  drop_sum (suc n) zero (suc s) [] h = refl
  drop_sum (suc n) (suc k) (suc s) [] h = refl
  drop_sum (suc n) k (suc s) (x ∷ xs) h = drop_sum n k s xs (omega arith)

  pub length-take_le : (n : ℕ) (xs : List A) → length (take n xs) ≤ length xs
  length-take_le zero xs = omega arith
  length-take_le (suc n) [] = omega arith
  length-take_le (suc n) (x ∷ xs) = omega (arith, length-take_le n xs)

  pub take-drop : (n : ℕ) (xs : List A) → take n xs ++ drop n xs ≡ xs
  take-drop zero xs = refl
  take-drop (suc n) [] = refl
  take-drop (suc n) (x ∷ xs) = ap (λ t. x ∷ t) (take-drop n xs)

  pub length_zero : (xs : List A) → length xs ≡ 0 → xs ≡ []
  length_zero [] h = refl
  length_zero (x ∷ xs) h = absurd (omega arith)

  pub drop_all : (xs : List A) → drop (length xs) xs ≡ []
  drop_all [] = refl
  drop_all (x ∷ xs) = drop_all xs

  -- as much as there is, or more
  pub take_over : (n : ℕ) (xs : List A) → length xs ≤ n → take n xs ≡ xs
  take_over zero [] h = refl
  take_over (suc n) [] h = refl
  take_over zero (x ∷ xs) h = absurd (omega arith)
  take_over (suc n) (x ∷ xs) h = ap (λ t. x ∷ t) (take_over n xs (omega arith))

  pub drop_over : (n : ℕ) (xs : List A) → length xs ≤ n → drop n xs ≡ []
  drop_over zero [] h = refl
  drop_over (suc n) [] h = refl
  drop_over zero (x ∷ xs) h = absurd (omega arith)
  drop_over (suc n) (x ∷ xs) h = drop_over n xs (omega arith)
