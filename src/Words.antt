-- ===== src/Words.antt =====
-- 32-bit little-endian words in byte buffers, as a little-endian host reads them through a struct.
use irestore.Prelude.{
  ℕ, zero, suc, ◌+◌, ◌*◌, ◌/◌, ◌%◌, ◌≤◌, ◌<◌, ◌≡◌, refl, arith, List, [], ◌∷◌, ◌++◌, Option, none,
  some, length, length-drop, take, drop,
}

-- the word at the front of a buffer; none if the buffer is shorter
unfoldable pub front_word : List ℕ → Option ℕ
front_word (a ∷ b ∷ c ∷ d ∷ _) = some (a + 256 * b + 65536 * c + 16777216 * d)
front_word _ = none

-- the word at a byte offset
unfoldable pub word : ℕ → List ℕ → Option ℕ
unfolding front_word
word offset buffer = front_word (drop offset buffer)

-- the four bytes of a word
unfoldable pub word_bytes : ℕ → List ℕ
word_bytes n = (n % 256) ∷ (n / 256 % 256) ∷ (n / 65536 % 256) ∷ (n / 16777216 % 256) ∷ []

abbrev pub IsU32 : ℕ → Type 0
IsU32 n = n < 4294967296

pub front_word-word_bytes :
    (n : ℕ) (rest : List ℕ) → IsU32 n → front_word (word_bytes n ++ rest) ≡ some n
unfolding front_word word_bytes
front_word-word_bytes n rest h = ground arith

pub length-word_bytes : (n : ℕ) → length (word_bytes n) ≡ 4
unfolding word_bytes
length-word_bytes n = refl

-- A buffer that has a word at its front has four bytes.
pub front_word-length : (bs : List ℕ) {n : ℕ} → front_word bs ≡ some n → 4 ≤ length bs
unfolding front_word
front_word-length [] h = cc
front_word-length (a ∷ []) h = cc
front_word-length (a ∷ b ∷ []) h = cc
front_word-length (a ∷ b ∷ c ∷ []) h = cc
front_word-length (a ∷ b ∷ c ∷ d ∷ r) h = omega arith

-- Bytes added behind a buffer change no word that it holds.
pub front_word-append :
    (bs more : List ℕ) {n : ℕ} → front_word bs ≡ some n → front_word (bs ++ more) ≡ some n
unfolding front_word
front_word-append [] more h = cc
front_word-append (a ∷ []) more h = cc
front_word-append (a ∷ b ∷ []) more h = cc
front_word-append (a ∷ b ∷ c ∷ []) more h = cc
front_word-append (a ∷ b ∷ c ∷ d ∷ r) more h = h

pub word-append :
    (k : ℕ) (bs more : List ℕ) {n : ℕ} → word k bs ≡ some n → word k (bs ++ more) ≡ some n
unfolding word
word-append zero bs more h = front_word-append bs more h
word-append (suc k) [] more h = absurd (unfold front_word in cc)
word-append (suc k) (b ∷ bs) more h = word-append k bs more h

-- A word at the front of a prefix is at the front of the buffer, and the prefix has four bytes.
pub front_word-take :
    (k : ℕ) (bs : List ℕ) {n : ℕ}
    → front_word (take k bs) ≡ some n
    → (front_word bs ≡ some n) × (4 ≤ k)
unfolding front_word
front_word-take zero bs h = cc
front_word-take (suc zero) [] h = cc
front_word-take (suc zero) (a ∷ bs) h = cc
front_word-take (suc (suc zero)) [] h = cc
front_word-take (suc (suc zero)) (a ∷ []) h = cc
front_word-take (suc (suc zero)) (a ∷ b ∷ bs) h = cc
front_word-take (suc (suc (suc zero))) [] h = cc
front_word-take (suc (suc (suc zero))) (a ∷ []) h = cc
front_word-take (suc (suc (suc zero))) (a ∷ b ∷ []) h = cc
front_word-take (suc (suc (suc zero))) (a ∷ b ∷ c ∷ bs) h = cc
front_word-take (suc (suc (suc (suc k)))) [] h = cc
front_word-take (suc (suc (suc (suc k)))) (a ∷ []) h = cc
front_word-take (suc (suc (suc (suc k)))) (a ∷ b ∷ []) h = cc
front_word-take (suc (suc (suc (suc k)))) (a ∷ b ∷ c ∷ []) h = cc
front_word-take (suc (suc (suc (suc k)))) (a ∷ b ∷ c ∷ d ∷ r) h = (h, omega arith)

-- A word that can be read ends inside the buffer.
pub word-length : (k : ℕ) (bs : List ℕ) {n : ℕ} → word k bs ≡ some n → k + 4 ≤ length bs
unfolding word
word-length k bs h = omega (arith, front_word-length (drop k bs) h, length-drop k bs)

pub word-word_bytes : (n : ℕ) (rest : List ℕ) → IsU32 n → word 0 (word_bytes n ++ rest) ≡ some n
unfolding word
word-word_bytes n rest h = front_word-word_bytes n rest h

-- The words behind a word.
pub word_behind :
    (k n : ℕ) (rest : List ℕ) → word (suc (suc (suc (suc k)))) (word_bytes n ++ rest) ≡ word k rest
unfolding word word_bytes
word_behind k n rest = refl
