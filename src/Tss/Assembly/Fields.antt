-- ===== src/Tss/Assembly/Fields.antt =====
-- The fields of a request for signatures, as the server reads them.
use irestore.Prelude.{
  ℕ, zero, suc, ◌+◌, ◌-◌, ◌*◌, ◌/◌, ◌%◌, ◌^◌, ◌<◌, ◌≤◌, ◌≡◌, ◌≢◌, refl, ◌∙◌, ap, arith, inl, inr,
  ◌⊎◌, true, List, [], ◌∷◌, ◌++◌, some, ltb, if◌then◌else◌, Bool-cases,
}
use irestore.Text.{codes}
use irestore.Plists.{Plists}
use irestore.Tss.Request.{
  hex_digit, hex_digits, hex_prefix, skip_spaces, scan_hex, widen, decimal_loop, decimal,
  request_head, create_request,
}
use irestore.Tss.Assembly.{
  read_decimal, read_decimal-decimal, IsIdentity, create_request-request_of,
}

-- the hexadecimal digit of a value
abbrev IsHexDigit : ℕ → ℕ → Type 0
IsHexDigit c d =
    ((c ≡ d + 48) × (d < 10))
    ⊎ (((c ≡ d + 87) × (10 ≤ d) × (d < 16)) ⊎ ((c ≡ d + 55) × (10 ≤ d) × (d < 16)))

-- The text has a digit for each value.
abbrev pub Spells : List ℕ → List ℕ → Type 0
Spells [] [] = Unit {0}
Spells [] (d ∷ ds) = ⊥
Spells (c ∷ cs) [] = ⊥
Spells (c ∷ cs) (d ∷ ds) = IsHexDigit c d × Spells cs ds

-- the number with these hexadecimal digits, behind a number read so far
unfoldable pub value : ℕ → List ℕ → ℕ
value n [] = n
value n (d ∷ ds) = value (16 * n + d) ds

-- The text is 0x and the hexadecimal digits of the number.
pub record IsHexText (text : List ℕ) (n : ℕ) : Type 0 where
  pub written : List ℕ
  pub digits : List ℕ
  pub prefixed : text ≡ codes "0x" ++ written
  pub spelled : Spells written digits
  pub is : value 0 digits ≡ n

hex_digit-IsHexDigit : (c d : ℕ) → IsHexDigit c d → hex_digit c ≡ some d
hex_digit-IsHexDigit c d is = ground arith

hex_digits-value : (cs ds : List ℕ) (n : ℕ) → Spells cs ds → hex_digits n cs ≡ value n ds
unfolding hex_digits value
hex_digits-value [] [] n h = refl
hex_digits-value [] (d ∷ ds) n h = absurd h
hex_digits-value (c ∷ cs) [] n h = absurd h
hex_digits-value (c ∷ cs) (d ∷ ds) n (first, rest) =
    rw (hex_digit-IsHexDigit c d first, hex_digits)
      (hex_digits-value cs ds (n * 16 + d) rest ∙ ap (λ (k : ℕ). value k ds) (omega arith))

scan_hex-IsHexText :
    (text : List ℕ) (n : ℕ) → IsHexText text n → n < 2 ^ 31 → widen (scan_hex text) ≡ n
unfolding scan_hex skip_spaces hex_prefix
scan_hex-IsHexText text n h small =
    rw (h.prefixed, hex_digits-value h.written h.digits 0 h.spelled, h.is) (kept n small)
  where
    kept : (n : ℕ) → n < 2 ^ 31 → widen ((if ltb n (2 ^ 64) then n else 2 ^ 64 - 1) % 2 ^ 32) ≡ n
    kept n small = ground arith

-- decimal digits only
abbrev pub AllDecimal : List ℕ → Type 0
AllDecimal [] = Unit {0}
AllDecimal (c ∷ cs) = (48 ≤ c) × (c < 58) × AllDecimal cs

decimal_loop-AllDecimal :
    (fuel n : ℕ) (out : List ℕ) → AllDecimal out → AllDecimal (decimal_loop fuel n out)
unfolding decimal_loop
decimal_loop-AllDecimal zero n out all = all
decimal_loop-AllDecimal (suc fuel) n out all = elim (Bool-cases (ltb n 10)) [
  | inl last ↦ rw last (omega arith, ground arith, all)
  | inr more ↦
      rw more (
        decimal_loop-AllDecimal fuel (n / 10) ((n % 10 + 48) ∷ out) (omega arith, omega arith, all))
]

module _ (lib : Plists) where
  open lib use {
    Node, entries, string_val, data_val, new_dict, new_string, new_uint, new_bool, new_data,
  }

  -- the fields in front of the manifest's
  abbrev pub fields : List ℕ → ℕ → ℕ → ℕ → List ℕ → List (List ℕ × Node)
  fields ecid chip board domain build =
      (codes "@HostIpAddress", new_string (codes "192.168.0.1"))
      ∷ (codes "@HostPlatformInfo", new_string (codes "darwin"))
      ∷ (codes "@VersionInfo", new_string (codes "3.8"))
      ∷ (codes "@Locality", new_string (codes "en_US"))
      ∷ (codes "ApProductionMode", new_bool true)
      ∷ (codes "ApECID", new_string ecid)
      ∷ (codes "ApChipID", new_uint chip)
      ∷ (codes "ApBoardID", new_uint board)
      ∷ (codes "ApSecurityDomain", new_uint domain)
      ∷ (codes "UniqueBuildID", new_data build)
      ∷ []

  request_head-fields :
      (build : List ℕ) (a b c ecid chip board domain : ℕ)
      → widen a ≡ chip
      → widen b ≡ board
      → widen c ≡ domain
      → request_head lib build a b c ecid ≡ fields (decimal ecid) chip board domain build
  unfolding request_head
  request_head-fields build a b c ecid chip board domain is_chip is_board is_domain =
      ap (λ (n : ℕ). fields (decimal ecid) n (widen b) (widen c) build) is_chip
      ∙ ap (λ (n : ℕ). fields (decimal ecid) chip n (widen c) build) is_board
      ∙ ap (λ (n : ℕ). fields (decimal ecid) chip board n build) is_domain

  -- For an identity with all that a request needs, whose chip, board and security domain are written as
  -- 0x and hexadecimal digits of numbers below 2^31, and an ECID of 64 bits that is not 0:
  -- `tss_create_request` returns the fixed entries, the ECID in decimal digits, these three
  -- numbers, the build's bytes, and then all entries of the manifest, in this order.
  pub create_request-fields :
      (identity : Node) (ecid chip board domain : ℕ) (is : IsIdentity lib identity)
      → ecid ≢ 0
      → ecid < 2 ^ 64
      → IsHexText (string_val is.chip) chip
      → chip < 2 ^ 31
      → IsHexText (string_val is.board) board
      → board < 2 ^ 31
      → IsHexText (string_val is.domain) domain
      → domain < 2 ^ 31
      → (digits : List ℕ) × AllDecimal digits
        × (read_decimal 0 digits ≡ ecid)
        × (create_request lib identity ecid
            ≡ some (
                new_dict
                  (fields digits chip board domain (data_val is.build) ++ entries is.manifest)))
  unfolding decimal
  create_request-fields identity ecid chip board domain is nonzero small chip_is chip_small board_is
        board_small domain_is domain_small =
      (
        decimal ecid,
        decimal_loop-AllDecimal 20 ecid [] tt,
        read_decimal-decimal ecid small,
        create_request-request_of lib identity ecid is nonzero
            ∙ ap (λ xs. some (new_dict (xs ++ entries is.manifest)))
                (request_head-fields (data_val is.build) _ _ _ ecid chip board domain
                  (scan_hex-IsHexText (string_val is.chip) chip chip_is chip_small)
                  (scan_hex-IsHexText (string_val is.board) board board_is board_small)
                  (scan_hex-IsHexText (string_val is.domain) domain domain_is domain_small)),
      )
