-- ===== src/Tss/Request.antt =====
-- `tss_create_request` of idevicerestore/src/tss.c.
use irestore.Prelude.{
  ℕ, zero, suc, ◌+◌, ◌-◌, ◌*◌, ◌/◌, ◌%◌, ◌^◌, Bool, true, false, ◌&&◌, ◌||◌, List, [], ◌∷◌, ◌++◌,
  Option, none, some, ◌==◌, leb, ltb, if◌then◌else◌,
}
use irestore.Text.{codes}
use irestore.Plists.{Plists, string, dict, bytes, of_kind, typed_item}

-- The value of a hexadecimal digit.
abbrev pub hex_digit : ℕ → Option ℕ
hex_digit c =
    if leb b'0' c && leb c b'9'
    then some (c - b'0')
    else if leb b'a' c && leb c b'f'
    then some (c - b'a' + 10)
    else if leb b'A' c && leb c b'F'
    then some (c - b'A' + 10)
    else none

-- the digits at the front, behind a number read so far
unfoldable pub hex_digits : ℕ → List ℕ → ℕ
hex_digits n [] = n
hex_digits n (c ∷ cs) = elim (hex_digit c) [ none ↦ n | some d ↦ hex_digits (n * 16 + d) cs ]

-- an optional 0x
unfoldable pub hex_prefix : List ℕ → List ℕ
hex_prefix (a ∷ b ∷ cs) = if a == b'0' && (b == b'x' || b == b'X') then cs else a ∷ b ∷ cs
hex_prefix cs = cs

abbrev pub is_space : ℕ → Bool
is_space c = c == 32 || (leb 9 c && leb c 13)

unfoldable pub skip_spaces : List ℕ → List ℕ
skip_spaces [] = []
skip_spaces (c ∷ cs) = elim (is_space c) [ true ↦ skip_spaces cs | false ↦ c ∷ cs ]

-- what does not fit 64 bits reads as their greatest value, and 32 bits of it are kept
abbrev pub keep_32 : ℕ → ℕ
keep_32 n = (if ltb n (2 ^ 64) then n else 2 ^ 64 - 1) % 2 ^ 32

-- `sscanf(text, "%x", &n)` for an `n` that is 0 before: its bit pattern
unfoldable pub scan_hex : List ℕ → ℕ
unfolding skip_spaces hex_prefix hex_digits
scan_hex text = elim (skip_spaces text) [
  | [] ↦ 0
  | c ∷ cs ↦
      if c == b'-'
      then (2 ^ 32 - keep_32 (hex_digits 0 (hex_prefix cs))) % 2 ^ 32
      else if c == b'+'
      then keep_32 (hex_digits 0 (hex_prefix cs))
      else keep_32 (hex_digits 0 (hex_prefix (c ∷ cs)))
]

-- an `int` given to a `uint64_t` parameter
abbrev pub widen : ℕ → ℕ
widen n = if ltb n (2 ^ 31) then n else n + (2 ^ 64 - 2 ^ 32)

-- the decimal digits of a number, behind those written so far; 20 rounds serve 64 bits
unfoldable pub decimal_loop : ℕ → ℕ → List ℕ → List ℕ
decimal_loop zero n out = out
decimal_loop (suc fuel) n out =
    let more = decimal_loop fuel (n / 10) ((n % 10 + b'0') ∷ out) in
    if ltb n 10 then (n + b'0') ∷ out else more

-- `snprintf(s, ECID_STRSIZE, "%qu", n)`; 20 digits and the terminator fit the 32 bytes
unfoldable pub decimal : ℕ → List ℕ
unfolding decimal_loop
decimal n = decimal_loop 20 n []

infixl 5 ◌>>=◌
abbrev pub ◌>>=◌ : {A B : Type 0} → Option A → (A → Option B) → Option B
none >>= f = none
some a >>= f = f a

module _ (lib : Plists) where
  open lib use {
    Node, entries, string_val, data_val, new_dict, new_string, new_uint, new_bool, new_data,
  }

  -- The loop over the manifest: every entry must be a dictionary, and goes into the request.
  unfoldable pub manifest_loop :
      List (List ℕ × Node) → List (List ℕ × Node) → Option (List (List ℕ × Node))
  manifest_loop request [] = some request
  manifest_loop request ((name, node) ∷ rest) = elim (of_kind lib dict (some node)) [
    | none ↦ none
    | some entry ↦ manifest_loop (request ++ (name, entry) ∷ []) rest
  ]

  -- the entries of a request in front of the manifest's
  unfoldable pub request_head : List ℕ → ℕ → ℕ → ℕ → ℕ → List (List ℕ × Node)
  request_head build chip board domain ecid =
      (codes "@HostIpAddress", new_string (codes "192.168.0.1"))
      ∷ (codes "@HostPlatformInfo", new_string (codes "darwin"))
      ∷ (codes "@VersionInfo", new_string (codes "3.8"))
      ∷ (codes "@Locality", new_string (codes "en_US"))
      ∷ (codes "ApProductionMode", new_bool true)
      ∷ (codes "ApECID", new_string (decimal ecid))
      ∷ (codes "ApChipID", new_uint (widen chip))
      ∷ (codes "ApBoardID", new_uint (widen board))
      ∷ (codes "ApSecurityDomain", new_uint (widen domain))
      ∷ (codes "UniqueBuildID", new_data build)
      ∷ []

  -- `tss_create_request`
  unfoldable pub create_request : Node → ℕ → Option Node
  create_request identity ecid = do
    build ← typed_item lib identity (codes "UniqueBuildID") bytes
    chip ← typed_item lib identity (codes "ApChipID") string
    board ← typed_item lib identity (codes "ApBoardID") string
    domain ← typed_item lib identity (codes "ApSecurityDomain") string
    if ecid == 0 then none else do
      manifest ← typed_item lib identity (codes "Manifest") dict
      request ←
          manifest_loop
            (request_head (data_val build) (scan_hex (string_val chip))
              (scan_hex (string_val board)) (scan_hex (string_val domain)) ecid)
            (entries manifest)
      some (new_dict request)
