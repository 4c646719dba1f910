-- ===== src/Tss/Response.antt =====
-- `tss_write_callback` and `tss_send_request` of idevicerestore/src/tss.c. The HTTP library is a
-- parameter: it hands the answer over in pieces.
use irestore.Prelude.{
  ℕ, suc, ◌+◌, ◌-◌, Bool, true, false, not, ◌&&◌, List, [], ◌∷◌, ◌++◌, Option, none, some, take,
  drop, length, ◌==◌, if◌then◌else◌,
}
use irestore.Effects.{State, fault, pure, ◌>>=◌, demand}
use irestore.Text.{codes}
use irestore.Plists.{Plists}

-- `tss_response`: the whole block `content`, of which `length` bytes are the answer so far
pub record Response : Type 0 where
  pub length : ℕ
  pub content : List ℕ

-- `tss_write_callback` on a piece of `size * nmemb` bytes; `realloc` finds memory
unfoldable pub write_callback : Response → List ℕ → Response
write_callback response piece = if length piece == 0 then response else record {
  length = response.length + length piece;
  content = take response.length response.content ++ (piece ++ 0 ∷ []);
}

unfoldable pub receive_all : List (List ℕ) → Response → Response
receive_all [] response = response
receive_all (piece ∷ pieces) response = receive_all pieces (write_callback response piece)

-- the string at the front of a block; none if no byte of the block is 0
unfoldable pub c_string : List ℕ → Option (List ℕ)
c_string [] = none
c_string (b ∷ bs) = elim (b == 0) [
  | true ↦ some []
  | false ↦ elim (c_string bs) [ none ↦ none | some s ↦ some (b ∷ s) ]
]

unfoldable pub starts_with : List ℕ → List ℕ → Bool
starts_with [] text = true
starts_with (x ∷ xs) [] = false
starts_with (x ∷ xs) (y ∷ ys) = x == y && starts_with xs ys

-- `strstr`: where the first occurrence begins
unfoldable pub strstr : List ℕ → List ℕ → Option ℕ
strstr [] needle = if starts_with needle [] then some 0 else none
strstr (b ∷ bs) needle = elim (starts_with needle (b ∷ bs)) [
  | true ↦ some 0
  | false ↦ elim (strstr bs needle) [ none ↦ none | some k ↦ some (suc k) ]
]

abbrev pub is_found : Option ℕ → Bool
is_found none = false
is_found (some _) = true

-- the server that is asked, by `use_apple_server`
unfoldable pub server_url : ℕ → List ℕ
server_url use_apple_server =
    if use_apple_server == 0
    then codes "http://127.0.0.1:8080/TSS/controller?action=2"
    else codes "http://gs.apple.com/TSS/controller?action=2"

module _ (lib : Plists) where
  open lib use {Node, to_xml, from_xml}

  -- What `tss_send_request` does with the answer.
  unfoldable pub read_response : Response → State (Unit {0}) (Option Node)
  read_response response = do
    text ← demand (c_string response.content)
    if not (is_found (strstr text (codes "MESSAGE=SUCCESS")))
        then pure none
        else elim (strstr text (codes "<?xml")) [
          | none ↦ pure none
          | some k ↦ pure (from_xml (take (response.length - k) (drop k response.content)))
        ]

  -- `tss_send_request`: `post` is the transfer, none if there is no handle for one, and `junk` the
  -- byte in the block of one byte that the answer starts with.
  unfoldable pub send_request :
      (List ℕ → List ℕ → Option (List (List ℕ))) → ℕ → ℕ → Node → State (Unit {0}) (Option Node)
  send_request post use_apple_server junk request =
      elim (post (server_url use_apple_server) (to_xml request)) [
        | none ↦ λ _. fault
        | some pieces ↦
            read_response (receive_all pieces (record { length = 0; content = junk ∷ [] }))
      ]
