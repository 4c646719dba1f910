-- ===== src/Tss/Transfer.antt =====
-- The answer does not depend on the pieces in which it comes.
use irestore.Prelude.{
  ℕ, zero, suc, ◌≤◌, ◌+◌, ◌-◌, ◌≡◌, ◌≢◌, refl, sym, ◌∙◌, ap, arith, inl, inr, List, [], ◌∷◌, ◌++◌,
  Option, none, some, take, drop, length, length-append, take-append, append-nil, append_assoc,
  if◌then◌else◌, Bool-cases, Option-cases,
}
use irestore.Effects.{ok}
use irestore.Text.{codes}
use irestore.Plists.{Plists}
use irestore.Tss.Response.{
  Response, write_callback, receive_all, c_string, strstr, starts_with, server_url, is_found,
  read_response, send_request,
}

abbrev pub concat : List (List ℕ) → List ℕ
concat [] = []
concat (p ∷ ps) = p ++ concat ps

-- a response that holds this text and its terminator
abbrev holding : List ℕ → Response
holding text = record { length = length text; content = text ++ 0 ∷ [] }

write_callback_nil : (r : Response) → write_callback r [] ≡ r
unfolding write_callback
write_callback_nil r = refl

write_callback-holding :
    (text piece : List ℕ) → write_callback (holding text) piece ≡ holding (text ++ piece)
unfolding write_callback
write_callback-holding text [] = ap holding (sym (append-nil text))
write_callback-holding text (b ∷ bs) =
    let len : length (text ++ b ∷ bs) ≡ length text + suc (length bs) =
      length-append text (b ∷ bs) in
    rw (take-append text (0 ∷ []), append_assoc, len) (ground arith)

receive_all-holding :
    (pieces : List (List ℕ)) (text : List ℕ)
    → receive_all pieces (holding text) ≡ holding (text ++ concat pieces)
unfolding receive_all
receive_all-holding [] text = ap holding (sym (append-nil text))
receive_all-holding (p ∷ ps) text =
    rw (write_callback-holding text p)
      (receive_all-holding ps (text ++ p) ∙ ap holding (append_assoc text p (concat ps)))

-- The first piece with a byte ends the block that was there before.
receive_all-first :
    (pieces : List (List ℕ)) (junk : ℕ)
    → concat pieces ≢ []
    → receive_all pieces (record { length = 0; content = junk ∷ [] }) ≡ holding (concat pieces)
unfolding receive_all
receive_all-first [] junk some_text = absurd (some_text refl)
receive_all-first ([] ∷ ps) junk some_text =
    rw write_callback_nil (receive_all-first ps junk some_text)
receive_all-first ((b ∷ bs) ∷ ps) junk some_text =
    let first : write_callback (record { length = 0; content = junk ∷ [] }) (b ∷ bs)
        ≡ holding (b ∷ bs) =
      unfold write_callback in ground arith in
    rw first (receive_all-holding ps (b ∷ bs))

-- A text without a 0 byte.
abbrev pub NoZero : List ℕ → Type 0
NoZero [] = Unit {0}
NoZero (b ∷ bs) = (b ≢ 0) × NoZero bs

pub c_string-text : (text rest : List ℕ) → NoZero text → c_string (text ++ 0 ∷ rest) ≡ some text
unfolding c_string
c_string-text [] rest h = refl
c_string-text (b ∷ bs) rest (nonzero, h) = ground (arith, c_string-text bs rest h)

strstr-le : (text needle : List ℕ) (k : ℕ) → strstr text needle ≡ some k → k ≤ length text
unfolding strstr
strstr-le [] needle k h = ground arith
strstr-le (b ∷ bs) needle k h = elim (Bool-cases (starts_with needle (b ∷ bs))) [
  | inl here ↦ ground arith
  | inr further ↦ elim (Option-cases (strstr bs needle)) [
    | inl e ↦ ground arith
    | inr (j, e) ↦ ground (arith, strstr-le bs needle j e)
  ]
]

-- What is behind position `k`, without the terminator.
tail_of_text :
    (k : ℕ) (text rest : List ℕ)
    → k ≤ length text
    → take (length text - k) (drop k (text ++ rest)) ≡ drop k text
tail_of_text zero text rest h =
    ap (λ (n : ℕ). take n (text ++ rest)) (omega arith) ∙ take-append text rest
tail_of_text (suc k) [] rest h = absurd (omega arith)
tail_of_text (suc k) (b ∷ bs) rest h =
    ap (λ (n : ℕ). take n (drop k (bs ++ rest))) (omega arith)
    ∙ tail_of_text k bs rest (omega arith)

module _ (lib : Plists) where
  open lib use {Node, to_xml, from_xml}

  -- The document in an answer that reports success.
  unfoldable pub reply : List ℕ → Option Node
  reply text =
      if is_found (strstr text (codes "MESSAGE=SUCCESS"))
      then (elim (strstr text (codes "<?xml")) [ none ↦ none | some k ↦ from_xml (drop k text) ])
      else none

  read_response-reply :
      (text : List ℕ) → NoZero text → read_response lib (holding text) tt ≡ ok (reply text) tt
  unfolding read_response reply
  read_response-reply text no_zero =
      rw (c_string-text text [] no_zero)
        (elim (Bool-cases (is_found (strstr text (codes "MESSAGE=SUCCESS")))) [
          | inr failed ↦ rw failed
          | inl fine ↦ elim (Option-cases (strstr text (codes "<?xml"))) [
            | inl e ↦ rw (fine) (rw e)
            | inr (k, e) ↦ rw fine (
                rw e (
                  ap (λ d. ok (from_xml d) tt)
                    (tail_of_text k text (0 ∷ []) (strstr-le text (codes "<?xml") k e))))
          ]
        ])

  -- However the answer is cut into pieces, if it has a byte and no byte 0, `tss_send_request` asks
  -- the server that `use_apple_server` selects and returns the document behind the first `<?xml` of
  -- the whole answer if the answer reports success, and null otherwise.
  pub send_request-reply :
      (post : List ℕ → List ℕ → Option (List (List ℕ))) (use_apple_server junk : ℕ) (request : Node)
      (pieces : List (List ℕ))
      → post (server_url use_apple_server) (to_xml request) ≡ some pieces
      → concat pieces ≢ []
      → NoZero (concat pieces)
      → send_request lib post use_apple_server junk request tt ≡ ok (reply (concat pieces)) tt
  unfolding send_request
  send_request-reply post use_apple_server junk request pieces sent some_text no_zero =
      rw (sent, send_request, receive_all-first pieces junk some_text)
        (read_response-reply (concat pieces) no_zero)
