-- ===== src/Asr/Validation/Requests.antt =====
-- The requests that ASR makes while it validates the image, and what it is sent.
use irestore.Prelude.{
  ℕ, ◌+◌, ◌%◌, ◌≤◌, ◌<◌, ◌≡◌, ◌≢◌, refl, sym, ◌∙◌, arith, true, List, [], ◌∷◌, ◌++◌, some, length,
  take, drop, length-take, length-drop, eq→==, ne→==, append_assoc, append-nil,
}
use irestore.Effects.{ok, fault, and_then}
use irestore.Text.{codes, same_text}
use irestore.Plists.{Plists, uint, string, typed_item}
use irestore.Asr.Link.{Link, Receive, received, malloc, read_at, receive}
use irestore.Asr.Payload.Perfect.{IsPerfect, one_packet}
use irestore.Asr.Validation.{accepted, handle_oob_data_request, answer, stop, validation_loop}

-- The connection and the disk are perfect, and memory is plenty.
pub record IsSound (s : Link) : Type 0 where
  pub perfect : IsPerfect s
  pub plenty : (n : ℕ) → s.grants n ≡ true

module _ (lib : Plists) where
  open lib use {Node, string_val, uint_val, from_xml, to_xml}

  -- A message that is a packet with this command.
  pub record IsCommand (name event : List ℕ) (packet : Node) : Type 0 where
    pub parsed : from_xml (take 65536 event) ≡ some packet
    pub node : Node
    pub command : typed_item lib packet (codes "Command") string ≡ some node
    pub named : string_val node ≡ name

  -- The packet asks for `size` bytes from `offset` on.
  pub record Asks (packet : Node) (offset size : ℕ) : Type 0 where
    pub length_node : Node
    pub offset_node : Node
    pub has_length : typed_item lib packet (codes "OOB Length") uint ≡ some length_node
    pub has_offset : typed_item lib packet (codes "OOB Offset") uint ≡ some offset_node
    pub size_is : uint_val length_node ≡ size
    pub offset_is : uint_val offset_node ≡ offset

  -- the state behind an answer
  abbrev pub answered : List ℕ → Link → Link
  answered bytes s = record s {
    mallocs = s.mallocs + 1;
    freads = s.freads + 1;
    sends = s.sends + 1;
    delivered = s.delivered ++ bytes;
  }

  pub answer-slice :
      (packet : Node) (image : List ℕ) (offset size : ℕ) (s : Link)
      → IsSound s
      → Asks packet offset size
      → offset + size ≤ length image
      → size < 4294967296
      → answer lib (some packet) image s ≡ ok tt (answered (take size (drop offset image)) s)
  unfolding answer handle_oob_data_request malloc read_at
  answer-slice packet image offset size s sound asks inside small =
      let len : length (take size (drop offset image)) ≡ size =
        length-take size (drop offset image) (omega (arith, length-drop offset image)) in
      let low : size % 4294967296 ≡ size = omega arith in
      let s₁ = record s { mallocs = s.mallocs + 1; freads = s.freads + 1 } in
      rw (
        asks.has_length,
        handle_oob_data_request,
        asks.has_offset,
        sound.plenty s.mallocs,
        asks.size_is,
        asks.offset_is,
        sound.perfect.reads s.freads,
        len,
        eq→== size size refl,
        low,
        one_packet (take size (drop offset image)) size s₁
            (record { takes = sound.perfect.takes; reads = sound.perfect.reads }) len,
      )

  -- A request for bytes behind the end of the image: the handler frees the packet, and
  -- `asr_perform_validation` frees it again.
  pub answer-fault :
      (packet : Node) (image : List ℕ) (offset size : ℕ) (s : Link)
      → IsSound s
      → Asks packet offset size
      → length (take size (drop offset image)) ≢ size
      → answer lib (some packet) image s ≡ fault
  unfolding answer handle_oob_data_request malloc read_at
  answer-fault packet image offset size s sound asks short = rw (
    asks.has_length,
    handle_oob_data_request,
    asks.has_offset,
    sound.plenty s.mallocs,
    asks.size_is,
    asks.offset_is,
    sound.perfect.reads s.freads,
    ne→== (length (take size (drop offset image))) size short,
  )

  abbrev pub heard : Link → Link
  heard s = record s { mallocs = s.mallocs + 1 }

  receive-packet :
      (name event : List ℕ) (packet : Node) (s : Link)
      → IsSound s
      → IsCommand name event packet
      → receive lib (received event) s ≡ ok (some (some packet)) (heard s)
  unfolding receive malloc
  receive-packet name event packet s sound is = rw (sound.plenty s.mallocs, is.parsed)

  pub loop-request :
      (image event : List ℕ) (packet : Node) (attempts : ℕ) (rest : List Receive) (s : Link)
      → IsSound s
      → IsCommand (codes "OOBData") event packet
      → validation_loop lib image attempts (received event ∷ rest) s
        ≡ and_then
            (answer lib (some packet) image (heard s))
            (λ _. validation_loop lib image 0 rest)
  unfolding validation_loop same_text
  loop-request image event packet attempts rest s sound is =
      rw (receive-packet (codes "OOBData") event packet s sound is, is.command, is.named)

  loop-payload :
      (image event : List ℕ) (packet : Node) (attempts : ℕ) (rest : List Receive) (s : Link)
      → IsSound s
      → IsCommand (codes "Payload") event packet
      → validation_loop lib image attempts (received event ∷ rest) s
        ≡ ok accepted (record s { mallocs = s.mallocs + 1; inbox = rest })
  unfolding validation_loop same_text stop
  loop-payload image event packet attempts rest s sound is =
      rw (receive-packet (codes "Payload") event packet s sound is, is.command, is.named)

  -- A request of ASR: its message, the packet that it stands for, and what it asks for.
  pub record Request : Type 0 where
    pub event : List ℕ
    pub packet : Node
    pub offset : ℕ
    pub size : ℕ

  pub record IsRequest (image : List ℕ) (r : Request) : Type 0 where
    pub command : IsCommand (codes "OOBData") r.event r.packet
    pub asks : Asks r.packet r.offset r.size
    pub inside : r.offset + r.size ≤ length image
    pub small : r.size < 4294967296

  abbrev pub AllRequests : List ℕ → List Request → Type 0
  AllRequests image [] = Unit {0}
  AllRequests image (r ∷ rs) = IsRequest image r × AllRequests image rs

  abbrev pub messages : List Request → List Receive → List Receive
  messages [] rest = rest
  messages (r ∷ rs) rest = received r.event ∷ messages rs rest

  -- the parts of the image that are asked for, in order
  abbrev pub slices : List ℕ → List Request → List ℕ
  slices image [] = []
  slices image (r ∷ rs) = take r.size (drop r.offset image) ++ slices image rs

  pub loop-slices :
      (image last : List ℕ) (end : Node) (rs : List Request) (attempts : ℕ) (rest : List Receive)
      (s : Link)
      → IsSound s
      → AllRequests image rs
      → IsCommand (codes "Payload") last end
      → (t : Link) × (validation_loop lib image attempts (messages rs (received last ∷ rest)) s
          ≡ ok accepted t)
        × (t.delivered ≡ s.delivered ++ slices image rs)
        × (t.inbox ≡ rest)
        × IsSound t
  loop-slices image last end [] attempts rest s sound all is = (
    record s { mallocs = s.mallocs + 1; inbox = rest },
    loop-payload image last end attempts rest s sound is,
    sym (append-nil s.delivered),
    refl,
    record {
      perfect = record { takes = sound.perfect.takes; reads = sound.perfect.reads };
      plenty = sound.plenty;
    },
  )
  loop-slices image last end (r ∷ rs) attempts rest s sound (first, all) is =
      let slice = take r.size (drop r.offset image) in
      let sound' : IsSound (heard s) = record {
        perfect = record { takes = sound.perfect.takes; reads = sound.perfect.reads };
        plenty = sound.plenty;
      } in
      let next =
        loop-slices image last end rs 0 rest (answered slice (heard s))
          (record {
            perfect = record { takes = sound.perfect.takes; reads = sound.perfect.reads };
            plenty = sound.plenty;
          })
          all is in
      (
        next.0,
        loop-request image r.event r.packet attempts (messages rs (received last ∷ rest)) s sound
              first.command
            ∙ rw
                (answer-slice r.packet image r.offset r.size (heard s) sound' first.asks
                  first.inside first.small)
                (next.1),
        next.2 ∙ append_assoc s.delivered slice (slices image rs),
        next.3,
        next.4,
      )
