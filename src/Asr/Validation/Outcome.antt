-- ===== src/Asr/Validation/Outcome.antt =====
-- `asr_perform_validation` on a connection where ASR asks for parts of the image.
use irestore.Prelude.{
  ℕ, ◌+◌, ◌%◌, ◌<◌, ◌≡◌, ◌≢◌, append_assoc, refl, ◌∙◌, ap, arith, List, [], ◌∷◌, ◌++◌, some, length,
  length-take_le, length-drop, take, drop,
}
use irestore.Effects.{ok, fault}
use irestore.Text.{codes}
use irestore.Plists.{Plists}
use irestore.Asr.Link.{Link, Receive, received, send}
use irestore.Asr.Payload.Perfect.{one_packet}
use irestore.Asr.Validation.{accepted, packet_info, validation_loop, perform_validation}
use irestore.Asr.Validation.Requests.{
  IsSound, IsCommand, Asks, Request, AllRequests, messages, slices, heard, answered, loop-request,
  loop-slices, answer-slice, answer-fault,
}

too_short :
    (image : List ℕ) (offset size : ℕ)
    → length image < offset + size
    → 0 < size
    → length (take size (drop offset image)) ≢ size
too_short image offset size outside some_bytes same =
    absurd (omega (arith, same, length-take_le size (drop offset image), length-drop offset image))

module _ (lib : Plists) where
  open lib use {Node, to_xml}

  abbrev sent_info : List ℕ → Link → Link
  sent_info image s = record s {
    sends = s.sends + 1;
    delivered = s.delivered ++ to_xml (packet_info lib (length image));
  }

  begin :
      (image : List ℕ) (s : Link)
      → IsSound s
      → length (to_xml (packet_info lib (length image))) < 4294967296
      → perform_validation lib (some image) s
        ≡ validation_loop lib image 0 s.inbox (sent_info image s)
  unfolding perform_validation send
  begin image s sound small =
      let xml = to_xml (packet_info lib (length image)) in
      let low : length xml % 4294967296 ≡ length xml = omega arith in
      rw (low, one_packet xml (length xml) s sound.perfect refl)

  still-IsSound :
      (s t : Link)
      → t.accepts ≡ s.accepts
      → t.reads ≡ s.reads
      → t.grants ≡ s.grants
      → IsSound s
      → IsSound t
  still-IsSound s t same_accepts same_reads same_grants sound = record {
    perfect = record {
      takes = λ n bytes. ap (λ f. f n bytes) same_accepts ∙ sound.perfect.takes n bytes;
      reads = λ n. ap (λ f. f n) same_reads ∙ sound.perfect.reads n;
    };
    plenty = λ n. ap (λ f. f n) same_grants ∙ sound.plenty n;
  }

  -- Over a sound connection, where ASR first asks for parts of the image that are inside it, each
  -- below 2^32 bytes, and then for the payload, `asr_perform_validation` succeeds, has delivered the
  -- packet information and then exactly the parts in the order of the requests, and has taken no
  -- message behind the payload command. The connection is as sound as before.
  pub perform_validation-slices :
      (image last : List ℕ) (end : Node) (rs : List (Request lib)) (rest : List Receive) (s : Link)
      → IsSound s
      → s.inbox ≡ messages lib rs (received last ∷ rest)
      → AllRequests lib image rs
      → IsCommand lib (codes "Payload") last end
      → length (to_xml (packet_info lib (length image))) < 4294967296
      → (t : Link) × (perform_validation lib (some image) s ≡ ok accepted t)
        × (t.delivered
            ≡ s.delivered ++ (to_xml (packet_info lib (length image)) ++ slices lib image rs))
        × (t.inbox ≡ rest)
        × IsSound t
  perform_validation-slices image last end rs rest s sound waits all is small =
      let s' = sent_info image s in
      let loop =
        loop-slices lib image last end rs 0 rest s' (still-IsSound s s' refl refl refl sound) all
          is in
      (
        loop.0,
        begin image s sound small
            ∙ ap (λ inbox. validation_loop lib image 0 inbox s') waits
            ∙ loop.1,
        loop.2
            ∙ append_assoc s.delivered (to_xml (packet_info lib (length image)))
                (slices lib image rs),
        loop.3,
        loop.4,
      )

  loop-fault :
      (image event : List ℕ) (packet : Node) (offset size : ℕ) (rs : List (Request lib))
      (attempts : ℕ) (rest : List Receive) (s : Link)
      → IsSound s
      → AllRequests lib image rs
      → IsCommand lib (codes "OOBData") event packet
      → Asks lib packet offset size
      → length (take size (drop offset image)) ≢ size
      → validation_loop lib image attempts (messages lib rs (received event ∷ rest)) s ≡ fault
  loop-fault image event packet offset size [] attempts rest s sound all is asks short =
      loop-request lib image event packet attempts rest s sound is
      ∙ rw (
          answer-fault lib packet image offset size (heard lib s)
            (still-IsSound s (heard lib s) refl refl refl sound) asks short)
  loop-fault image event packet offset size (r ∷ rs) attempts rest s sound (first, all) is asks
        short =
      let slice = take r.size (drop r.offset image) in
      let s₁ = heard lib s in
      let s₂ = answered lib slice s₁ in
      loop-request lib image r.event r.packet attempts (messages lib rs (received event ∷ rest)) s
        sound first.command
      ∙ rw
          (answer-slice lib r.packet image r.offset r.size s₁
            (still-IsSound s s₁ refl refl refl sound) first.asks first.inside first.small)
          (loop-fault image event packet offset size rs 0 rest s₂
            (still-IsSound s s₂ refl refl refl sound) all is asks short)

  -- If, behind requests that are inside the image, ASR asks for a part that the image does not hold
  -- in full, then over the same connection the packet is freed twice: the handler frees it on its
  -- error path, and `asr_perform_validation` again.
  pub perform_validation-fault :
      (image event : List ℕ) (packet : Node) (offset size : ℕ) (rs : List (Request lib))
      (rest : List Receive) (s : Link)
      → IsSound s
      → s.inbox ≡ messages lib rs (received event ∷ rest)
      → AllRequests lib image rs
      → IsCommand lib (codes "OOBData") event packet
      → Asks lib packet offset size
      → length image < offset + size
      → 0 < size
      → length (to_xml (packet_info lib (length image))) < 4294967296
      → perform_validation lib (some image) s ≡ fault
  perform_validation-fault image event packet offset size rs rest s sound waits all is asks outside
        some_bytes small =
      let s' = sent_info image s in
      begin image s sound small
      ∙ ap (λ inbox. validation_loop lib image 0 inbox s') waits
      ∙ loop-fault image event packet offset size rs 0 rest s'
          (still-IsSound s s' refl refl refl sound) all is asks
          (too_short image offset size outside some_bytes)
