-- ===== src/Restore/Filesystem/Delivered.antt =====
-- What the device has got when `restore_send_filesystem` succeeds.
use irestore.Prelude.{
  ℕ, ◌+◌, ◌<◌, ◌≡◌, append_assoc, refl, ◌∙◌, ap, Bool, true, false, List, ◌∷◌, ◌++◌, Option, some,
  length,
}
use irestore.Effects.{ok}
use irestore.Text.{codes}
use irestore.Plists.{Plists}
use irestore.Asr.Link.{Link, Receive, received, receive, close, open_with_timeout}
use irestore.Asr.Payload.{send_payload}
use irestore.Asr.Payload.Perfect.{send_payload-delivered}
use irestore.Asr.Validation.{accepted, packet_info, perform_validation}
use irestore.Asr.Validation.Requests.{IsSound, IsCommand, Request, AllRequests, messages, slices}
use irestore.Asr.Validation.Outcome.{perform_validation-slices}
use irestore.Restore.Filesystem.{begin, send_validated, exchange, send_filesystem}

module _ (lib : Plists) where
  open lib use {Node, to_xml}

  -- What ASR gets for an image of which it asks for some parts.
  abbrev pub transfer : List ℕ → List (Request lib) → List ℕ
  transfer image rs = to_xml (packet_info lib (length image)) ++ (slices lib image rs ++ image)

  connected-exchange :
      (connects : ℕ → Bool) (k : ℕ) (filesystem : Option (List ℕ)) (s : Link)
      → open_with_timeout true connects ≡ some k
      → send_filesystem lib true connects filesystem s
        ≡ exchange lib filesystem s.inbox (record s { connected = true })
  unfolding send_filesystem begin
  connected-exchange connects k filesystem s reached = rw (send_filesystem, reached)

  abbrev greeted : List Receive → Link → Link
  greeted rest s = record s { inbox = rest; mallocs = s.mallocs + 1 }

  exchange-validated :
      (image first : List ℕ) (rest : List Receive) (s t u : Link)
      → IsSound s
      → perform_validation lib (some image) (greeted rest s) ≡ ok accepted t
      → send_payload (some image) t ≡ ok true u
      → exchange lib (some image) (received first ∷ rest) s
        ≡ ok accepted (record u { connected = false })
  unfolding exchange receive send_validated close irestore.Asr.Link.malloc
  exchange-validated image first rest s t u sound checked paid =
      rw (sound.plenty s.mallocs, checked, paid)

  -- Once a sound connection is open, where ASR sends a first message, then asks for parts of the image
  -- that are inside it, each below 2^32 bytes, and then for the payload: if the image is below 2^31
  -- bytes, `restore_send_filesystem` succeeds, the device has got the packet information, the parts
  -- in order and the whole image, and nothing else, and the connection is closed.
  pub send_filesystem-transfer :
      (connects : ℕ → Bool) (k : ℕ) (image first last : List ℕ) (end : Node)
      (rs : List (Request lib)) (rest : List Receive) (s : Link)
      → open_with_timeout true connects ≡ some k
      → IsSound s
      → s.inbox ≡ received first ∷ messages lib rs (received last ∷ rest)
      → AllRequests lib image rs
      → IsCommand lib (codes "Payload") last end
      → length (to_xml (packet_info lib (length image))) < 4294967296
      → length image < 2147483648
      → (t : Link) × (send_filesystem lib true connects (some image) s ≡ ok accepted t)
        × (t.delivered ≡ s.delivered ++ transfer image rs)
        × (t.connected ≡ false)
  send_filesystem-transfer connects k image first last end rs rest s reached sound waits all is
        small_info small =
      let s₀ = record s { connected = true } in
      let sound₀ : IsSound s₀ = record {
        perfect = record { takes = sound.perfect.takes; reads = sound.perfect.reads };
        plenty = sound.plenty;
      } in
      let s₁ = greeted (messages lib rs (received last ∷ rest)) s₀ in
      let sound₁ : IsSound s₁ = record {
        perfect = record { takes = sound.perfect.takes; reads = sound.perfect.reads };
        plenty = sound.plenty;
      } in
      let checked =
        perform_validation-slices lib image last end rs rest s₁ sound₁ refl all is small_info in
      let paid = send_payload-delivered image (checked.0) (checked.4.perfect) small in
      (
        record (paid.0) { connected = false },
        connected-exchange connects k (some image) s reached
            ∙ ap (λ inbox. exchange lib (some image) inbox s₀) waits
            ∙ exchange-validated image first (messages lib rs (received last ∷ rest)) s₀ (checked.0)
                (paid.0) sound₀ (checked.1) (paid.1),
        paid.2
            ∙ ap (λ t. t ++ image) (checked.2)
            ∙ (append_assoc _ _ image
                ∙ ap (λ t. s.delivered ++ t)
                    (append_assoc (to_xml (packet_info lib (length image))) (slices lib image rs)
                      image)),
        refl,
      )
