-- ===== src/Asr/Validation.antt =====
-- `asr_handle_oob_data_request` and `asr_perform_validation` of idevicerestore/src/asr.c.
pub mod Requests
pub mod Outcome
use irestore.Prelude.{
  ℕ, zero, suc, ◌+◌, ◌%◌, Bool, true, false, not, ◌&&◌, List, [], ◌∷◌, Option, none, some, length,
  ltb, ◌==◌, if◌then◌else◌,
}
use irestore.Effects.{State, ok, fault, pure, ◌>>=◌, ◌>>◌}
use irestore.Text.{codes, same_text}
use irestore.Plists.{Plists, uint, string, typed_item}
use irestore.Asr.Link.{Link, Receive, malloc, read_at, send_buffer, send, receive}

-- How `asr_perform_validation` ends: with 0, with -1, or not, while it waits for a message that
-- never comes.
pub data Verdict : Type 0 where
  accepted refused waiting : Verdict

-- What `asr_handle_oob_data_request` did: its result is 0 or not, and it freed the packet or not.
pub record Handled : Type 0 where
  pub success : Bool
  pub freed : Bool

abbrev u32_mod : ℕ
u32_mod = 4294967296

module _ (lib : Plists) where
  open lib use {Node, string_val, uint_val, new_dict, new_uint}

  -- `asr_handle_oob_data_request`: three of its error paths free the packet of the caller.
  unfoldable pub handle_oob_data_request : Node → List ℕ → State Link Handled
  handle_oob_data_request packet image = elim (typed_item lib packet (codes "OOB Length") uint) [
    | none ↦ pure (record { success = false; freed = false })
    | some length_node ↦ elim (typed_item lib packet (codes "OOB Offset") uint) [
      | none ↦ pure (record { success = false; freed = false })
      | some offset_node ↦ do
        got ← malloc
        if not got then pure (record { success = false; freed = true }) else do
          bytes ← read_at image (uint_val offset_node) (uint_val length_node)
          if not (length bytes == uint_val length_node)
              then pure (record { success = false; freed = true })
              else do
                sent ← send_buffer bytes (uint_val length_node % u32_mod)
                pure (
                    if sent
                    then record { success = true; freed = false }
                    else record { success = false; freed = true })
    ]
  ]

  -- the packet information, with the size of the image
  abbrev pub packet_info : ℕ → Node
  packet_info size = new_dict (
      (codes "FEC Slice Stride", new_uint 40)
      ∷ (codes "Packet Payload Size", new_uint 1450)
      ∷ (codes "Packets Per FEC", new_uint 25)
      ∷ (
        codes "Payload",
        new_dict ((codes "Port", new_uint 1) ∷ (codes "Size", new_uint size) ∷ []),
      )
      ∷ (codes "Stream ID", new_uint 1)
      ∷ (codes "Version", new_uint 1)
      ∷ [])

  -- `plist_dict_get_item` gives null for a null dictionary
  abbrev pub command_node : Option Node → Option Node
  command_node none = none
  command_node (some packet) = typed_item lib packet (codes "Command") string

  abbrev pub is_null : Option Node → Bool
  is_null none = true
  is_null (some _) = false

  -- the turn of an OOB request: the handler, whose result is dropped, and `plist_free`
  unfoldable pub answer : Option Node → List ℕ → State Link (Unit {0})
  answer none image = λ _. fault
  answer (some packet) image = do
    handled ← handle_oob_data_request packet image
    if handled.freed then (λ _. fault) else pure tt

  unfoldable pub stop : Verdict → List Receive → State Link Verdict
  stop v rest s = ok v (record s { inbox = rest })

  -- The `while` loop, on the messages that will come. `plist_free` of a packet that the handler has
  -- freed is a fault.
  unfoldable pub validation_loop : List ℕ → ℕ → List Receive → State Link Verdict
  validation_loop image attempts [] = stop waiting []
  validation_loop image attempts (event ∷ rest) = do
    got ← receive lib event
    elim got [
      | none ↦ stop refused rest
      | some packet ↦
          let again = validation_loop image (attempts + 1) rest in
          if is_null packet && ltb attempts 5 then again else elim (command_node packet) [
            | none ↦ stop refused rest
            | some command ↦
                let next = validation_loop image 0 rest in
                if same_text (string_val command) (codes "OOBData")
                then answer packet image >> next
                else if same_text (string_val command) (codes "Payload")
                then stop accepted rest
                else stop refused rest
          ]
    ]

  -- `asr_perform_validation`; none is a file that does not open
  unfoldable pub perform_validation : Option (List ℕ) → State Link Verdict
  perform_validation none = pure refused
  perform_validation (some image) = do
    sent ← send lib (packet_info (length image))
    if not sent then pure refused else λ s. validation_loop image 0 s.inbox s
