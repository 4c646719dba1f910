-- ===== src/Restore/Filesystem.antt =====
-- `restore_send_filesystem`: an ASR connection for the filesystem image.
pub mod Delivered
use irestore.Prelude.{ℕ, Bool, true, List, [], ◌∷◌, Option, none, some, if◌then◌else◌}
use irestore.Effects.{State, ok, pure, ◌>>=◌, ◌>>◌}
use irestore.Plists.{Plists}
use irestore.Asr.Link.{Link, Receive, open_with_timeout, receive, close}
use irestore.Asr.Payload.{send_payload}
use irestore.Asr.Validation.{Verdict, accepted, refused, waiting, stop, perform_validation}

-- the connection is open
unfoldable pub begin : State Link (Unit {0})
begin s = ok tt (record s { connected = true })

abbrev pub take_message : List Receive → State Link (Unit {0})
take_message rest s = ok tt (record s { inbox = rest })

-- the end of `restore_send_filesystem`, by how the validation ends
unfoldable pub send_validated : Option (List ℕ) → Verdict → State Link Verdict
send_validated filesystem waiting = pure waiting
send_validated filesystem refused = close >> pure refused
send_validated filesystem accepted = do
  sent ← send_payload filesystem
  close
  pure (if sent then accepted else refused)

module _ (lib : Plists) where
  -- behind the connection: the message that opens the exchange, the validation, the payload
  unfoldable pub exchange : Option (List ℕ) → List Receive → State Link Verdict
  exchange filesystem [] = stop lib waiting []
  exchange filesystem (event ∷ rest) = do
    take_message rest
    initiate ← receive lib event
    elim initiate [
      | none ↦ close >> pure refused
      | some _ ↦ do verdict ← perform_validation lib filesystem; send_validated filesystem verdict
    ]

  -- `restore_send_filesystem`; `filesystem` is the file's bytes, or none if it does not open, and
  -- `connects` the outcomes of the attempts to connect.
  unfoldable pub send_filesystem : Bool → (ℕ → Bool) → Option (List ℕ) → State Link Verdict
  send_filesystem has_device connects filesystem = elim (open_with_timeout has_device connects) [
    | none ↦ pure refused
    | some _ ↦ begin >> λ s. exchange filesystem s.inbox s
  ]
