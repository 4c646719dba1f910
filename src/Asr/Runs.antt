-- ===== src/Asr/Runs.antt =====
-- Concrete ASR connections, and the theorems at these.
use irestore.Prelude.{
  ℕ, ◌≡◌, refl, arith, true, List, [], ◌∷◌, ◌++◌, Option, none, some, length, ◌==◌, if◌then◌else◌,
}
use irestore.Effects.{ok, fault, Ensures}
use irestore.Text.{codes, same_text}
use irestore.Plists.{Plists, of_kind, typed_item}
use irestore.Plists.Tree.{Tree, text, number, table, to_entries, find, trees}
use irestore.Asr.Link.{Link, Receive, received, read_at, send_buffer, open_with_timeout}
use irestore.Asr.Link.Connect.{FirstSuccess, open_with_timeout-FirstSuccess}
use irestore.Asr.Payload.{payload_loop, send_payload}
use irestore.Asr.Payload.Sent.{Sent, send_payload-Sent}
use irestore.Asr.Payload.Perfect.{IsPerfect, send_payload-delivered}
use irestore.Asr.Validation.{accepted, perform_validation}
use irestore.Asr.Validation.Requests.{
  IsSound, IsCommand, Asks, Request, IsRequest, messages, slices,
}
use irestore.Asr.Validation.Outcome.{perform_validation-slices, perform_validation-fault}

-- documents by their first byte: a request for bytes 1 and 2, the payload command, and a request
-- for bytes 4 to 8
abbrev request : ℕ → ℕ → Tree
request offset size = table (
    to_entries (
      (codes "Command", text (codes "OOBData"))
      ∷ (codes "OOB Length", number size)
      ∷ (codes "OOB Offset", number offset)
      ∷ []))

abbrev parse : List ℕ → Option Tree
parse [] = none
parse (b ∷ _) =
    if b == 1
    then some (request 1 2)
    else if b == 2
    then some (table (to_entries ((codes "Command", text (codes "Payload")) ∷ [])))
    else some (request 4 5)

abbrev lib : Plists
lib = trees parse

abbrev image : List ℕ
image = 10 ∷ 11 ∷ 12 ∷ 13 ∷ 14 ∷ []

abbrev link : List Receive → Link
link inbox = record {
  connected = true;
  accepts = λ _ bytes. some (length bytes);
  sends = 0;
  delivered = [];
  inbox = inbox;
  grants = λ _. true;
  mallocs = 0;
  reads = λ _. true;
  freads = 0;
}

link-IsPerfect : (inbox : List Receive) → IsPerfect (link inbox)
link-IsPerfect inbox = record { takes = λ _ _. refl; reads = λ _. refl }

link-IsSound : (inbox : List Receive) → IsSound (link inbox)
link-IsSound inbox = record { perfect = link-IsPerfect inbox; plenty = λ _. refl }

abbrev first : Request lib
first = record { event = 1 ∷ []; packet = request 1 2; offset = 1; size = 2 }

first-IsRequest : IsRequest lib image first
unfolding typed_item of_kind find same_text
first-IsRequest = record {
  command = record { parsed = refl; node = text (codes "OOBData"); command = refl; named = refl };
  asks = record {
    length_node = number 2;
    offset_node = number 1;
    has_length = refl;
    has_offset = refl;
    size_is = refl;
    offset_is = refl;
  };
  inside = omega arith;
  small = omega arith;
}

payload-IsCommand :
    IsCommand lib
      (codes "Payload")
      (2 ∷ [])
      (table (to_entries ((codes "Command", text (codes "Payload")) ∷ [])))
unfolding typed_item of_kind find same_text
payload-IsCommand = record {
  parsed = refl;
  node = text (codes "Payload");
  command = refl;
  named = refl;
}

abbrev asking : Link
asking = link (messages lib (first ∷ []) (received (2 ∷ []) ∷ []))

perform_validation-slices_example :
    (t : Link) × (perform_validation lib (some image) asking ≡ ok accepted t)
    × (t.delivered ≡ [] ++ ([] ++ slices lib image (first ∷ [])))
    × (t.inbox ≡ [])
    × IsSound t
perform_validation-slices_example =
    perform_validation-slices lib image (2 ∷ []) _ (first ∷ []) [] asking (link-IsSound _) refl
      (first-IsRequest, tt) payload-IsCommand (omega arith)

bad-IsCommand : IsCommand lib (codes "OOBData") (3 ∷ []) (request 4 5)
unfolding typed_item of_kind find same_text
bad-IsCommand = record {
  parsed = refl;
  node = text (codes "OOBData");
  command = refl;
  named = refl;
}

bad-Asks : Asks lib (request 4 5) 4 5
unfolding typed_item of_kind find same_text
bad-Asks = record {
  length_node = number 5;
  offset_node = number 4;
  has_length = refl;
  has_offset = refl;
  size_is = refl;
  offset_is = refl;
}

perform_validation-fault_example :
    perform_validation lib (some image) (link (messages lib [] (received (3 ∷ []) ∷ []))) ≡ fault
perform_validation-fault_example =
    perform_validation-fault lib image (3 ∷ []) (request 4 5) 4 5 [] []
      (link (messages lib [] (received (3 ∷ []) ∷ []))) (link-IsSound _) refl tt bad-IsCommand
      bad-Asks (omega arith) (omega arith) (omega arith)

send_payload_lem :
    send_payload (some image) (link [])
    ≡ ok true (record (link []) { sends = 1; delivered = image; freads = 1 })
unfolding send_payload payload_loop read_at send_buffer
send_payload_lem = refl

send_payload-Sent_example :
    Ensures (λ done t. Sent image [] 5 done t) (send_payload (some image) (link []))
send_payload-Sent_example = send_payload-Sent image (link []) (omega arith)

send_payload-delivered_example :
    (t : Link) × (send_payload (some image) (link []) ≡ ok true t) × (t.delivered ≡ [] ++ image)
send_payload-delivered_example =
    send_payload-delivered image (link []) (link-IsPerfect []) (omega arith)

open_with_timeout-FirstSuccess_example :
    FirstSuccess (λ i. i == 3) 1 11 (open_with_timeout true (λ i. i == 3))
open_with_timeout-FirstSuccess_example = open_with_timeout-FirstSuccess (λ i. i == 3)
