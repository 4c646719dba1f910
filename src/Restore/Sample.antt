-- ===== src/Restore/Sample.antt =====
-- Concrete documents, connections and rounds of a restore, for the runs.
use irestore.Prelude.{
  ℕ, ◌≡◌, refl, arith, Bool, true, false, List, [], ◌∷◌, Option, none, some, length, ◌==◌, ltb,
  if◌then◌else◌,
}
use irestore.Text.{codes, same_text}
use irestore.Plists.{Plists, string, of_kind, typed_item}
use irestore.Plists.Tree.{Tree, text, number, table, row, to_entries, to_items, find, trees}
use irestore.Asr.Link.{Link, received, connect_loop, open_with_timeout}
use irestore.Asr.Validation.Requests.{IsSound, IsCommand, Request, IsRequest, messages}
use irestore.Restore.Session.{Phone, Client, opens_all}
use irestore.Restore.World.{World}
use irestore.Restore.Loop.{Turn}

-- documents by their first byte: a request for bytes 1 and 2, a build manifest, and the payload
-- command
abbrev pub request : ℕ → ℕ → Tree
request offset size = table (
    to_entries (
      (codes "Command", text (codes "OOBData"))
      ∷ (codes "OOB Length", number size)
      ∷ (codes "OOB Offset", number offset)
      ∷ []))

abbrev pub payload : Tree
payload = table (to_entries ((codes "Command", text (codes "Payload")) ∷ []))

-- a component of a build identity
abbrev pub component : List ℕ → List ℕ → List ℕ × Tree
component name path = (
  name,
  table (to_entries ((codes "Info", table (to_entries ((codes "Path", text path) ∷ []))) ∷ [])),
)

-- a build identity with a filesystem and what recovery mode needs
abbrev pub full_identity : Tree
full_identity = table (
    to_entries (
      (
        codes "Manifest",
        table (
            to_entries (
              component (codes "OS") (codes "r")
              ∷ component (codes "iBEC") (codes "a")
              ∷ component (codes "AppleLogo") (codes "b")
              ∷ component (codes "RestoreDeviceTree") (codes "c")
              ∷ component (codes "RestoreRamDisk") (codes "d")
              ∷ component (codes "RestoreKernelCache") (codes "e")
              ∷ [])),
      )
      ∷ []))

abbrev pub manifest : Tree
manifest = table (
    to_entries (
      (codes "ProductVersion", text (codes "4.3"))
      ∷ (codes "BuildIdentities", row (to_items (full_identity ∷ [])))
      ∷ []))

abbrev pub parse : List ℕ → Option Tree
parse [] = none
parse (b ∷ _) =
    if b == 1 then some (request 1 2) else if b == 3 then some manifest else some payload

abbrev pub lib : Plists
lib = trees parse

abbrev pub image : List ℕ
image = 10 ∷ 11 ∷ 12 ∷ 13 ∷ 14 ∷ []

abbrev pub first_request : Request lib
first_request = record { event = 1 ∷ []; packet = request 1 2; offset = 1; size = 2 }

abbrev pub link : Link
link = record {
  connected = false;
  accepts = λ _ bytes. some (length bytes);
  sends = 0;
  delivered = [];
  inbox = received [] ∷ messages lib (first_request ∷ []) (received (2 ∷ []) ∷ []);
  grants = λ _. true;
  mallocs = 0;
  reads = λ _. true;
  freads = 0;
}

pub link-IsSound : IsSound link
link-IsSound = record {
  perfect = record { takes = λ _ _. refl; reads = λ _. refl };
  plenty = λ _. refl;
}

pub first_request-IsRequest : IsRequest lib image first_request
unfolding typed_item of_kind find same_text
first_request-IsRequest = record {
  command = record { parsed = refl; node = text (codes "OOBData"); command = refl; named = refl };
  asks = record {
    length_node = number 2;
    offset_node = number 1;
    has_length = refl;
    has_offset = refl;
    size_is = refl;
    offset_is = refl;
  };
  inside = omega arith;
  small = omega arith;
}

pub payload-IsCommand : IsCommand lib (codes "Payload") (2 ∷ []) payload
unfolding typed_item of_kind find same_text
payload-IsCommand = record {
  parsed = refl;
  node = text (codes "Payload");
  command = refl;
  named = refl;
}

-- The third attempt connects.
abbrev pub connects : ℕ → Bool
connects n = ltb 2 n

pub connects-third : open_with_timeout true connects ≡ some 3
unfolding open_with_timeout connect_loop
connects-third = refl

-- A device that is there at the second look.
abbrev pub phone : Phone
phone = record {
  grants = true;
  grants_new = true;
  subscribes = true;
  arrives = λ n. ltb 1 n;
  opens = true;
  client_opens = true;
  answers = true;
}

pub phone-opens_all : opens_all phone ≡ true
unfolding opens_all connect_loop
phone-opens_all = refl

abbrev pub client : Client
client = record { restore = none; quit = false; connected = false }

abbrev pub world : World Tree
world = record {
  client = client;
  exclude = false;
  memory = record { grants = λ _. true; calls = 0; live = 0 };
  link = link;
  accepts = λ _. true;
  sends = 0;
  sent = [];
  reports = [];
}

abbrev pub message : List ℕ → List (List ℕ × Tree) → Tree
message type more = table (to_entries ((codes "MsgType", text type) ∷ more))

-- the rounds of a restore: nothing, a message of no type, the request, nothing, the device goes
abbrev pub quiet : List (Turn Tree)
quiet =
    record { message = none; removed = false }
    ∷ record { message = some payload; removed = false }
    ∷ []

pub quiet_message : typed_item lib payload (codes "MsgType") string ≡ none
unfolding typed_item of_kind find same_text
quiet_message = refl

abbrev pub filesystem_request : Tree
filesystem_request =
    message (codes "DataRequestMsg") ((codes "DataType", text (codes "SystemImageData")) ∷ [])
