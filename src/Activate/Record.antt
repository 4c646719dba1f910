-- ===== src/Activate/Record.antt =====
-- `activate_fetch_record` of ideviceactivate/src/activate.c: what is asked of the device, what is posted, and
-- what is read of the answer. lockdownd and libcurl are parameters.
mod Answered
pub mod Archived
pub mod Posted
pub mod Leaves
use irestore.Prelude.{
  ℕ, suc, ◌+◌, ◌-◌, Bool, true, false, not, List, [], ◌∷◌, ◌++◌, Option, none, some, take, drop,
  length, leb, ◌==◌, if◌then◌else◌,
}
use irestore.Effects.{State, ok, fault, pure, require, demand, ◌>>=◌, ◌>>◌}
use irestore.Memory.{malloc}
use irestore.Text.{codes, same_text}
use irestore.Plists.{Plists, string, dict, of_kind}
use irestore.Tss.Response.{strstr, c_string}
use irestore.Activate.Bench.{
  Bench, Value, heap, argument, dead, malloc_used, on_memory, text_of, free_value,
}
use irestore.Activate.Cache.{Cache, cache, get_from_cache}

-- the fields of a form, each with its content
abbrev pub Form : Type 0
Form = List (List ℕ × List ℕ)

-- `activate_response`: the block, of which `length` bytes are the answer
pub record Response : Type 0 where
  pub length : ℕ
  pub content : List ℕ

-- `activate_write_callback` on a piece; the block that `realloc` gives is used as it is
unfoldable pub write_callback : List ℕ → Response → State Bench Response
write_callback piece r = if length piece == 0 then pure r else do
  malloc_used
  pure (record {
    length = r.length + length piece;
    content = take r.length r.content ++ (piece ++ 0 ∷ []);
  })

unfoldable pub receive_all : List (List ℕ) → Response → State Bench Response
receive_all [] r = pure r
receive_all (piece ∷ pieces) r = write_callback piece r >>= receive_all pieces

-- The part of a text from the first `open` to the end of the first `close`. One that closes before it
-- opens is a block of nearly 2^32 bytes, copied from a shorter text.
pub data Part : Type 0 where
  part : List ℕ → Part
  unopened unclosed overrun : Part

abbrev pub part_at : List ℕ → ℕ → ℕ → Part
part_at text from to = if leb from to then part (take (to - from) (drop from text)) else overrun

unfoldable pub part_of : List ℕ → List ℕ → List ℕ → Part
part_of opening closing text = elim (strstr text opening) [
  | none ↦ unopened
  | some from ↦ elim (strstr text closing) [
    | none ↦ unclosed
    | some at ↦ part_at text from (at + length closing)
  ]
]

-- a part, in a block of its own
unfoldable pub copy_part : Part → State Bench (Option (List ℕ))
copy_part (part text) = malloc_used >> pure (some text)
copy_part unopened = pure none
copy_part unclosed = pure none
copy_part overrun = λ _. fault

-- The answers: lockdownd's values by their names, and the server's answer to a form, in pieces, or
-- none if libcurl has no handle. `junk` is what is in a buffer of the stack.
pub record Service (Node : Type 0) : Type 0 where
  pub values : List ℕ → Option Node
  pub answer : Form → List (List ℕ)
  pub has_handle : Bool
  pub junk : List ℕ

-- the values of the command line: IMEI, IMSI, ICCID and serial number
pub record Custom : Type 0 where
  pub imei : Option (List ℕ)
  pub imsi : Option (List ℕ)
  pub iccid : Option (List ℕ)
  pub serial : Option (List ℕ)

module _ (lib : Plists) (service : Service lib.Node) (c : Cache) where
  open lib use {Node, string_val, to_xml, from_xml, get_item}

  -- a string of lockdownd
  abbrev pub value_of : List ℕ → Option (List ℕ)
  value_of name = elim (of_kind lib string (service.values name)) [
    | none ↦ none
    | some node ↦ some (string_val node)
  ]

  -- One of the values: from the command line, the device, or the cache; none is -1.
  unfoldable pub fetch_value : Option (List ℕ) → List ℕ → List ℕ → State Bench (Option Value)
  fetch_value (some custom) name kept_as = pure (some (argument custom))
  fetch_value none name kept_as =
      if c.use_cache
      then (do v ← get_from_cache c service.junk kept_as; pure (some v))
      else require none (value_of name) λ text. pure (some (heap text))

  -- The field for a value and its copy in the cache; then the value is freed. A value that is NULL is
  -- no field.
  unfoldable pub add_field : List ℕ → List ℕ → List ℕ → Option Value → Form → State Bench Form
  add_field field kept_as empty_as none form = cache c empty_as [] >> pure form
  add_field field kept_as empty_as (some v) form = do
    text ← text_of v
    cache c kept_as text
    free_value v
    pure (form ++ (field, text) ∷ [])

  -- the activation info of the device: the first dictionary of its XML
  unfoldable pub fetch_info : State Bench (Option (List ℕ))
  fetch_info =
      require none (of_kind lib dict (service.values (codes "ActivationInfo")))
        λ node. copy_part (part_of (codes "<dict>") (codes "</dict>") (to_xml node))

  -- the form, from the values that are there
  unfoldable pub build_form :
      Option Value → Option Value → Option Value → Option Value → List ℕ → State Bench Form
  build_form imei imsi iccid serial info = do
    f₁ ←
        add_field (codes "IMEI") (codes "IMEI") (codes "IMEI") imei
          ((codes "machineName", codes "linux") ∷ (codes "InStoreActivation", codes "false") ∷ [])
    f₂ ← add_field (codes "IMSI") (codes "IMSI") (codes "IMSI") imsi f₁
    f₃ ← add_field (codes "ICCID") (codes "ICCID") (codes "ICCID") iccid f₂
    f₄ ←
        add_field (codes "AppleSerialNumber") (codes "SerialNumber") (codes "SeralNumber") serial f₃
    add_field (codes "activation-info") (codes "ActivationInfo") [] (some (heap info)) f₄

  -- the activation record of a ticket
  abbrev pub device_node : Node → Option Node
  device_node ticket = elim (get_item ticket (codes "iphone-activation")) [
    | none ↦ get_item ticket (codes "device-activation")
    | some node ↦ some node
  ]

  abbrev pub record_in : Option Node → Option Node
  record_in none = none
  record_in (some node) = get_item node (codes "activation-record")

  -- what is made of the answer's ticket, once it is copied
  abbrev pub read_ticket : List ℕ → Option Node
  read_ticket ticket = elim (from_xml ticket) [
    | none ↦ none
    | some root ↦ record_in (device_node root)
  ]

  -- Behind the transfer. Without a byte of the answer the block has one byte that nothing has written.
  unfoldable pub read_answer : Response → State Bench (Option Node)
  read_answer r = do
    text ← demand (if r.length == 0 then none else c_string r.content)
    ticket ← copy_part (part_of (codes "<plist") (codes "</plist>") text)
    require none ticket λ bytes. pure (read_ticket bytes)

  -- the transfer: the response's two blocks, of which only the first is looked at
  unfoldable pub transfer : Form → State Bench (Option Node)
  transfer form = do
    got ← on_memory malloc
    if not got then pure none else do
      on_memory malloc
      response ← receive_all (service.answer form) (record { length = 0; content = [] })
      read_answer response

  -- `activate_fetch_record` behind the values
  unfoldable pub post_form :
      Option Value → Option Value → Option Value → Option Value → State Bench (Option Node)
  post_form imei imsi iccid serial = do
    info ← fetch_info
    require none info λ text.
        if not service.has_handle
        then pure none
        else (build_form imei imsi iccid serial text >>= transfer)

  -- the serial number, and what follows it
  unfoldable pub fetch_serial :
      Option (List ℕ) → Option Value → Option Value → Option Value → State Bench (Option Node)
  fetch_serial custom imei imsi iccid = do
    serial ← fetch_value custom (codes "SerialNumber") (codes "SerialNumber")
    require none serial λ v. post_form imei imsi iccid (some v)

  -- the three values of an iPhone, and what follows them
  unfoldable pub fetch_phone : Custom → State Bench (Option Node)
  fetch_phone custom = do
    iccid ← fetch_value custom.iccid (codes "IntegratedCircuitCardIdentity") (codes "ICCID")
    require none iccid λ v₁. do
      imei ← fetch_value custom.imei (codes "InternationalMobileEquipmentIdentity") (codes "IMEI")
      require none imei λ v₂. do
        imsi ←
            fetch_value custom.imsi (codes "InternationalMobileSubscriberIdentity") (codes "IMSI")
        require none imsi λ v₃. fetch_serial custom.serial (some v₂) (some v₃) (some v₁)

  -- `activate_fetch_record`: `*record`, or none for -1
  unfoldable pub fetch_record : Custom → State Bench (Option Node)
  fetch_record custom = require none (value_of (codes "DeviceClass")) λ class.
      require none (value_of (codes "UniqueDeviceID")) λ uuid. do
        cache c (codes "UUID") uuid
        if same_text class (codes "iPhone")
            then fetch_phone custom
            else fetch_serial custom.serial none none none
