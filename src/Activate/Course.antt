-- ===== src/Activate/Course.antt =====
-- ideviceactivate/src/ideviceactivate.c, with `do_activation` and `deactivate_device` of activate.c and the
-- readers of util.c. A result of -1 is false, and so is an exit with -1.
pub mod Failing
pub mod Released
use irestore.Prelude.{
  ℕ, ◌%◌, Bool, true, false, not, List, [], ◌∷◌, ◌++◌, Option, none, some, take, length, ltb, ◌==◌,
  if◌then◌else◌,
}
use irestore.Effects.{State, ok, fault, pure, require, ◌>>=◌, ◌>>◌}
use irestore.Memory.{malloc, free}
use irestore.Text.{codes, same_text}
use irestore.Plists.{Plists}
use irestore.Devices.{idevice_new, idevice_free, service_new, service_free}
use irestore.Activate.Bench.{Bench, on_memory, on_held}
use irestore.Activate.Cache.{Cache, check_cache}
use irestore.Activate.Record.{Service, Custom, fetch_record}

-- what the options set
pub record Settings : Type 0 where
  pub debug : Bool
  pub deactivate : Bool
  pub uuid : Option (List ℕ)
  pub file : Option (List ℕ)
  pub cache : Cache
  pub custom : Custom

-- What an option makes of the settings, or how it ends the program.
pub data Step : Type 0 where
  settings : Settings → Step
  usage_shown : Step
  usage_error : Step

abbrev pub start : Settings
start = record {
  debug = false;
  deactivate = false;
  uuid = none;
  file = none;
  cache = record { cachedir = []; use_cache = false; backup_to_cache = false };
  custom = record { imei = none; imsi = none; iccid = none; serial = none };
}

-- the `switch` of `main`
unfoldable pub set_option : ℕ → List ℕ → Settings → Step
set_option opt argument s =
    if opt == b'h'
    then usage_shown
    else if opt == b'd'
    then settings (record s { debug = true })
    else if opt == b'x'
    then settings (record s { deactivate = true })
    else if opt == b'u'
    then settings (record s { uuid = some argument })
    else if opt == b'f'
    then settings (record s { file = some argument })
    else if opt == b'c'
    then settings
        (record s { cache = record (s.cache) { cachedir = argument; backup_to_cache = true } })
    else if opt == b'r'
    then settings (record s { cache = record (s.cache) { cachedir = argument; use_cache = true } })
    else if opt == b'e'
    then settings (record s { custom = record (s.custom) { imei = some argument } })
    else if opt == b's'
    then settings (record s { custom = record (s.custom) { imsi = some argument } })
    else if opt == b'i'
    then settings (record s { custom = record (s.custom) { iccid = some argument } })
    else if opt == b'n'
    then settings (record s { custom = record (s.custom) { serial = some argument } })
    else usage_error

-- the loop of `main` over the options
unfoldable pub option_loop : List (ℕ × List ℕ) → Settings → Step
option_loop [] s = settings s
option_loop ((opt, argument) ∷ opts) s = elim (set_option opt argument s) [
  | settings t ↦ option_loop opts t
  | usage_shown ↦ usage_shown
  | usage_error ↦ usage_error
]

-- What the device, the file system and the libraries answer beside the service: `idevice_new`, the
-- handshake, whether lockdownd takes a record, how many bytes `fread` gives, and the reader of binary property
-- lists.
pub record Around (Node : Type 0) : Type 0 where
  pub found : Bool
  pub client : Bool
  pub activates : Option Node → Bool
  pub deactivates : Bool
  pub gives : ℕ
  pub from_bin : List ℕ → Option Node

-- `free_up`
unfoldable pub free_up : Bool → State Bench (Unit {0})
free_up has_client = on_held idevice_free >> (if has_client then on_held service_free else pure tt)

-- what `main` does behind an error or at the end
abbrev pub end_with : Bool → State Bench Bool
end_with result = free_up true >> pure result

module _ (lib : Plists) (service : Service lib.Node) (around : Around lib.Node) where
  open lib use {Node, from_xml}

  -- `buffer_read_from_filename`: none for -1; a short read frees the buffer and leaves NULL.
  unfoldable pub buffer_read_from_filename : List ℕ → State Bench (Option (Option (List ℕ)))
  buffer_read_from_filename name b =
      require none (b.holds name)
        (λ file. do
          got ← on_memory malloc
          if not got
              then (λ _. fault)
              else if not (length (take around.gives file) == length file)
              then on_memory free >> pure (some none)
              else pure (some (some (take around.gives file))))
        b

  -- The document of a file; `memcmp` reads eight bytes. Its result is 0 although there may be none.
  unfoldable pub parse_buffer : List ℕ → State Bench (Option (Option Node))
  parse_buffer buffer =
      if ltb (length buffer) 8
      then (λ _. fault)
      else on_memory free
        >> pure (
            some (
              if same_text (take 8 buffer) (codes "bplist00")
              then around.from_bin buffer
              else from_xml buffer))

  -- `plist_read_from_filename`: the document, or none for -1
  unfoldable pub plist_read_from_filename : List ℕ → State Bench (Option (Option Node))
  plist_read_from_filename name = do
    read ← buffer_read_from_filename name
    require none read λ buffer. require none buffer parse_buffer

  -- `do_activation`
  unfoldable pub do_activation : Option Node → State Bench Bool
  do_activation activation_record = pure (around.activates activation_record)

  -- `init_lockdownd`, which ends the program if it fails
  unfoldable pub init_lockdownd : State Bench Bool
  init_lockdownd = do
    found ← on_held (idevice_new around.found)
    if not found then pure false else do
      opened ← on_held (service_new around.client)
      if not opened then free_up false >> pure false else pure true

  -- the record, from the file or from the server
  unfoldable pub get_record : Settings → State Bench (Option (Option Node))
  get_record s = elim s.file [
    | some name ↦ plist_read_from_filename name
    | none ↦ (do
      fetched ← fetch_record lib service s.cache s.custom
      require none fetched λ node. pure (some (some node)))
  ]

  -- `main` behind the check of the cache; the result of `deactivate_device` is not looked at
  unfoldable pub activate : Settings → State Bench Bool
  activate s = if s.deactivate then end_with true else do
    activation_record ← get_record s
    elim activation_record [
      | none ↦ end_with false
      | some node ↦ (do done ← do_activation node; end_with done)
    ]

  -- `main` behind the connection
  unfoldable pub checked : Settings → State Bench Bool
  checked s = if not s.cache.use_cache then activate s else do
    same ← check_cache s.cache service.junk (service.values (codes "UniqueDeviceID"))
    if not same then end_with false else activate s

  -- `main` behind its options
  unfoldable pub run : Settings → State Bench Bool
  run s = do connected ← init_lockdownd; if not connected then pure false else checked s

  abbrev pub after_options : Step → State Bench Bool
  after_options (settings s) = run s
  after_options usage_shown = pure true
  after_options usage_error = pure false

  -- `main`
  unfoldable pub main : List (ℕ × List ℕ) → State Bench Bool
  main opts = after_options (option_loop opts start)
