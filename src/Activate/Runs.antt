-- ===== src/Activate/Runs.antt =====
-- Concrete activations, and the theorems at these.
use irestore.Prelude.{
  ℕ, ◌≡◌, ◌≢◌, ◌<◌, ◌≤◌, refl, arith, true, false, List, [], ◌∷◌, Option, none, some, length,
  if◌then◌else◌,
}
use irestore.Effects.{Allows, ok}
use irestore.Text.{codes, same_text}
use irestore.Plists.{Plists, of_kind}
use irestore.Plists.Tree.{Tree, text, table, to_entries, find, trees}
use irestore.Tss.Response.{strstr, starts_with}
use irestore.Tss.Transfer.{NoZero}
use irestore.Activate.Bench.{Bench}
use irestore.Activate.Cache.{Cache, bufsize, join, cache, read_file}
use irestore.Activate.Cache.Kept.{CanKeep, cache-read_file}
use irestore.Activate.Record.{Service, part, part_of, read_ticket, fetch_record}
use irestore.Activate.Record.Archived.{CanKeepAll}
use irestore.Activate.Record.Posted.{IsActivatable, no_custom, cached, fetch_record-ticket}
use irestore.Activate.Course.{Settings, Around, start, run}
use irestore.Activate.Record.Leaves.{Leaves}
use irestore.Activate.Course.Released.{run-Leaves}
use irestore.Activate.Course.Failing.{Fails, with_serial, run-Fails}

-- Every document is this ticket, and is written as a dictionary.
abbrev ticket : Tree
ticket = table (
    to_entries (
      (
        codes "iphone-activation",
        table (to_entries ((codes "activation-record", text (codes "record")) ∷ [])),
      )
      ∷ []))

abbrev lib : Plists
lib = record (trees (λ _. some ticket)) { to_xml = λ _. codes "<x><dict>i</dict></x>" }

abbrev values : List ℕ → Option Tree
values name = find name (
    (codes "DeviceClass", text (codes "iPhone"))
    ∷ (codes "UniqueDeviceID", text (codes "u"))
    ∷ (codes "InternationalMobileEquipmentIdentity", text (codes "e"))
    ∷ (codes "InternationalMobileSubscriberIdentity", text (codes "s"))
    ∷ (codes "IntegratedCircuitCardIdentity", text (codes "i"))
    ∷ (codes "SerialNumber", text (codes "n"))
    ∷ (codes "ActivationInfo", ticket)
    ∷ [])

abbrev service : Service Tree
service = record {
  values = values;
  answer = λ _. codes "x<plist" ∷ codes ">y</pl" ∷ codes "ist>z" ∷ [];
  has_handle = true;
  junk = [];
}

abbrev backup : Cache
backup = record { cachedir = codes "d"; use_cache = false; backup_to_cache = true }

abbrev bench : Bench
bench = record {
  holds = λ _. none;
  writable = λ _. true;
  room = 100;
  memory = record { grants = λ _. true; calls = 0; live = 0 };
  held = record { devices = 0; clients = 0 };
}

-- A dictionary within the dictionary ends the part.
part_of_nested :
    part_of (codes "<dict>") (codes "</dict>") (codes "<dict><dict></dict></dict>")
    ≡ part (codes "<dict><dict></dict>")
unfolding part_of strstr starts_with
part_of_nested = refl

bench-CanKeep :
    (name what : List ℕ)
    → length (join (codes "d") name) < 512
    → NoZero what
    → length what ≤ 100
    → CanKeep backup name what bench
unfolding bufsize
bench-CanKeep name what fits plain short = record {
  on = refl;
  writable = refl;
  fits = fits;
  plain = plain;
  small = omega arith;
  room = short;
}

one : (c : ℕ) → c ≢ 0 → NoZero (c ∷ [])
one c h = (h, tt)

cache-read_file_example :
    (t : Bench) × (cache backup (codes "UUID") (7 ∷ []) bench ≡ ok true t)
    × (read_file (join (codes "d") (codes "UUID")) (1 ∷ 2 ∷ []) t ≡ ok (7 ∷ 2 ∷ []) t)
    × ((other : List ℕ)
        → t.holds other
          ≡ (if same_text other (join (codes "d") (codes "UUID")) then some (7 ∷ []) else none))
cache-read_file_example =
    cache-read_file backup (codes "UUID") (7 ∷ []) (1 ∷ 2 ∷ []) bench
      (bench-CanKeep (codes "UUID") (7 ∷ []) (omega arith) (one 7 (omega arith)) (omega arith))

service-IsActivatable :
    IsActivatable lib service backup
      (codes "u")
      (codes "e")
      (codes "s")
      (codes "i")
      (codes "n")
      (codes "<dict>i</dict>")
      (codes "<plist>y</plist>")
unfolding of_kind find same_text part_of strstr starts_with
service-IsActivatable = record {
  fresh = refl;
  class = refl;
  has_uuid = refl;
  has_imei = refl;
  has_imsi = refl;
  has_iccid = refl;
  has_serial = refl;
  node = ticket;
  has_info = refl;
  info_is = refl;
  handle = refl;
  text = codes "x<plist>y</plist>z";
  answered = refl;
  filled = λ e. cc;
  plain = ground arith;
  has_ticket = refl;
}

bench-CanKeepAll :
    CanKeepAll lib service backup
      (codes "u")
      (codes "e")
      (codes "s")
      (codes "i")
      (codes "n")
      (codes "<dict>i</dict>")
      bench
bench-CanKeepAll = record {
  uuid_fits = bench-CanKeep (codes "UUID") (codes "u") (omega arith) (ground arith) (omega arith);
  imei_fits = bench-CanKeep (codes "IMEI") (codes "e") (omega arith) (ground arith) (omega arith);
  imsi_fits = bench-CanKeep (codes "IMSI") (codes "s") (omega arith) (ground arith) (omega arith);
  iccid_fits = bench-CanKeep (codes "ICCID") (codes "i") (omega arith) (ground arith) (omega arith);
  serial_fits =
      bench-CanKeep (codes "SerialNumber") (codes "n") (omega arith) (ground arith) (omega arith);
  info_fits =
      bench-CanKeep (codes "ActivationInfo") (codes "<dict>i</dict>") (omega arith) (ground arith)
        (omega arith);
}

fetch_record-ticket_example :
    (t : Bench) × (fetch_record lib service backup (no_custom lib service backup) bench
      ≡ ok (read_ticket lib service backup (codes "<plist>y</plist>")) t)
    × (cached lib service backup t (codes "UUID") ≡ some (codes "u"))
    × (cached lib service backup t (codes "IMEI") ≡ some (codes "e"))
    × (cached lib service backup t (codes "IMSI") ≡ some (codes "s"))
    × (cached lib service backup t (codes "ICCID") ≡ some (codes "i"))
    × (cached lib service backup t (codes "SerialNumber") ≡ some (codes "n"))
    × (cached lib service backup t (codes "ActivationInfo") ≡ some (codes "<dict>i</dict>"))
fetch_record-ticket_example =
    fetch_record-ticket lib service backup (codes "u") (codes "e") (codes "s") (codes "i")
      (codes "n") (codes "<dict>i</dict>") (codes "<plist>y</plist>") bench service-IsActivatable
      bench-CanKeepAll (λ _. refl)

-- The ticket of the run has a record.
ticket_has_record :
    read_ticket lib service backup (codes "<plist>y</plist>") ≡ some (text (codes "record"))
unfolding find same_text
ticket_has_record = refl

abbrev around : Around Tree
around = record {
  found = true;
  client = true;
  activates = λ _. true;
  deactivates = true;
  gives = 100;
  from_bin = λ _. none;
}

-- `-n n`
abbrev own_serial : Settings
own_serial = record start { custom = record (start.custom) { serial = some (codes "n") } }

run-Fails_example : Allows Fails (run lib service around own_serial bench)
run-Fails_example =
    run-Fails lib service around own_serial bench (with_serial (codes "n") refl refl refl)

run-Leaves_example :
    Leaves (record { devices = 0; clients = 0 }) (run lib service around own_serial bench)
run-Leaves_example = run-Leaves lib service around own_serial bench
