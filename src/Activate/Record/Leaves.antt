-- ===== src/Activate/Record/Leaves.antt =====
-- `activate_fetch_record` of ideviceactivate/src/activate.c opens no handle and closes none.
use irestore.Prelude.{
  ℕ, ◌-◌, ◌≡◌, ◌∙◌, refl, Bool, true, false, not, List, [], ◌∷◌, Option, none, some, take, length,
  leb, ◌==◌, if◌then◌else◌,
}
use irestore.Effects.{
  Run, State, Allows, gives, faulty, endless, allow, allow_if, allow_require, mono_allow, ok, fault,
  out_of_fuel, and_then, demand,
}
use irestore.Memory.{Mem, malloc}
use irestore.Text.{codes, same_text}
use irestore.Plists.{Plists, dict, of_kind}
use irestore.Devices.{Held}
use irestore.Tss.Response.{c_string}
use irestore.Activate.Bench.{
  Bench, Value, heap, argument, dead, put_memory, malloc_used, used, with_file, until_zero, text_of,
  free_value,
}
use irestore.Activate.Cache.{Cache, join, bufsize, write_file, read_file, cache, get_from_cache}
use irestore.Activate.Record.{
  Form, Response, Part, part, unopened, unclosed, overrun, part_of, copy_part, write_callback,
  receive_all, Service, Custom, value_of, fetch_value, add_field, fetch_info, build_form,
  read_answer, transfer, post_form, fetch_serial, fetch_phone, fetch_record,
}

-- The run ends with these handles held, or it does not end well.
abbrev pub Leaves : {A : Type 0} → Held → Run Bench A → Type 0
Leaves h r = Allows (λ _ t. t.held ≡ h) r

-- what follows a step that keeps the handles
pub then-Leaves :
    {h : Held} {A B : Type 0} {r : Run Bench A} {k : A → State Bench B}
    → Leaves h r
    → ((a : A) (t : Bench) → Leaves t.held (k a t))
    → Leaves h (and_then r k)
then-Leaves first rest = allow first λ a t same. mono_allow (rest a t) λ _ _ e. e ∙ same

pub memory-Leaves : {A : Type 0} (b : Bench) (r : Run Mem A) → Leaves b.held (put_memory b r)
memory-Leaves b (ok a m) = gives refl
memory-Leaves b fault = faulty
memory-Leaves b out_of_fuel = endless

malloc_used-Leaves : (b : Bench) → Leaves b.held (malloc_used b)
unfolding malloc_used
malloc_used-Leaves b = then-Leaves (memory-Leaves b (malloc b.memory)) used_one
  where
    used_one : (got : Bool) (t : Bench) → Leaves t.held (used got t)
    used_one true t = gives refl
    used_one false t = faulty

cache-Leaves : (c : Cache) (name what : List ℕ) (b : Bench) → Leaves b.held (cache c name what b)
unfolding cache write_file
cache-Leaves c name what b =
    allow_if (not c.backup_to_cache) _ _ b (λ _. gives refl)
      λ _.
        allow_if (leb 512 (length (join c.cachedir name))) _ _ b (λ _. faulty)
          λ _. written (b.writable (join c.cachedir name)) (take (bufsize - 1) what)
  where
    written :
        (opens : Bool) (text : List ℕ)
        → Leaves b.held (
            if not opens
            then fault
            else ok true (with_file (join c.cachedir name) (take b.room (until_zero text)) b))
    written true text = gives refl
    written false text = faulty

pub demand-Leaves : {A : Type 0} (o : Option A) (b : Bench) → Leaves b.held (demand o b)
demand-Leaves none b = faulty
demand-Leaves (some a) b = gives refl

get_from_cache-Leaves :
    (c : Cache) (junk name : List ℕ) (b : Bench) → Leaves b.held (get_from_cache c junk name b)
unfolding get_from_cache read_file
get_from_cache-Leaves c junk name b =
    then-Leaves
      (then-Leaves (demand-Leaves (b.holds (take 511 (join c.cachedir name))) b) λ _ t. gives refl)
      λ _ t. gives refl

text_of-Leaves : (v : Value) (b : Bench) → Leaves b.held (text_of v b)
text_of-Leaves (heap s) b = gives refl
text_of-Leaves (argument s) b = gives refl
text_of-Leaves dead b = faulty

free_value-Leaves : (v : Value) (b : Bench) → Leaves b.held (free_value v b)
free_value-Leaves (heap s) b = gives refl
free_value-Leaves (argument s) b = faulty
free_value-Leaves dead b = faulty

copy_part-Leaves : (p : Part) (b : Bench) → Leaves b.held (copy_part p b)
unfolding copy_part
copy_part-Leaves (part s) b = then-Leaves (malloc_used-Leaves b) λ _ t. gives refl
copy_part-Leaves unopened b = gives refl
copy_part-Leaves unclosed b = gives refl
copy_part-Leaves overrun b = faulty

write_callback-Leaves :
    (piece : List ℕ) (r : Response) (b : Bench) → Leaves b.held (write_callback piece r b)
unfolding write_callback
write_callback-Leaves piece r b =
    allow_if (length piece == 0) _ _ b (λ _. gives refl)
      λ _. then-Leaves (malloc_used-Leaves b) λ _ t. gives refl

receive_all-Leaves :
    (pieces : List (List ℕ)) (r : Response) (b : Bench) → Leaves b.held (receive_all pieces r b)
unfolding receive_all
receive_all-Leaves [] r b = gives refl
receive_all-Leaves (piece ∷ pieces) r b =
    then-Leaves (write_callback-Leaves piece r b) (receive_all-Leaves pieces)

module _ (lib : Plists) (service : Service lib.Node) where
  open lib use {Node, to_xml}

  fetch_value-Leaves :
      (c : Cache) (custom : Option (List ℕ)) (name kept_as : List ℕ) (b : Bench)
      → Leaves b.held (fetch_value lib service c custom name kept_as b)
  unfolding fetch_value
  fetch_value-Leaves c (some text) name kept_as b = gives refl
  fetch_value-Leaves c none name kept_as b =
      allow_if c.use_cache _ _ b
        (λ _. then-Leaves (get_from_cache-Leaves c service.junk kept_as b) λ _ t. gives refl)
        λ _. allow_require none (value_of lib service c name) _ b refl λ _ _. gives refl

  add_field-Leaves :
      (c : Cache) (field kept_as empty_as : List ℕ) (v : Option Value) (form : Form) (b : Bench)
      → Leaves b.held (add_field lib service c field kept_as empty_as v form b)
  unfolding add_field
  add_field-Leaves c field kept_as empty_as none form b =
      then-Leaves (cache-Leaves c empty_as [] b) λ _ t. gives refl
  add_field-Leaves c field kept_as empty_as (some v) form b =
      then-Leaves (text_of-Leaves v b) λ s t₁.
        then-Leaves (cache-Leaves c kept_as s t₁)
          λ _ t₂. then-Leaves (free_value-Leaves v t₂) λ _ t₃. gives refl

  build_form-Leaves :
      (c : Cache) (imei imsi iccid serial : Option Value) (info : List ℕ) (b : Bench)
      → Leaves b.held (build_form lib service c imei imsi iccid serial info b)
  unfolding build_form
  build_form-Leaves c imei imsi iccid serial info b =
      then-Leaves (add_field-Leaves c (codes "IMEI") (codes "IMEI") (codes "IMEI") imei _ b)
        λ f₁ b₁.
          then-Leaves (add_field-Leaves c (codes "IMSI") (codes "IMSI") (codes "IMSI") imsi f₁ b₁)
            λ f₂ b₂.
              then-Leaves
                (add_field-Leaves c (codes "ICCID") (codes "ICCID") (codes "ICCID") iccid f₂ b₂)
                λ f₃ b₃.
                  then-Leaves
                    (add_field-Leaves c (codes "AppleSerialNumber") (codes "SerialNumber")
                      (codes "SeralNumber") serial f₃ b₃)
                    λ f₄ b₄.
                      add_field-Leaves c (codes "activation-info") (codes "ActivationInfo") []
                        (some (heap info)) f₄ b₄

  read_answer-Leaves :
      (c : Cache) (r : Response) (b : Bench) → Leaves b.held (read_answer lib service c r b)
  unfolding read_answer
  read_answer-Leaves c r b =
      then-Leaves (demand-Leaves (if r.length == 0 then none else c_string r.content) b) λ s t.
        then-Leaves (copy_part-Leaves (part_of (codes "<plist") (codes "</plist>") s) t)
          λ ticket u. allow_require none ticket _ u refl λ _ _. gives refl

  transfer-Leaves :
      (c : Cache) (form : Form) (b : Bench) → Leaves b.held (transfer lib service c form b)
  unfolding transfer
  transfer-Leaves c form b = then-Leaves (memory-Leaves b (malloc b.memory)) λ got t.
      allow_if (not got) _ _ t (λ _. gives refl)
        λ _. then-Leaves (memory-Leaves t (malloc t.memory)) λ _ u.
          then-Leaves
            (receive_all-Leaves (service.answer form) (record { length = 0; content = [] }) u)
            λ r v. read_answer-Leaves c r v

  fetch_info-Leaves : (c : Cache) (b : Bench) → Leaves b.held (fetch_info lib service c b)
  unfolding fetch_info
  fetch_info-Leaves c b =
      allow_require none (of_kind lib dict (service.values (codes "ActivationInfo"))) _ b refl
        λ node _. copy_part-Leaves (part_of (codes "<dict>") (codes "</dict>") (to_xml node)) b

  post_form-Leaves :
      (c : Cache) (imei imsi iccid serial : Option Value) (b : Bench)
      → Leaves b.held (post_form lib service c imei imsi iccid serial b)
  unfolding post_form
  post_form-Leaves c imei imsi iccid serial b = then-Leaves (fetch_info-Leaves c b) λ info t.
      allow_require none info _ t refl λ s _.
        allow_if (not service.has_handle) _ _ t (λ _. gives refl)
          λ _.
            then-Leaves (build_form-Leaves c imei imsi iccid serial s t)
              λ form u. transfer-Leaves c form u

  fetch_serial-Leaves :
      (c : Cache) (custom : Option (List ℕ)) (imei imsi iccid : Option Value) (b : Bench)
      → Leaves b.held (fetch_serial lib service c custom imei imsi iccid b)
  unfolding fetch_serial
  fetch_serial-Leaves c custom imei imsi iccid b =
      then-Leaves (fetch_value-Leaves c custom (codes "SerialNumber") (codes "SerialNumber") b)
        λ serial t.
          allow_require none serial _ t refl λ v _. post_form-Leaves c imei imsi iccid (some v) t

  fetch_phone-Leaves :
      (c : Cache) (custom : Custom) (b : Bench) → Leaves b.held (fetch_phone lib service c custom b)
  unfolding fetch_phone
  fetch_phone-Leaves c custom b =
      then-Leaves
        (fetch_value-Leaves c custom.iccid (codes "IntegratedCircuitCardIdentity") (codes "ICCID")
          b)
        λ iccid t₁. allow_require none iccid _ t₁ refl λ v₁ _.
          then-Leaves
            (fetch_value-Leaves c custom.imei (codes "InternationalMobileEquipmentIdentity")
              (codes "IMEI") t₁)
            λ imei t₂. allow_require none imei _ t₂ refl λ v₂ _.
              then-Leaves
                (fetch_value-Leaves c custom.imsi (codes "InternationalMobileSubscriberIdentity")
                  (codes "IMSI") t₂)
                λ imsi t₃.
                  allow_require none imsi _ t₃ refl
                    λ v₃ _. fetch_serial-Leaves c custom.serial (some v₂) (some v₃) (some v₁) t₃

  pub fetch_record-Leaves :
      (c : Cache) (custom : Custom) (b : Bench)
      → Leaves b.held (fetch_record lib service c custom b)
  unfolding fetch_record
  fetch_record-Leaves c custom b =
      allow_require none (value_of lib service c (codes "DeviceClass")) _ b refl λ class _.
        allow_require none (value_of lib service c (codes "UniqueDeviceID")) _ b refl λ uuid _.
          then-Leaves (cache-Leaves c (codes "UUID") uuid b) λ _ t.
            allow_if (same_text class (codes "iPhone")) _ _ t (λ _. fetch_phone-Leaves c custom t)
              λ _. fetch_serial-Leaves c custom.serial none none none t
