-- ===== src/Activate/Course/Failing.antt =====
-- Options with which ideviceactivate never succeeds.
use irestore.Prelude.{ℕ, ◌≡◌, refl, Bool, true, false, not, List, Option, none, some}
use irestore.Effects.{
  State, Allows, gives, faulty, allow, allow_if, allow_require, anything, and_then, pure, require,
}
use irestore.Text.{codes, same_text}
use irestore.Plists.{Plists}
use irestore.Activate.Bench.{Bench, Value, argument}
use irestore.Activate.Cache.{Cache, cache}
use irestore.Activate.Cache.Kept.{check_cache-fault}
use irestore.Activate.Record.{
  Form, Service, Custom, value_of, fetch_value, add_field, fetch_info, build_form, post_form,
  fetch_serial, fetch_phone, fetch_record,
}
use irestore.Activate.Course.{
  Settings, Around, free_up, end_with, init_lockdownd, get_record, plist_read_from_filename,
  activate, checked, run,
}

-- a run without a result
abbrev Nothing : {S A : Type 0} → Option A → S → Type 0
Nothing r _ = r ≡ none

-- a run that is no success
abbrev pub Fails : Bool → Bench → Type 0
Fails r _ = r ≡ false

-- settings with a cache to use, or with a serial number, without -x and without a file
pub data IsHopeless (s : Settings) : Type 0 where
  from_cache : s.cache.use_cache ≡ true → IsHopeless s
  with_serial :
      (serial : List ℕ)
      → s.deactivate ≡ false
      → s.file ≡ none
      → s.custom.serial ≡ some serial
      → IsHopeless s

module _ (lib : Plists) (service : Service lib.Node) where
  open lib use {Node}

  -- An argument of the program cannot be freed.
  add_field-argument :
      (c : Cache) (field kept_as empty_as text : List ℕ) (form : Form) (b : Bench)
      → Allows
          (λ _ _. ⊥)
          (add_field lib service c field kept_as empty_as (some (argument text)) form b)
  unfolding add_field
  add_field-argument c field kept_as empty_as text form b =
      allow (anything (cache c kept_as text b)) λ _ t _. faulty

  build_form-argument :
      (c : Cache) (imei imsi iccid : Option Value) (serial info : List ℕ) (b : Bench)
      → Allows (λ _ _. ⊥) (build_form lib service c imei imsi iccid (some (argument serial)) info b)
  unfolding build_form
  build_form-argument c imei imsi iccid serial info b =
      allow
        (anything (add_field lib service c (codes "IMEI") (codes "IMEI") (codes "IMEI") imei _ b))
        λ f₁ b₁ _.
          allow
            (anything
              (add_field lib service c (codes "IMSI") (codes "IMSI") (codes "IMSI") imsi f₁ b₁))
            λ f₂ b₂ _.
              allow
                (anything (
                  add_field lib service c (codes "ICCID") (codes "ICCID") (codes "ICCID") iccid f₂
                    b₂))
                λ f₃ b₃ _.
                  allow
                    (add_field-argument c (codes "AppleSerialNumber") (codes "SerialNumber")
                      (codes "SeralNumber") serial f₃ b₃)
                    λ _ _ never. absurd never

  post_form-argument :
      (c : Cache) (imei imsi iccid : Option Value) (serial : List ℕ) (b : Bench)
      → Allows Nothing (post_form lib service c imei imsi iccid (some (argument serial)) b)
  unfolding post_form
  post_form-argument c imei imsi iccid serial b =
      allow (anything (fetch_info lib service c b)) λ info t _.
        allow_require none info _ t refl λ text _.
          allow_if (not service.has_handle) _ _ t (λ _. gives refl)
            λ _.
              allow (build_form-argument c imei imsi iccid serial text t) λ _ _ never. absurd never

  fetch_serial-argument :
      (c : Cache) (serial : List ℕ) (imei imsi iccid : Option Value) (b : Bench)
      → Allows Nothing (fetch_serial lib service c (some serial) imei imsi iccid b)
  unfolding fetch_serial fetch_value
  fetch_serial-argument c serial imei imsi iccid b = post_form-argument c imei imsi iccid serial b

  fetch_phone-argument :
      (c : Cache) (custom : Custom) (serial : List ℕ) (b : Bench)
      → custom.serial ≡ some serial
      → Allows Nothing (fetch_phone lib service c custom b)
  unfolding fetch_phone
  fetch_phone-argument c custom serial b given =
      allow
        (anything (
          fetch_value lib service c custom.iccid (codes "IntegratedCircuitCardIdentity")
            (codes "ICCID") b))
        λ iccid b₁ _. allow_require none iccid _ b₁ refl λ v₁ _.
          allow
            (anything (
              fetch_value lib service c custom.imei (codes "InternationalMobileEquipmentIdentity")
                (codes "IMEI") b₁))
            λ imei b₂ _. allow_require none imei _ b₂ refl λ v₂ _.
              allow
                (anything (
                  fetch_value lib service c custom.imsi
                    (codes "InternationalMobileSubscriberIdentity") (codes "IMSI") b₂))
                λ imsi b₃ _.
                  allow_require none imsi _ b₃ refl
                    λ v₃ _. from_serial custom.serial (some v₂) (some v₃) (some v₁) b₃ given
    where
      from_serial :
          (o : Option (List ℕ)) (imei imsi iccid : Option Value) (b : Bench)
          → o ≡ some serial
          → Allows Nothing (fetch_serial lib service c o imei imsi iccid b)
      from_serial o imei imsi iccid b e = rw e (fetch_serial-argument c serial imei imsi iccid b)

  fetch_record-argument :
      (c : Cache) (custom : Custom) (serial : List ℕ) (b : Bench)
      → custom.serial ≡ some serial
      → Allows Nothing (fetch_record lib service c custom b)
  unfolding fetch_record
  fetch_record-argument c custom serial b given =
      allow_require none (value_of lib service c (codes "DeviceClass")) _ b refl λ class _.
        allow_require none (value_of lib service c (codes "UniqueDeviceID")) _ b refl λ uuid _.
          allow (anything (cache c (codes "UUID") uuid b)) λ _ t _.
            allow_if (same_text class (codes "iPhone")) _ _ t
              (λ _. fetch_phone-argument c custom serial t given)
              λ _. from_serial custom.serial t given
    where
      from_serial :
          (o : Option (List ℕ)) (b : Bench)
          → o ≡ some serial
          → Allows Nothing (fetch_serial lib service c o none none none b)
      from_serial o b e = rw e (fetch_serial-argument c serial none none none b)

  module _ (around : Around Node) where
    end_with-Fails : (b : Bench) → Allows Fails (end_with false b)
    end_with-Fails b = allow (anything (free_up true b)) λ _ t _. gives refl

    get_record-argument :
        (s : Settings) (serial : List ℕ) (b : Bench)
        → s.file ≡ none
        → s.custom.serial ≡ some serial
        → Allows Nothing (get_record lib service around s b)
    unfolding get_record
    get_record-argument s serial b no_file given = from_file s.file no_file
      where
        fetched : State Bench (Option (Option Node))
        fetched = λ b.
            and_then (fetch_record lib service s.cache s.custom b)
              λ got. require none got λ node. pure (some (some node))

        from_file :
            (o : Option (List ℕ))
            → o ≡ none
            → Allows Nothing (
                (elim o as (λ _. State Bench (Option (Option Node))) [
                  | some name ↦ plist_read_from_filename lib service around name
                  | none ↦ fetched
                ])
                  b)
        from_file none e =
            allow (fetch_record-argument s.cache s.custom serial b given)
              λ got t nothing. rw nothing (gives refl)
        from_file (some name) e = cc

    activate-serial :
        (s : Settings) (serial : List ℕ) (t : Bench)
        → s.deactivate ≡ false
        → s.file ≡ none
        → s.custom.serial ≡ some serial
        → Allows Fails (activate lib service around s t)
    unfolding activate
    activate-serial s serial t activates no_file given =
        allow_if s.deactivate _ _ t (λ on. cc)
          λ _.
            allow (get_record-argument s serial t no_file given)
              λ got u nothing. rw nothing (end_with-Fails u)

    -- With a cache to use (-r), or with a serial number on the command line (-n) where the device is not
    -- to be deactivated (no -x) and no file has the record (no -f), ideviceactivate never succeeds: each
    -- run ends with -1, faults or does not end.
    pub run-Fails :
        (s : Settings) (b : Bench) → IsHopeless s → Allows Fails (run lib service around s b)
    unfolding run checked
    run-Fails s b hopeless = allow (anything (init_lockdownd lib service around b)) λ connected t _.
        allow_if (not connected) _ _ t (λ _. gives refl)
          λ _. allow_if (not s.cache.use_cache) _ _ t (tried s t hopeless) λ _.
            rw (check_cache-fault s.cache service.junk (service.values (codes "UniqueDeviceID")) t)
              faulty
      where
        tried :
            (s : Settings) (t : Bench)
            → IsHopeless s
            → not s.cache.use_cache ≡ true
            → Allows Fails (activate lib service around s t)
        tried s t (from_cache e) off = cc
        tried s t (with_serial serial activates no_file given) off =
            activate-serial s serial t activates no_file given
