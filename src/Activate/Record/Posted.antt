-- ===== src/Activate/Record/Posted.antt =====
-- A whole activation request: the form that is posted, what the cache keeps of it, and the record.
use irestore.Prelude.{
  ℕ, ◌≡◌, ◌≢◌, ◌∙◌, refl, Bool, true, false, not, List, [], ◌∷◌, ◌++◌, Option, none, some,
  if◌then◌else◌, eq→==,
}
use irestore.Effects.{State, ok, require}
use irestore.Memory.{Mem, Plenty, grown}
use irestore.Text.{codes, same_text}
use irestore.Plists.{Plists, dict, of_kind}
use irestore.Tss.Transfer.{NoZero, concat}
use irestore.Activate.Bench.{Bench, heap}
use irestore.Activate.Cache.{Cache, join}
use irestore.Activate.Cache.Kept.{kept, cache-kept}
use irestore.Activate.Record.{
  part, part_of, copy_part, Service, Custom, value_of, fetch_value, fetch_info, read_ticket,
  post_form, fetch_serial, fetch_phone, fetch_record,
}
use irestore.Activate.Record.Answered.{malloc_used-Plenty, transfer-ticket}
use irestore.Activate.Record.Archived.{carry, full_form, archived, CanKeepAll, build_form-full_form}

module _ (lib : Plists) (service : Service lib.Node) (c : Cache) where
  open lib use {Node, string_val, to_xml}

  -- An iPhone with all values, whose activation info has a dictionary, and a server that answers to the
  -- form with a ticket.
  pub record IsActivatable (uuid imei imsi iccid serial info ticket : List ℕ) : Type 0 where
    pub fresh : c.use_cache ≡ false
    pub class : value_of lib service c (codes "DeviceClass") ≡ some (codes "iPhone")
    pub has_uuid : value_of lib service c (codes "UniqueDeviceID") ≡ some uuid
    pub has_imei : value_of lib service c (codes "InternationalMobileEquipmentIdentity") ≡ some imei
    pub has_imsi :
        value_of lib service c (codes "InternationalMobileSubscriberIdentity") ≡ some imsi
    pub has_iccid : value_of lib service c (codes "IntegratedCircuitCardIdentity") ≡ some iccid
    pub has_serial : value_of lib service c (codes "SerialNumber") ≡ some serial
    pub node : Node
    pub has_info : of_kind lib dict (service.values (codes "ActivationInfo")) ≡ some node
    pub info_is : part_of (codes "<dict>") (codes "</dict>") (to_xml node) ≡ part info
    pub handle : service.has_handle ≡ true
    pub text : List ℕ
    pub answered :
        concat (service.answer (full_form lib service c imei imsi iccid serial info)) ≡ text
    pub filled : text ≢ []
    pub plain : NoZero text
    pub has_ticket : part_of (codes "<plist") (codes "</plist>") text ≡ part ticket

  abbrev pub no_custom : Custom
  no_custom = record { imei = none; imsi = none; iccid = none; serial = none }

  fetch_value-heap :
      (name kept_as text : List ℕ) (b : Bench)
      → c.use_cache ≡ false
      → value_of lib service c name ≡ some text
      → fetch_value lib service c none name kept_as b ≡ ok (some (heap text)) b
  unfolding fetch_value
  fetch_value-heap name kept_as text b fresh has =
      rw (fetch_value, fresh) (after (value_of lib service c name) has)
    where
      after :
          (o : Option (List ℕ))
          → o ≡ some text
          → require none o (λ s t. ok (some (heap s)) t) b ≡ ok (some (heap text)) b
      after o e = rw e refl

  post_form-ticket :
      (uuid imei imsi iccid serial info ticket : List ℕ) (b : Bench)
      → IsActivatable uuid imei imsi iccid serial info ticket
      → CanKeepAll lib service c uuid imei imsi iccid serial info b
      → Plenty b.memory
      → (m : Mem) × (post_form lib service c
            (some (heap imei))
            (some (heap imsi))
            (some (heap iccid))
            (some (heap serial))
            b
          ≡ ok
              (read_ticket lib service c ticket)
              (record (archived lib service c imei imsi iccid serial info b) { memory = m }))
  unfolding post_form fetch_info copy_part
  post_form-ticket uuid imei imsi iccid serial info ticket b can all plenty =
      let b₁ = record b { memory = grown 1 b.memory } in
      let (m, e) =
        transfer-ticket lib service c (full_form lib service c imei imsi iccid serial info) can.text
          ticket (archived lib service c imei imsi iccid serial info b₁) plenty can.answered
          can.filled can.plain can.has_ticket in
      (
        m,
        rw (fetch_info, can.has_info, can.info_is)
            (rw (copy_part, malloc_used-Plenty b plenty)
              (handled service.has_handle _ _ b₁ can.handle
                ∙ rw
                    (build_form-full_form lib service c uuid imei imsi iccid serial info b b₁ refl
                      refl all)
                    e)),
      )
    where
      handled :
          (has : Bool) (x y : State Bench (Option Node)) (s : Bench)
          → has ≡ true
          → (if not has then x else y) s ≡ y s
      handled has x y s h = rw h refl

  same_text-append : (dir xs ys : List ℕ) → same_text (dir ++ xs) (dir ++ ys) ≡ same_text xs ys
  unfolding same_text
  same_text-append [] xs ys = refl
  same_text-append (d ∷ dir) xs ys = rw (eq→== d d refl) (same_text-append dir xs ys)

  -- the content of a file of the cache
  abbrev pub cached : Bench → List ℕ → Option (List ℕ)
  cached t name = t.holds (join c.cachedir name)

  -- An iPhone with all values, whose activation info has a dictionary, a cache that can take them, plenty
  -- of memory and no values on the command line: `activate_fetch_record` posts the form with the machine,
  -- the four values and the first dictionary of the activation info, and the record is that of the
  -- ticket in the answer. The cache then holds the UUID and what was posted, each under its name.
  pub fetch_record-ticket :
      (uuid imei imsi iccid serial info ticket : List ℕ) (b : Bench)
      → IsActivatable uuid imei imsi iccid serial info ticket
      → CanKeepAll lib service c uuid imei imsi iccid serial info b
      → Plenty b.memory
      → (t : Bench) × (fetch_record lib service c no_custom b
          ≡ ok (read_ticket lib service c ticket) t)
        × (cached t (codes "UUID") ≡ some uuid)
        × (cached t (codes "IMEI") ≡ some imei)
        × (cached t (codes "IMSI") ≡ some imsi)
        × (cached t (codes "ICCID") ≡ some iccid)
        × (cached t (codes "SerialNumber") ≡ some serial)
        × (cached t (codes "ActivationInfo") ≡ some info)
  unfolding fetch_record fetch_phone fetch_serial same_text
  fetch_record-ticket uuid imei imsi iccid serial info ticket b can all plenty =
      let b₁ = kept c (codes "UUID") uuid b in
      let (m, e) =
        post_form-ticket uuid imei imsi iccid serial info ticket b₁ can (carry_all b b₁ all)
          plenty in
      (
        record (archived lib service c imei imsi iccid serial info b₁) { memory = m },
        rw (can.class, can.has_uuid)
            (rw (cache-kept c (codes "UUID") uuid b all.uuid_fits) (
              rw
                (fetch_value-heap (codes "IntegratedCircuitCardIdentity") (codes "ICCID") iccid b₁
                  can.fresh can.has_iccid)
                (rw
                  (fetch_value-heap (codes "InternationalMobileEquipmentIdentity") (codes "IMEI")
                    imei b₁ can.fresh can.has_imei)
                  (rw
                    (fetch_value-heap (codes "InternationalMobileSubscriberIdentity") (codes "IMSI")
                      imsi b₁ can.fresh can.has_imsi)
                    (rw
                      (fetch_value-heap (codes "SerialNumber") (codes "SerialNumber") serial b₁
                        can.fresh can.has_serial)
                      e))))),
        simp (same_text-append c.cachedir) refl,
        simp (same_text-append c.cachedir) refl,
        simp (same_text-append c.cachedir) refl,
        simp (same_text-append c.cachedir) refl,
        simp (same_text-append c.cachedir) refl,
        simp (same_text-append c.cachedir) refl,
      )
    where
      carry_all :
          (b t : Bench)
          → CanKeepAll lib service c uuid imei imsi iccid serial info b
          → CanKeepAll lib service c uuid imei imsi iccid serial info (kept c (codes "UUID") uuid b)
      carry_all b t all = record {
        uuid_fits = carry c (codes "UUID") uuid b _ refl refl all.uuid_fits;
        imei_fits = carry c (codes "IMEI") imei b _ refl refl all.imei_fits;
        imsi_fits = carry c (codes "IMSI") imsi b _ refl refl all.imsi_fits;
        iccid_fits = carry c (codes "ICCID") iccid b _ refl refl all.iccid_fits;
        serial_fits = carry c (codes "SerialNumber") serial b _ refl refl all.serial_fits;
        info_fits = carry c (codes "ActivationInfo") info b _ refl refl all.info_fits;
      }
