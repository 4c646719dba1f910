-- ===== src/Activate/Record/Archived.antt =====
-- The form for a device with all values, and what of it the cache keeps.
use irestore.Prelude.{ℕ, ◌≡◌, ◌∙◌, ap, refl, List, [], ◌∷◌, ◌++◌, some}
use irestore.Effects.{ok}
use irestore.Text.{codes}
use irestore.Plists.{Plists}
use irestore.Activate.Bench.{Bench, heap}
use irestore.Activate.Cache.{Cache, join}
use irestore.Activate.Cache.Kept.{CanKeep, kept, cache-kept}
use irestore.Activate.Record.{Form, Service, add_field, build_form}

-- What can be kept can be kept where other files or the memory have changed.
pub carry :
    (c : Cache) (name text : List ℕ) (b t : Bench)
    → t.writable ≡ b.writable
    → t.room ≡ b.room
    → CanKeep c name text b
    → CanKeep c name text t
carry c name text b t same_writable same_room can = record {
  on = can.on;
  writable = ap (λ f. f (join c.cachedir name)) same_writable ∙ can.writable;
  fits = can.fits;
  plain = can.plain;
  small = can.small;
  room = rw same_room (can.room);
}

module _ (lib : Plists) (service : Service lib.Node) (c : Cache) where
  open lib use {Node, string_val, to_xml}

  -- a value in a block of its own, as a field and in the cache
  add_field-kept :
      (field kept_as empty_as text : List ℕ) (form : Form) (b : Bench)
      → CanKeep c kept_as text b
      → add_field lib service c field kept_as empty_as (some (heap text)) form b
        ≡ ok (form ++ (field, text) ∷ []) (kept c kept_as text b)
  unfolding add_field
  add_field-kept field kept_as empty_as text form b can = rw (cache-kept c kept_as text b can) refl

  -- the form for a device with all values
  abbrev pub full_form : List ℕ → List ℕ → List ℕ → List ℕ → List ℕ → Form
  full_form imei imsi iccid serial info =
      (codes "machineName", codes "linux")
      ∷ (codes "InStoreActivation", codes "false")
      ∷ (codes "IMEI", imei)
      ∷ (codes "IMSI", imsi)
      ∷ (codes "ICCID", iccid)
      ∷ (codes "AppleSerialNumber", serial)
      ∷ (codes "activation-info", info)
      ∷ []

  -- the bench with what the form has in the cache
  abbrev pub archived : List ℕ → List ℕ → List ℕ → List ℕ → List ℕ → Bench → Bench
  archived imei imsi iccid serial info b = kept c (codes "ActivationInfo") info (
      kept c (codes "SerialNumber") serial
        (kept c (codes "ICCID") iccid (kept c (codes "IMSI") imsi (kept c (codes "IMEI") imei b))))

  -- The cache can take all that an activation sends.
  pub record CanKeepAll (uuid imei imsi iccid serial info : List ℕ) (b : Bench) : Type 0 where
    pub uuid_fits : CanKeep c (codes "UUID") uuid b
    pub imei_fits : CanKeep c (codes "IMEI") imei b
    pub imsi_fits : CanKeep c (codes "IMSI") imsi b
    pub iccid_fits : CanKeep c (codes "ICCID") iccid b
    pub serial_fits : CanKeep c (codes "SerialNumber") serial b
    pub info_fits : CanKeep c (codes "ActivationInfo") info b

  pub build_form-full_form :
      (uuid imei imsi iccid serial info : List ℕ) (b t : Bench)
      → t.writable ≡ b.writable
      → t.room ≡ b.room
      → CanKeepAll uuid imei imsi iccid serial info b
      → build_form lib service c
          (some (heap imei))
          (some (heap imsi))
          (some (heap iccid))
          (some (heap serial))
          info
          t
        ≡ ok (full_form imei imsi iccid serial info) (archived imei imsi iccid serial info t)
  unfolding build_form
  build_form-full_form uuid imei imsi iccid serial info b t same_writable same_room all =
      let f₀ : Form =
        (codes "machineName", codes "linux") ∷ (codes "InStoreActivation", codes "false") ∷ [] in
      let f₁ = f₀ ++ (codes "IMEI", imei) ∷ [] in
      let f₂ = f₁ ++ (codes "IMSI", imsi) ∷ [] in
      let f₃ = f₂ ++ (codes "ICCID", iccid) ∷ [] in
      let f₄ = f₃ ++ (codes "AppleSerialNumber", serial) ∷ [] in
      let t₁ = kept c (codes "IMEI") imei t in
      let t₂ = kept c (codes "IMSI") imsi t₁ in
      let t₃ = kept c (codes "ICCID") iccid t₂ in
      let t₄ = kept c (codes "SerialNumber") serial t₃ in
      rw
        (add_field-kept (codes "IMEI") (codes "IMEI") (codes "IMEI") imei f₀ t
          (carry c (codes "IMEI") imei b t same_writable same_room all.imei_fits))
        (rw
          (add_field-kept (codes "IMSI") (codes "IMSI") (codes "IMSI") imsi f₁ t₁
            (carry c (codes "IMSI") imsi b t₁ same_writable same_room all.imsi_fits))
          (rw
            (add_field-kept (codes "ICCID") (codes "ICCID") (codes "ICCID") iccid f₂ t₂
              (carry c (codes "ICCID") iccid b t₂ same_writable same_room all.iccid_fits))
            (rw
              (add_field-kept (codes "AppleSerialNumber") (codes "SerialNumber")
                (codes "SeralNumber") serial f₃ t₃
                (carry c (codes "SerialNumber") serial b t₃ same_writable same_room
                  all.serial_fits))
              (add_field-kept (codes "activation-info") (codes "ActivationInfo") [] info f₄ t₄ (
                carry c (codes "ActivationInfo") info b t₄ same_writable same_room
                  all.info_fits)))))
