-- ===== src/Main/Course/Prepared.antt =====
-- The preparations of `main` of idevicerestore/src/idevicerestore.c for a device in recovery mode, and the
-- whole run.
use irestore.Prelude.{
  ℕ, ◌+◌, ◌≡◌, ◌∙◌, refl, ap, Bool, true, false, not, ◌&&◌, List, [], ◌∷◌, Option, none, some,
}
use irestore.Effects.{ok}
use irestore.Memory.{Mem, Plenty}
use irestore.Plists.{Plists}
use irestore.Ipsw.{Zip, extract_build_manifest}
use irestore.Identify.{recovery_mode, device_for, check_device, get_cpid, read_id}
use irestore.Manifest.{get_shsh_blobs, extract_filesystem}
use irestore.Options.{Settings}
use irestore.Normal.Probes.{recovery_check_mode}
use irestore.Restore.Session.{valid}
use irestore.Restore.World.{Report}
use irestore.Recovery.{
  Handset, open_loop, recovery_client_new, recovery_open, open_if_null, recovery_get_id,
}
use irestore.Main.Machine.{Machine, Scene}
use irestore.Main.Identity.{choose_identity}
use irestore.Main.Course.{
  print, check_mode, identify_in, identify_device, leave_restore, get_tss, prepare, course,
}
use irestore.Main.Course.Found.{in_mode, check_mode-found_mode}

-- A device that takes what it gets and whose connection opens whenever it is tried, plenty of memory,
-- and no session yet.
pub record IsFresh (s : Handset) : Type 0 where
  pub unopened : s.recovery ≡ none
  pub granted : s.grants ≡ true
  pub reopens : (n : ℕ) → s.opens n ≡ true
  pub takes : (n : ℕ) → s.accepts n ≡ true
  pub plenty : Plenty s.memory
  pub closed : s.client.restore ≡ none
  pub goes : s.client.quit ≡ false

-- the connection open
abbrev pub opened : Handset → Handset
opened s = record s { recovery = some valid; tries = s.tries + 1 }

get_id-opened :
    (read : Option ℕ) (s : Handset)
    → s.recovery ≡ none
    → s.grants ≡ true
    → s.opens s.tries ≡ true
    → recovery_get_id read s ≡ ok read (opened s)
unfolding recovery_get_id open_if_null recovery_open recovery_client_new open_loop
get_id-opened read s unopened granted opens =
    simp (unopened, recovery_open, recovery_client_new, granted, open_loop, opens) refl

get_id-again :
    (read : Option ℕ) (s : Handset) → s.recovery ≡ some valid → recovery_get_id read s ≡ ok read s
unfolding recovery_get_id open_if_null
get_id-again read s has = rw has refl

module _ {Node : Type 0} where
  -- what was reported replaced
  abbrev pub reported : List Report → Machine Node → Machine Node
  reported rs m = record m { world = record (m.world) { reports = rs } }

  pub print-reported :
      (ls : List (List ℕ)) (m : Machine Node)
      → (rs : List Report) × (print ls m ≡ ok tt (reported rs m))
  print-reported [] m = (m.world.reports, refl)
  print-reported (l ∷ ls) m = print-reported ls _

module _ (zip : Zip) (lib : Plists) (scene : Scene lib.Node) where
  open lib use {Node}

  -- The response: none where none is wanted, else that of the server for the ECID.
  pub data Signs (s : Settings) (enabled : Bool) (identity : Node) : Option Node → Type 0 where
    unsigned : (enabled && not s.custom) ≡ false → Signs s enabled identity none
    signed :
        {ecid : ℕ} {blobs : Node}
        → (enabled && not s.custom) ≡ true
        → scene.ecid ≡ some ecid
        → get_shsh_blobs lib scene.post s.use_apple_server scene.response_junk ecid identity tt
          ≡ ok (some blobs) tt
        → Signs s enabled identity (some blobs)

  -- The device is found in recovery mode and is known, and the archive has a manifest with an
  -- identity for it, and the filesystem of this identity.
  pub record IsRestorable (s : Settings) (ipsw filesystem image : List ℕ) (identity : Node)
      (tss : Option Node) : Type 0 where
    pub found : recovery_check_mode scene.usb ≡ true
    pub chip : ℕ
    pub device : ℕ
    pub has_chip : scene.cpid ≡ some chip
    pub known : device_for chip scene.bdid ≡ some device
    pub enabled : Bool
    pub manifest : Node
    pub has_manifest :
        (m : Mem)
        → Plenty m
        → (t : Mem) × (extract_build_manifest zip lib ipsw m ≡ ok (some (enabled, some manifest)) t)
          × Plenty t
    pub chosen : choose_identity lib s.erase (some manifest) ≡ some identity
    pub signs : Signs s enabled identity tss
    pub has_filesystem :
        (m : Mem)
        → Plenty m
        → (t : Mem) × (extract_filesystem lib zip scene.creates ipsw identity m
            ≡ ok (some (filesystem, image)) t)
          × Plenty t

  pub get_tss-Signs :
      (s : Settings) (enabled : Bool) (identity : Node) (tss : Option Node) (m : Machine Node)
      → m.handset.mode ≡ recovery_mode
      → m.handset.recovery ≡ some valid
      → Signs s enabled identity tss
      → get_tss zip lib scene (enabled && not s.custom) s.use_apple_server (some identity) m
        ≡ ok (some tss) m
  unfolding get_tss
  get_tss-Signs s enabled identity none m is has (unsigned off) = rw off refl
  get_tss-Signs s enabled identity (some blobs) m is has (signed {ecid = ecid} on reads answers) =
      simp (on, get_tss, is, reads, get_id-again (some ecid) m.handset has, answers) refl

  identify_device-known :
      (m : Machine Node) (chip device : ℕ)
      → m.handset.mode ≡ recovery_mode
      → IsFresh m.handset
      → scene.cpid ≡ some chip
      → device_for chip scene.bdid ≡ some device
      → identify_device zip lib scene m ≡ ok (some device) (record m { handset = opened m.handset })
  unfolding identify_device check_device get_cpid read_id
  identify_device-known m chip device is fresh reads known =
      ap (λ mode. identify_in zip lib scene mode m) is
      ∙ simp
          (
            reads,
            get_id-opened (some chip) m.handset fresh.unopened fresh.granted
                (fresh.reopens m.handset.tries),
            known,
          )
          refl

  check_mode-recovery :
      (m : Machine Node)
      → recovery_check_mode scene.usb ≡ true
      → check_mode zip lib scene m ≡ ok recovery_mode (in_mode zip lib scene recovery_mode m)
  check_mode-recovery m found =
      check_mode-found_mode zip lib scene m
      ∙ ap (λ mode. ok mode (in_mode zip lib scene mode m)) (rw found refl)

  in_mode-IsFresh :
      (m : Machine Node)
      → IsFresh m.handset
      → IsFresh (in_mode zip lib scene recovery_mode m).handset
  in_mode-IsFresh m fresh = record {
    unopened = fresh.unopened;
    granted = fresh.granted;
    reopens = fresh.reopens;
    takes = fresh.takes;
    plenty = fresh.plenty;
    closed = fresh.closed;
    goes = fresh.goes;
  }

  -- the machine when the manifest has been read
  abbrev pub manifest_read : Machine Node → Mem → Machine Node
  manifest_read m t = record m {
    handset = record (opened (m.handset)) { mode = recovery_mode; memory = t };
  }

  -- `main` behind its options comes to the build manifest.
  pub course-prepare :
      (s : Settings) (ipsw filesystem image : List ℕ) (identity : Node) (tss : Option Node)
      (m : Machine Node) (t : Mem) (restorable : IsRestorable s ipsw filesystem image identity tss)
      → IsFresh m.handset
      → extract_build_manifest zip lib ipsw m.handset.memory
        ≡ ok (some (restorable.enabled, some restorable.manifest)) t
      → course zip lib scene s ipsw m
        ≡ prepare zip lib scene s ipsw
            (restorable.enabled, some restorable.manifest)
            (manifest_read m t)
  unfolding course leave_restore
  course-prepare s ipsw filesystem image identity tss m t restorable fresh e =
      rw (check_mode-recovery m restorable.found) (
        rw
          (identify_device-known (in_mode zip lib scene recovery_mode m) restorable.chip
            restorable.device refl (in_mode-IsFresh m fresh) restorable.has_chip restorable.known)
          (rw e refl))
