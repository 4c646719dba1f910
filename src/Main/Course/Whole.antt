-- ===== src/Main/Course/Whole.antt =====
-- `main` of idevicerestore/src/idevicerestore.c restores a device that is found in recovery mode: the whole run.
use irestore.Prelude.{
  ℕ, ◌≡◌, ◌∙◌, refl, ap, Bool, true, false, not, if◌then◌else◌, ◌&&◌, List, [], ◌∷◌, ◌++◌, Option,
  some,
}
use irestore.Effects.{State, ok}
use irestore.Memory.{Mem, Plenty}
use irestore.Plists.{Plists}
use irestore.Ipsw.{Zip}
use irestore.Identify.{recovery_mode, restore_mode}
use irestore.Options.{Settings, settings, start, option_loop}
use irestore.Asr.Validation.{Verdict, accepted}
use irestore.Asr.Validation.Requests.{Request}
use irestore.Restore.Session.{opens_all}
use irestore.Restore.Components.{Setting}
use irestore.Restore.Filesystem.Delivered.{transfer}
use irestore.Recovery.{Sent, Handset}
use irestore.Recovery.Doing.{IsReady}
use irestore.Recovery.Protocol.{HasAll, protocol}
use irestore.Main.Machine.{Machine, Scene}
use irestore.Main.Identity.{manifest_lines, identity_lines}
use irestore.Main.Course.{
  setting_of, extract_and_carry_out, sign_and_carry_out, prepare, course, with_flags, after_options,
  main,
}
use irestore.Main.Course.Restored.{Delivery, carry_out-restored}
use irestore.Main.Course.Prepared.{
  IsFresh, IsRestorable, Signs, opened, reported, print-reported, get_tss-Signs, manifest_read,
  course-prepare,
}

module _ (zip : Zip) (lib : Plists) (scene : Scene lib.Node) where
  open lib use {Node}

  -- What a run from here leaves: the protocol in the log, the image delivered, the mode, and the
  -- extracted filesystem removed.
  pub record Restores (run : State (Machine Node) Verdict) (m : Machine Node) (log : List Sent)
      (delivered : List ℕ) (filesystem : List ℕ) : Type 0 where
    pub after : Machine Node
    pub ends_well : run m ≡ ok accepted after
    pub logged : after.handset.log ≡ m.handset.log ++ log
    pub arrived : after.world.link.delivered ≡ m.world.link.delivered ++ delivered
    pub restored : after.handset.mode ≡ restore_mode
    pub removed : after.unlinked ≡ m.unlinked ++ filesystem ∷ []

  -- `main` comes to its course.
  main-course :
      (opts : List (ℕ × List ℕ)) (s : Settings) (ipsw : List ℕ) (m : Machine Node)
      → scene.grants ≡ true
      → option_loop opts start ≡ settings s
      → main zip lib scene opts (some ipsw) m
        ≡ course zip lib scene s ipsw (with_flags zip lib scene s m)
  unfolding main
  main-course opts s ipsw m grants options =
      granted_step scene.grants _ _ grants
      ∙ ap (λ step. after_options zip lib scene step (some ipsw) m) options
    where
      granted_step :
          (b : Bool) (x y : State (Machine Node) Verdict)
          → b ≡ true
          → (if not b then x else y) m ≡ y m
      granted_step b x y h = rw h refl

  -- the connection opened, and ready for the protocol
  opened-IsReady :
      (s : Handset) (t : Mem)
      → IsFresh s
      → Plenty t
      → IsReady (record (opened s) { mode = recovery_mode; memory = t })
  opened-IsReady s t fresh plenty = record {
    closed = fresh.closed;
    connected = refl;
    reopens = fresh.reopens;
    takes = fresh.takes;
    plenty = plenty;
  }

  -- what the device is given, and where
  module _ (s : Settings) (ipsw filesystem image ibec logo tree ramdisk kernel : List ℕ)
      (identity : Node) (tss : Option Node) (rs : List (Request lib)) where
    abbrev setting : Setting Node
    setting = setting_of zip lib scene ipsw tss identity

    extract-Restores :
        (m : Machine Node)
        → IsRestorable zip lib scene s ipsw filesystem image identity tss
        → m.handset.mode ≡ recovery_mode
        → IsReady m.handset
        → m.handset.client.quit ≡ false
        → HasAll zip lib setting ibec logo tree ramdisk kernel
        → scene.recovery_phone.grants ≡ true
        → opens_all scene.recovery_phone ≡ true
        → Delivery zip lib scene setting m.world.link image rs
        → Restores
            (extract_and_carry_out zip lib scene ipsw tss identity)
            m
            (protocol zip lib setting ibec logo tree ramdisk kernel)
            (transfer lib image rs)
            filesystem
    unfolding extract_and_carry_out
    extract-Restores m restorable is ready goes has granted opens delivery =
        let (t, e, plenty) = restorable.has_filesystem m.handset.memory ready.plenty in
        let m₁ : Machine Node = record m { handset = record (m.handset) { memory = t } } in
        let ready₁ : IsReady m₁.handset = record {
          closed = ready.closed;
          connected = ready.connected;
          reopens = ready.reopens;
          takes = ready.takes;
          plenty = plenty;
        } in
        let (after, run, logged, mode, arrived, removed) =
          carry_out-restored zip lib scene setting filesystem image ibec logo tree ramdisk kernel rs
            m₁ is ready₁ goes has granted opens delivery in
        record {
          after = after;
          ends_well = rw e run;
          logged = logged;
          arrived = arrived;
          restored = mode;
          removed = removed;
        }

    sign-Restores :
        (m : Machine Node) (enabled : Bool)
        → IsRestorable zip lib scene s ipsw filesystem image identity tss
        → Signs zip lib scene s enabled identity tss
        → m.handset.mode ≡ recovery_mode
        → IsReady m.handset
        → m.handset.client.quit ≡ false
        → HasAll zip lib setting ibec logo tree ramdisk kernel
        → scene.recovery_phone.grants ≡ true
        → opens_all scene.recovery_phone ≡ true
        → Delivery zip lib scene setting m.world.link image rs
        → Restores
            (sign_and_carry_out zip lib scene s ipsw enabled (some identity))
            m
            (protocol zip lib setting ibec logo tree ramdisk kernel)
            (transfer lib image rs)
            filesystem
    unfolding sign_and_carry_out
    sign-Restores m enabled restorable signs is ready goes has granted opens delivery =
        let (rs', e) = print-reported (identity_lines lib identity) m in
        let m₁ = reported rs' m in
        let rest = extract-Restores m₁ restorable is ready goes has granted opens delivery in
        record {
          after = rest.after;
          ends_well = rw e (
              rw (get_tss-Signs zip lib scene s enabled identity tss m₁ is ready.connected signs)
                (rest.ends_well));
          logged = rest.logged;
          arrived = rest.arrived;
          restored = rest.restored;
          removed = rest.removed;
        }

    -- `main` from the build manifest on
    prepare-Restores :
        (m : Machine Node)
        (restorable : IsRestorable zip lib scene s ipsw filesystem image identity tss)
        → m.handset.mode ≡ recovery_mode
        → IsReady m.handset
        → m.handset.client.quit ≡ false
        → HasAll zip lib setting ibec logo tree ramdisk kernel
        → scene.recovery_phone.grants ≡ true
        → opens_all scene.recovery_phone ≡ true
        → Delivery zip lib scene setting m.world.link image rs
        → Restores
            (prepare zip lib scene s ipsw (restorable.enabled, some restorable.manifest))
            m
            (protocol zip lib setting ibec logo tree ramdisk kernel)
            (transfer lib image rs)
            filesystem
    unfolding prepare
    prepare-Restores m restorable is ready goes has granted opens delivery =
        let (rs', e) = print-reported (manifest_lines lib restorable.manifest) m in
        let rest =
          sign-Restores (reported rs' m) restorable.enabled restorable restorable.signs is ready
            goes has granted opens delivery in
        record {
          after = rest.after;
          ends_well = rw e (rw (restorable.chosen) (rw (and_false s.erase) (rest.ends_well)));
          logged = rest.logged;
          arrived = rest.arrived;
          restored = rest.restored;
          removed = rest.removed;
        }
      where
        and_false : (b : Bool) → (b && false) ≡ false
        and_false true = refl
        and_false false = refl

    -- A device in recovery mode that is known and takes all that it gets, an archive with a build
    -- manifest, the five components and the filesystem for it, a response of the TSS server if one is wanted,
    -- and a session with restored that asks for the filesystem: `main` ends with 0. The device has got
    -- the protocol of the way into restore mode, then over ASR the parts that it asked for and the whole
    -- image, the mode is restore mode, and the extracted filesystem is removed.
    pub main-Restores :
        (opts : List (ℕ × List ℕ)) (m : Machine Node)
        → scene.grants ≡ true
        → option_loop opts start ≡ settings s
        → IsFresh m.handset
        → IsRestorable zip lib scene s ipsw filesystem image identity tss
        → HasAll zip lib setting ibec logo tree ramdisk kernel
        → scene.recovery_phone.grants ≡ true
        → opens_all scene.recovery_phone ≡ true
        → Delivery zip lib scene setting m.world.link image rs
        → Restores
            (main zip lib scene opts (some ipsw))
            m
            (protocol zip lib setting ibec logo tree ramdisk kernel)
            (transfer lib image rs)
            filesystem
    main-Restores opts m grants options fresh restorable has granted opens delivery =
        let m₁ = with_flags zip lib scene s m in
        let (t, e, plenty) = restorable.has_manifest m.handset.memory fresh.plenty in
        let rest =
          prepare-Restores (manifest_read zip lib scene m₁ t) restorable refl
            (opened-IsReady m₁.handset t fresh plenty) fresh.goes has granted opens delivery in
        record {
          after = rest.after;
          ends_well =
              main-course opts s ipsw m grants options
              ∙ (course-prepare zip lib scene s ipsw filesystem image identity tss m₁ t restorable
                    fresh e
                  ∙ rest.ends_well);
          logged = rest.logged;
          arrived = rest.arrived;
          restored = rest.restored;
          removed = rest.removed;
        }
