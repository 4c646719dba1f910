-- ===== src/Main/Course/Found.antt =====
-- The mode that `main` of idevicerestore/src/idevicerestore.c finds, and what follows from it for a whole run.
use irestore.Prelude.{
  ℕ, ◌≡◌, ◌≢◌, ◌∙◌, refl, sym, Bool, true, false, not, List, Option, none, if◌then◌else◌, ◌&&◌,
}
use irestore.Effects.{◌>>=◌, Allows, gives, allow, allow_if, allow_require, mono_allow, ok, pure}
use irestore.Plists.{Plists}
use irestore.Ipsw.{Zip, extract_build_manifest}
use irestore.Identify.{
  Mode, dfu_mode, recovery_mode, restore_mode, normal_mode, unknown_mode, dfu_check_mode,
}
use irestore.Manifest.{get_shsh_blobs, extract_filesystem}
use irestore.Options.{Settings}
use irestore.Normal.Probes.{
  recovery_check_mode, normal_check_mode, restore_check_mode, all_answers, check-back,
}
use irestore.Asr.Validation.{Verdict, refused}
use irestore.Recovery.{Handset, on_held}
use irestore.Main.Machine.{Machine, Scene, on_handset, set_mode, same_mode}
use irestore.Main.Identity.{manifest_lines, identity_lines, choose_identity}
use irestore.Main.Course.{
  check_mode, read_cpid, identify_device, get_ecid, leave_restore, get_tss, is_none, carry_out,
  extract_and_carry_out, sign_and_carry_out, prepare, course, setting_of,
}
use irestore.Main.Course.Modes.{Moves, Succeeds, carry_out-Succeeds}
use irestore.Main.Course.Still.{
  Still, Stays, memory-Stays, client-Stays, held-Stays, get_id-Stays, handset-Still, unit-Still,
  print_of-Still, still, when-Stays,
}

module _ (zip : Zip) (lib : Plists) (scene : Scene lib.Node) where
  open lib use {Node}

  -- where recovery mode is not found
  abbrev other_mode : Bool → Mode
  other_mode normal =
      if normal
      then normal_mode
      else if all_answers scene.restored
      then restore_mode
      else unknown_mode

  -- the mode that the probes find
  abbrev pub found_mode : Mode
  found_mode =
      if recovery_check_mode scene.usb
      then recovery_mode
      else other_mode (all_answers scene.lockdown)

  abbrev pub in_mode : Mode → Machine Node → Machine Node
  in_mode mode m = record m { handset = record (m.handset) { mode = mode } }

  -- `check_mode` finds this mode, and changes nothing else.
  pub check_mode-found_mode :
      (m : Machine Node) → check_mode zip lib scene m ≡ ok found_mode (in_mode found_mode m)
  unfolding check_mode dfu_check_mode normal_check_mode restore_check_mode
  check_mode-found_mode m = first (recovery_check_mode scene.usb)
    where
      second :
          (normal : Bool)
          → (if normal then set_mode normal_mode else do
            restored ← on_handset (on_held (restore_check_mode scene.restored))
            set_mode (if restored then restore_mode else unknown_mode))
              m
            ≡ ok (other_mode normal) (in_mode (other_mode normal) m)
      second true = refl
      second false = rw (check-back scene.restored m.handset.held) refl

      first :
          (recovery : Bool)
          → (if recovery then set_mode recovery_mode else do
            normal ← on_handset (on_held (normal_check_mode scene.lockdown))
            if normal then set_mode normal_mode else do
              restored ← on_handset (on_held (restore_check_mode scene.restored))
              set_mode (if restored then restore_mode else unknown_mode))
              m
            ≡ ok (if recovery then recovery_mode else other_mode (all_answers scene.lockdown)) (
                in_mode
                  (if recovery then recovery_mode else other_mode (all_answers scene.lockdown))
                  m)
      first true = refl
      first false =
          rw (check-back scene.lockdown m.handset.held) (second (all_answers scene.lockdown))

  read_cpid-Stays : (mode : Mode) (s : Handset) → Stays s.mode (read_cpid zip lib scene mode s)
  read_cpid-Stays recovery_mode s = get_id-Stays scene.cpid s
  read_cpid-Stays dfu_mode s = get_id-Stays scene.cpid s
  read_cpid-Stays restore_mode s = gives refl
  read_cpid-Stays normal_mode s = gives refl
  read_cpid-Stays unknown_mode s = gives refl

  get_ecid-Stays : (mode : Mode) (s : Handset) → Stays s.mode (get_ecid zip lib scene mode s)
  get_ecid-Stays recovery_mode s = get_id-Stays scene.ecid s
  get_ecid-Stays dfu_mode s = get_id-Stays scene.ecid s
  get_ecid-Stays restore_mode s = gives refl
  get_ecid-Stays normal_mode s = held-Stays s _
  get_ecid-Stays unknown_mode s = gives refl

  identify_device-Still :
      (m : Machine Node) → Allows (Still m.handset.mode) (identify_device zip lib scene m)
  unfolding identify_device
  identify_device-Still m =
      allow (handset-Still m (read_cpid-Stays m.handset.mode m.handset))
        λ cpid t is. still t (handset-Still t (held-Stays t.handset _)) is

  leave_restore-Stays : (s : Handset) → Stays s.mode (leave_restore zip lib scene s)
  unfolding leave_restore
  leave_restore-Stays s = when-Stays restore_mode _ s (client-Stays s _)

  get_tss-Still :
      (enabled : Bool) (server : ℕ) (identity : Option Node) (m : Machine Node)
      → Allows (Still m.handset.mode) (get_tss zip lib scene enabled server identity m)
  unfolding get_tss
  get_tss-Still false server identity m = gives refl
  get_tss-Still true server identity m =
      allow (handset-Still m (get_ecid-Stays m.handset.mode m.handset)) λ ecid t is.
        allow_require none ecid _ t is λ id _. allow_require none identity _ t is λ node _.
          allow
            (still t
              (unit-Still t (get_shsh_blobs lib scene.post server scene.response_junk id node tt))
              is)
            λ tss u is'. allow_require none tss _ u is' λ blobs _. gives is'

  -- what a whole run promises
  abbrev Promised : Verdict → Machine Node → Type 0
  Promised = Succeeds zip lib scene found_mode

  known-mode :
      (mode : Mode) → same_mode mode unknown_mode ≡ false → ◌≢◌ {A = Mode} mode unknown_mode
  known-mode dfu_mode h e = cc
  known-mode recovery_mode h e = cc
  known-mode restore_mode h e = cc
  known-mode normal_mode h e = cc
  known-mode unknown_mode h e = cc

  still-Moves : (a b : Mode) → a ≡ b → Moves a restore_mode → Moves b restore_mode
  still-Moves a b is moves = rw⁻¹ is moves

  extract_and_carry_out-Promised :
      (ipsw : List ℕ) (blobs : Option Node) (identity : Node) (m : Machine Node)
      → scene.takes_null ≡ false
      → m.handset.mode ≡ found_mode
      → ◌≢◌ {A = Mode} found_mode unknown_mode
      → Allows Promised (extract_and_carry_out zip lib scene ipsw blobs identity m)
  unfolding extract_and_carry_out
  extract_and_carry_out-Promised ipsw blobs identity m refuses is known =
      allow
        (still m
          (handset-Still m (
            memory-Stays m.handset
              (extract_filesystem lib zip scene.creates ipsw identity m.handset.memory)))
          is)
        λ extracted t is'.
          allow_require refused extracted
            (λ (filesystem, image).
              carry_out zip lib scene (setting_of zip lib scene ipsw blobs identity) filesystem
                image)
            t (λ h. cc)
            λ (filesystem, image) _.
              mono_allow
                (carry_out-Succeeds zip lib scene (setting_of zip lib scene ipsw blobs identity)
                  filesystem image t refuses λ e. known (sym is' ∙ e))
                λ v u promised h. let (moves, at) = promised h in (still-Moves _ _ is' moves, at)

  sign_and_carry_out-Promised :
      (s : Settings) (ipsw : List ℕ) (enabled : Bool) (identity : Option Node) (m : Machine Node)
      → scene.takes_null ≡ false
      → m.handset.mode ≡ found_mode
      → ◌≢◌ {A = Mode} found_mode unknown_mode
      → Allows Promised (sign_and_carry_out zip lib scene s ipsw enabled identity m)
  unfolding sign_and_carry_out
  sign_and_carry_out-Promised s ipsw enabled identity m refuses is known =
      allow (still m (print_of-Still (identity_lines lib) identity m) is) λ _ m₁ is₁.
        allow
          (still m₁ (get_tss-Still (enabled && not s.custom) s.use_apple_server identity m₁) is₁)
          λ tss m₂ is₂.
            allow_require refused tss _ m₂ (λ h. cc)
              λ blobs _.
                allow_require refused identity _ m₂ (λ h. cc)
                  λ node _. extract_and_carry_out-Promised ipsw blobs node m₂ refuses is₂ known

  prepare-Promised :
      (s : Settings) (ipsw : List ℕ) (enabled : Bool) (manifest : Option Node) (m : Machine Node)
      → scene.takes_null ≡ false
      → m.handset.mode ≡ found_mode
      → ◌≢◌ {A = Mode} found_mode unknown_mode
      → Allows Promised (prepare zip lib scene s ipsw (enabled, manifest) m)
  unfolding prepare
  prepare-Promised s ipsw enabled manifest m refuses is known =
      allow (still m (print_of-Still (manifest_lines lib) manifest m) is) λ _ m₁ is₁.
        allow_if (s.erase && is_none (choose_identity lib s.erase manifest)) (pure refused)
          (sign_and_carry_out zip lib scene s ipsw enabled (choose_identity lib s.erase manifest))
          m₁ (λ _. gives λ h. cc)
          λ _.
            sign_and_carry_out-Promised s ipsw enabled (choose_identity lib s.erase manifest) m₁
              refuses is₁ known

  -- Where a command without a client is refused: if `main` behind its options ends with 0, then the
  -- probes have found a device in recovery or in restore mode, and at the end the mode is restore mode. A
  -- device in normal mode, for one, is never restored.
  pub course-Succeeds :
      (s : Settings) (ipsw : List ℕ) (m : Machine Node)
      → scene.takes_null ≡ false
      → Allows (Succeeds zip lib scene found_mode) (course zip lib scene s ipsw m)
  unfolding course
  course-Succeeds s ipsw m refuses = rw (check_mode-found_mode m) (
      allow_if (same_mode found_mode unknown_mode) _ _ (in_mode found_mode m) (λ _. gives λ h. cc)
        λ known. allow (identify_device-Still (in_mode found_mode m)) λ device m₁ is₁.
          allow_require refused device _ m₁ (λ h. cc)
            λ _ _.
              allow (still m₁ (handset-Still m₁ (leave_restore-Stays m₁.handset)) is₁)
                λ left m₂ is₂.
                  allow_if (not left) _ _ m₂ (λ _. gives λ h. cc)
                    λ _.
                      allow
                        (still m₂
                          (handset-Still m₂ (
                            memory-Stays m₂.handset
                              (extract_build_manifest zip lib ipsw m₂.handset.memory)))
                          is₂)
                        λ manifest m₃ is₃.
                          allow_require refused manifest (prepare zip lib scene s ipsw) m₃ (λ h. cc)
                            λ (enabled, root) _.
                              prepare-Promised s ipsw enabled root m₃ refuses is₃
                                (known-mode found_mode known))
