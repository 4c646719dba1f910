-- ===== src/Main/Course.antt =====
-- The course of `main` of idevicerestore/src/idevicerestore.c. Its results are those of ASR's
-- verdicts: accepted is 0, refused is -1, and waiting is a restore that does not end.
pub mod Modes
mod Still
pub mod Found
pub mod Restored
pub mod Prepared
pub mod Whole
use irestore.Prelude.{
  ℕ, Bool, true, false, not, ◌&&◌, List, [], ◌∷◌, ◌++◌, Option, none, some, if◌then◌else◌,
}
use irestore.Effects.{State, ok, pure, require, ◌>>=◌, ◌>>◌}
use irestore.Plists.{Plists}
use irestore.Ipsw.{Zip, extract_build_manifest}
use irestore.Identify.{
  Mode, dfu_mode, recovery_mode, restore_mode, normal_mode, unknown_mode, dfu_check_mode,
  check_device,
}
use irestore.Manifest.{get_shsh_blobs, extract_filesystem}
use irestore.Options.{Settings, Step, settings, usage_shown, usage_error, start, option_loop}
use irestore.Normal.Probes.{
  recovery_check_mode, normal_check_mode, restore_check_mode, normal_get_ecid,
}
use irestore.Normal.Leaving.{normal_enter_recovery}
use irestore.Dfu.{dfu_enter_recovery}
use irestore.Asr.Validation.{Verdict, accepted, refused, waiting}
use irestore.Restore.Session.{reboot}
use irestore.Restore.World.{World, line}
use irestore.Restore.Components.{Setting}
use irestore.Restore.Loop.{restore_device}
use irestore.Recovery.{
  Handset, on_held, on_memory, on_client, recovery_get_id, enter_restore, ◌then_if◌,
}
use irestore.Main.Machine.{Machine, Scene, on_handset, on_world, apart, set_mode, same_mode}
use irestore.Main.Identity.{choose_identity, manifest_lines, identity_lines}

-- a step that is taken in one mode only
abbrev pub when_mode : Mode → State Handset Bool → State Handset Bool
when_mode mode step s = (if same_mode s.mode mode then step else pure true) s

module _ {Node : Type 0} where
  -- lines that go to the user
  abbrev pub print : List (List ℕ) → State (Machine Node) (Unit {0})
  print [] = pure tt
  print (l ∷ ls) =
      (λ m.
        ok tt (record m { world = record (m.world) { reports = m.world.reports ++ line l ∷ [] } }))
      >> print ls

  abbrev pub is_none : Option Node → Bool
  is_none none = true
  is_none (some _) = false

  -- what is printed of a node that may be NULL
  abbrev pub print_of : (Node → List (List ℕ)) → Option Node → State (Machine Node) (Unit {0})
  print_of lines none = pure tt
  print_of lines (some node) = print (lines node)

  -- the end of `main`: the extracted filesystem is removed
  abbrev pub clean_up : List ℕ → State (Machine Node) Verdict
  clean_up filesystem m = ok accepted (record m { unlinked = m.unlinked ++ filesystem ∷ [] })

  -- `if (restore_device(...) < 0) return -1;` and the end
  abbrev pub after_restore : List ℕ → Verdict → State (Machine Node) Verdict
  after_restore filesystem accepted = clean_up filesystem
  after_restore filesystem refused = pure refused
  after_restore filesystem waiting = pure waiting

module _ (zip : Zip) (lib : Plists) (scene : Scene lib.Node) where
  open lib use {Node}

  -- `check_mode`
  unfoldable pub check_mode : State (Machine Node) Mode
  check_mode =
      if recovery_check_mode scene.usb
      then set_mode recovery_mode
      else if dfu_check_mode
      then set_mode dfu_mode
      else do
        normal ← on_handset (on_held (normal_check_mode scene.lockdown))
        if normal then set_mode normal_mode else do
          restored ← on_handset (on_held (restore_check_mode scene.restored))
          set_mode (if restored then restore_mode else unknown_mode)

  -- the call of `get_cpid` in `check_device`: in DFU and recovery mode, over USB
  abbrev pub read_cpid : Mode → State Handset (Option ℕ)
  read_cpid recovery_mode = recovery_get_id scene.cpid
  read_cpid dfu_mode = recovery_get_id scene.cpid
  read_cpid _ = pure none

  -- `check_device` in a mode: `client->device` is NULL before it. `get_bdid` finds the connection
  -- open that `get_cpid` has left.
  abbrev pub identify_in : Mode → State (Machine Node) (Option ℕ)
  identify_in mode = do
    cpid ← on_handset (read_cpid mode)
    on_handset (
        on_held (
          check_device lib false mode scene.model scene.product
            (record { by_normal = none; by_recovery = cpid })
            (record { by_normal = none; by_recovery = scene.bdid })))

  -- `check_device`
  unfoldable pub identify_device : State (Machine Node) (Option ℕ)
  identify_device m = identify_in m.handset.mode m

  -- `get_ecid`
  abbrev pub get_ecid : Mode → State Handset (Option ℕ)
  get_ecid normal_mode = on_held (normal_get_ecid lib scene.ecid_line scene.unique_chip)
  get_ecid dfu_mode = recovery_get_id scene.ecid
  get_ecid recovery_mode = recovery_get_id scene.ecid
  get_ecid _ = pure none

  -- the reboot of a device that is found in restore mode
  unfoldable pub leave_restore : State Handset Bool
  leave_restore = when_mode restore_mode (on_client (reboot scene.reboot_phone scene.reboots))

  -- The SHSH blobs, if `tss_enabled`: none is -1, and some none leaves `client->tss` NULL. A NULL
  -- identity has nothing that a request needs.
  unfoldable pub get_tss : Bool → ℕ → Option Node → State (Machine Node) (Option (Option Node))
  get_tss false server identity = pure (some none)
  get_tss true server identity = do
    ecid ← λ m. on_handset (get_ecid m.handset.mode) m
    require none ecid λ id. require none identity λ node. do
      tss ← apart (get_shsh_blobs lib scene.post server scene.response_junk id node)
      require none tss λ blobs. pure (some (some blobs))

  -- what the steps behind the preparation need
  abbrev pub setting_of : List ℕ → Option Node → Node → Setting Node
  setting_of ipsw tss identity = record {
    ipsw = ipsw;
    tss = tss;
    identity = identity;
    junk = scene.junk;
    behind = scene.behind;
  }

  -- the way into restore mode, from whichever mode; `main` never sets `client->dfu`
  unfoldable pub enter_modes : Setting Node → State Handset Bool
  enter_modes setting =
      when_mode normal_mode (normal_enter_recovery scene.leaves scene.takes_null)
      then_if when_mode dfu_mode (dfu_enter_recovery zip lib setting none scene.dfu_resets)
      then_if when_mode recovery_mode (enter_restore zip lib setting scene.recovery_phone)

  -- the restore, in restore mode
  unfoldable pub restore_if : Setting Node → List ℕ → List ℕ → State (Machine Node) Verdict
  restore_if setting filesystem image m =
      (if same_mode m.handset.mode restore_mode
          then on_world (
              restore_device zip lib setting scene.connects (some image) scene.restore_phone
                scene.starts scene.turns)
            >>= after_restore filesystem
          else clean_up filesystem)
        m

  -- `main` behind the extraction of the filesystem
  unfoldable pub carry_out : Setting Node → List ℕ → List ℕ → State (Machine Node) Verdict
  carry_out setting filesystem image = do
    done ← on_handset (enter_modes setting)
    if not done then pure refused else restore_if setting filesystem image

  -- `main` behind the SHSH blobs
  unfoldable pub extract_and_carry_out : List ℕ → Option Node → Node → State (Machine Node) Verdict
  extract_and_carry_out ipsw blobs identity = do
    extracted ← on_handset (on_memory (extract_filesystem lib zip scene.creates ipsw identity))
    require refused extracted
        λ (filesystem, image). carry_out (setting_of ipsw blobs identity) filesystem image

  -- `main` behind the choice of the identity
  unfoldable pub sign_and_carry_out :
      Settings → List ℕ → Bool → Option Node → State (Machine Node) Verdict
  sign_and_carry_out s ipsw enabled identity = do
    print_of (identity_lines lib) identity
    tss ← get_tss (enabled && not s.custom) s.use_apple_server identity
    require refused tss
        λ blobs. require refused identity λ node. extract_and_carry_out ipsw blobs node

  -- `main` behind the build manifest
  unfoldable pub prepare : Settings → List ℕ → Bool × Option Node → State (Machine Node) Verdict
  prepare s ipsw (enabled, manifest) = do
    print_of (manifest_lines lib) manifest
    let identity = choose_identity lib s.erase manifest
    if s.erase && is_none identity then pure refused else sign_and_carry_out s ipsw enabled identity

  -- `main` behind the options
  unfoldable pub course : Settings → List ℕ → State (Machine Node) Verdict
  course s ipsw = do
    mode ← check_mode
    if same_mode mode unknown_mode then pure refused else do
      device ← identify_device
      require refused device λ _. do
        left ← on_handset leave_restore
        if not left then pure refused else do
          manifest ← on_handset (on_memory (extract_build_manifest zip lib ipsw))
          require refused manifest (prepare s ipsw)

  -- the flags that the restore looks at
  abbrev pub with_flags : Settings → Machine Node → Machine Node
  with_flags s m = record m { world = record (m.world) { exclude = s.exclude } }

  -- behind the option loop: one argument must be left, the archive
  abbrev pub after_options : Step → Option (List ℕ) → State (Machine Node) Verdict
  after_options (settings s) (some ipsw) = λ m. course s ipsw (with_flags s m)
  after_options (settings s) none = pure refused
  after_options usage_shown _ = pure accepted
  after_options usage_error _ = pure refused

  -- `main`: `opts` are the options that `getopt_long` finds, `ipsw` the argument, if exactly one is left
  unfoldable pub main : List (ℕ × List ℕ) → Option (List ℕ) → State (Machine Node) Verdict
  main opts ipsw =
      if not scene.grants then pure refused else after_options (option_loop opts start) ipsw
