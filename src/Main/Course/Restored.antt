-- ===== src/Main/Course/Restored.antt =====
-- A whole run of `main` of idevicerestore/src/idevicerestore.c that restores a device in recovery mode.
use irestore.Prelude.{
  ℕ, ◌<◌, ◌≡◌, ◌∙◌, refl, ap, true, false, List, [], ◌∷◌, ◌++◌, none, some, length,
}
use irestore.Effects.{ok}
use irestore.Text.{codes}
use irestore.Plists.{Plists}
use irestore.Ipsw.{Zip}
use irestore.Identify.{recovery_mode, restore_mode, normal_mode, dfu_mode}
use irestore.Asr.Link.{Link, Receive, received, open_with_timeout}
use irestore.Asr.Validation.{accepted, packet_info}
use irestore.Asr.Validation.Requests.{IsSound, IsCommand, Request, AllRequests, messages}
use irestore.Restore.Session.{opens_all}
use irestore.Restore.World.{World}
use irestore.Restore.Filesystem.Delivered.{transfer}
use irestore.Restore.Components.{Setting}
use irestore.Restore.Loop.{Turn, restore_device}
use irestore.Restore.Loop.Results.{AllQuiet}
use irestore.Restore.Loop.Endings.{AsksFilesystem, restore_device-transfer}
use irestore.Recovery.{Handset, enter_restore}
use irestore.Main.Course.Modes.{when_other, when_same}
use irestore.Normal.Leaving.{normal_enter_recovery}
use irestore.Dfu.{dfu_enter_recovery}
use irestore.Recovery.Doing.{IsReady}
use irestore.Recovery.Protocol.{HasAll, protocol, enter_restore-protocol}
use irestore.Main.Machine.{Machine, Scene, world_of, same_mode, taken}
use irestore.Main.Course.{enter_modes, restore_if, carry_out}

module _ (zip : Zip) (lib : Plists) (scene : Scene lib.Node) where
  open lib use {Node, to_xml}

  -- The session with restored opens, and among rounds that bring nothing known it asks for the
  -- filesystem, over a sound connection that asks for some parts of it and then for the payload; at
  -- last the device goes.
  pub record Delivery (setting : Setting Node) (link : Link) (image : List ℕ)
      (rs : List (Request lib)) : Type 0 where
    pub starts : scene.starts ≡ true
    pub granted : scene.restore_phone.grants ≡ true
    pub opens : opens_all scene.restore_phone ≡ true
    pub before : List (Turn Node)
    pub between : List (Turn Node)
    pub behind : List (Turn Node)
    pub msg : Node
    pub turns_are :
        scene.turns
        ≡ before
          ++ record { message = some msg; removed = false }
            ∷ (between ++ record { message = none; removed = true } ∷ behind)
    pub quiet_before : AllQuiet zip lib setting scene.connects (some image) before
    pub quiet_between : AllQuiet zip lib setting scene.connects (some image) between
    pub asks : AsksFilesystem zip lib setting scene.connects (some image) msg
    pub attempt : ℕ
    pub reached : open_with_timeout true scene.connects ≡ some attempt
    pub sound : IsSound link
    pub first : List ℕ
    pub last : List ℕ
    pub end : Node
    pub rest : List Receive
    pub waits : link.inbox ≡ received first ∷ messages lib rs (received last ∷ rest)
    pub in_image : AllRequests lib image rs
    pub payload : IsCommand lib (codes "Payload") last end
    pub small_info : length (to_xml (packet_info lib (length image))) < 4294967296
    pub small : length image < 2147483648

  restore-Delivery :
      (setting : Setting Node) (image : List ℕ) (rs : List (Request lib)) (w : World Node)
      → Delivery setting w.link image rs
      → w.client.restore ≡ none
      → w.client.quit ≡ false
      → (t : World Node) × (restore_device zip lib setting scene.connects
            (some image)
            scene.restore_phone
            scene.starts
            scene.turns
            w
          ≡ ok accepted t)
        × (t.link.delivered ≡ w.link.delivered ++ transfer lib image rs)
        × (t.client.restore ≡ none)
  restore-Delivery setting image rs w d closed goes =
      rw (d.starts, d.turns_are)
        (restore_device-transfer zip lib setting scene.connects scene.restore_phone d.before
          d.between d.behind d.msg w d.attempt image d.first d.last d.end rs d.rest closed goes
          d.granted d.opens d.quiet_before d.quiet_between d.asks d.reached d.sound d.waits
          d.in_image d.payload d.small_info d.small)

  -- The device in recovery mode, behind the preparations.
  pub carry_out-restored :
      (setting : Setting Node) (filesystem image ibec logo tree ramdisk kernel : List ℕ)
      (rs : List (Request lib)) (m : Machine Node)
      → m.handset.mode ≡ recovery_mode
      → IsReady m.handset
      → m.handset.client.quit ≡ false
      → HasAll zip lib setting ibec logo tree ramdisk kernel
      → scene.recovery_phone.grants ≡ true
      → opens_all scene.recovery_phone ≡ true
      → Delivery setting m.world.link image rs
      → (t : Machine Node) × (carry_out zip lib scene setting filesystem image m ≡ ok accepted t)
        × (t.handset.log ≡ m.handset.log ++ protocol zip lib setting ibec logo tree ramdisk kernel)
        × (t.handset.mode ≡ restore_mode)
        × (t.world.link.delivered ≡ m.world.link.delivered ++ transfer lib image rs)
        × (t.unlinked ≡ m.unlinked ++ filesystem ∷ [])
  unfolding carry_out enter_modes restore_if
  carry_out-restored setting filesystem image ibec logo tree ramdisk kernel rs m is ready goes has
        granted opens delivery =
      let entered =
        enter_restore-protocol zip lib setting scene.recovery_phone ibec logo tree ramdisk kernel
          m.handset has ready granted opens in
      let m₁ : Machine Node = record m { handset = entered.after } in
      let (w, e, delivered, _) =
        restore-Delivery setting image rs (world_of m₁) delivery entered.ready.closed
          (entered.same_quit ∙ goes) in
      let entering : enter_modes zip lib scene setting m.handset ≡ ok true entered.after =
        modes m.handset entered.after setting is entered.run in
      (
        record {
          handset = taken entered.after w;
          world = w;
          unlinked = m.unlinked ++ filesystem ∷ [];
        },
        rw entering (rw (mode_restore entered.after entered.post) (rw e refl)),
        entered.logged,
        entered.post,
        delivered,
        refl,
      )
    where
      modes :
          (s t : Handset) (setting : Setting Node)
          → s.mode ≡ recovery_mode
          → enter_restore zip lib setting scene.recovery_phone s ≡ ok true t
          → enter_modes zip lib scene setting s ≡ ok true t
      modes s t setting is run =
          rw
            (
              when_other normal_mode (normal_enter_recovery scene.leaves scene.takes_null) s
                  (ap (λ m. same_mode m normal_mode) is),
              when_other dfu_mode (dfu_enter_recovery zip lib setting none scene.dfu_resets) s
                  (ap (λ m. same_mode m dfu_mode) is),
              when_same recovery_mode (enter_restore zip lib setting scene.recovery_phone) s
                  (ap (λ m. same_mode m recovery_mode) is),
            )
            run

      mode_restore : (s : Handset) → s.mode ≡ restore_mode → same_mode s.mode restore_mode ≡ true
      mode_restore s is = ap (λ m. same_mode m restore_mode) is
