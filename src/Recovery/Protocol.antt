-- ===== src/Recovery/Protocol.antt =====
-- What a device in recovery mode gets when `recovery_enter_restore` succeeds, and in which order.
use irestore.Prelude.{
  ℕ, ◌-◌, ◌≡◌, ◌∙◌, sym, refl, true, List, [], ◌∷◌, ◌++◌, append_assoc, append-nil, none, some,
}
use irestore.Effects.{pure}
use irestore.Memory.{free}
use irestore.Text.{codes}
use irestore.Plists.{Plists}
use irestore.Ipsw.{Zip}
use irestore.Identify.{restore_mode}
use irestore.Restore.Session.{Phone, opened, opens_all}
use irestore.Restore.Session.Handles.{open_session-opened, client_free-opened}
use irestore.Restore.Components.{Setting, component_path}
use irestore.Restore.Components.Nor.{Gets}
use irestore.Recovery.{
  Sent, reset, buffer, command, Handset, send, send_reset, ◌then_if◌, enable_autoboot,
  send_component, send_ibec, send_applelogo, send_devicetree, send_ramdisk, send_kernel,
  await_restore, enter_restore,
}
use irestore.Recovery.Doing.{
  IsReady, Does, Any, then-Does, done-Does, with_valid, send-Does, open-Does, null-Does,
}

module _ (zip : Zip) (lib : Plists) (setting : Setting lib.Node) where
  -- the path of a component, and its bytes
  pub record HasComponent (name bytes : List ℕ) : Type 0 where
    pub path : List ℕ
    pub has_path : component_path zip lib setting name ≡ some path
    pub gets : Gets zip lib setting path bytes

  component-Does :
      (name bytes : List ℕ) (s : Handset)
      → HasComponent name bytes
      → IsReady s
      → Does Any (send_component zip lib setting name) s (reset ∷ buffer bytes ∷ [])
  unfolding send_component send_reset free
  component-Does name bytes s has ready =
      let (size, m, e, plenty) = has.gets s.memory ready.plenty in
      let s₁ = record s { log = s.log ++ reset ∷ []; memory = m } in
      let ready₁ : IsReady s₁ = record {
        closed = ready.closed;
        connected = ready.connected;
        reopens = ready.reopens;
        takes = ready.takes;
        plenty = plenty;
      } in
      let sent = send-Does (buffer bytes) s₁ ready₁ in
      record {
        after = record (sent.after) {
          memory = record (sent.after.memory) { live = sent.after.memory.live - 1 };
        };
        run =
            rw (has.has_path)
              (rw (with_valid s.recovery _ s ready.connected) (rw e (rw (sent.run))));
        ready = record {
          closed = sent.ready.closed;
          connected = sent.ready.connected;
          reopens = sent.ready.reopens;
          takes = sent.ready.takes;
          plenty = sent.ready.plenty;
        };
        logged = sent.logged ∙ append_assoc s.log (reset ∷ []) (buffer bytes ∷ []);
        post = tt;
        same_quit = sent.same_quit;
      }

  -- The five components that a restore needs.
  pub record HasAll (ibec logo tree ramdisk kernel : List ℕ) : Type 0 where
    pub has_ibec : HasComponent (codes "iBEC") ibec
    pub has_logo : HasComponent (codes "AppleLogo") logo
    pub has_tree : HasComponent (codes "RestoreDeviceTree") tree
    pub has_ramdisk : HasComponent (codes "RestoreRamDisk") ramdisk
    pub has_kernel : HasComponent (codes "RestoreKernelCache") kernel

  -- a component and the command behind it
  component_and_command :
      (name bytes text : List ℕ) (s : Handset)
      → HasComponent name bytes
      → IsReady s
      → Does Any
          (send_component zip lib setting name then_if send (command text) then_if pure true)
          s
          (reset ∷ buffer bytes ∷ command text ∷ [])
  component_and_command name bytes text s has ready =
      then-Does (component-Does name bytes s has ready)
        λ t r. then-Does (send-Does (command text) t r) done-Does

  logo-Does :
      (bytes : List ℕ) (s : Handset)
      → HasComponent (codes "AppleLogo") bytes
      → IsReady s
      → Does Any (send_applelogo zip lib setting) s (
          reset
          ∷ buffer bytes
          ∷ command (codes "setpicture 1")
          ∷ command (codes "bgcolor 0 0 0")
          ∷ [])
  unfolding send_applelogo
  logo-Does bytes s has ready = then-Does (open-Does s ready) λ t₁ r₁.
      then-Does (component-Does (codes "AppleLogo") bytes t₁ has r₁) λ t₂ r₂.
        then-Does (send-Does (command (codes "setpicture 1")) t₂ r₂)
          λ t₃ r₃. then-Does (send-Does (command (codes "bgcolor 0 0 0")) t₃ r₃) done-Does

  -- all that the device gets on its way into restore mode
  abbrev pub protocol : List ℕ → List ℕ → List ℕ → List ℕ → List ℕ → List Sent
  protocol ibec logo tree ramdisk kernel =
      command (codes "setenv auto-boot true")
      ∷ command (codes "saveenv")
      ∷ reset
      ∷ buffer ibec
      ∷ command (codes "go")
      ∷ reset
      ∷ buffer logo
      ∷ command (codes "setpicture 1")
      ∷ command (codes "bgcolor 0 0 0")
      ∷ reset
      ∷ buffer tree
      ∷ command (codes "devicetree")
      ∷ reset
      ∷ buffer ramdisk
      ∷ command (codes "ramdisk")
      ∷ reset
      ∷ buffer kernel
      ∷ command (codes "bootx")
      ∷ []

  await-Does :
      (phone : Phone) (s : Handset)
      → phone.grants ≡ true
      → opens_all phone ≡ true
      → IsReady s
      → Does (λ t. t.mode ≡ restore_mode) (await_restore phone) s []
  unfolding await_restore
  await-Does phone s granted opens ready = record {
    after = record s { client = record (s.client) { restore = none }; mode = restore_mode };
    run =
        rw (open_session-opened phone s.client ready.closed granted opens)
          (rw (client_free-opened (record (s.client) { restore = some opened }) refl));
    ready = record {
      closed = refl;
      connected = ready.connected;
      reopens = ready.reopens;
      takes = ready.takes;
      plenty = ready.plenty;
    };
    logged = sym (append-nil s.log);
    post = refl;
    same_quit = refl;
  }

  -- A device in recovery mode that takes all that it gets, whose connection opens whenever it is tried,
  -- with the five components at hand and plenty of memory: `recovery_enter_restore` succeeds if the
  -- device then comes up in restore mode. The device has got the commands and the components in the
  -- order of the protocol, each component behind a reset and in front of the command that uses it, and
  -- the mode is restore mode.
  pub enter_restore-protocol :
      (phone : Phone) (ibec logo tree ramdisk kernel : List ℕ) (s : Handset)
      → HasAll ibec logo tree ramdisk kernel
      → IsReady s
      → phone.grants ≡ true
      → opens_all phone ≡ true
      → Does
          (λ t. t.mode ≡ restore_mode)
          (enter_restore zip lib setting phone)
          s
          (protocol ibec logo tree ramdisk kernel)
  unfolding enter_restore enable_autoboot send_ibec send_devicetree send_ramdisk send_kernel
  enter_restore-protocol phone ibec logo tree ramdisk kernel s has ready granted opens =
      then-Does
        (then-Does (send-Does (command (codes "setenv auto-boot true")) s ready)
          λ t r. then-Does (send-Does (command (codes "saveenv")) t r) done-Does)
        λ s₁ r₁.
          then-Does (component_and_command (codes "iBEC") ibec (codes "go") s₁ has.has_ibec r₁)
            λ s₂ r₂. then-Does (logo-Does logo s₂ has.has_logo r₂) λ s₃ r₃.
              then-Does
                (then-Does (null-Does s₃ r₃) λ t r.
                  component_and_command (codes "RestoreDeviceTree") tree (codes "devicetree") t
                    has.has_tree r)
                λ s₄ r₄.
                  then-Does
                    (then-Does (null-Does s₄ r₄) λ t r.
                      component_and_command (codes "RestoreRamDisk") ramdisk (codes "ramdisk") t
                        has.has_ramdisk r)
                    λ s₅ r₅.
                      then-Does
                        (then-Does (open-Does s₅ r₅) λ t r.
                          component_and_command (codes "RestoreKernelCache") kernel (codes "bootx")
                            t has.has_kernel r)
                        λ s₆ r₆. await-Does phone s₆ granted opens r₆
