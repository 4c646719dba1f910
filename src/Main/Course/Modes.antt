-- ===== src/Main/Course/Modes.antt =====
-- From which modes `main` of idevicerestore/src/idevicerestore.c succeeds, and in which mode it ends.
use irestore.Prelude.{
  ℕ, ◌≡◌, ◌∙◌, refl, Bool, true, false, not, List, none, if◌then◌else◌, ◌≢◌, Bool-cases, inl, inr,
  ◌⊎◌, sym, ap,
}
use irestore.Effects.{
  Run, State, Allows, gives, faulty, endless, Ensures→Allows, allow, allow_if, given, mono_allow,
  anything, ok, fault, out_of_fuel, pure, and_then,
}
use irestore.Plists.{Plists}
use irestore.Ipsw.{Zip}
use irestore.Identify.{Mode, dfu_mode, recovery_mode, restore_mode, normal_mode, unknown_mode}
use irestore.Normal.Leaving.{normal_enter_recovery, normal_enter_recovery-asked}
use irestore.Dfu.{dfu_enter_recovery, dfu-never}
use irestore.Asr.Validation.{Verdict, accepted, refused, waiting}
use irestore.Restore.World.{World}
use irestore.Restore.Components.{Setting}
use irestore.Restore.Session.{Phone, open_session, client_free}
use irestore.Recovery.{
  Handset, on_client, enter_restore, await_restore, enable_autoboot, send_ibec, send_applelogo,
  send_devicetree, send_ramdisk, send_kernel, ◌then_if◌,
}
use irestore.Main.Machine.{Machine, Scene, put_handset, put_world, same_mode}
use irestore.Main.Course.{when_mode, after_restore, enter_modes, restore_if, carry_out}

-- What a step that succeeds makes of the mode: it stays, or the device in recovery mode has come up in
-- restore mode.
pub data Moves : Mode → Mode → Type 0 where
  stays : {mode : Mode} → Moves mode mode
  boots : Moves recovery_mode restore_mode

-- behind a step that succeeds
then-Allows :
    {Q : Bool → Handset → Type 0} (step next : State Handset Bool) (s : Handset)
    → ((t : Handset) → Q false t)
    → ((t : Handset) → step s ≡ ok true t → Allows Q (next t))
    → Allows Q ((step then_if next) s)
then-Allows {Q} step next s failed rest = cases (step s) rest
  where
    cases :
        (r : Run Handset Bool)
        → ((t : Handset) → r ≡ ok true t → Allows Q (next t))
        → Allows Q (and_then r λ done. if not done then pure false else next)
    cases (ok true t) rest = rest t refl
    cases (ok false t) rest = gives (failed t)
    cases fault rest = faulty
    cases out_of_fuel rest = endless

-- what a step of the way into restore mode promises
abbrev Enters : Bool → Handset → Type 0
Enters r t = r ≡ true → t.mode ≡ restore_mode

-- a step that promises it from every state
record Entering (step : State Handset Bool) : Type 0 where
  always : (s : Handset) → Allows Enters (step s)

then-Enters :
    (step : State Handset Bool) {next : State Handset Bool}
    → Entering next
    → Entering (step then_if next)
then-Enters step {next} rest = record {
  always = λ s. then-Allows step next s (λ t h. cc) λ t _. rest.always t;
}

await-Entering : (phone : Phone) → Entering (await_restore phone)
unfolding await_restore
await-Entering phone =
    then-Enters (on_client (open_session phone))
      (record { always = λ s. allow (anything (on_client client_free s)) λ _ t _. gives λ _. refl })

-- a step of another mode does nothing
pub when_other :
    (mode : Mode) (step : State Handset Bool) (s : Handset)
    → same_mode s.mode mode ≡ false
    → when_mode mode step s ≡ ok true s
when_other mode step s other = rw other refl

pub when_same :
    (mode : Mode) (step : State Handset Bool) (s : Handset)
    → same_mode s.mode mode ≡ true
    → when_mode mode step s ≡ step s
when_same mode step s same = rw same refl

module _ {Node : Type 0} where
  handset-Allows :
      {A : Type 0} {P : A → Handset → Type 0} {r : Run Handset A} (m : Machine Node)
      → Allows P r
      → Allows (λ a t. P a t.handset) (put_handset m r)
  handset-Allows m (gives p) = gives p
  handset-Allows m faulty = faulty
  handset-Allows m endless = endless

  world-mode :
      {A : Type 0} {mode : Mode} (m : Machine Node) (r : Run (World Node) A)
      → m.handset.mode ≡ mode
      → Allows (λ _ t. t.handset.mode ≡ mode) (put_world m r)
  world-mode m (ok a w) is = gives is
  world-mode m fault is = faulty
  world-mode m out_of_fuel is = endless

  after_restore-mode :
      {mode : Mode} (filesystem : List ℕ) (v : Verdict) (m : Machine Node)
      → m.handset.mode ≡ mode
      → Allows (λ _ t. t.handset.mode ≡ mode) (after_restore filesystem v m)
  after_restore-mode filesystem accepted m is = gives is
  after_restore-mode filesystem refused m is = gives is
  after_restore-mode filesystem waiting m is = gives is

not-false : (b : Bool) → not b ≡ false → b ≡ true
not-false true h = refl
not-false false h = cc

module _ (zip : Zip) (lib : Plists) (scene : Scene lib.Node) where
  open lib use {Node}

  -- `recovery_enter_restore` succeeds only with the mode set.
  enter_restore-Entering :
      (setting : Setting Node) → Entering (enter_restore zip lib setting scene.recovery_phone)
  unfolding enter_restore
  enter_restore-Entering setting = then-Enters enable_autoboot (
      then-Enters (send_ibec zip lib setting) (
        then-Enters (send_applelogo zip lib setting) (
          then-Enters (send_devicetree zip lib setting) (
            then-Enters (send_ramdisk zip lib setting)
              (then-Enters (send_kernel zip lib setting) (await-Entering scene.recovery_phone))))))

  -- `main` behind the extraction ends with 0 only in restore mode, from recovery or restore mode.
  abbrev pub Succeeds : Mode → Verdict → Machine Node → Type 0
  Succeeds before v t = v ≡ accepted → Moves before restore_mode × (t.handset.mode ≡ restore_mode)

  -- what the way into restore mode promises of the mode that it began in
  abbrev Arrives : Mode → Bool → Handset → Type 0
  Arrives before r t = r ≡ true → Moves before restore_mode × (t.mode ≡ restore_mode)

  normal-Allows :
      (s : Handset)
      → scene.takes_null ≡ false
      → Allows (λ r _. r ≡ false) (normal_enter_recovery scene.leaves scene.takes_null s)
  normal-Allows s refuses =
      rw refuses
        (mono_allow (Ensures→Allows (normal_enter_recovery-asked scene.leaves s)) λ _ _ (e, _). e)

  -- the step of a device in DFU mode
  abbrev dfu_step : Setting Node → State Handset Bool
  dfu_step setting = dfu_enter_recovery zip lib setting none scene.dfu_resets

  dfu-Allows :
      (setting : Setting Node) (s : Handset) → Allows (λ r _. r ≡ false) (dfu_step setting s)
  dfu-Allows setting s =
      mono_allow
        (Ensures→Allows (
          (dfu-never zip lib setting true true 0
            (record { dfu = none; opens = λ _. true; tries = 0 }) none none scene.dfu_resets s).1))
        λ _ _ (e, _). e

  -- A step that cannot succeed has succeeded only as the step of another mode.
  only_skipped :
      (mode : Mode) (step : State Handset Bool) (s t : Handset)
      → Allows (λ r _. r ≡ false) (step s)
      → when_mode mode step s ≡ ok true t
      → (same_mode s.mode mode ≡ false) × (s ≡ t)
  only_skipped mode step s t never e = elim (Bool-cases (same_mode s.mode mode)) [
    | inl same ↦ absurd (true≢false (given never (sym (when_same mode step s same) ∙ e)))
    | inr other ↦ (other, ok-injective (sym (when_other mode step s other) ∙ e))
  ]
    where
      true≢false : true ≡ false → ⊥
      true≢false h = cc

      ok-injective : ok true s ≡ ok true t → s ≡ t
      ok-injective h = cc

  last_step :
      (setting : Setting Node) (s : Handset)
      → same_mode s.mode normal_mode ≡ false
      → same_mode s.mode dfu_mode ≡ false
      → ◌≢◌ {A = Mode} s.mode unknown_mode
      → Allows
          (Arrives s.mode)
          (when_mode recovery_mode (enter_restore zip lib setting scene.recovery_phone) s)
  last_step setting s normal dfu known = elim (left_mode s.mode normal dfu known) [
    | inl recovery ↦
        rw
          (when_same recovery_mode (enter_restore zip lib setting scene.recovery_phone) s
            (ap (λ m. same_mode m recovery_mode) recovery))
          (mono_allow ((enter_restore-Entering setting).always s)
            λ r t h is. (from_recovery s.mode recovery, h is))
    | inr restore ↦
        rw
          (when_other recovery_mode (enter_restore zip lib setting scene.recovery_phone) s
            (ap (λ m. same_mode m recovery_mode) restore))
          (gives λ _. (from_restore s.mode restore, restore))
  ]
    where
      from_recovery : (mode : Mode) → mode ≡ recovery_mode → Moves mode restore_mode
      from_recovery mode is = rw is boots

      from_restore : (mode : Mode) → mode ≡ restore_mode → Moves mode restore_mode
      from_restore mode is = rw is stays

      left_mode :
          (mode : Mode)
          → same_mode mode normal_mode ≡ false
          → same_mode mode dfu_mode ≡ false
          → ◌≢◌ {A = Mode} mode unknown_mode
          → (mode ≡ recovery_mode) ⊎ (mode ≡ restore_mode)
      left_mode dfu_mode normal dfu known = cc
      left_mode recovery_mode normal dfu known = inl refl
      left_mode restore_mode normal dfu known = inr refl
      left_mode normal_mode normal dfu known = cc
      left_mode unknown_mode normal dfu known = absurd (known refl)

  enter_modes-Arrives :
      (setting : Setting Node) (s : Handset)
      → scene.takes_null ≡ false
      → ◌≢◌ {A = Mode} s.mode unknown_mode
      → Allows (Arrives s.mode) (enter_modes zip lib scene setting s)
  unfolding enter_modes
  enter_modes-Arrives setting s refuses known =
      then-Allows (when_mode normal_mode (normal_enter_recovery scene.leaves scene.takes_null)) _ s
        (λ t h. cc)
        λ t e.
          let (normal, is) =
            only_skipped normal_mode (normal_enter_recovery scene.leaves scene.takes_null) s t
              (normal-Allows s refuses) e in
          rw⁻¹ is (
            then-Allows (when_mode dfu_mode (dfu_step setting)) _ s (λ u h. cc)
              λ u e'.
                let (dfu, is') =
                  only_skipped dfu_mode (dfu_step setting) s u (dfu-Allows setting s) e' in
                rw⁻¹ is' (last_step setting s normal dfu known))

  -- the restore itself leaves the mode alone
  restore_if-mode :
      (setting : Setting Node) (filesystem image : List ℕ) (m : Machine Node)
      → m.handset.mode ≡ restore_mode
      → Allows
          (λ _ t. t.handset.mode ≡ restore_mode)
          (restore_if zip lib scene setting filesystem image m)
  unfolding restore_if
  restore_if-mode setting filesystem image m is =
      allow_if (same_mode m.handset.mode restore_mode) _ _ m
        (λ _. allow (world-mode m _ is) (after_restore-mode filesystem)) λ _. gives is

  -- `main` behind the extraction of the filesystem, from a known mode: if it ends with 0, the device was
  -- found in recovery or restore mode, and the mode at the end is restore mode.
  pub carry_out-Succeeds :
      (setting : Setting Node) (filesystem image : List ℕ) (m : Machine Node)
      → scene.takes_null ≡ false
      → ◌≢◌ {A = Mode} m.handset.mode unknown_mode
      → Allows (Succeeds m.handset.mode) (carry_out zip lib scene setting filesystem image m)
  unfolding carry_out
  carry_out-Succeeds setting filesystem image m refuses known =
      allow (handset-Allows m (enter_modes-Arrives setting m.handset refuses known))
        λ done t arrives.
          allow_if (not done) _ _ t (λ _. gives λ h. cc)
            λ e.
              let (moves, is) = arrives (not-false done e) in
              mono_allow (restore_if-mode setting filesystem image t is) λ _ _ at _. (moves, at)
