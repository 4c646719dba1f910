-- ===== src/Dfu.antt =====
-- idevicerestore/src/dfu.c: a device in DFU mode.
mod Runs
use irestore.Prelude.{
  ℕ, zero, suc, ◌+◌, ◌≡◌, refl, Bool, true, false, not, [], ◌∷◌, ◌++◌, Option, none, some, ◌==◌,
  if◌then◌else◌,
}
use irestore.Effects.{
  State, Ensures, ends, faults, bind, branch, branch_run, mono, Allows, gives, allow, allow_if,
  anything, ok, fault, pure, demand, ◌>>=◌, ◌>>◌,
}
use irestore.Text.{codes}
use irestore.Plists.{Plists}
use irestore.Ipsw.{Zip}
use irestore.Identify.{Mode, dfu_mode, recovery_mode, restore_mode, normal_mode, unknown_mode}
use irestore.Restore.Components.{Setting}
use irestore.Restore.Session.{Pointer, null, valid, junk}
use irestore.Recovery.{Handset, reset, with_handle, recovery_open, ◌then_if◌, send_component}
use irestore.Recovery.Opening.{Keeps, recovery_open-Keeps}

-- `client->dfu` with its handle, the outcome of the `n`-th `irecv_open`, and the next `n`
pub record Bus : Type 0 where
  pub dfu : Option Pointer
  pub opens : ℕ → Bool
  pub tries : ℕ

-- `dfu_client_free`
unfoldable pub dfu_client_free : State Bus (Unit {0})
dfu_client_free s = elim s.dfu [
  | none ↦ ok tt s
  | some junk ↦ fault
  | some _ ↦ ok tt (record s { dfu = none })
]

-- What `dfu_open_with_timeout` is given as its client: the client, or the smaller block of a DFU
-- client.
pub data Block : Type 0 where
  whole_client dfu_block : Block

-- The attempts of `dfu_open_with_timeout`: none with a timeout of 0.
unfoldable pub attempts : ℕ → State Bus Bool
attempts zero s = ok true s
attempts (suc left) s =
    let rest = attempts left (record s { tries = s.tries + 1 }) in
    if s.opens s.tries
    then ok true (record s { tries = s.tries + 1 })
    else if left == 0
    then ok false (record s { tries = s.tries + 1 })
    else rest

-- `client->dfu->client = recovery`: `client->dfu` is not within the smaller block, and may be NULL.
abbrev pub store_handle : Block → Option Pointer → ℕ → State Bus Bool
store_handle dfu_block dfu timeout = λ _. fault
store_handle whole_client none timeout = λ _. fault
store_handle whole_client (some _) timeout =
    λ s. ok true (record s { dfu = some (if timeout == 0 then null else valid) })

-- `dfu_open_with_timeout`, by whether the result is 0
unfoldable pub dfu_open : Block → ℕ → State Bus Bool
dfu_open block timeout = do
  done ← attempts timeout
  if not done then pure false else λ s. store_handle block s.dfu timeout s

-- `if(client->dfu)` in front of the release
unfoldable pub free_old : State Bus (Unit {0})
free_old s = elim s.dfu [ none ↦ ok tt s | some _ ↦ dfu_client_free s ]

-- `dfu_client_new`: `dfu_open_with_timeout` gets the new block where it wants the client. `grants` is
-- the malloc, and `in_dfu` whether the device is in DFU mode.
unfoldable pub dfu_client_new : Bool → Bool → ℕ → State Bus Bool
dfu_client_new grants in_dfu timeout =
    free_old
    >> (if not grants then pure false else do
      done ← dfu_open dfu_block timeout
      if not done
          then dfu_client_free >> pure false
          else if not in_dfu
          then dfu_client_free >> pure false
          else λ s. ok true (record s { dfu = some valid }))

-- `kDfuMode`
abbrev pub k_dfu_mode : ℕ
k_dfu_mode = 0x1227

-- `client->mode->index`; -1 as a bit pattern
abbrev pub mode_index : Mode → ℕ
mode_index dfu_mode = 0
mode_index recovery_mode = 1
mode_index restore_mode = 2
mode_index normal_mode = 3
mode_index unknown_mode = 4294967295

-- The end of `dfu_enter_recovery`, once the device is open again.
unfoldable pub set_recovery : State Handset Bool
set_recovery s =
    if not (mode_index s.mode == k_dfu_mode)
    then ok false s
    else ok true (record s { mode = recovery_mode })

-- `dfu_enter_recovery` behind the component: the reset of `client->dfu->client`, whose outcome is
-- `resets`, and the second opening. `handle` is `client->dfu` with its handle.
unfoldable pub leave_dfu : Option Pointer → Bool → State Handset Bool
leave_dfu handle resets =
    with_handle handle (λ s. ok resets (record s { log = s.log ++ reset ∷ [] }))
    then_if recovery_open
    then_if set_recovery

module _ (zip : Zip) (lib : Plists) (setting : Setting lib.Node) where
  -- `dfu_enter_recovery`, by its local `dfu`: the mode of the handle, or none for NULL
  unfoldable pub enter_from : Option ℕ → Option Pointer → Bool → State Handset Bool
  enter_from dfu handle resets = recovery_open then_if (do
    mode ← demand dfu
    if not (mode == k_dfu_mode)
        then pure false
        else send_component zip lib setting (codes "iBSS") then_if leave_dfu handle resets)

  -- `dfu_enter_recovery`: `dfu` is NULL throughout.
  unfoldable pub dfu_enter_recovery : Option Pointer → Bool → State Handset Bool
  dfu_enter_recovery handle resets = enter_from none handle resets

dfu_client_free-Ends : (s : Bus) → Ensures (λ _ _. Unit {0}) (dfu_client_free s)
unfolding dfu_client_free
dfu_client_free-Ends s = cases s.dfu
  where
    cases :
        (o : Option Pointer)
        → Ensures
            (λ _ _. Unit {0})
            (elim o [
              | none ↦ ok (tt {0}) s
              | some junk ↦ fault
              | some _ ↦ ok (tt {0}) (record s { dfu = none })
            ])
    cases none = ends tt
    cases (some null) = ends tt
    cases (some valid) = ends tt
    cases (some junk) = faults

free_old-Ends : (s : Bus) → Ensures (λ _ _. Unit {0}) (free_old s)
unfolding free_old
free_old-Ends s = cases s.dfu
  where
    cases :
        (o : Option Pointer)
        → Ensures (λ _ _. Unit {0}) (elim o [ none ↦ ok (tt {0}) s | some _ ↦ dfu_client_free s ])
    cases none = ends tt
    cases (some p) = dfu_client_free-Ends s

attempts-Ends : (n : ℕ) (s : Bus) → Ensures (λ _ _. Unit {0}) (attempts n s)
unfolding attempts
attempts-Ends zero s = ends tt
attempts-Ends (suc left) s =
    branch_run (s.opens s.tries) _ _ (λ _. ends tt)
      λ _.
        branch_run (left == 0) _ _ (λ _. ends tt)
          λ _. attempts-Ends left (record s { tries = s.tries + 1 })

-- With the smaller block an opening that succeeds is a fault.
dfu_open-false : (timeout : ℕ) (s : Bus) → Ensures (λ r _. r ≡ false) (dfu_open dfu_block timeout s)
unfolding dfu_open
dfu_open-false timeout s =
    bind (attempts-Ends timeout s) λ done t _. branch (not done) _ _ t (λ _. ends refl) λ _. faults

-- No entry of the table of modes has `kDfuMode` as its index.
mode_index-k_dfu_mode : (mode : Mode) → (mode_index mode == k_dfu_mode) ≡ false
mode_index-k_dfu_mode dfu_mode = refl
mode_index-k_dfu_mode recovery_mode = refl
mode_index-k_dfu_mode restore_mode = refl
mode_index-k_dfu_mode normal_mode = refl
mode_index-k_dfu_mode unknown_mode = refl

leave_dfu-false :
    (handle : Option Pointer) (resets : Bool) (s : Handset)
    → Allows (λ r _. r ≡ false) (leave_dfu handle resets s)
unfolding leave_dfu set_recovery
leave_dfu-false handle resets s =
    allow
      (anything (with_handle handle (λ s. ok resets (record s { log = s.log ++ reset ∷ [] })) s))
      λ done t _.
        allow_if (not done) _ _ t (λ _. gives refl)
          λ _. allow (anything (recovery_open t)) λ opened u _.
            allow_if (not opened) _ _ u (λ _. gives refl)
              λ _. rw (mode_index-k_dfu_mode u.mode) (gives refl)

module _ (zip : Zip) (lib : Plists) (setting : Setting lib.Node) where
  enter_from-false :
      (dfu : Option ℕ) (handle : Option Pointer) (resets : Bool) (s : Handset)
      → Allows (λ r _. r ≡ false) (enter_from zip lib setting dfu handle resets s)
  unfolding enter_from
  enter_from-false dfu handle resets s = allow (anything (recovery_open s)) λ opened t _.
      allow_if (not opened) _ _ t (λ _. gives refl)
        λ _. allow (anything (demand dfu t)) λ mode u _.
          allow_if (not (mode == k_dfu_mode)) _ _ u (λ _. gives refl)
            λ _. allow (anything (send_component zip lib setting (codes "iBSS") u)) λ sent v _.
              allow_if (not sent) _ _ v (λ _. gives refl) λ _. leave_dfu-false handle resets v

  -- `dfu_client_new` never succeeds: each run ends with an error or faults. Nor does
  -- `dfu_enter_recovery`, whatever the firmware and the device are: it ends with an error or faults, and
  -- only the connection in recovery mode has changed then. It would not succeed if its `dfu` were a
  -- handle either: no run of it from any handle ends with success.
  pub dfu-never :
      (grants in_dfu : Bool) (timeout : ℕ) (s : Bus) (dfu : Option ℕ) (handle : Option Pointer)
      (resets : Bool) (t : Handset)
      → Ensures (λ r _. r ≡ false) (dfu_client_new grants in_dfu timeout s)
        × Ensures
            (λ r u. (r ≡ false) × Keeps t u)
            (dfu_enter_recovery zip lib setting handle resets t)
        × Allows (λ r _. r ≡ false) (enter_from zip lib setting dfu handle resets t)
  unfolding dfu_client_new dfu_enter_recovery enter_from dfu_open dfu_client_free free_old
  dfu-never grants in_dfu timeout s dfu handle resets t = (
    bind (free_old-Ends s) λ _ s₁ _.
        branch (not grants) _ _ s₁ (λ _. ends refl)
          λ _. bind (dfu_open-false timeout s₁) λ done s₂ e.
            branch (not done) _ _ s₂ (λ _. bind (dfu_client_free-Ends s₂) λ _ _ _. ends refl)
              λ h. cc,
    bind (recovery_open-Keeps t)
        λ done u k. branch (not done) _ _ u (λ _. ends (refl, k)) λ _. faults,
    enter_from-false dfu handle resets t,
  )
