-- ===== src/Normal/Probes.antt =====
-- What idevicerestore asks a device for: `normal_check_mode`, `normal_get_cpid`, `normal_get_bdid` and
-- `normal_get_ecid` of normal.c, `restore_check_mode` of restore.c and `recovery_check_mode` of recovery.c.
use irestore.Prelude.{
  ℕ, ◌+◌, ◌≡◌, ◌∙◌, arith, refl, ap, Bool, true, false, not, ◌&&◌, Option, none, some,
  if◌then◌else◌,
}
use irestore.Effects.{State, ok, and_then, ◌>>=◌}
use irestore.Plists.{Plists, uint, of_kind}
use irestore.Identify.{by_model, by_product, restore_check_device, normal_check_device}
use irestore.Devices.{
  Held, Line, idevice_new, service_new, service_free, idevice_free, or_fail, or_free_device,
  with_client, free_both,
}

-- `normal_check_mode`, by whether the result is 0
unfoldable pub normal_check_mode : Line → State Held Bool
normal_check_mode line =
    with_client false line (if not line.answers then free_both false else free_both true)

-- `restore_check_mode`, by whether the result is 0
unfoldable pub restore_check_mode : Line → State Held Bool
restore_check_mode line =
    with_client false line (if not line.answers then free_both false else free_both true)

-- What the USB library answers: `irecv_open`, and whether the device that it opens is in DFU mode.
pub record Usb : Type 0 where
  pub opens : Bool
  pub in_dfu : Bool

-- `recovery_check_mode`, by whether the result is 0
unfoldable pub recovery_check_mode : Usb → Bool
recovery_check_mode usb = if not usb.opens then false else not usb.in_dfu

-- `normal_get_cpid` and `normal_get_bdid`: the result is 0, and the number is what it was.
unfoldable pub normal_get_cpid : ℕ → Option ℕ
normal_get_cpid cpid = some cpid

unfoldable pub normal_get_bdid : ℕ → Option ℕ
normal_get_bdid bdid = some bdid

module _ (lib : Plists) where
  open lib use {Node, uint_val}

  -- `normal_get_ecid`: `*ecid`, or none for -1. `unique_chip` is the node that lockdownd gives.
  unfoldable pub normal_get_ecid : Line → Option Node → State Held (Option ℕ)
  normal_get_ecid line unique_chip = with_client none line (
      if not line.answers then free_both none else elim (of_kind lib uint unique_chip) [
        | none ↦ free_both none
        | some node ↦ free_both (some (uint_val node))
      ])

-- all of a line's answers
abbrev pub all_answers : Line → Bool
all_answers line = line.found && (line.client && line.answers)

free_both-back :
    {A : Type 0} (a : A) (d c : ℕ)
    → free_both a (record { devices = d + 1; clients = c + 1 })
      ≡ ok a (record { devices = d; clients = c })
unfolding service_free idevice_free
free_both-back a d c = ground arith

-- A step behind a client gives both handles back, or is not reached.
with_client-back :
    {A : Type 0} (failure a : A) (line : Line) (next : State Held A) (h : Held)
    → next (record { devices = h.devices + 1; clients = h.clients + 1 }) ≡ ok a h
    → with_client failure line next h ≡ ok (if line.found && line.client then a else failure) h
unfolding idevice_free
with_client-back failure a line next h e = cases line.found line.client
  where
    cases :
        (found client : Bool)
        → and_then
            (idevice_new found h)
            (λ f. or_fail failure f (service_new client >>= λ c. or_free_device failure c next))
          ≡ ok (if found && client then a else failure) h
    cases false client = refl
    cases true false = ground arith
    cases true true = e

pub check-back :
    (line : Line) (h : Held)
    → with_client false line (if not line.answers then free_both false else free_both true) h
      ≡ ok (all_answers line) h
check-back line h =
    with_client-back false line.answers line _ h (cases line.answers)
    ∙ ap (λ b. ok b h) (and_if line.found line.client line.answers)
  where
    and_if : (a b c : Bool) → (if a && b then c else false) ≡ (a && (b && c))
    and_if a b c = ground arith

    cases :
        (b : Bool)
        → (if not b then free_both false else free_both true)
            (record { devices = h.devices + 1; clients = h.clients + 1 })
          ≡ ok b h
    cases true = free_both-back true h.devices h.clients
    cases false = free_both-back false h.devices h.clients

-- A question behind a client whose call may fail: both handles are given back.
asked-back :
    {A : Type 0} (line : Line) (o : Option A) (next : State Held (Option A)) (h : Held)
    → next (record { devices = h.devices + 1; clients = h.clients + 1 }) ≡ ok o h
    → with_client none line (if not line.answers then free_both none else next) h
      ≡ ok (if all_answers line then o else none) h
asked-back {A} line o next h e =
    with_client-back none (if line.answers then o else none) line _ h (cases line.answers)
    ∙ ap (λ r. ok r h) (and_if line.found line.client line.answers)
  where
    and_if :
        (a b c : Bool)
        → ◌≡◌ {A = Option A}
            (if a && b then (if c then o else none) else none)
            (if a && (b && c) then o else none)
    and_if a b c = ground arith

    cases :
        (b : Bool)
        → (if not b then free_both none else next)
            (record { devices = h.devices + 1; clients = h.clients + 1 })
          ≡ ok (if b then o else none) h
    cases false = free_both-back none h.devices h.clients
    cases true = e

module _ (lib : Plists) where
  open lib use {Node, uint_val}

  -- the ECID that a node stands for
  abbrev pub ecid_of : Option Node → Option ℕ
  ecid_of node = elim (of_kind lib uint node) [ none ↦ none | some n ↦ some (uint_val n) ]

  -- Whatever a device answers, the five functions that ask it over libimobiledevice end with every handle
  -- given back: `normal_check_mode` and `restore_check_mode` find their mode exactly if all calls
  -- succeed, `normal_get_ecid` gives the number that lockdownd gives, if that is one, and
  -- `restore_check_device` and `normal_check_device` give the index of the model or the product;
  -- each of these three is an error where a call fails.
  pub probes-Held :
      (line : Line) (gives : Bool) (chip value : Option Node) (h : Held)
      → (normal_check_mode line h ≡ ok (all_answers line) h)
        × (restore_check_mode line h ≡ ok (all_answers line) h)
        × (normal_get_ecid lib line chip h ≡ ok (if all_answers line then ecid_of chip else none) h)
        × (restore_check_device lib (record { line = line; gives = gives; value = value }) h
            ≡ ok
                (if all_answers line then (if gives then by_model lib value else none) else none)
                h)
        × (normal_check_device lib (record { line = line; gives = gives; value = value }) h
            ≡ ok (if all_answers line then by_product lib value else none) h)
  unfolding normal_check_mode restore_check_mode normal_get_ecid restore_check_device
      normal_check_device
  probes-Held line gives chip value h = (
    check-back line h,
    check-back line h,
    asked-back line (ecid_of chip) _ h (ecid (of_kind lib uint chip)),
    asked-back line (if gives then by_model lib value else none) _ h
        (model gives (by_model lib value)),
    asked-back line (by_product lib value) _ h
        (free_both-back (by_product lib value) h.devices h.clients),
  )
    where
      ecid :
          (chip' : Option Node)
          → (elim chip' as (λ _. State Held (Option ℕ)) [
            | none ↦ free_both none
            | some n ↦ free_both (some (uint_val n))
          ])
              (record { devices = h.devices + 1; clients = h.clients + 1 })
            ≡ ok (elim chip' [ none ↦ none | some n ↦ some (uint_val n) ]) h
      ecid none = free_both-back none h.devices h.clients
      ecid (some n) = free_both-back (some (uint_val n)) h.devices h.clients

      model :
          (b : Bool) (o : Option ℕ)
          → (if not b then free_both none else free_both o)
              (record { devices = h.devices + 1; clients = h.clients + 1 })
            ≡ ok (if b then o else none) h
      model true o = free_both-back o h.devices h.clients
      model false o = free_both-back none h.devices h.clients
