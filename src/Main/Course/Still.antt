-- ===== src/Main/Course/Still.antt =====
-- Steps of `main` that leave the mode of the device as it is.
use irestore.Prelude.{ℕ, ◌≡◌, ◌∙◌, refl, Bool, not, List, [], ◌∷◌, Option, none, some}
use irestore.Effects.{
  Run, State, Allows, gives, faulty, endless, Ensures→Allows, allow, allow_if, mono_allow, ok,
  fault, out_of_fuel,
}
use irestore.Memory.{Mem}
use irestore.Devices.{Held}
use irestore.Identify.{Mode}
use irestore.Restore.Session.{Pointer, null, valid, junk, Client}
use irestore.Recovery.{
  Handset, put_memory, put_client, put_held, open_unless, open_if_null, with_handle,
  recovery_get_id,
}
use irestore.Recovery.Opening.{recovery_open-Keeps}
use irestore.Main.Machine.{Machine, put_handset, put_unit, same_mode}
use irestore.Main.Course.{print, print_of, when_mode}

-- the mode stays
abbrev pub Still : {Node A : Type 0} → Mode → A → Machine Node → Type 0
Still mode _ t = t.handset.mode ≡ mode

-- the same for a step in normal or recovery mode
abbrev pub Stays : {A : Type 0} → Mode → Run Handset A → Type 0
Stays mode r = Allows (λ _ t. t.mode ≡ mode) r

pub memory-Stays : {A : Type 0} (s : Handset) (r : Run Mem A) → Stays s.mode (put_memory s r)
memory-Stays s (ok a m) = gives refl
memory-Stays s fault = faulty
memory-Stays s out_of_fuel = endless

pub client-Stays : {A : Type 0} (s : Handset) (r : Run Client A) → Stays s.mode (put_client s r)
client-Stays s (ok a m) = gives refl
client-Stays s fault = faulty
client-Stays s out_of_fuel = endless

pub held-Stays : {A : Type 0} (s : Handset) (r : Run Held A) → Stays s.mode (put_held s r)
held-Stays s (ok a m) = gives refl
held-Stays s fault = faulty
held-Stays s out_of_fuel = endless

pub get_id-Stays : (read : Option ℕ) (s : Handset) → Stays s.mode (recovery_get_id read s)
unfolding recovery_get_id open_if_null
get_id-Stays read s =
    allow (unless s.recovery)
      λ done t is. allow_if (not done) _ _ t (λ _. gives is) λ _. handled t.recovery t is
  where
    handled :
        (o : Option Pointer) (t : Handset)
        → t.mode ≡ s.mode
        → Stays s.mode (with_handle o (λ u. ok read u) t)
    handled none t is = faulty
    handled (some null) t is = faulty
    handled (some valid) t is = gives is
    handled (some junk) t is = faulty

    unless : (o : Option Pointer) → Stays s.mode (open_unless o s)
    unless none = mono_allow (Ensures→Allows (recovery_open-Keeps s)) λ _ _ k. k.same_mode
    unless (some p) = gives refl

module _ {Node : Type 0} where
  pub handset-Still :
      {A : Type 0} {mode : Mode} (m : Machine Node) {r : Run Handset A}
      → Stays mode r
      → Allows (Still mode) (put_handset m r)
  handset-Still m (gives p) = gives p
  handset-Still m faulty = faulty
  handset-Still m endless = endless

  pub unit-Still :
      {A : Type 0} (m : Machine Node) (r : Run (Unit {0}) A)
      → Allows (Still m.handset.mode) (put_unit m r)
  unit-Still m (ok a u) = gives refl
  unit-Still m fault = faulty
  unit-Still m out_of_fuel = endless

  print-Still : (ls : List (List ℕ)) (m : Machine Node) → Allows (Still m.handset.mode) (print ls m)
  print-Still [] m = gives refl
  print-Still (l ∷ ls) m = print-Still ls _

  pub print_of-Still :
      (lines : Node → List (List ℕ)) (o : Option Node) (m : Machine Node)
      → Allows (Still m.handset.mode) (print_of lines o m)
  print_of-Still lines none m = gives refl
  print_of-Still lines (some node) m = print-Still (lines node) m

  -- a step from a state that has the mode
  pub still :
      {A : Type 0} {mode : Mode} (m : Machine Node) {r : Run (Machine Node) A}
      → Allows (Still m.handset.mode) r
      → m.handset.mode ≡ mode
      → Allows (Still mode) r
  still m h is = mono_allow h λ _ _ same. same ∙ is

pub when-Stays :
    (mode : Mode) (step : State Handset Bool) (s : Handset)
    → Stays s.mode (step s)
    → Stays s.mode (when_mode mode step s)
when-Stays mode step s h = allow_if (same_mode s.mode mode) _ _ s (λ _. h) λ _. gives refl
