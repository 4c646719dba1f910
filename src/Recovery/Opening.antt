-- ===== src/Recovery/Opening.antt =====
-- What `recovery_open_with_timeout` of idevicerestore/src/recovery.c leaves as it was.
use irestore.Prelude.{ℕ, zero, suc, ◌+◌, ◌≡◌, ◌∙◌, refl, Bool, true, false, not, Option, none, some}
use irestore.Effects.{Ensures, ends, faults, bind, mono, branch, branch_run, ok, fault}
use irestore.Restore.Session.{Pointer, null, valid, junk}
use irestore.Recovery.{Handset, open_loop, recovery_client_new, recovery_client_free, recovery_open}

-- All but the connection in recovery mode is the same.
pub record Keeps (s t : Handset) : Type 0 where
  pub same_log : t.log ≡ s.log
  pub same_requests : t.requests ≡ s.requests
  pub same_memory : t.memory ≡ s.memory
  pub same_client : t.client ≡ s.client
  pub same_mode : t.mode ≡ s.mode
  pub same_held : t.held ≡ s.held

pub Keeps-refl : (s : Handset) → Keeps s s
Keeps-refl s = record {
  same_log = refl;
  same_requests = refl;
  same_memory = refl;
  same_client = refl;
  same_mode = refl;
  same_held = refl;
}

pub Keeps-trans : {s t u : Handset} → Keeps s t → Keeps t u → Keeps s u
Keeps-trans first second = record {
  same_log = second.same_log ∙ first.same_log;
  same_requests = second.same_requests ∙ first.same_requests;
  same_memory = second.same_memory ∙ first.same_memory;
  same_client = second.same_client ∙ first.same_client;
  same_mode = second.same_mode ∙ first.same_mode;
  same_held = second.same_held ∙ first.same_held;
}

-- a connection of its own
abbrev reached : Option Pointer → ℕ → Handset → Handset
reached recovery tries s = record s { recovery = recovery; tries = tries }

reached-Keeps :
    (recovery : Option Pointer) (tries : ℕ) (s : Handset) → Keeps s (reached recovery tries s)
reached-Keeps recovery tries s = record {
  same_log = refl;
  same_requests = refl;
  same_memory = refl;
  same_client = refl;
  same_mode = refl;
  same_held = refl;
}

open_loop-Keeps : (n : ℕ) (s : Handset) → Ensures (λ _ t. Keeps s t) (open_loop n s)
unfolding open_loop
open_loop-Keeps zero s = ends (Keeps-refl s)
open_loop-Keeps (suc n) s = attempt (s.opens s.tries) (
    mono (open_loop-Keeps n (reached s.recovery (s.tries + 1) s))
      λ _ t k. Keeps-trans (reached-Keeps s.recovery (s.tries + 1) s) k)
  where
    attempt :
        (b : Bool)
        → Ensures (λ _ t. Keeps s t) (open_loop n (reached s.recovery (s.tries + 1) s))
        → Ensures
            (λ _ t. Keeps s t)
            (elim b [
              | true ↦ ok true (record s { tries = s.tries + 1; recovery = some valid })
              | false ↦ open_loop n (record s { tries = s.tries + 1 })
            ])
    attempt true rest = ends (reached-Keeps (some valid) (s.tries + 1) s)
    attempt false rest = rest

free-Keeps : (s : Handset) → Ensures (λ _ t. Keeps s t) (recovery_client_free s)
unfolding recovery_client_free
free-Keeps s = cases s.recovery
  where
    cases :
        (o : Option Pointer)
        → Ensures
            (λ _ t. Keeps s t)
            (elim o [
              | none ↦ ok (tt {0}) s
              | some junk ↦ fault
              | some _ ↦ ok (tt {0}) (record s { recovery = none })
            ])
    cases none = ends (Keeps-refl s)
    cases (some null) = ends (reached-Keeps none s.tries s)
    cases (some valid) = ends (reached-Keeps none s.tries s)
    cases (some junk) = faults

new-Keeps : (s : Handset) → Ensures (λ _ t. Keeps s t) (recovery_client_new s)
unfolding recovery_client_new
new-Keeps s =
    branch_run (not s.grants) _ _ (λ _. ends (Keeps-refl s))
      λ _. bind (open_loop-Keeps 10 (reached (some junk) s.tries s)) λ done t k.
        let k' = Keeps-trans (reached-Keeps (some junk) s.tries s) k in
        branch (not done) _ _ t (λ _. bind (free-Keeps t) λ _ u l. ends (Keeps-trans k' l))
          λ _. ends k'

-- `recovery_open_with_timeout` ends, and changes only the connection.
pub recovery_open-Keeps : (s : Handset) → Ensures (λ _ t. Keeps s t) (recovery_open s)
unfolding recovery_open
recovery_open-Keeps s = cases s.recovery
  where
    cases :
        (o : Option Pointer)
        → Ensures
            (λ _ t. Keeps s t)
            (elim o [ none ↦ recovery_client_new s | some _ ↦ open_loop 10 s ])
    cases none = new-Keeps s
    cases (some p) = open_loop-Keeps 10 s
