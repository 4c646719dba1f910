-- ===== src/Normal/Connection/Waiting.antt =====
-- When `normal_open_with_timeout` succeeds, and what it leaves behind.
use irestore.Prelude.{
  ℕ, zero, suc, ◌+◌, ◌-◌, ◌<◌, ◌≡◌, ◌∙◌, ap, arith, refl, Bool, true, false, List, [], ◌∷◌, none,
  some, if◌then◌else◌,
}
use irestore.Effects.{ok, fault}
use irestore.Devices.{Line, service_free, idevice_free}
use irestore.Restore.Session.{Event, device_add, device_remove, opened, unwritten}
use irestore.Normal.Probes.{all_answers}
use irestore.Normal.Connection.{
  NormalClient, normal_callback, deliver, wait_loop, Surroundings, connect, subscribe_and_connect,
  normal_open, normal_client_free,
}

-- No event comes before `n` looks from `i` on.
abbrev pub Quiet : (ℕ → List Event) → ℕ → ℕ → Type 0
Quiet events i n = (k : ℕ) → k < n → events (i + k) ≡ []

not_yet : {A : Type 0} (b : Bool) (x y : A) → b ≡ false → (if b then x else y) ≡ y
not_yet b x y h = rw h refl

-- Looks without an event before them change nothing.
wait_loop-Quiet :
    (events : ℕ → List Event) (k i j rest left : ℕ) (c : NormalClient)
    → left ≡ rest + k
    → j ≡ i + k
    → Quiet events i k
    → c.connected ≡ false
    → wait_loop events i left c ≡ wait_loop events j rest c
unfolding wait_loop deliver
wait_loop-Quiet events zero i j rest left c total there quiet waits =
    rw (the_same left rest (omega (arith, total)), the_same j i (omega (arith, there))) refl
  where
    the_same : (a b : ℕ) → a ≡ b → a ≡ b
    the_same a b e = e
wait_loop-Quiet events (suc k) i j rest zero c total there quiet waits = ground arith
wait_loop-Quiet events (suc k) i j rest (suc left) c total there quiet waits = rw (here quiet) (
    not_yet c.connected _ _ waits
    ∙ wait_loop-Quiet events k (i + 1) j rest left c (omega arith) (omega arith) (later quiet)
        waits)
  where
    here : Quiet events i (suc k) → events i ≡ []
    here quiet = ap events (ground arith) ∙ quiet 0 (omega arith)

    later : Quiet events i (suc k) → Quiet events (i + 1) k
    later quiet n below = ap events (next i n) ∙ quiet (n + 1) (omega arith)
      where
        next : (i n : ℕ) → i + 1 + n ≡ i + (n + 1)
        next i n = omega arith

-- The first event before a look, the `k + 1`-st, is that the device comes, alone.
wait_loop-add :
    (events : ℕ → List Event) (k : ℕ) (c : NormalClient)
    → k < 10
    → Quiet events 1 k
    → events (k + 1) ≡ device_add ∷ []
    → c.connected ≡ false
    → wait_loop events 1 9 c ≡ ok true (record c { connected = true })
unfolding wait_loop deliver normal_callback
wait_loop-add events k c below quiet comes waits =
    wait_loop-Quiet events k 1 (k + 1) (9 - k) 9 c (omega arith) (omega arith) quiet waits
    ∙ now (9 - k)
  where
    now : (left : ℕ) → wait_loop events (k + 1) left c ≡ ok true (record c { connected = true })
    now zero = rw comes refl
    now (suc left) = rw comes refl

wait_loop-remove :
    (events : ℕ → List Event) (k : ℕ) (es : List Event) (c : NormalClient)
    → k < 10
    → Quiet events 1 k
    → events (k + 1) ≡ device_remove ∷ es
    → c.connected ≡ false
    → wait_loop events 1 9 c ≡ fault
unfolding wait_loop deliver normal_callback
wait_loop-remove events k es c below quiet goes waits =
    wait_loop-Quiet events k 1 (k + 1) (9 - k) 9 c (omega arith) (omega arith) quiet waits
    ∙ now (9 - k)
  where
    now : (left : ℕ) → wait_loop events (k + 1) left c ≡ fault
    now zero = rw goes refl
    now (suc left) = rw goes refl

wait_loop-none :
    (events : ℕ → List Event) (c : NormalClient)
    → Quiet events 1 10
    → c.connected ≡ false
    → wait_loop events 1 9 c ≡ ok false c
unfolding wait_loop deliver
wait_loop-none events c quiet waits =
    wait_loop-Quiet events 9 1 10 0 9 c refl refl (λ k below. quiet k (omega arith)) waits
    ∙ rw (quiet 9 (omega arith)) (ap (λ b. ok b c) waits)

-- the client behind an opening that fails, and one that succeeds
abbrev pub failed : NormalClient → NormalClient
failed c = record c { normal = some unwritten }

abbrev pub connected_to : NormalClient → NormalClient
connected_to c = record c {
  normal = some opened;
  connected = true;
  held = record { devices = c.held.devices + 1; clients = c.held.clients + 1 };
}

connect-connected_to :
    (line : Line) (c : NormalClient)
    → all_answers line ≡ true
    → connect line (record c { normal = some unwritten; connected = true })
      ≡ ok true (connected_to c)
unfolding connect
connect-connected_to line c answers = ground arith

-- Without a session and without the device being there, where the first event before one of the
-- ten looks decides: if the device comes, and answers, then the session is opened, and
-- `normal_client_free` gives back all of its handles; if something is removed, it is a fault; and if
-- no event comes, it is an error, and then `normal_client_free` is a fault.
pub normal_open-first_event :
    (around : Surroundings) (k : ℕ) (es : List Event) (c : NormalClient)
    → c.normal ≡ none
    → c.connected ≡ false
    → around.grants ≡ true
    → around.subscribes ≡ true
    → k < 10
    → Quiet around.events 1 k
    → (around.events (k + 1) ≡ device_add ∷ []
        → all_answers around.line ≡ true
        → (normal_open around c ≡ ok true (connected_to c))
          × (normal_client_free (connected_to c)
              ≡ ok tt (record c { connected = true; normal = none })))
      × (around.events (k + 1) ≡ device_remove ∷ es → normal_open around c ≡ fault)
      × (Quiet around.events 1 10
          → (normal_open around c ≡ ok false (failed c)) × (normal_client_free (failed c) ≡ fault))
unfolding normal_open subscribe_and_connect connect normal_client_free service_free idevice_free
normal_open-first_event around k es c closed waits granted subscribed below quiet = (
  λ comes answers. (
    rw
        (
          closed,
          granted,
          subscribed,
          wait_loop-add around.events k (failed c) below quiet comes waits,
        )
        (connect-connected_to around.line c answers),
    ground arith,
  ),
  λ goes.
      rw
        (
          closed,
          granted,
          subscribed,
          wait_loop-remove around.events k es (failed c) below quiet goes waits,
        )
        refl,
  λ none_comes. (
    rw (closed, granted, subscribed, wait_loop-none around.events (failed c) none_comes waits) refl,
    refl,
  ),
)
