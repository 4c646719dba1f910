-- ===== src/Effects.antt =====
-- Functions that change a state, fault on undefined behaviour, and may run out of fuel.
use irestore.Prelude.{◌≡◌, refl, Bool, true, false, Option, none, some, if◌then◌else◌}

pub data Run (S A : Type 0) : Type 0 where
  ok : A → S → Run S A
  fault : Run S A
  out_of_fuel : Run S A

abbrev pub State : Type 0 → Type 0 → Type 0
State S A = S → Run S A

module _ {S : Type 0} where
  abbrev pub and_then : {A B : Type 0} → Run S A → (A → State S B) → Run S B
  and_then (ok a s) f = f a s
  and_then fault f = fault
  and_then out_of_fuel f = out_of_fuel

  infixl 5 ◌>>=◌ ◌>>◌
  abbrev pub ◌>>=◌ : {A B : Type 0} → State S A → (A → State S B) → State S B
  ◌>>=◌ r f s = and_then (r s) f

  abbrev pub ◌>>◌ : {A B : Type 0} → State S A → State S B → State S B
  ◌>>◌ r t = r >>= λ _. t

  abbrev pub pure : {A : Type 0} → A → State S A
  pure a s = ok a s

  -- What the code reads is there, or the read is a fault.
  abbrev pub demand : {A : Type 0} → Option A → State S A
  demand none s = fault
  demand (some a) s = ok a s

  -- `if (p == NULL) return failure;` and what follows, on the value of `p`
  abbrev pub require : {A B : Type 0} → B → Option A → (A → State S B) → State S B
  require failure none next s = ok failure s
  require failure (some a) next s = next a s

  -- Every run that does not fault ends, and then `P` holds of its result.
  pub data Ensures {A : Type 0} (P : A → S → Type 0) : Run S A → Type 0 where
    ends : {a : A} {s : S} → P a s → Ensures P (ok a s)
    faults : Ensures P fault

  module _ {A : Type 0} {P : A → S → Type 0} where
    pub bind :
        {B : Type 0} {Q : B → S → Type 0} {r : Run S A} {k : A → State S B}
        → Ensures P r
        → ((a : A) (s : S) → P a s → Ensures Q (k a s))
        → Ensures Q (and_then r k)
    bind (ends p) next = next _ _ p
    bind faults next = faults

    pub mono :
        {Q : A → S → Type 0} {r : Run S A}
        → Ensures P r
        → ((a : A) (s : S) → P a s → Q a s)
        → Ensures Q r
    mono (ends p) weaken = ends (weaken _ _ p)
    mono faults weaken = faults

    pub branch :
        (b : Bool) (x y : State S A) (s : S)
        → (b ≡ true → Ensures P (x s))
        → (b ≡ false → Ensures P (y s))
        → Ensures P ((if b then x else y) s)
    branch true x y s yes_case no_case = yes_case refl
    branch false x y s yes_case no_case = no_case refl

    -- the same where the state has been handed over
    pub branch_run :
        (b : Bool) (x y : Run S A)
        → (b ≡ true → Ensures P x)
        → (b ≡ false → Ensures P y)
        → Ensures P (if b then x else y)
    branch_run true x y yes_case no_case = yes_case refl
    branch_run false x y yes_case no_case = no_case refl

    pub require-Ensures :
        {B : Type 0} (failure : A) (o : Option B) (next : B → State S A) (s : S)
        → (o ≡ none → P failure s)
        → ((b : B) → o ≡ some b → Ensures P (next b s))
        → Ensures P (require failure o next s)
    require-Ensures failure none next s refused held = ends (refused refl)
    require-Ensures failure (some b) next s refused held = held b refl

  module _ {A : Type 0} where
    pub demand-Ensures : (o : Option A) (s : S) → Ensures (λ a _. o ≡ some a) (demand o s)
    demand-Ensures none s = faults
    demand-Ensures (some a) s = ends refl

    pub demand_bind :
        {B : Type 0} (o : Option A) (a : A) (k : A → State S B) (s : S)
        → o ≡ some a
        → and_then (demand o s) k ≡ k a s
    demand_bind o a k s e = rw e

  -- Every run that ends has a result and a state with `P`; it may also fault or never end.
  pub data Allows {A : Type 0} (P : A → S → Type 0) : Run S A → Type 0 where
    gives : {a : A} {s : S} → P a s → Allows P (ok a s)
    faulty : Allows P fault
    endless : Allows P out_of_fuel

  -- what holds of the result of a run
  abbrev Meets : {A : Type 0} → (A → S → Type 0) → Run S A → Type 0
  Meets P (ok a s) = P a s
  Meets P fault = Unit {0}
  Meets P out_of_fuel = Unit {0}

  module _ {A : Type 0} {P : A → S → Type 0} where
    meets : {r : Run S A} → Allows P r → Meets P r
    meets (gives p) = p
    meets faulty = tt
    meets endless = tt

    pub Ensures→Allows : {r : Run S A} → Ensures P r → Allows P r
    Ensures→Allows (ends p) = gives p
    Ensures→Allows faults = faulty

    pub allow :
        {B : Type 0} {Q : B → S → Type 0} {r : Run S A} {k : A → State S B}
        → Allows P r
        → ((a : A) (s : S) → P a s → Allows Q (k a s))
        → Allows Q (and_then r k)
    allow (gives p) next = next _ _ p
    allow faulty next = faulty
    allow endless next = endless

    pub mono_allow :
        {Q : A → S → Type 0} {r : Run S A}
        → Allows P r
        → ((a : A) (s : S) → P a s → Q a s)
        → Allows Q r
    mono_allow (gives p) weaken = gives (weaken _ _ p)
    mono_allow faulty weaken = faulty
    mono_allow endless weaken = endless

    pub allow_if :
        (b : Bool) (x y : State S A) (s : S)
        → (b ≡ true → Allows P (x s))
        → (b ≡ false → Allows P (y s))
        → Allows P ((if b then x else y) s)
    allow_if true x y s yes_case no_case = yes_case refl
    allow_if false x y s yes_case no_case = no_case refl

    pub allow_require :
        {B : Type 0} (failure : A) (o : Option B) (next : B → State S A) (s : S)
        → P failure s
        → ((b : B) → o ≡ some b → Allows P (next b s))
        → Allows P (require failure o next s)
    allow_require failure none next s refused held = gives refused
    allow_require failure (some b) next s refused held = held b refl

    pub given : {a : A} {s : S} {r : Run S A} → Allows P r → r ≡ ok a s → P a s
    given h e = rw e at (meets h)

  pub anything : {A : Type 0} (r : Run S A) → Allows (λ _ _. Unit {0}) r
  anything (ok a s) = gives tt
  anything fault = faulty
  anything out_of_fuel = endless
