-- ===== src/Memory.antt =====
-- C memory as the code uses it: `malloc` and `free` by a counter of live blocks, reads outside a
-- buffer as a fault, loops that run out of fuel as a value of their own.
use irestore.Prelude.{
  ℕ, ◌+◌, ◌-◌, ◌≡◌, refl, Bool, true, false, List, take, length, leb, ◌≤◌, Bool-cases, inl, inr,
  arith, if◌then◌else◌,
}
pub use irestore.Effects.{
  Run, ok, fault, out_of_fuel, and_then, ◌>>=◌, ◌>>◌, pure, demand, require, Ensures, ends, faults,
  bind, mono, branch, require-Ensures, demand-Ensures, demand_bind,
}
use irestore.Effects.{State}

-- `grants n` says whether the `n`-th call of `malloc` finds memory.
pub record Mem : Type 0 where
  pub grants : ℕ → Bool
  pub calls : ℕ
  pub live : ℕ

abbrev pub M : Type 0 → Type 0
M A = State Mem A

unfoldable pub malloc : M Bool
malloc m =
    if m.grants m.calls
    then ok true (record m { calls = m.calls + 1; live = m.live + 1 })
    else ok false (record m { calls = m.calls + 1 })

unfoldable pub free : M (Unit {0})
free m = ok tt (record m { live = m.live - 1 })

-- `memcpy` of `n` bytes from `src`.
abbrev pub memcpy : ℕ → List ℕ → M (List ℕ)
memcpy n src = if leb n (length src) then pure (take n src) else λ m. fault

pub malloc_granted :
    (m : Mem)
    → m.grants m.calls ≡ true
    → malloc m ≡ ok true (record m { calls = m.calls + 1; live = m.live + 1 })
unfolding malloc
malloc_granted m h = rw h

pub malloc-Ensures : (m : Mem) → Ensures (λ _ _. Unit {0}) (malloc m)
unfolding malloc
malloc-Ensures m = elim (Bool-cases (m.grants m.calls)) [
  | inl e ↦ rw e (ends tt)
  | inr e ↦ rw e (ends tt)
]

pub memcpy-Ensures :
    (n : ℕ) (src : List ℕ) (m : Mem)
    → Ensures (λ bytes _. (bytes ≡ take n src) × (n ≤ length src)) (memcpy n src m)
memcpy-Ensures n src m =
    branch (leb n (length src)) (pure (take n src)) (λ _. fault) m (λ e. ends (refl, ground arith))
      (λ e. faults)

pub free-Ensures : (m : Mem) → Ensures (λ _ _. Unit {0}) (free m)
unfolding free
free-Ensures m = ends tt

-- the state after `n` calls of `malloc` that found memory
abbrev pub grown : ℕ → Mem → Mem
grown n m = record m { calls = m.calls + n; live = m.live + n }

pub grown-grown : (k n : ℕ) (m : Mem) → grown n (grown k m) ≡ grown (k + n) m
grown-grown k n m = ground arith

pub malloc-grown : (m : Mem) → ((n : ℕ) → m.grants n ≡ true) → malloc m ≡ ok true (grown 1 m)
malloc-grown m plenty = malloc_granted m (plenty m.calls)

-- Every call of `malloc` finds memory.
abbrev pub Plenty : Mem → Type 0
Plenty m = (n : ℕ) → m.grants n ≡ true
