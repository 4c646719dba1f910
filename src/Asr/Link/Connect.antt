-- ===== src/Asr/Link/Connect.antt =====
-- `asr_open_with_timeout` of idevicerestore/src/asr.c connects at the first attempt that succeeds.
use irestore.Prelude.{
  ℕ, zero, suc, ◌+◌, ◌≤◌, ◌<◌, ◌≡◌, arith, inl, inr, Bool, true, false, Option, none, some,
  Bool-cases,
}
use irestore.Asr.Link.{connect_loop, open_with_timeout}

-- Among the attempts from `i` up to `end`, the result is the first that succeeds; null means that
-- none does.
pub record FirstSuccess (connects : ℕ → Bool) (i end : ℕ) (r : Option ℕ) : Type 0 where
  pub failed : (k : ℕ) → r ≡ none → i ≤ k → k < end → connects k ≡ false
  pub connected : (j : ℕ) → r ≡ some j → (connects j ≡ true) × (i ≤ j) × (j < end)
  pub first : (j k : ℕ) → r ≡ some j → i ≤ k → k < j → connects k ≡ false

connect_loop-FirstSuccess :
    (connects : ℕ → Bool) (i left end : ℕ)
    → end ≡ i + left
    → FirstSuccess connects i end (connect_loop connects i left)
unfolding connect_loop
connect_loop-FirstSuccess connects i zero end e = record {
  failed = λ k _ lo hi. absurd (omega arith);
  connected = λ j h. cc;
  first = λ j k h lo hi. cc;
}
connect_loop-FirstSuccess connects i (suc left) end e = elim (Bool-cases (connects i)) [
  | inl done ↦
      rw (done, connect_loop)
        (record {
          failed = λ k h lo hi. cc;
          connected = λ j h. ground arith;
          first = λ j k h lo hi. ground arith;
        })
  | inr not_yet ↦
      let rest = connect_loop-FirstSuccess connects (i + 1) left end (omega arith) in
      rw (not_yet, connect_loop)
        (record {
          failed = λ k h lo hi. ground (arith, rest.failed k h);
          connected = λ j h. ground (arith, rest.connected j h);
          first = λ j k h lo hi. ground (arith, rest.first j k h);
        })
]

-- `asr_open_with_timeout` with a device makes its attempts 1 to 10 until one connects: it succeeds
-- with the first attempt that does, and fails exactly if none of the ten does.
pub open_with_timeout-FirstSuccess :
    (connects : ℕ → Bool) → FirstSuccess connects 1 11 (open_with_timeout true connects)
unfolding open_with_timeout
open_with_timeout-FirstSuccess connects = connect_loop-FirstSuccess connects 1 10 11 (omega arith)
