-- ===== src/Asr/Payload/Sent.antt =====
-- What `asr_send_payload` delivers.
use irestore.Prelude.{
  ℕ, zero, suc, ◌+◌, ◌-◌, ◌%◌, ◌≤◌, ◌<◌, ◌≡◌, refl, sym, ◌∙◌, ap, arith, inl, inr, Bool, true,
  false, not, List, [], ◌++◌, some, length, ltb, ◌==◌, take, drop, Bool-cases, Option-cases,
  append_assoc, append-nil, ◌⊎◌, take-take_le, take-take_ge, take_sum, drop_sum,
}
use mathlib.Core.Path.{subst}
use irestore.Effects.{Ensures, ends, bind, mono, branch}
use irestore.Asr.Link.{Link, read_at, send_buffer}
use irestore.Asr.Payload.{payload_loop, send_payload, as_positive, packet}

-- The device got the first `count` of `n` bytes, and all of them if the result is 0.
pub record Sent (bytes before : List ℕ) (n : ℕ) (done : Bool) (s : Link) : Type 0 where
  pub count : ℕ
  pub at_most : count ≤ n
  pub delivered : s.delivered ≡ before ++ take count bytes
  pub complete : done ≡ true → count ≡ n

nothing :
    (bytes before : List ℕ) (n : ℕ) (s : Link) → s.delivered ≡ before → Sent bytes before n false s
nothing bytes before n s same = record {
  count = 0;
  at_most = omega arith;
  delivered = same ∙ sym (append-nil before);
  complete = λ h. cc;
}

read_at-Ensures :
    (image : List ℕ) (offset n : ℕ) (s : Link)
    → Ensures
        (λ bytes t.
          (t.delivered ≡ s.delivered) × ((bytes ≡ take n (drop offset image)) ⊎ (bytes ≡ [])))
        (read_at image offset n s)
unfolding read_at
read_at-Ensures image offset n s = elim (Bool-cases (s.reads s.freads)) [
  | inl e ↦ rw e (ends (refl, inl refl))
  | inr e ↦ rw e (ends (refl, inr refl))
]

-- One packet that was read whole.
send_buffer-Sent :
    (bytes xs : List ℕ) (n : ℕ) (s : Link)
    → bytes ≡ take n xs
    → Ensures (λ done t. Sent xs s.delivered n done t) (send_buffer bytes n s)
unfolding send_buffer
send_buffer-Sent bytes xs n s e = elim (Option-cases (s.accepts s.sends (take n bytes))) [
  | inl lost ↦ rw (lost, send_buffer) (ends (nothing xs s.delivered n _ refl))
  | inr (k, took) ↦
      let whole : take n bytes ≡ take n xs = ap (take n) e ∙ take-take_le n n xs (omega arith) in
      rw (took, send_buffer)
        (elim (Bool-cases (ltb k n)) [
          | inl less ↦ ends (record {
            count = k;
            at_most = ground arith;
            delivered =
                ap (λ t. s.delivered ++ take k t) whole
                ∙ ap (λ t. s.delivered ++ t) (take-take_le k n xs (ground arith));
            complete = λ h. ground arith;
          })
          | inr more ↦ ends (record {
            count = n;
            at_most = omega arith;
            delivered =
                ap (λ t. s.delivered ++ take k t) whole
                ∙ ap (λ t. s.delivered ++ t) (take-take_ge k n xs (ground arith));
            complete = λ h. refl;
          })
        ])
]

-- A packet and what follows it.
Sent-append :
    (bytes before : List ℕ) (n k i : ℕ) (done : Bool) (s t : Link)
    → i ≡ n + k
    → Sent bytes before n true s
    → Sent (drop n bytes) s.delivered k done t
    → Sent bytes before i done t
Sent-append bytes before n k i done s t sum first rest =
    let got : first.count ≡ n = first.complete refl in
    record {
      count = n + rest.count;
      at_most = omega (arith, rest.at_most);
      delivered =
          rest.delivered
          ∙ ap (λ x. x ++ take rest.count (drop n bytes))
              (first.delivered ∙ ap (λ (c : ℕ). before ++ take c bytes) got)
          ∙ append_assoc before (take n bytes) (take rest.count (drop n bytes))
          ∙ ap (λ x. before ++ x) (take_sum n rest.count (n + rest.count) bytes refl);
      complete = λ h. omega (arith, rest.complete h);
    }

read_whole :
    (bytes xs : List ℕ) (n : ℕ)
    → (bytes ≡ take n xs) ⊎ (bytes ≡ [])
    → length bytes ≡ n
    → 0 < n
    → bytes ≡ take n xs
read_whole bytes xs n (inl e) len some_left = e
read_whole bytes xs n (inr e) len some_left = absurd (omega (arith, ap length e))

-- A packet that was lost leaves a prefix.
Sent-lost :
    (bytes before : List ℕ) (n i : ℕ) (done : Bool) (s : Link)
    → n ≤ i
    → done ≡ false
    → Sent bytes before n done s
    → Sent bytes before i false s
Sent-lost bytes before n i done s fits lost first = record {
  count = first.count;
  at_most = omega (arith, first.at_most);
  delivered = first.delivered;
  complete = λ h. cc;
}

not-false : (b : Bool) → not b ≡ false → b ≡ true
not-false true h = refl
not-false false h = cc

packet_bounds :
    (i : ℕ)
    → (i == 0) ≡ false
    → (0 < packet i) × (packet i ≤ i) × (i ≡ packet i + (i - 1450)) × (i - 1450 < i)
packet_bounds i h = ground arith

-- The loop ends with fuel above what is left, and delivers a prefix of what is left.
payload_loop-Sent :
    (fuel : ℕ) (image : List ℕ) (i offset : ℕ) (s : Link)
    → i < fuel
    → Ensures
        (λ done t. Sent (drop offset image) s.delivered i done t)
        (payload_loop fuel image i offset s)
unfolding payload_loop
payload_loop-Sent zero image i offset s enough = absurd (omega arith)
payload_loop-Sent (suc fuel) image i offset s enough =
    branch (i == 0) _ _ s
      (λ none_left. ends (record {
        count = 0;
        at_most = omega arith;
        delivered = sym (append-nil s.delivered);
        complete = λ _. ground arith;
      }))
      λ some_left.
        let (some_bytes, fits, split, falls) = packet_bounds i some_left in
        bind (read_at-Ensures image offset (packet i) s) λ bytes s₁ (same, read).
          branch (not (length bytes == packet i)) _ _ s₁
            (λ short. ends (nothing (drop offset image) s.delivered i s₁ same))
            λ full.
              let whole =
                read_whole bytes (drop offset image) (packet i) read (ground arith) some_bytes in
              bind (send_buffer-Sent bytes (drop offset image) (packet i) s₁ whole) λ sent s₂ first.
                let first' =
                  subst (λ (b : List ℕ). Sent (drop offset image) b (packet i) sent s₂) same
                    first in
                branch (not sent) _ _ s₂
                  (λ lost. ends (
                    Sent-lost (drop offset image) s.delivered (packet i) i sent s₂ fits
                      (ground arith) first'))
                  λ went.
                    let all_sent =
                      subst (λ (b : Bool). Sent (drop offset image) s.delivered (packet i) b s₂)
                        (not-false sent went) first' in
                    mono
                      (payload_loop-Sent fuel image (i - 1450) (offset + packet i) s₂ (omega arith))
                      λ done t rest.
                        Sent-append (drop offset image) s.delivered (packet i) (i - 1450) i done s₂
                          t split all_sent
                          (subst (λ (xs : List ℕ). Sent xs s₂.delivered (i - 1450) done t)
                            (sym (drop_sum offset (packet i) (offset + packet i) image refl)) rest)

-- An image below 2^31 bytes: whatever the connection and the disk do, `asr_send_payload` ends, the
-- device has got a prefix of the image, and the whole image if the result is 0.
pub send_payload-Sent :
    (image : List ℕ) (s : Link)
    → length image < 2147483648
    → Ensures (λ done t. Sent image s.delivered (length image) done t) (send_payload (some image) s)
unfolding send_payload
send_payload-Sent image s small =
    let size : as_positive (length image % 4294967296) ≡ length image = ground arith in
    rw size (payload_loop-Sent (length image + 1) image (length image) 0 s (omega arith))
