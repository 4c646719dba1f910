-- ===== src/Asr/Payload/Perfect.antt =====
-- `asr_send_payload` over a connection and a disk that do not fail.
use irestore.Prelude.{
  ℕ, zero, suc, ◌+◌, ◌-◌, ◌%◌, ◌<◌, ◌≡◌, refl, sym, ◌∙◌, ap, arith, inl, inr, true, List, ◌++◌,
  some, length, ◌==◌, take, drop, length-take, length-drop, Bool-cases, take_all, eq→==,
}
use irestore.Effects.{ok, Ensures, ends}
use irestore.Asr.Link.{Link, read_at, send_buffer}
use irestore.Asr.Payload.{payload_loop, send_payload, as_positive, packet}
use irestore.Asr.Payload.Sent.{send_payload-Sent}

-- Every send takes all that it is given, and every read of the disk succeeds.
pub record IsPerfect (s : Link) : Type 0 where
  pub takes : (n : ℕ) (bytes : List ℕ) → s.accepts n bytes ≡ some (length bytes)
  pub reads : (n : ℕ) → s.reads n ≡ true

-- the state behind a packet
abbrev sent_packet : List ℕ → Link → Link
sent_packet bytes s = record s {
  sends = s.sends + 1;
  delivered = s.delivered ++ bytes;
  freads = s.freads + 1;
}

pub one_packet :
    (bytes : List ℕ) (n : ℕ) (s : Link)
    → IsPerfect s
    → length bytes ≡ n
    → send_buffer bytes n s
      ≡ ok true (record s { sends = s.sends + 1; delivered = s.delivered ++ bytes })
unfolding send_buffer
one_packet bytes n s perfect size =
    let all : take n bytes ≡ bytes = ap (λ (k : ℕ). take k bytes) (sym size) ∙ take_all bytes in
    rw (perfect.takes s.sends (take n bytes), send_buffer)
      (rw (all, size, all)
        (ap (λ b. ok b (record s { sends = s.sends + 1; delivered = s.delivered ++ bytes }))
          (eq→== n n refl)))

payload_loop-true :
    (fuel : ℕ) (image : List ℕ) (i offset : ℕ) (s : Link)
    → IsPerfect s
    → offset + i ≡ length image
    → i < fuel
    → (t : Link) × (payload_loop fuel image i offset s ≡ ok true t)
unfolding payload_loop read_at
payload_loop-true zero image i offset s perfect inside enough = absurd (omega arith)
payload_loop-true (suc fuel) image i offset s perfect inside enough = elim (Bool-cases (i == 0)) [
  | inl over ↦ (s, rw over)
  | inr more ↦
      let len : length (take (packet i) (drop offset image)) ≡ packet i =
        length-take (packet i) (drop offset image) (ground (arith, length-drop offset image)) in
      let packet_is = take (packet i) (drop offset image) in
      let next =
        payload_loop-true fuel image (i - 1450) (offset + packet i) (sent_packet packet_is s)
          (record { takes = perfect.takes; reads = perfect.reads }) (ground arith) (ground arith) in
      (
        next.0,
        rw
            (
              more,
              perfect.reads s.freads,
              len,
              eq→== (packet i) (packet i) refl,
              one_packet packet_is (packet i) (record s { freads = s.freads + 1 })
                  (record { takes = perfect.takes; reads = perfect.reads }) len,
            )
            (next.1),
      )
]

-- what one knows of a run that ended
ended : {A : Type 0} {P : A → Link → Type 0} {a : A} {t : Link} → Ensures P (ok a t) → P a t
ended (ends p) = p

-- An image below 2^31 bytes over a perfect connection and disk: `asr_send_payload` succeeds, and
-- what the device has got more is exactly the image.
pub send_payload-delivered :
    (image : List ℕ) (s : Link)
    → IsPerfect s
    → length image < 2147483648
    → (t : Link) × (send_payload (some image) s ≡ ok true t) × (t.delivered ≡ s.delivered ++ image)
unfolding send_payload
send_payload-delivered image s perfect small =
    let size : as_positive (length image % 4294967296) ≡ length image = ground arith in
    let run =
      payload_loop-true (length image + 1) image (length image) 0 s perfect (omega arith)
        (omega arith) in
    let run' = rw (← size) at run in
    let sent = ended (rw (run'.1) at (send_payload-Sent image s small)) in
    (
      run'.0,
      run'.1,
      sent.delivered
          ∙ ap (λ t. s.delivered ++ t)
              (ap (λ (c : ℕ). take c image) (sent.complete refl) ∙ take_all image),
    )
