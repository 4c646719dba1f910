-- ===== src/Asr/Payload.antt =====
-- `asr_send_payload` of idevicerestore/src/asr.c: the whole image in packets of 1450 bytes.
pub mod Sent
pub mod Perfect
use irestore.Prelude.{
  ℕ, zero, suc, ◌+◌, ◌-◌, ◌%◌, Bool, true, false, not, List, Option, none, some, length, ltb, ◌==◌,
  if◌then◌else◌,
}
use irestore.Effects.{State, pure, out_of_fuel, ◌>>=◌}
use irestore.Asr.Link.{Link, read_at, send_buffer}

abbrev u32_mod : ℕ
u32_mod = 4294967296

-- `int i = length`: a bit pattern from 2^31 on is negative, and the loop makes no round.
abbrev pub as_positive : ℕ → ℕ
as_positive n = if ltb n 2147483648 then n else 0

abbrev pub packet : ℕ → ℕ
packet i = if ltb i 1450 then i else 1450

-- The `for` loop: `i` bytes are left, and the file position is `offset`. `i -= 1450` below 0 ends
-- the loop, as 0 does.
unfoldable pub payload_loop : ℕ → List ℕ → ℕ → ℕ → State Link Bool
payload_loop zero image i offset = λ _. out_of_fuel
payload_loop (suc fuel) image i offset = if i == 0 then pure true else do
  bytes ← read_at image offset (packet i)
  if not (length bytes == packet i) then pure false else do
    sent ← send_buffer bytes (packet i)
    if not sent then pure false else payload_loop fuel image (i - 1450) (offset + packet i)

-- `asr_send_payload`; none is a file that does not open. `uint32_t length` drops the high bits.
unfoldable pub send_payload : Option (List ℕ) → State Link Bool
send_payload none = pure false
send_payload (some image) =
    payload_loop (as_positive (length image % u32_mod) + 1) image
      (as_positive (length image % u32_mod)) 0
