-- ===== src/Asr/Link.antt =====
-- The state of an ASR connection, and `asr_open_with_timeout`, `asr_send_buffer`, `asr_send`,
-- `asr_receive` and `asr_close`.
pub mod Connect
use irestore.Prelude.{
  ℕ, zero, suc, ◌+◌, ◌-◌, ◌%◌, Bool, true, false, not, List, [], ◌∷◌, ◌++◌, Option, none, some,
  take, drop, length, ◌==◌, leb, if◌then◌else◌,
}
use irestore.Effects.{State, ok, pure, ◌>>=◌, ◌>>◌}
use irestore.Plists.{Plists}

-- What `idevice_connection_receive` gives: an error, or the bytes that have come.
pub data Receive : Type 0 where
  failed : Receive
  received : List ℕ → Receive

-- `accepts n data` is the outcome of the `n`-th `idevice_connection_send`: an error, or how many
-- bytes it took. `delivered` is what the device got. `grants n` is the `n`-th `malloc`, `reads n`
-- whether the `n`-th `fread` meets no error of the disk.
pub record Link : Type 0 where
  pub connected : Bool
  pub accepts : ℕ → List ℕ → Option ℕ
  pub sends : ℕ
  pub delivered : List ℕ
  pub inbox : List Receive
  pub grants : ℕ → Bool
  pub mallocs : ℕ
  pub reads : ℕ → Bool
  pub freads : ℕ

abbrev u32_mod : ℕ
u32_mod = 4294967296

unfoldable pub malloc : State Link Bool
malloc s = ok (s.grants s.mallocs) (record s { mallocs = s.mallocs + 1 })

-- `fseek` to `offset` and `fread` of `n` bytes from an image; the result is what `fread` stored
unfoldable pub read_at : List ℕ → ℕ → ℕ → State Link (List ℕ)
read_at image offset n s =
    ok (if s.reads s.freads then take n (drop offset image) else [])
      (record s { freads = s.freads + 1 })

-- `asr_send_buffer`; `size` is a `uint32_t`
unfoldable pub send_buffer : List ℕ → ℕ → State Link Bool
send_buffer bytes size s = elim (s.accepts s.sends (take size bytes)) [
  | none ↦ ok false (record s { sends = s.sends + 1 })
  | some n ↦
      ok (n == size)
        (record s { sends = s.sends + 1; delivered = s.delivered ++ take n (take size bytes) })
]

-- The loop of `asr_open_with_timeout`: attempt `i` of `attempts`, with `left` attempts to go. The
-- result is the number of the attempt that connected.
unfoldable pub connect_loop : (ℕ → Bool) → ℕ → ℕ → Option ℕ
connect_loop connects i zero = none
connect_loop connects i (suc left) = elim (connects i) [
  | true ↦ some i
  | false ↦ connect_loop connects (i + 1) left
]

-- `asr_open_with_timeout`; no device is an error. Ten attempts, with a pause behind each failure
-- but the last.
unfoldable pub open_with_timeout : Bool → (ℕ → Bool) → Option ℕ
open_with_timeout has_device connects = if not has_device then none else connect_loop connects 1 10

-- `asr_close`
unfoldable pub close : State Link (Unit {0})
close s = ok tt (record s { connected = false })

module _ (lib : Plists) where
  open lib use {Node, to_xml, from_xml}

  -- `asr_send`
  unfoldable pub send : Node → State Link Bool
  send node = send_buffer (to_xml node) (length (to_xml node) % u32_mod)

  -- `asr_receive` on what has come: an error, or `*data`, which is null if it is no XML
  unfoldable pub receive : Receive → State Link (Option (Option Node))
  receive event = do
    got ← malloc
    if not got then pure none else elim event [
      | failed ↦ pure none
      | received bytes ↦ pure (some (from_xml (take 65536 bytes)))
    ]
