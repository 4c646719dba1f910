-- ===== src/Activate/Course/Released.antt =====
-- ideviceactivate gives back the handles of the device and of lockdownd on every path.
use irestore.Prelude.{
  ℕ, ◌+◌, ◌≡◌, ◌∙◌, refl, arith, Bool, true, false, not, ◌&&◌, List, Option, none, some, take,
  length, ltb, ◌==◌, if◌then◌else◌,
}
use irestore.Effects.{
  State, gives, faulty, allow, allow_if, allow_require, ok, and_then, pure, require, ◌>>=◌, ◌>>◌,
}
use irestore.Memory.{malloc, free}
use irestore.Text.{codes}
use irestore.Plists.{Plists}
use irestore.Devices.{Held, idevice_new, idevice_free, service_new, service_free}
use irestore.Activate.Bench.{Bench, put_held, on_held}
use irestore.Activate.Cache.Kept.{check_cache-fault}
use irestore.Activate.Record.{Service, fetch_record}
use irestore.Activate.Record.Leaves.{Leaves, then-Leaves, memory-Leaves, fetch_record-Leaves}
use irestore.Activate.Course.{
  Settings, Around, free_up, end_with, buffer_read_from_filename, parse_buffer,
  plist_read_from_filename, do_activation, init_lockdownd, get_record, activate, checked, run,
}

-- the handles of a device and of its lockdownd client, and those from before
abbrev connected : Held → Held
connected h = record { devices = h.devices + 1; clients = h.clients + 1 }

end_with-back :
    (h : Held) (result : Bool) (b : Bench)
    → b.held ≡ connected h
    → end_with result b ≡ ok result (record b { held = h })
unfolding free_up idevice_free service_free
end_with-back h result b has = rw has (ground arith)

module _ (lib : Plists) (service : Service lib.Node) (around : Around lib.Node) where
  open lib use {Node}

  buffer-Leaves :
      (name : List ℕ) (b : Bench)
      → Leaves b.held (buffer_read_from_filename lib service around name b)
  unfolding buffer_read_from_filename
  buffer-Leaves name b = allow_require none (b.holds name) _ b refl λ file _.
      then-Leaves (memory-Leaves b (malloc b.memory)) λ got t.
        allow_if (not got) _ _ t (λ _. faulty)
          λ _.
            allow_if (not (length (take around.gives file) == length file)) _ _ t
              (λ _. then-Leaves (memory-Leaves t (free t.memory)) λ _ u. gives refl) λ _. gives refl

  parse_buffer-Leaves :
      (buffer : List ℕ) (b : Bench) → Leaves b.held (parse_buffer lib service around buffer b)
  unfolding parse_buffer
  parse_buffer-Leaves buffer b =
      allow_if (ltb (length buffer) 8) _ _ b (λ _. faulty)
        λ _. then-Leaves (memory-Leaves b (free b.memory)) λ _ u. gives refl

  plist_read-Leaves :
      (name : List ℕ) (b : Bench)
      → Leaves b.held (plist_read_from_filename lib service around name b)
  unfolding plist_read_from_filename
  plist_read-Leaves name b = then-Leaves (buffer-Leaves name b) λ read t.
      allow_require none read _ t refl
        λ buffer _. allow_require none buffer _ t refl λ bytes _. parse_buffer-Leaves bytes t

  get_record-Leaves : (s : Settings) (b : Bench) → Leaves b.held (get_record lib service around s b)
  unfolding get_record
  get_record-Leaves s b = from_file s.file
    where
      from_file :
          (o : Option (List ℕ))
          → Leaves b.held (
              (elim o as (λ _. State Bench (Option (Option Node))) [
                | some name ↦ plist_read_from_filename lib service around name
                | none ↦ λ b.
                    and_then
                      (fetch_record lib service s.cache s.custom b)
                      λ got. require none got λ node. pure (some (some node))
              ])
                b)
      from_file none =
          then-Leaves (fetch_record-Leaves lib service s.cache s.custom b)
            λ got t. allow_require none got _ t refl λ node _. gives refl
      from_file (some name) = plist_read-Leaves name b

  end_with-Leaves :
      (h : Held) (result : Bool) (b : Bench) → b.held ≡ connected h → Leaves h (end_with result b)
  end_with-Leaves h result b has = rw (end_with-back h result b has) (gives refl)

  activate-Leaves :
      (h : Held) (s : Settings) (b : Bench)
      → b.held ≡ connected h
      → Leaves h (activate lib service around s b)
  unfolding activate do_activation
  activate-Leaves h s b has =
      allow_if s.deactivate _ _ b (λ _. end_with-Leaves h true b has)
        λ _. allow (get_record-Leaves s b) λ got t same. ended got t (same ∙ has)
    where
      ended :
          (got : Option (Option Node)) (t : Bench)
          → t.held ≡ connected h
          → Leaves h (
              (elim got as (λ _. State Bench Bool) [
                | none ↦ end_with false
                | some node ↦ λ t. and_then (do_activation lib service around node t) end_with
              ])
                t)
      ended none t is = end_with-Leaves h false t is
      ended (some node) t is = end_with-Leaves h (around.activates node) t is

  -- A connection that fails gives back what it has opened.
  init_lockdownd-outcome :
      (b : Bench)
      → init_lockdownd lib service around b ≡ (
          if around.found && around.client
          then ok true (record b { held = connected b.held })
          else ok false b)
  unfolding init_lockdownd free_up idevice_free
  init_lockdownd-outcome b = cases around.found around.client
    where
      cases :
          (found client : Bool)
          → and_then (put_held b (idevice_new found b.held)) (λ found.
            if not found then pure false else do
              opened ← on_held (service_new client)
              if not opened then free_up false >> pure false else pure true)
            ≡ (if found && client
                then ok true (record b { held = connected b.held })
                else ok false b)
      cases false client = refl
      cases true true = refl
      cases true false = ground arith

  checked-Leaves :
      (h : Held) (s : Settings) (b : Bench)
      → b.held ≡ connected h
      → Leaves h (checked lib service around s b)
  unfolding checked
  checked-Leaves h s b has =
      allow_if (not s.cache.use_cache) _ _ b (λ _. activate-Leaves h s b has)
        λ _.
          rw (check_cache-fault s.cache service.junk (service.values (codes "UniqueDeviceID")) b)
            faulty

  -- Whatever the device, the server and the files answer and whichever options are set: each run of
  -- ideviceactivate that ends has given back the handles that it has taken, and no more.
  pub run-Leaves : (s : Settings) (b : Bench) → Leaves b.held (run lib service around s b)
  unfolding run
  run-Leaves s b = rw (init_lockdownd-outcome b) (cases (around.found && around.client))
    where
      cases :
          (both : Bool)
          → Leaves b.held (
              and_then
                (if both then ok true (record b { held = connected b.held }) else ok false b)
                λ done. if not done then pure false else checked lib service around s)
      cases true = checked-Leaves b.held s (record b { held = connected b.held }) refl
      cases false = gives refl
