-- ===== src/Normal/Leaving.antt =====
-- `normal_enter_recovery` of idevicerestore/src/normal.c.
use irestore.Prelude.{◌≡◌, refl, arith, Bool, true, false, not, ◌&&◌, [], ◌∷◌, ◌++◌, if◌then◌else◌}
use irestore.Effects.{State, Ensures, ends, bind, branch, ok, pure, ◌>>=◌, ◌>>◌}
use irestore.Devices.{Held, Line, idevice_new, service_new, service_free, idevice_free, free_both}
use irestore.Normal.Probes.{all_answers}
use irestore.Recovery.{recovery_request, Handset, on_held, recovery_open, ◌then_if◌}
use irestore.Recovery.Opening.{Keeps, Keeps-refl, recovery_open-Keeps}

-- `lockdownd_enter_recovery`: what the device gets of it
abbrev ask_recovery : State Handset (Unit {0})
ask_recovery s = ok tt (record s { log = s.log ++ recovery_request ∷ [] })

-- `normal_enter_recovery` up to the release of the device; `line.answers` is the outcome of
-- `lockdownd_enter_recovery`.
unfoldable pub request_recovery : Line → State Handset Bool
request_recovery line = do
  found ← on_held (idevice_new line.found)
  if not found then pure false else do
    opened ← on_held (service_new line.client)
    if not opened
        then on_held idevice_free >> pure false
        else ask_recovery >> on_held (free_both line.answers)

-- `normal_enter_recovery`: the commands go to `recovery`, which is NULL, and not to the client that
-- was opened; `takes_null` is the outcome of `irecv_send_command` without a client.
unfoldable pub normal_enter_recovery : Line → Bool → State Handset Bool
normal_enter_recovery line takes_null =
    request_recovery line
    then_if recovery_open
    then_if pure takes_null
    then_if pure takes_null
    then_if pure true

-- what the device has got behind it
abbrev pub asked : Line → Handset → Handset
asked line s = record s {
  log = if line.found && line.client then s.log ++ recovery_request ∷ [] else s.log;
}

request_recovery-asked :
    (line : Line) (s : Handset) → request_recovery line s ≡ ok (all_answers line) (asked line s)
unfolding request_recovery idevice_free service_free
request_recovery-asked line s = cases line.found line.client line.answers s.held
  where
    cases :
        (found client answers : Bool) (h : Held)
        → request_recovery
            (record { found = found; client = client; answers = answers })
            (record s { held = h })
          ≡ ok (found && (client && answers)) (record s {
            held = h;
            log = if found && client then s.log ++ recovery_request ∷ [] else s.log;
          })
    cases false client answers h = refl
    cases true false answers h = ground arith
    cases true true answers h = ground arith

-- Where a command without a client is refused, as libirecovery does: `normal_enter_recovery` never
-- succeeds. It ends with an error or faults, and then the device has got the request of lockdownd if
-- a client of lockdownd could be opened, and nothing else; the handles of the device and of lockdownd
-- are given back, and the mode, memory and the session with restored are what they were.
pub normal_enter_recovery-asked :
    (line : Line) (s : Handset)
    → Ensures (λ r t. (r ≡ false) × Keeps (asked line s) t) (normal_enter_recovery line false s)
unfolding normal_enter_recovery
normal_enter_recovery-asked line s = rw (request_recovery-asked line s) (
    branch (not (all_answers line)) _ _ (asked line s) (λ _. ends (refl, Keeps-refl (asked line s)))
      λ _.
        bind (recovery_open-Keeps (asked line s))
          λ done t k. branch (not done) _ _ t (λ _. ends (refl, k)) λ _. ends (refl, k))
