-- ===== src/Recovery/Doing.antt =====
-- Steps of a device in recovery mode that succeed, and what they send.
use irestore.Prelude.{
  ℕ, ◌+◌, ◌≡◌, ◌∙◌, ap, sym, refl, Bool, true, List, [], ◌∷◌, ◌++◌, append_assoc, append-nil,
  Option, none, some,
}
use irestore.Effects.{State, ok, pure}
use irestore.Memory.{Plenty}
use irestore.Restore.Session.{Pointer, valid}
use irestore.Recovery.{
  Sent, Handset, with_handle, open_loop, recovery_open, send, ◌then_if◌, open_unless, open_if_null,
}

-- The connection is open and can be opened again, the device takes what it gets, memory is plenty, and
-- there is no session with restored.
pub record IsReady (s : Handset) : Type 0 where
  pub closed : s.client.restore ≡ none
  pub connected : s.recovery ≡ some valid
  pub reopens : (n : ℕ) → s.opens n ≡ true
  pub takes : (n : ℕ) → s.accepts n ≡ true
  pub plenty : Plenty s.memory

-- The step succeeds, the device has got this more, FLAG_QUIT is as it was, and `P` holds then.
pub record Does (P : Handset → Type 0) (step : State Handset Bool) (s : Handset) (what : List Sent)
    : Type 0 where
  pub after : Handset
  pub run : step s ≡ ok true after
  pub ready : IsReady after
  pub logged : after.log ≡ s.log ++ what
  pub post : P after
  pub same_quit : after.client.quit ≡ s.client.quit

abbrev pub Any : Handset → Type 0
Any _ = Unit {0}

pub then-Does :
    {P : Handset → Type 0} {step next : State Handset Bool} {s : Handset} {a b : List Sent}
    → Does Any step s a
    → ((t : Handset) → IsReady t → Does P next t b)
    → Does P (step then_if next) s (a ++ b)
then-Does {s = s} {a = a} {b = b} first rest =
    let second = rest first.after first.ready in
    record {
      after = second.after;
      run = rw (first.run) second.run;
      ready = second.ready;
      logged = second.logged ∙ ap (λ t. t ++ b) first.logged ∙ append_assoc s.log a b;
      post = second.post;
      same_quit = second.same_quit ∙ first.same_quit;
    }

pub done-Does : (t : Handset) → IsReady t → Does Any (pure true) t []
done-Does t ready = record {
  after = t;
  run = refl;
  ready = ready;
  logged = sym (append-nil t.log);
  post = tt;
  same_quit = refl;
}

pub with_valid :
    (o : Option Pointer) (call : State Handset Bool) (s : Handset)
    → o ≡ some valid
    → with_handle o call s ≡ call s
with_valid o call s h = rw h

pub send-Does : (what : Sent) (s : Handset) → IsReady s → Does Any (send what) s (what ∷ [])
unfolding send
send-Does what s ready = record {
  after = record s { requests = s.requests + 1; log = s.log ++ what ∷ [] };
  run =
      with_valid s.recovery _ s ready.connected
      ∙ ap (λ b. ok b (record s { requests = s.requests + 1; log = s.log ++ what ∷ [] }))
          (ready.takes s.requests);
  ready = record {
    closed = ready.closed;
    connected = ready.connected;
    reopens = ready.reopens;
    takes = ready.takes;
    plenty = ready.plenty;
  };
  logged = refl;
  post = tt;
  same_quit = refl;
}

pub open-Does : (s : Handset) → IsReady s → Does Any recovery_open s []
unfolding recovery_open open_loop
open-Does s ready = record {
  after = record s { tries = s.tries + 1; recovery = some valid };
  run = rw (recovery_open, ready.connected, open_loop, ready.reopens s.tries);
  ready = record {
    closed = ready.closed;
    connected = refl;
    reopens = ready.reopens;
    takes = ready.takes;
    plenty = ready.plenty;
  };
  logged = sym (append-nil s.log);
  post = tt;
  same_quit = refl;
}

unless_valid : (o : Option Pointer) (s : Handset) → o ≡ some valid → open_unless o s ≡ ok true s
unless_valid o s h = rw h

pub null-Does : (s : Handset) → IsReady s → Does Any open_if_null s []
unfolding open_if_null
null-Does s ready = record {
  after = s;
  run = unless_valid s.recovery s ready.connected;
  ready = ready;
  logged = sym (append-nil s.log);
  post = tt;
  same_quit = refl;
}
