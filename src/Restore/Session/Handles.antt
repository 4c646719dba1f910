-- ===== src/Restore/Session/Handles.antt =====
-- Which sessions `restore_client_free` can free.
use irestore.Prelude.{◌≡◌, true, inl, inr, none, some, Bool-cases, if◌then◌else◌}
use irestore.Effects.{ok, fault, ◌>>=◌}
use irestore.Restore.Session.{
  Phone, Client, opened, opens_all, open_session, client_free, client_new,
}

-- `restore_open_with_timeout` without a session, where `malloc` finds memory, and then
-- `restore_client_free`: if every step of the opening succeeds, there is no session afterwards, and
-- else the handles that are freed were never written.
pub open_session-client_free :
    (phone : Phone) (c : Client)
    → c.restore ≡ none
    → phone.grants ≡ true
    → (open_session phone >>= λ _. client_free) c
      ≡ (if opens_all phone then ok tt (record c { restore = none }) else fault)
unfolding open_session client_free opens_all
open_session-client_free phone c closed granted = elim (Bool-cases (opens_all phone)) [
  | inl e ↦ rw (closed, granted, e)
  | inr e ↦ rw (closed, granted, e)
]

-- `restore_client_new` without a session, where both of its `malloc` calls find memory: whatever the
-- device does, the handles that `restore_client_free` then frees were never written, be it on the
-- error path or later.
pub client_new-client_free :
    (phone : Phone) (c : Client)
    → c.restore ≡ none
    → phone.grants ≡ true
    → phone.grants_new ≡ true
    → (client_new phone >>= λ _. client_free) c ≡ fault
unfolding client_new open_session client_free opens_all
client_new-client_free phone c closed granted granted_new = elim (Bool-cases (opens_all phone)) [
  | inl e ↦ rw (closed, granted, granted_new, e)
  | inr e ↦ rw (closed, granted, granted_new, e)
]

pub open_session-opened :
    (phone : Phone) (c : Client)
    → c.restore ≡ none
    → phone.grants ≡ true
    → opens_all phone ≡ true
    → open_session phone c ≡ ok true (record c { restore = some opened })
unfolding open_session opens_all
open_session-opened phone c closed granted opens = rw (closed, granted, opens)

pub client_free-opened :
    (c : Client) → c.restore ≡ some opened → client_free c ≡ ok tt (record c { restore = none })
unfolding client_free
client_free-opened c has = rw has
