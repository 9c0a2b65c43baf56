-- ===== src/UpdateListener/Cancel.antt =====
-- What a cancellation (`_cancel`) does to the listeners, their futures and the registry.
use pyroflow.Prelude.{
  ℕ, ◌≡◌, refl, inl, inr, ite, Bool, true, false, not, ◌&&◌, Option, none, some, arith, ℕ_discrete,
  DecEq, lookup, lookup-delete, delete, ok, raise, if◌then◌else◌, Bool-cases,
}
use pyroflow.Models.{ListenerKey, ListenerKey-discrete, listener_key_eq}
use pyroflow.Errors.{listener_cancelled, invalid_state_error}
use pyroflow.ListenerCoordinator.{ListenerCoordinator, IsRegistry}
use pyroflow.Session.{exception, ListenerModel, Session, done, settled, finish}
use pyroflow.UpdateListener.{is_stale, cancel_registration, cancel_locked}

module _ {U C Token : Type 0} ⦃d : DecEq Token⦄ (c : ListenerCoordinator U C Token)
    (R : IsRegistry U C Token c) where
  open R use {owner}

  -- The session with the registration of the key cancelled, if that is asked for.
  abbrev pub cleared : ListenerKey → Bool → Session U C Token → Session U C Token
  cleared k cc s = record s {
    coordinator = if cc then (c.cancel k s.coordinator).0 else s.coordinator;
  }

  pub registration_lem :
      (k : ListenerKey) (cc : Bool) (s : Session U C Token)
      → cancel_registration c k cc s ≡ (cleared k cc s, ok true)
  registration_lem k true s = rw (R.cancel_ok s.coordinator k).1
  registration_lem k false s = refl

  pub cleared_owner :
      (k : ListenerKey) (cc : Bool) (s : Session U C Token) (j : ListenerKey)
      → owner (cleared k cc s).coordinator j ≡ (
          if cc
          then ite (ListenerKey-discrete k j) none (owner s.coordinator j)
          else owner s.coordinator j)
  cleared_owner k true s j = R.cancel_owner s.coordinator k j
  cleared_owner k false s j = refl

  module _ (k : ListenerKey) (cc dup : Bool) (t : Option Token) (s : Session U C Token) where
    pub cancel_absent :
        lookup k s.listeners ≡ none → cancel_locked c k cc dup t s ≡ (cleared k cc s, ok true)
    unfolding cancel_locked
    cancel_absent e = rw (e, cancel_locked) (registration_lem k cc s)

    pub cancel_stale :
        (l : ListenerModel Token)
        → lookup k s.listeners ≡ some l
        → is_stale c t l.coordinator_id ≡ true
        → cancel_locked c k cc dup t s ≡ (s, ok false)
    unfolding cancel_locked
    cancel_stale l e st = rw (e, cancel_locked) (rw st)

    -- The session once the listener is gone and its future has failed.
    abbrev pub withdrawn : ListenerModel Token → Session U C Token
    withdrawn l =
        settled l.future (exception (listener_cancelled k dup))
          (record s { listeners = delete k s.listeners })

    pub cancel_pending :
        (l : ListenerModel Token)
        → lookup k s.listeners ≡ some l
        → is_stale c t l.coordinator_id ≡ false
        → done s l.future ≡ false
        → cancel_locked c k cc dup t s ≡ (cleared k cc (withdrawn l), ok true)
    unfolding cancel_locked finish
    cancel_pending l e st p =
        rw (e, cancel_locked) (rw st (rw (p, finish) (registration_lem k cc (withdrawn l))))

    pub cancel_done :
        (l : ListenerModel Token)
        → lookup k s.listeners ≡ some l
        → is_stale c t l.coordinator_id ≡ false
        → done s l.future ≡ true
        → cancel_locked c k cc dup t s
          ≡ (record s { listeners = delete k s.listeners }, raise invalid_state_error)
    unfolding cancel_locked finish
    cancel_done l e st p = rw (e, cancel_locked) (rw st (rw (p, finish)))

    -- Let a key have a listener whose future is pending. A cancel that names a token other than the
    -- one that the listener holds returns `False` and changes no listener, no future and no
    -- registration. A cancel that names no token or that very one returns `True`: the key's
    -- listener is removed and no other, its future alone fails, by a `ListenerCancelled` that says
    -- whether a newer listener replaced this one, and the key's registration, no other, is cleared
    -- exactly if that was asked for.
    pub cancel_generation :
        (l : ListenerModel Token)
        → lookup k s.listeners ≡ some l
        → done s l.future ≡ false
        → let stale = is_stale c t l.coordinator_id in
          let s' = (cancel_locked c k cc dup t s).0 in
          ((cancel_locked c k cc dup t s).1 ≡ ok (not stale))
          × ((j : ListenerKey)
              → lookup j s'.listeners ≡ (
                  if stale
                  then lookup j s.listeners
                  else ite (ListenerKey-discrete k j) none (lookup j s.listeners)))
          × ((f : ℕ)
              → (s'.futures f).state ≡ (
                  if stale
                  then (s.futures f).state
                  else ite
                      (ℕ_discrete l.future f)
                      (exception (listener_cancelled k dup))
                      (s.futures f).state))
          × ((j : ListenerKey)
              → owner s'.coordinator j ≡ (
                  if not stale && cc
                  then ite (ListenerKey-discrete k j) none (owner s.coordinator j)
                  else owner s.coordinator j))
    unfolding settled
    cancel_generation l e p = elim (Bool-cases (is_stale c t l.coordinator_id)) [
      | inl st ↦ rw (cancel_stale l e st, st) (refl, λ j. refl, λ f. refl, λ j. refl)
      | inr st ↦
          rw (cancel_pending l e st p, st)
            (
              refl,
              λ j. lookup-delete k j s.listeners,
              λ f. ground arith,
              λ j. cleared_owner k cc s j,
            )
    ]
