-- ===== src/UpdateListener/Wait.antt =====
-- How `listen` ends: what it returns or raises, and what it leaves behind.
use pyroflow.Prelude.{
  ℕ, ◌≡◌, refl, ◌≢◌, ◌⊎◌, ite, true, false, none, some, arith, ℕ_discrete, DecEq, lookup,
  lookup-delete, Outcome, ok, raise, if◌then◌else◌,
}
use pyroflow.Models.{ListenerKey, ListenerKey-discrete, listener_key_eq}
use pyroflow.Errors.{Exc, listener_timeout, timeout_error, task_cancelled}
use pyroflow.ListenerCoordinator.{ListenerCoordinator, IsRegistry, owned_by}
use pyroflow.Session.{
  FutureState, pending, cancelled, result, exception, ListenerModel, Session, done, settled,
  cancel_future,
}
use pyroflow.UpdateListener.{
  Interrupt, timed_out, interrupted, cleanup_listen, wait_for, on_failure, except, listen_wait,
}

-- `ListenerTimeout` in place of a `TimeoutError`.
abbrev pub renamed : {U : Type 0} → ListenerKey → Exc U → Exc U
renamed k timeout_error = listener_timeout k
renamed k e = e

-- What the waiting coroutine gets, by the state of the future when the wait ends.
abbrev pub wait_outcome : {U : Type 0} → Interrupt → ListenerKey → FutureState U → Outcome (Exc U) U
wait_outcome (timed_out b) k pending = raise (listener_timeout k)
wait_outcome (interrupted b) k pending = raise task_cancelled
wait_outcome (timed_out false) k st = raise (listener_timeout k)
wait_outcome (interrupted false) k st = raise task_cancelled
wait_outcome w k (result u) = ok u
wait_outcome w k (exception e) = raise (renamed k e)
wait_outcome w k cancelled = raise task_cancelled

-- The state of the future once the wait is over.
abbrev pub ended : {U : Type 0} → FutureState U → FutureState U
ended pending = cancelled
ended st = st

module _ {U C Token : Type 0} ⦃d : DecEq Token⦄ (c : ListenerCoordinator U C Token) where
  -- The session once the wait is over: a future that is still pending is cancelled.
  abbrev pub settled_wait : ℕ → FutureState U → Session U C Token → Session U C Token
  settled_wait f pending s = settled f cancelled s
  settled_wait f st s = s

  failed_lem :
      (k : ListenerKey) (f : ℕ) (e : Exc U) (s : Session U C Token)
      → done s f ≡ true
      → on_failure c k f e s ≡ (s, raise (renamed k e))
  unfolding on_failure
  failed_lem k f e s p = ground arith

  cancel_pending :
      (f : ℕ) (s : Session U C Token)
      → (s.futures f).state ≡ pending
      → cancel_future f s ≡ (settled f cancelled s, ok tt)
  unfolding cancel_future
  cancel_pending f s e = rw (e, cancel_future)

  settled-done : (f : ℕ) (s : Session U C Token) → done (settled f cancelled s) f ≡ true
  unfolding settled
  settled-done f s = ground arith

  wait_lem :
      (w : Interrupt) (k : ListenerKey) (f : ℕ) (s : Session U C Token) (st : FutureState U)
      → (s.futures f).state ≡ st
      → except c (wait_for c w f s) (on_failure c k f) ≡ (settled_wait f st s, wait_outcome w k st)
  unfolding wait_for
  wait_lem (timed_out b) k f s pending e =
      rw (e, wait_for)
        (rw (cancel_pending f s e)
          (failed_lem k f timeout_error (settled f cancelled s) (settled-done f s)))
  wait_lem (interrupted b) k f s pending e =
      rw (e, wait_for)
        (rw (cancel_pending f s e)
          (failed_lem k f task_cancelled (settled f cancelled s) (settled-done f s)))
  wait_lem (timed_out false) k f s cancelled e =
      rw (e, wait_for) (failed_lem k f timeout_error s (rw e))
  wait_lem (interrupted false) k f s cancelled e =
      rw (e, wait_for) (failed_lem k f task_cancelled s (rw e))
  wait_lem (timed_out true) k f s cancelled e =
      rw (e, wait_for) (failed_lem k f task_cancelled s (rw e))
  wait_lem (interrupted true) k f s cancelled e =
      rw (e, wait_for) (failed_lem k f task_cancelled s (rw e))
  wait_lem (timed_out false) k f s (result u) e =
      rw (e, wait_for) (failed_lem k f timeout_error s (rw e))
  wait_lem (interrupted false) k f s (result u) e =
      rw (e, wait_for) (failed_lem k f task_cancelled s (rw e))
  wait_lem (timed_out true) k f s (result u) e = rw (e, wait_for)
  wait_lem (interrupted true) k f s (result u) e = rw (e, wait_for)
  wait_lem (timed_out false) k f s (exception x) e =
      rw (e, wait_for) (failed_lem k f timeout_error s (rw e))
  wait_lem (interrupted false) k f s (exception x) e =
      rw (e, wait_for) (failed_lem k f task_cancelled s (rw e))
  wait_lem (timed_out true) k f s (exception x) e = rw (e, wait_for) (failed_lem k f x s (rw e))
  wait_lem (interrupted true) k f s (exception x) e = rw (e, wait_for) (failed_lem k f x s (rw e))

  module _ (f : ℕ) (s : Session U C Token) (st : FutureState U) where
    settled_wait_parts :
        ((settled_wait f st s).listeners ≡ s.listeners)
        × ((settled_wait f st s).coordinator ≡ s.coordinator)
    unfolding settled
    settled_wait_parts = ground arith

    settled_wait_futures :
        (s.futures f).state ≡ st
        → (g : ℕ)
        → ((settled_wait f st s).futures g).state
          ≡ ite (ℕ_discrete f g) (ended st) (s.futures g).state
    unfolding settled
    settled_wait_futures e g = ground arith

  module _ (k : ListenerKey) (f : ℕ) (s : Session U C Token) where
    pub cleanup_parts :
        ((cleanup_listen c k f s).futures ≡ s.futures)
        × ((cleanup_listen c k f s).coordinator ≡ s.coordinator)
        × ((cleanup_listen c k f s).next_future ≡ s.next_future)
    unfolding cleanup_listen
    cleanup_parts = ground arith

    pub cleanup_removes :
        (l : ListenerModel Token)
        → lookup k (cleanup_listen c k f s).listeners ≡ some l
        → l.future ≢ f
    unfolding cleanup_listen
    cleanup_removes l h e = ground (arith, lookup-delete k k s.listeners)

    pub cleanup_keeps :
        (j : ListenerKey) (l : ListenerModel Token)
        → ((j ≢ k) ⊎ (l.future ≢ f))
        → lookup j s.listeners ≡ some l
        → lookup j (cleanup_listen c k f s).listeners ≡ some l
    unfolding cleanup_listen
    cleanup_keeps j l other h = ground (arith, lookup-delete k j s.listeners)

module _ {U C Token : Type 0} ⦃d : DecEq Token⦄ (c : ListenerCoordinator U C Token)
    (R : IsRegistry U C Token c) (w : Interrupt) (k : ListenerKey) (f : ℕ) (i : Token)
    (s : Session U C Token) where
  open R use {owner}

  -- The session after the `finally` block.
  abbrev pub released : Session U C Token → Session U C Token
  released s = record s { coordinator = (c.unregister k (some i) s.coordinator).0 }

  pub listen_wait_lem : listen_wait c w k f i s ≡ (
    released (cleanup_listen c k f (settled_wait c f (s.futures f).state s)),
    wait_outcome w k (s.futures f).state,
  )
  unfolding listen_wait
  listen_wait_lem =
      rw (listen_wait, wait_lem c w k f s (s.futures f).state refl)
        (rw
          (R.unregister_ok
            (cleanup_listen c k f (settled_wait c f (s.futures f).state s)).coordinator k
            (some i)).1)

  -- If the future decides, `listen` returns the update that it was resolved with or raises what it
  -- failed with. If the future is pending, or done but too late, `listen` raises `ListenerTimeout` for
  -- a timeout and `CancelledError` for a cancellation, even if the future holds an update: that update
  -- is then lost. Whatever the outcome, the future is done afterwards and no other has changed;
  -- the key's listener is gone if it was the one waited for, and every other listener stays; the
  -- key's registration is released if it is still this generation's, and every other stays.
  pub listen_wait_ends :
      let s' = (listen_wait c w k f i s).0 in
      ((listen_wait c w k f i s).1 ≡ wait_outcome w k (s.futures f).state)
      × ((g : ℕ)
          → (s'.futures g).state
            ≡ ite (ℕ_discrete f g) (ended (s.futures f).state) (s.futures g).state)
      × ((l : ListenerModel Token) → lookup k s'.listeners ≡ some l → l.future ≢ f)
      × ((j : ListenerKey) (l : ListenerModel Token)
          → ((j ≢ k) ⊎ (l.future ≢ f))
          → lookup j s.listeners ≡ some l
          → lookup j s'.listeners ≡ some l)
      × ((j : ListenerKey)
          → owner s'.coordinator j ≡ (
              if owned_by (owner s.coordinator k) (some i)
              then ite (ListenerKey-discrete k j) none (owner s.coordinator j)
              else owner s.coordinator j))
  listen_wait_ends = rw listen_wait_lem (
    refl,
    λ g. rw (cleanup_parts c k f w').0 (settled_wait_futures c f s st refl g),
    cleanup_removes c k f w',
    λ j l other h. cleanup_keeps c k f w' j l other (rw (settled_wait_parts c f s st).0 h),
    λ j. rw (R.unregister_owner, (cleanup_parts c k f w').1, (settled_wait_parts c f s st).1),
  )
    where
      st : FutureState U
      st = (s.futures f).state

      w' : Session U C Token
      w' = settled_wait c f st s
