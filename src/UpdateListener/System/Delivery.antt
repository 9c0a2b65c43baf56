-- ===== src/UpdateListener/System/Delivery.antt =====
-- In every world that a session can reach: what becomes of an update for which a `listen` waits.
use pyroflow.Prelude.{
  Bool, ◌≡◌, refl, sym, inl, true, false, none, some, List, [], ◌∷◌, ◌++◌, All, DecEq, lookup, ok,
  raise, ℕ,
}
use pyroflow.Models.{ListenerKey, listener_key_eq, sub_keys}
use pyroflow.ListenerCoordinator.{ListenerCoordinator, IsRegistry}
use pyroflow.Session.{ListenerModel, Session, done, result}
use pyroflow.UpdateListener.{
  Hooks, Interrupt, timed_out, interrupted, is_listenable, extract_key, is_bypass, listen_wait,
  resolve,
}
use pyroflow.UpdateListener.Wait.{wait_outcome, listen_wait_ends}
use pyroflow.UpdateListener.Resolve.{owns}
use pyroflow.UpdateListener.Resolve.First.{Skipped}
use pyroflow.UpdateListener.Resolve.Update.{resolve_first}
use pyroflow.UpdateListener.System.{Waiter, World, Reach}
use pyroflow.UpdateListener.System.Safety.{reached-Inv}
use pyroflow.UpdateListener.System.Steps.{StopsSafely}
use pyroflow.Errors.{listener_timeout, task_cancelled}

module _ {U C Token : Type 0} ⦃d : DecEq Token⦄ (c : ListenerCoordinator U C Token)
    (R : IsRegistry U C Token c) where
  absent-Skipped :
      (s : Session U C Token) (js : List ListenerKey)
      → All (λ j. lookup j s.listeners ≡ none) js
      → All (Skipped c R s) js
  absent-Skipped s [] a = tt
  absent-Skipped s (j ∷ js) (e, a) = (inl e, absent-Skipped s js a)

  -- What the wait for a future that holds an update ends with.
  done_result :
      (k : ListenerKey) (i : Token) (f : ℕ) (u : U) (s : Session U C Token)
      → (s.futures f).state ≡ result u
      → (q : Interrupt) → (listen_wait c q k f i s).1 ≡ wait_outcome q k (result u)
  done_result k i f u s e q = rw ((listen_wait_ends c R q k f i s).0, e) refl

  module _ (s : Session U C Token) (no_listeners : s.listeners ≡ [])
      (valid : R.IsValid s.coordinator) (w : World U C Token) (may_stop : Bool)
      (stops : may_stop ≡ true → StopsSafely c R)
      (reached : Reach c R may_stop (record { session = s; waiters = [] }) w) where
    -- Start from a session without listeners or waiting coroutines, with a coordinator that keeps
    -- its contract and is valid. If it may stop meanwhile, let its stop take no token back, which
    -- is true of the one on Redis. Let listens, ends of waits, cancels, resolutions, done
    -- callbacks and stops of the coordinator run in any order, and other sessions take, free and
    -- replace registrations between them. Then let a listenable update come that bypasses no
    -- listener, and let the first of its candidate keys that has a listener be the key of a call
    -- of `listen`, with a listener that holds that call's future, which is pending, and a token
    -- that the registry names as the key's owner. Then `resolve` returns. The rest of that call
    -- returns the update if the future that is done decides the wait; if an interruption reaches
    -- the task before it resumes, the call raises `ListenerTimeout` or `CancelledError` in its
    -- place, and the update is lost.
    pub update_arrives :
        (h : Hooks U) (u : U) (k : ListenerKey) (v : Waiter Token) (l : ListenerModel Token)
        (pre post : List ListenerKey)
        → is_listenable h u ≡ ok true
        → extract_key h u ≡ ok k
        → is_bypass h u ≡ ok false
        → sub_keys 1 k ≡ pre ++ v.key ∷ post
        → All (λ j. lookup j w.session.listeners ≡ none) pre
        → lookup v.key w.session.listeners ≡ some l
        → owns c R w.session v.key l ≡ true
        → l.future ≡ v.future
        → done w.session v.future ≡ false
        → let s' = (resolve c h u w.session).0 in
          ((resolve c h u w.session).1 ≡ ok tt)
          × ((listen_wait c (timed_out true) v.key v.future v.token s').1 ≡ ok u)
          × ((listen_wait c (interrupted true) v.key v.future v.token s').1 ≡ ok u)
          × ((listen_wait c (timed_out false) v.key v.future v.token s').1
              ≡ raise (listener_timeout v.key))
          × ((listen_wait c (interrupted false) v.key v.future v.token s').1 ≡ raise task_cancelled)
    update_arrives h u k v l pre post listenable keyed keep split before here mine same p =
        let inv = reached-Inv c R s no_listeners valid w may_stop stops reached in
        let (returned, got, others) =
          resolve_first c R h u k w.session listenable keyed pre post v.key l split here mine keep
            inv.distinct (absent-Skipped w.session pre before) (rw same p) in
        let e =
          done_result v.key v.token v.future u (resolve c h u w.session).0 (rw (sym same) got) in
        (
          returned,
          e (timed_out true),
          e (interrupted true),
          e (timed_out false),
          e (interrupted false),
        )
