-- ===== src/UpdateListener.antt =====
-- pyroflow/update_listener/update_listener.py and pyroflow/enums.py: registering a listener,
-- waiting on it, cancelling it, and resolving an update with the listener that it matches. A
-- critical section under the chat lock is one step; the points where `listen` suspends are the
-- ends of `listen_register` and `wait_for`.
pub mod Message
pub mod Callback
pub mod Bypass
pub mod Cancel
pub mod Wait
pub mod Resolve
pub mod Shrinks
pub mod Register
pub mod System
mod Tests
use pyroflow.Prelude.{
  ℕ, ◌≡◌, ite, Bool, true, false, not, ◌&&◌, Option, none, some, List, [], ◌∷◌, map, ℕ_discrete,
  DecEq, Dict, lookup, insert, delete, M, Outcome, ok, raise, ◌>>=◌, ◌>>◌, and_then, return, throw,
  gets, lift, modify, if◌then◌else◌, is_some,
}
use pyroflow.Models.{ListenerKey, listener_key_eq, sub_keys}
use pyroflow.Errors.{
  Exc, listener_cancelled, listener_timeout, listener_already_exists, unresolved_update, type_error,
  runtime_error, not_implemented_error, timeout_error, task_cancelled,
}
use pyroflow.ListenerCoordinator.{ListenerCoordinator}
use pyroflow.Session.{
  Json, FutureState, pending, cancelled, result, exception, ListenerModel, Session, done, finish,
  cancel_future, create_future,
}

pub data DuplicatePolicy : Type 0 where
  reject replace : DuplicatePolicy

-- The callables given at construction. `is_update` is `isinstance(update, cls.__update_type__)`.
pub record Hooks (U : Type 0) : Type 0 where
  pub is_update : U → Bool
  pub is_listenable_func : Option (U → Outcome (Exc U) Bool)
  pub extract_key_func : Option (U → Outcome (Exc U) ListenerKey)
  pub bypass_func : Option (U → Outcome (Exc U) Bool)

-- What would end a wait from outside: the timeout, or the waiting task's cancellation. The flag says
-- what comes of a future that is done by then: it is true if the future decides all the same, since
-- the task was resumed first or `wait_for` looks again (before Python 3.12, with a timeout), and false
-- if the interruption wins.
pub data Interrupt : Type 0 where
  timed_out interrupted : Bool → Interrupt

abbrev pub interruption : {U : Type 0} → Interrupt → Exc U
interruption (timed_out b) = timeout_error
interruption (interrupted b) = task_cancelled

-- The outcome of a wait whose future is done.
abbrev pub decided : {U : Type 0} → Interrupt → Outcome (Exc U) U → Outcome (Exc U) U
decided (timed_out true) r = r
decided (timed_out false) r = raise timeout_error
decided (interrupted true) r = r
decided (interrupted false) r = raise task_cancelled

module _ {U : Type 0} (h : Hooks U) where
  -- `validate_update`, then the callable.
  abbrev call_hook : {A : Type 0} → (U → Outcome (Exc U) A) → U → Outcome (Exc U) A
  call_hook f u = if h.is_update u then f u else raise type_error

  unfoldable pub is_listenable : U → Outcome (Exc U) Bool
  is_listenable u = elim h.is_listenable_func [
    | none ↦ raise not_implemented_error
    | some f ↦ call_hook f u
  ]

  unfoldable pub extract_key : U → Outcome (Exc U) ListenerKey
  extract_key u = elim h.extract_key_func [
    | none ↦ raise not_implemented_error
    | some f ↦ call_hook f u
  ]

  unfoldable pub is_bypass : U → Outcome (Exc U) Bool
  is_bypass u = elim h.bypass_func [ none ↦ ok false | some f ↦ call_hook f u ]

-- `if listeners:`
abbrev pub has_listeners : {K V : Type 0} → Dict K V → Bool
has_listeners [] = false
has_listeners (e ∷ es) = true

module _ {U C Token : Type 0} ⦃d : DecEq Token⦄ (c : ListenerCoordinator U C Token) where
  -- A call of the coordinator, on its part of the session.
  abbrev pub on_coordinator : {A : Type 0} → M C (Exc U) A → M (Session U C Token) (Exc U) A
  on_coordinator m s = let (c', r) = m s.coordinator in (record s { coordinator = c' }, r)

  -- Whether a cancel for the given token is aimed at another generation of the listener.
  abbrev pub is_stale : Option Token → Option Token → Bool
  is_stale none held = false
  is_stale (some t) none = true
  is_stale (some t) (some i) = ite (d.dec i t) false true

  -- `if cancel_coordinator: await self.coordinator.cancel(key)`, and the final `return True`.
  abbrev pub cancel_registration : ListenerKey → Bool → M (Session U C Token) (Exc U) Bool
  cancel_registration k true = do on_coordinator (c.cancel k); return true
  cancel_registration k false = return true

  -- `_cancel`
  unfoldable pub cancel_locked :
      ListenerKey → Bool → Bool → Option Token → M (Session U C Token) (Exc U) Bool
  cancel_locked k cancel_coordinator is_duplicate token s = elim (lookup k s.listeners) [
    | none ↦ cancel_registration k cancel_coordinator s
    | some l ↦
        if is_stale token l.coordinator_id
        then (s, ok false)
        else and_then
            (finish l.future (exception (listener_cancelled k is_duplicate))
              (record s { listeners = delete k s.listeners }))
            (λ _. cancel_registration k cancel_coordinator)
  ]

  -- `_cleanup_listen`
  unfoldable pub cleanup_listen : ListenerKey → ℕ → Session U C Token → Session U C Token
  cleanup_listen k f s = elim (lookup k s.listeners) [
    | none ↦ s
    | some l ↦ ite (ℕ_discrete l.future f) (record s { listeners = delete k s.listeners }) s
  ]

  -- What `listen` does about a key that is registered already, and about one that is not.
  unfoldable pub check_duplicate :
      DuplicatePolicy → ListenerKey → Bool → M (Session U C Token) (Exc U) Bool
  check_duplicate reject k true s = (s, raise (listener_already_exists k))
  check_duplicate replace k true s = cancel_locked k true true none s
  check_duplicate policy k false s =
      if is_some (lookup k s.listeners) then (s, raise runtime_error) else (s, ok true)

  -- The rest of the critical section: a new future, a new token, a new entry.
  unfoldable pub install : ListenerKey → Option Json → M (Session U C Token) (Exc U) (ℕ × Token)
  install k meta = do
    f ← create_future k
    i ← on_coordinator (c.register k)
    modify λ s. record s {
      listeners =
          insert k (record { key = k; meta = meta; future = f; coordinator_id = some i })
            s.listeners;
    }
    return (f, i)

  -- The critical section of `listen`: the future that it waits on, and its ownership token.
  unfoldable pub listen_register :
      DuplicatePolicy → ListenerKey → Option Json → M (Session U C Token) (Exc U) (ℕ × Token)
  listen_register policy k meta = do
    taken ← on_coordinator (c.registered k none)
    check_duplicate policy k taken
    install k meta

  -- `asyncio.wait_for(fut, timeout)`. A pending future is cancelled by what interrupts the wait.
  unfoldable pub wait_for : Interrupt → ℕ → M (Session U C Token) (Exc U) U
  wait_for w f s = elim (s.futures f).state [
    | pending ↦ and_then (cancel_future f s) (λ _. throw (interruption w))
    | cancelled ↦ (s, decided w (raise task_cancelled))
    | result u ↦ (s, decided w (ok u))
    | exception e ↦ (s, decided w (raise e))
  ]

  -- `if not listener.done(): listener.set_exc(exc)`, and the `raise` that follows.
  abbrev pub fail_with : ℕ → Exc U → M (Session U C Token) (Exc U) U
  fail_with f e s =
      if done s f then (s, raise e) else and_then (finish f (exception e) s) (λ _. throw e)

  -- The `except` clauses of `listen`.
  unfoldable pub on_failure : ListenerKey → ℕ → Exc U → M (Session U C Token) (Exc U) U
  on_failure k f timeout_error = fail_with f (listener_timeout k)
  on_failure k f e = fail_with f e

  abbrev pub except :
      {A : Type 0}
      → Session U C Token × Outcome (Exc U) A
      → (Exc U → M (Session U C Token) (Exc U) A)
      → Session U C Token × Outcome (Exc U) A
  except (s, ok a) handle = (s, ok a)
  except (s, raise e) handle = handle e s

  -- An error in a `finally` block replaces what was to be returned or raised.
  abbrev pub finally_do :
      {A B : Type 0}
      → Session U C Token × Outcome (Exc U) A
      → M (Session U C Token) (Exc U) B
      → Session U C Token × Outcome (Exc U) A
  finally_do (s, r) m = and_then (m s) (λ _ s'. (s', r))

  -- The rest of `listen`, from the wait to the release of the ownership.
  unfoldable pub listen_wait : Interrupt → ListenerKey → ℕ → Token → M (Session U C Token) (Exc U) U
  listen_wait w k f i s =
      finally_do (except (wait_for w f s) (on_failure k f))
        (do modify (cleanup_listen k f); on_coordinator (c.unregister k (some i)))

  -- `on_unresolved`, as the base class defines it.
  unfoldable pub on_unresolved : ListenerKey → U → M (Session U C Token) (Exc U) (Unit {0})
  on_unresolved k u = throw (unresolved_update u)

  module _ (h : Hooks U) (u : U) where
    -- The body of the loop once a listener is found and still owns its key.
    unfoldable pub deliver : ListenerKey → ListenerModel Token → M (Session U C Token) (Exc U) Bool
    deliver sub l = do
      bypass ← lift (is_bypass h u)
      elim bypass [
        | true ↦ do cancel_locked sub true false l.coordinator_id; throw (unresolved_update u)
        | false ↦ do finish l.future (result u); return true
      ]

    -- The loop over the candidate keys; the result says whether it returned from `resolve`.
    unfoldable pub try_keys : List ListenerKey → M (Session U C Token) (Exc U) Bool
    try_keys [] s = (s, ok false)
    try_keys (sub ∷ subs) s = elim (lookup sub s.listeners) [
      | none ↦ try_keys subs s
      | some l ↦ and_then (on_coordinator (c.registered sub l.coordinator_id) s) λ owned.
          elim owned [
            | true ↦ deliver sub l
            | false ↦ do cancel_locked sub false false l.coordinator_id; try_keys subs
          ]
    ]

    -- `resolve`: with no listener at all it returns, and `on_unresolved` is not called.
    unfoldable pub resolve : M (Session U C Token) (Exc U) (Unit {0})
    resolve = do
      listenable ← lift (is_listenable h u)
      elim listenable [
        | false ↦ throw (unresolved_update u)
        | true ↦ do
          k ← lift (extract_key h u)
          active ← gets (λ s. has_listeners s.listeners)
          elim active [
            | false ↦ return tt
            | true ↦ do
              found ← try_keys (sub_keys 1 k)
              elim found [ true ↦ return tt | false ↦ on_unresolved k u ]
          ]
      ]
