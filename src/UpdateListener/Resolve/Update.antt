-- ===== src/UpdateListener/Resolve/Update.antt =====
-- `resolve` as a whole: delivery, fencing, and its two ways to go wrong.
use pyroflow.Prelude.{
  ◌≡◌, refl, sym, ap, ◌∙◌, ◌≢◌, Bool, true, false, some, List, [], ◌∷◌, ◌++◌, DecEq, lookup,
  Outcome, ok, raise, All, and_then, Dict, ℕ,
}
use pyroflow.Models.{ListenerKey, listener_key_eq, sub_keys}
use pyroflow.Errors.{Exc, invalid_state_error}
use pyroflow.ListenerCoordinator.{ListenerCoordinator, IsRegistry}
use pyroflow.Session.{result, ListenerModel, Session, done}
use pyroflow.UpdateListener.{
  Hooks, is_listenable, extract_key, is_bypass, has_listeners, on_unresolved, try_keys, resolve,
}
use pyroflow.UpdateListener.Resolve.{owns, try_owned, deliver-done}
use pyroflow.UpdateListener.Resolve.Order.{Delivered, try_keys-Delivered}
use pyroflow.UpdateListener.Resolve.First.{Distinct, Skipped, Reaches, try_keys_first}

lookup_nil : {V : Type 0} {v : V} (k : ListenerKey) → lookup k [] ≢ some v
unfolding lookup
lookup_nil k e = cc

module _ {U C Token : Type 0} ⦃d : DecEq Token⦄ (c : ListenerCoordinator U C Token)
    (R : IsRegistry U C Token c) (h : Hooks U) (u : U) (k : ListenerKey) (s : Session U C Token)
    (listenable : is_listenable h u ≡ ok true) (keyed : extract_key h u ≡ ok k) where
  -- What `resolve` makes of the outcome of its loop.
  finished :
      Session U C Token × Outcome (Exc U) Bool → Session U C Token × Outcome (Exc U) (Unit {0})
  finished out =
      and_then out λ found. elim found [ true ↦ (λ s'. (s', ok tt)) | false ↦ on_unresolved c k u ]

  resolve_lem :
      has_listeners s.listeners ≡ true
      → resolve c h u s ≡ finished (try_keys c h u (sub_keys 1 k) s)
  unfolding resolve finished
  resolve_lem active = rw (listenable, resolve) (rw keyed (rw active))

  -- A defect: let an update be listenable and have a key. With no listener waiting at all,
  -- `resolve` returns as if the update had been delivered, and does not raise `UnresolvedUpdate`.
  pub resolve_no_listeners : s.listeners ≡ [] → resolve c h u s ≡ (s, ok tt)
  unfolding resolve
  resolve_no_listeners e = rw (listenable, resolve) (rw keyed (rw e))

  finished_ok :
      (out : Session U C Token × Outcome (Exc U) Bool)
      → (finished out).1 ≡ ok tt
      → (out.1 ≡ ok true) × ((finished out).0 ≡ out.0)
  unfolding finished on_unresolved
  finished_ok (s', ok true) r = (refl, refl)
  finished_ok (s', ok false) r = cc
  finished_ok (s', raise e) r = cc

  -- Fencing: let an update be listenable and have a key, and let the coordinator keep its
  -- contract. If some listener waits and `resolve` returns, then the update went to a listener
  -- registered under one of the update's candidate keys, whose future was pending, and whose token
  -- the registry named as the owner of that key.
  pub resolve-Delivered :
      has_listeners s.listeners ≡ true
      → (resolve c h u s).1 ≡ ok tt
      → Delivered c R h u (sub_keys 1 k) s (resolve c h u s).0
  resolve-Delivered active r =
      let found =
        finished_ok (try_keys c h u (sub_keys 1 k) s)
          (ap (λ x. x.1) (sym (resolve_lem active)) ∙ r) in
      rw (resolve_lem active, found.1) (try_keys-Delivered c R h u (sub_keys 1 k) s found.0)

  has_listeners_of :
      {l : ListenerModel Token} (sub : ListenerKey)
      → lookup sub s.listeners ≡ some l
      → has_listeners s.listeners ≡ true
  has_listeners_of {l} sub e = nonempty s.listeners e
    where
      nonempty :
          (ls : Dict ListenerKey (ListenerModel Token))
          → lookup sub ls ≡ some l
          → has_listeners ls ≡ true
      nonempty [] e = absurd (lookup_nil sub e)
      nonempty (x ∷ ls) e = refl

  module _ (pre post : List ListenerKey) (sub : ListenerKey) (l : ListenerModel Token)
      (split : sub_keys 1 k ≡ pre ++ sub ∷ post) (here : lookup sub s.listeners ≡ some l)
      (owned : owns c R s sub l ≡ true) (keep : is_bypass h u ≡ ok false) where
    -- Delivery: let a listenable update have a candidate key whose listener owns its registration
    -- in a coordinator that keeps its contract, let that listener's future be pending and the
    -- update not bypass it, let no future be waited for under two keys, and let every candidate
    -- that comes before have no listener, or one with a pending future that does not own its
    -- registration any more. Then `resolve` returns, that listener's future holds the update, and
    -- no other future gets it.
    pub resolve_first :
        Distinct c R s
        → All (Skipped c R s) pre
        → done s l.future ≡ false
        → let s' = (resolve c h u s).0 in
          ((resolve c h u s).1 ≡ ok tt)
          × ((s'.futures l.future).state ≡ result u)
          × ((g : ℕ)
              → g ≢ l.future
              → (s'.futures g).state ≡ result u
              → (s.futures g).state ≡ result u)
    unfolding finished
    resolve_first distinct passed p =
        let (found, got, only) = reached in
        rw (resolve_lem (has_listeners_of sub here), split) (rw found (refl, got, only))
      where
        reached : Reaches c R h u sub post l keep s (try_keys c h u (pre ++ sub ∷ post) s)
        reached = try_keys_first c R h u sub post l keep pre s distinct passed here owned p

    -- A defect: let the first candidate key of a listenable update have a listener that owns its
    -- registration in a coordinator that keeps its contract, and let the update not bypass it. If
    -- that listener's future is done already, because its cleanup callback has not run yet, then
    -- `resolve` raises `InvalidStateError`, changes nothing and asks no other listener.
    pub resolve-done_raises :
        pre ≡ [] → done s l.future ≡ true → resolve c h u s ≡ (s, raise invalid_state_error)
    unfolding finished
    resolve-done_raises first p =
        rw (resolve_lem (has_listeners_of sub here), split, first)
          (rw (try_owned c R h u sub s post l here owned)
            (rw (deliver-done c R h u sub s l keep p)))
