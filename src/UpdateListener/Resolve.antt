-- ===== src/UpdateListener/Resolve.antt =====
-- Which listener `resolve` gives an update to.
pub mod Order
pub mod First
pub mod Update
use pyroflow.Prelude.{
  Among, ℕ, ◌≡◌, refl, sym, ◌≢◌, ◌⊎◌, inl, inr, ite, Bool, true, false, Option, none, some, List,
  [], ◌∷◌, ◌++◌, arith, ℕ_discrete, DecEq, lookup, lookup-delete, delete, and_then, throw, Outcome,
  ok, raise, if◌then◌else◌, Option-cases, Bool-cases,
}
use pyroflow.Models.{ListenerKey, ListenerKey-discrete, listener_key_eq, sub_keys}
use pyroflow.Errors.{Exc, unresolved_update, invalid_state_error}
use pyroflow.ListenerCoordinator.{ListenerCoordinator, IsRegistry, owned_by}
use pyroflow.Session.{result, ListenerModel, Session, done, settled, finish}
use pyroflow.UpdateListener.{
  Hooks, is_listenable, extract_key, is_bypass, is_stale, cancel_locked, has_listeners,
  on_unresolved, deliver, try_keys, resolve,
}
use pyroflow.UpdateListener.Cancel.{cleared, withdrawn, cancel_pending, cancel_done}

then_throw_raises :
    {S E A B : Type 0} (m : S × Outcome E A) (x : E) {b : B}
    → (and_then {B = B} m (λ _. throw x)).1 ≢ ok b
then_throw_raises (s, ok a) x r = cc
then_throw_raises (s, raise e) x r = cc

module _ {U C Token : Type 0} ⦃d : DecEq Token⦄ (c : ListenerCoordinator U C Token)
    (R : IsRegistry U C Token c) where
  open R use {owner}

  pub not_stale_self : (t : Option Token) → is_stale c t t ≡ false
  not_stale_self none = refl
  not_stale_self (some i) = ground arith

  -- The registry still names the listener's own token as the key's owner.
  abbrev pub owns : Session U C Token → ListenerKey → ListenerModel Token → Bool
  owns s j l = owned_by (owner s.coordinator j) l.coordinator_id

  module _ (h : Hooks U) (u : U) (j : ListenerKey) (s : Session U C Token) where
    pub try_absent :
        (subs : List ListenerKey)
        → lookup j s.listeners ≡ none
        → try_keys c h u (j ∷ subs) s ≡ try_keys c h u subs s
    unfolding try_keys
    try_absent subs e = rw (e, try_keys)

    module _ (subs : List ListenerKey) (l : ListenerModel Token)
        (e : lookup j s.listeners ≡ some l) where
      pub try_owned : owns s j l ≡ true → try_keys c h u (j ∷ subs) s ≡ deliver c h u j l s
      unfolding try_keys
      try_owned o = rw (e, try_keys) (rw (R.registered_lem s.coordinator j l.coordinator_id) (rw o))

      pub try_superseded :
          owns s j l ≡ false
          → done s l.future ≡ false
          → try_keys c h u (j ∷ subs) s
            ≡ try_keys c h u subs (withdrawn c R j false false l.coordinator_id s l)
      unfolding try_keys
      try_superseded o p =
          rw (e, try_keys)
            (rw (R.registered_lem s.coordinator j l.coordinator_id) (
              rw o (
                rw (
                  cancel_pending c R j false false l.coordinator_id s l e
                    (not_stale_self l.coordinator_id) p))))

      pub try_superseded_done :
          owns s j l ≡ false
          → done s l.future ≡ true
          → (try_keys c h u (j ∷ subs) s).1 ≡ raise invalid_state_error
      unfolding try_keys
      try_superseded_done o p =
          rw (e, try_keys)
            (rw (R.registered_lem s.coordinator j l.coordinator_id) (
              rw o (
                rw (
                  cancel_done c R j false false l.coordinator_id s l e
                    (not_stale_self l.coordinator_id) p))))

    module _ (l : ListenerModel Token) where
      pub deliver_lem :
          is_bypass h u ≡ ok false
          → done s l.future ≡ false
          → deliver c h u j l s ≡ (settled l.future (result u) s, ok true)
      unfolding deliver finish
      deliver_lem b p = rw (b, deliver) (rw (p, finish))

      pub deliver-done :
          is_bypass h u ≡ ok false
          → done s l.future ≡ true
          → deliver c h u j l s ≡ (s, raise invalid_state_error)
      unfolding deliver finish
      deliver-done b p = rw (b, deliver) (rw (p, finish))

      pub deliver_bypass :
          is_bypass h u ≡ ok true
          → lookup j s.listeners ≡ some l
          → done s l.future ≡ false
          → deliver c h u j l s ≡ (
            cleared c R j true (withdrawn c R j true false l.coordinator_id s l),
            raise (unresolved_update u),
          )
      unfolding deliver
      deliver_bypass b e p =
          rw (b, deliver)
            (rw (
              cancel_pending c R j true false l.coordinator_id s l e
                (not_stale_self l.coordinator_id) p))

      -- A bypassing update, or an error in the bypass test, ends the loop by an error.
      pub deliver_bypass_raises : is_bypass h u ≡ ok true → (deliver c h u j l s).1 ≢ ok true
      unfolding deliver
      deliver_bypass_raises b r =
          then_throw_raises (cancel_locked c j true false l.coordinator_id s) (unresolved_update u)
            (rw (b, deliver) at r)

      pub deliver_error : (x : Exc U) → is_bypass h u ≡ raise x → deliver c h u j l s ≡ (s, raise x)
      unfolding deliver
      deliver_error x b = rw (b, deliver)
