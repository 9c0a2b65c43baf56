-- ===== src/ListenerCoordinator/Memory.antt =====
-- pyroflow/listener_coordinator/memory_listener_coordinator.py. The per-chat locks are not state
-- here: the callers' critical sections are the steps of the model.
pub mod Contract
use pyroflow.Prelude.{
  ℕ, suc, ◌+◌, ◌<◌, ◌≡◌, refl, ◌≢◌, inl, inr, ite, Bool, true, false, Option, none, some, List, [],
  ◌∷◌, arith, ℕ_discrete, DecEq, Dict, lookup, insert, delete, lookup-insert, lookup-delete, M, ok,
  raise, Option-cases, if◌then◌else◌, is_some,
}
use pyroflow.Models.{ListenerKey, ListenerKey-discrete, listener_key_eq}
use pyroflow.Errors.{Exc, key_error}
use pyroflow.ListenerCoordinator.{ListenerCoordinator, IsRegistry, owned_by}

instance abbrev pub nat_eq : DecEq ℕ
nat_eq = record { dec = ℕ_discrete }

pub record Registry : Type 0 where
  pub entries : Dict ListenerKey ℕ
  pub counter : ℕ

unfoldable pub init : Registry
init = record { entries = []; counter = 0 }

module _ {U : Type 0} where
  -- `_registered`
  unfoldable pub registered : ListenerKey → Option ℕ → M Registry (Exc U) Bool
  registered k t r = (r, ok (owned_by (lookup k r.entries) t))

  -- `_register`
  unfoldable pub register : ListenerKey → M Registry (Exc U) ℕ
  register k r = if owned_by (lookup k r.entries) none then (r, raise key_error) else (
    record r { entries = insert k r.counter r.entries; counter = suc r.counter },
    ok r.counter,
  )

  -- `_unregister`: the entry is popped, and put back if it belongs to another token.
  unfoldable pub unregister : ListenerKey → Option ℕ → M Registry (Exc U) Bool
  unregister k t r = elim (lookup k r.entries) [
    | none ↦ (r, ok true)
    | some r_id ↦
        let popped = delete k r.entries in
        if owned_by (some r_id) t
        then (record r { entries = popped }, ok true)
        else (record r { entries = insert k r_id popped }, ok false)
  ]

  -- `_cancel`
  unfoldable pub cancel : ListenerKey → M Registry (Exc U) Bool
  unfolding unregister
  cancel k = unregister k none

  unfoldable pub stop : M Registry (Exc U) (Unit {0})
  stop r = (record { entries = []; counter = 0 }, ok tt)

-- The class, as an implementation of the contract; `start` is inherited and does nothing.
unfoldable pub memory : {U : Type 0} → ListenerCoordinator U Registry ℕ
memory = record {
  register = register;
  unregister = unregister;
  cancel = cancel;
  registered = registered;
  start = λ r. (r, ok tt);
  stop = stop;
}
