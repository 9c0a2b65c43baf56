-- ===== src/ListenerCoordinator.antt =====
-- pyroflow/listener_coordinator/listener_coordinator.py: the registry of listeners, its contract,
-- and what every implementation of the contract gives to the listeners above it.
pub mod Memory
pub mod Redis
mod Tests
use pyroflow.Prelude.{
  ◌≡◌, Bool, true, false, Option, none, some, ite, DecEq, M, ok, raise, if◌then◌else◌,
}
use pyroflow.Models.{ListenerKey, ListenerKey-discrete}
use pyroflow.Errors.{Exc, key_error}

-- The abstract methods, over the coordinator's state `C`; `Token` is the type of ownership tokens.
pub record ListenerCoordinator (U C Token : Type 0) : Type 0 where
  pub register : ListenerKey → M C (Exc U) Token
  pub unregister : ListenerKey → Option Token → M C (Exc U) Bool
  pub cancel : ListenerKey → M C (Exc U) Bool
  pub registered : ListenerKey → Option Token → M C (Exc U) Bool
  pub start : M C (Exc U) (Unit {0})
  pub stop : M C (Exc U) (Unit {0})

-- Whether the key's owner, if any, answers to the given token, if any.
abbrev pub owned_by : {Token : Type 0} ⦃d : DecEq Token⦄ → Option Token → Option Token → Bool
owned_by none token = false
owned_by (some r) none = true
owned_by ⦃d⦄ (some r) (some i) = ite (d.dec r i) true false

-- The contract. `owner` is the token under which a key is registered, `Issued` the tokens that were
-- ever handed out: a new registration gets a token that was not, which is what makes it a generation.
pub record IsRegistry (U C Token : Type 0) ⦃d : DecEq Token⦄ (r : ListenerCoordinator U C Token)
    : Type 1 where
  pub owner : C → ListenerKey → Option Token
  pub IsValid : C → Type 0
  pub Issued : C → Token → Type 0
  pub owner-Issued :
      (c : C) (k : ListenerKey) (i : Token) → IsValid c → owner c k ≡ some i → Issued c i
  pub registered_lem :
      (c : C) (k : ListenerKey) (t : Option Token)
      → r.registered k t c ≡ (c, ok (owned_by (owner c k) t))
  pub register_taken :
      (c : C) (k : ListenerKey) (i : Token)
      → owner c k ≡ some i
      → (r.register k c).1 ≡ raise key_error
  pub register_free :
      (c : C) (k : ListenerKey)
      → owner c k ≡ none
      → (i : Token) × ((r.register k c).1 ≡ ok i)
        × (¬ Issued c i)
        × Issued (r.register k c).0 i
        × ((j : ListenerKey)
            → owner (r.register k c).0 j ≡ ite (ListenerKey-discrete k j) (some i) (owner c j))
  pub register_kept :
      (c : C) (k : ListenerKey)
      → (IsValid c → IsValid (r.register k c).0)
        × ((j : Token) → Issued c j → Issued (r.register k c).0 j)
  pub unregister_ok :
      (c : C) (k : ListenerKey) (t : Option Token) → (b : Bool) × ((r.unregister k t c).1 ≡ ok b)
  pub unregister_removed :
      (c : C) (k : ListenerKey) (t : Option Token)
      → owned_by (owner c k) t ≡ true
      → (r.unregister k t c).1 ≡ ok true
  pub unregister_refused :
      (c : C) (k : ListenerKey) (t : Option Token) (i : Token)
      → owner c k ≡ some i
      → owned_by (some i) t ≡ false
      → (r.unregister k t c).1 ≡ ok false
  pub unregister_owner :
      (c : C) (k : ListenerKey) (t : Option Token) (j : ListenerKey)
      → owner (r.unregister k t c).0 j ≡ (
          if owned_by (owner c k) t
          then ite (ListenerKey-discrete k j) none (owner c j)
          else owner c j)
  pub unregister_kept :
      (c : C) (k : ListenerKey) (t : Option Token)
      → (IsValid c → IsValid (r.unregister k t c).0)
        × ((j : Token) → Issued c j → Issued (r.unregister k t c).0 j)
  pub cancel_ok : (c : C) (k : ListenerKey) → (b : Bool) × ((r.cancel k c).1 ≡ ok b)
  pub cancel_removed :
      (c : C) (k : ListenerKey) (i : Token) → owner c k ≡ some i → (r.cancel k c).1 ≡ ok true
  pub cancel_owner :
      (c : C) (k j : ListenerKey)
      → owner (r.cancel k c).0 j ≡ ite (ListenerKey-discrete k j) none (owner c j)
  pub cancel_kept :
      (c : C) (k : ListenerKey)
      → (IsValid c → IsValid (r.cancel k c).0)
        × ((j : Token) → Issued c j → Issued (r.cancel k c).0 j)
