-- ===== src/ListenerCoordinator/Memory/Contract.antt =====
-- The in-memory coordinator meets the contract of the listener registry.
use pyroflow.Prelude.{
  ℕ, ◌≤◌, ◌<◌, ◌≡◌, ◌↔◌, refl, inl, inr, ite, Bool, true, false, Option, none, some, arith, lookup,
  insert, delete, lookup-insert, lookup-delete, ok, raise, Option-cases, if◌then◌else◌,
}
use pyroflow.Models.{ListenerKey, ListenerKey-discrete, listener_key_eq}
use pyroflow.Errors.{key_error}
use pyroflow.ListenerCoordinator.{IsRegistry, owned_by}
use pyroflow.ListenerCoordinator.Memory.{
  Registry, nat_eq, init, memory, register, registered, unregister, cancel, stop,
}

abbrev pub owner : Registry → ListenerKey → Option ℕ
owner r k = lookup k r.entries

-- Every token in the registry was handed out.
abbrev pub IsValid : Registry → Type 0
IsValid r = (k : ListenerKey) (i : ℕ) → owner r k ≡ some i → i < r.counter

module _ (U : Type 0) (r : Registry) (k : ListenerKey) where
  pub register_taken : (i : ℕ) → owner r k ≡ some i → (register {U = U} k r).1 ≡ raise key_error
  unfolding register
  register_taken i h = ground arith

  pub register_free :
      owner r k ≡ none
      → (i : ℕ) × ((register {U = U} k r).1 ≡ ok i)
        × (¬ (i < r.counter))
        × (i < (register {U = U} k r).0.counter)
        × ((j : ListenerKey)
            → owner (register {U = U} k r).0 j
              ≡ ite (ListenerKey-discrete k j) (some i) (owner r j))
  unfolding register
  register_free h = (
    r.counter,
    ground arith,
    omega arith,
    ground arith,
    λ j. ground (arith, lookup-insert k j r.counter r.entries),
  )

  register-counter-le : r.counter ≤ (register {U = U} k r).0.counter
  unfolding register
  register-counter-le = ground arith

  pub register-Issued : (i : ℕ) → i < r.counter → i < (register {U = U} k r).0.counter
  register-Issued i h = omega (arith, register-counter-le)

  pub register-IsValid : IsValid r → IsValid (register {U = U} k r).0
  unfolding register
  register-IsValid v j i h = ground (arith, lookup-insert k j r.counter r.entries, v j i)

  -- The entry popped and put back is the one that was there.
  restored :
      (i : ℕ) (j : ListenerKey)
      → owner r k ≡ some i
      → lookup j (insert k i (delete k r.entries)) ≡ owner r j
  restored i j h =
      ground (arith, lookup-insert k j i (delete k r.entries), lookup-delete k j r.entries)

  pub unregister_owner :
      (t : Option ℕ) (j : ListenerKey)
      → owner (unregister {U = U} k t r).0 j ≡ (
          if owned_by (owner r k) t
          then ite (ListenerKey-discrete k j) none (owner r j)
          else owner r j)
  unfolding unregister
  unregister_owner t j = elim (Option-cases (lookup k r.entries)) [
    | inl e ↦ rw (e, unregister)
    | inr (i, e) ↦ rw (e, unregister) (ground (arith, restored i j e, lookup-delete k j r.entries))
  ]

  unregister_counter : (t : Option ℕ) → (unregister {U = U} k t r).0.counter ≡ r.counter
  unfolding unregister
  unregister_counter t = ground arith

  pub unregister_ok : (t : Option ℕ) → (b : Bool) × ((unregister {U = U} k t r).1 ≡ ok b)
  unfolding unregister
  unregister_ok t = elim (Option-cases (lookup k r.entries)) [
    | inl e ↦ (true, rw (e, unregister))
    | inr (i, e) ↦ (owned_by (some i) t, rw (e, unregister) (ground arith))
  ]

  pub unregister_absent : (t : Option ℕ) → owner r k ≡ none → (unregister {U = U} k t r).1 ≡ ok true
  unfolding unregister
  unregister_absent t h = rw (h, unregister) refl

  pub unregister_removed :
      (t : Option ℕ) → owned_by (owner r k) t ≡ true → (unregister {U = U} k t r).1 ≡ ok true
  unfolding unregister
  unregister_removed t o = elim (Option-cases (lookup k r.entries)) [
    | inl e ↦ unregister_absent t e
    | inr (i, e) ↦ rw (e, unregister) (ground (arith, o))
  ]

  pub unregister_refused :
      (t : Option ℕ) (i : ℕ)
      → owner r k ≡ some i
      → owned_by (some i) t ≡ false
      → (unregister {U = U} k t r).1 ≡ ok false
  unfolding unregister
  unregister_refused t i e o = rw (e, unregister) (ground (arith, o))

  pub cancel_removed : (i : ℕ) → owner r k ≡ some i → (cancel {U = U} k r).1 ≡ ok true
  unfolding cancel unregister
  cancel_removed i e = rw (e, unregister) refl

  pub unregister-IsValid : (t : Option ℕ) → IsValid r → IsValid (unregister {U = U} k t r).0
  unregister-IsValid t v j i h = ground (arith, unregister_owner t j, unregister_counter t, v j i)

pub unregister-Issued :
    (U : Type 0) (r : Registry) (k : ListenerKey) (t : Option ℕ) (i : ℕ)
    → i < r.counter
    → i < (unregister {U = U} k t r).0.counter
unregister-Issued U r k t i h = omega (arith, unregister_counter U r k t)

pub cancel_owner :
    (U : Type 0) (r : Registry) (k j : ListenerKey)
    → owner (cancel {U = U} k r).0 j ≡ ite (ListenerKey-discrete k j) none (owner r j)
unfolding cancel
cancel_owner U r k j = ground (arith, unregister_owner U r k none j)

-- The contract, for the in-memory coordinator.
unfoldable pub memory_contract : (U : Type 0) → IsRegistry U Registry ℕ memory
unfolding memory registered cancel
memory_contract U = record {
  owner = owner;
  IsValid = IsValid;
  Issued = λ r i. i < r.counter;
  owner-Issued = λ r k i v. v k i;
  registered_lem = λ r k t. refl;
  register_taken = register_taken U;
  register_free = register_free U;
  register_kept = λ r k. (register-IsValid U r k, register-Issued U r k);
  unregister_ok = unregister_ok U;
  unregister_removed = unregister_removed U;
  unregister_refused = unregister_refused U;
  unregister_owner = unregister_owner U;
  unregister_kept = λ r k t. (unregister-IsValid U r k t, unregister-Issued U r k t);
  cancel_ok = λ r k. unregister_ok U r k none;
  cancel_removed = cancel_removed U;
  cancel_owner = cancel_owner U;
  cancel_kept = λ r k. (unregister-IsValid U r k none, unregister-Issued U r k none);
}

-- The in-memory coordinator keeps the contract of listener registries: with the token of a key's
-- entry as its owner and the tokens below the counter as the issued ones, and with the Boolean of
-- an `unregister` or `cancel` that finds an owner telling whether the owner was removed. A new
-- coordinator is valid and owns nothing. Beside the contract: `unregister` and `cancel` of a key
-- without an owner return `True`, although nothing is removed; and after `stop` no key has an owner
-- and no token counts as issued.
pub memory-IsRegistry :
    (U : Type 0)
    → (R : IsRegistry U Registry ℕ memory) × ((r : Registry) (k : ListenerKey)
        → R.owner r k ≡ lookup k r.entries)
      × ((r : Registry) (i : ℕ) → R.Issued r i ↔ (i < r.counter))
      × R.IsValid init
      × ((k : ListenerKey) → R.owner init k ≡ none)
      × ((r : Registry) (k : ListenerKey) (t : Option ℕ)
          → R.owner r k ≡ none
          → ((unregister {U = U} k t r).1 ≡ ok true) × ((cancel {U = U} k r).1 ≡ ok true))
      × ((r : Registry) (k : ListenerKey) → R.owner (stop {U = U} r).0 k ≡ none)
      × ((r : Registry) (i : ℕ) → ¬ R.Issued (stop {U = U} r).0 i)
unfolding memory_contract init lookup stop cancel
memory-IsRegistry U = (
  memory_contract U,
  λ r k. refl,
  λ r i. (λ h. h, λ h. h),
  λ k i h. cc,
  λ k. refl,
  λ r k t h. (unregister_absent U r k t h, unregister_absent U r k none h),
  λ r k. refl,
  λ r i lt. omega arith,
)
