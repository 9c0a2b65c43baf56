-- ===== src/UpdateCoordinator/Memory.antt =====
-- pyroflow/update_coordinator/memory_update_coordinator.py. `TTLCache` is a parameter, at one point
-- in time; the weak dictionary of locks is the list of the keys whose lock is held.
use pyroflow.Prelude.{
  ◌≡◌, ◌≢◌, ◌⊎◌, sym, ◌∙◌, refl, ap, inl, inr, ite, Bool, true, false, List, [], ◌∷◌, arith, DecEq,
  M, ok, raise, if◌then◌else◌, Bool-cases,
}
use pyroflow.Errors.{Exc, runtime_error}
use pyroflow.Text.{Text, text_eq}
use pyroflow.UpdateCoordinator.Keys.{Part, lock, handled, build_key}
use pyroflow.UpdateCoordinator.{UpdateCoordinator, IsUpdateCoordinator}

-- A cache whose state is `S`.
pub record TtlCache (K S : Type 0) : Type 0 where
  pub contains : K → S → Bool
  pub set : K → S → S
  pub clear : S → S

-- What the code relies on: a key that has just been set is there, and no other is new. Others may be
-- evicted.
pub record IsTtlCache (K S : Type 0) (t : TtlCache K S) : Type 0 where
  pub contains-set : (k : K) (s : S) → t.contains k (t.set k s) ≡ true
  pub contains-others :
      (k j : K) (s : S) → t.contains j (t.set k s) ≡ true → (t.contains j s ≡ true) ⊎ (k ≡ j)

pub record MemoryState (S : Type 0) : Type 0 where
  pub held : List Text
  pub handled : S

module _ {K : Type 0} ⦃d : DecEq K⦄ where
  unfoldable pub is_held : K → List K → Bool
  is_held k [] = false
  is_held k (j ∷ js) = ite (d.dec j k) true (is_held k js)

  unfoldable pub let_go : K → List K → List K
  let_go k [] = []
  let_go k (j ∷ js) = ite (d.dec j k) (let_go k js) (j ∷ let_go k js)

  pub is_held-let_go : (k : K) (js : List K) → is_held k (let_go k js) ≡ false
  unfolding is_held let_go
  is_held-let_go k [] = refl
  is_held-let_go k (j ∷ js) = ground (arith, is_held-let_go k js)

  pub is_held-others : (k j : K) (js : List K) → k ≢ j → is_held j (let_go k js) ≡ is_held j js
  unfolding is_held let_go
  is_held-others k j [] apart = refl
  is_held-others k j (i ∷ js) apart = elim (d.dec i k) [
    | yes p ↦ elim (d.dec i j) [
      | yes q ↦ absurd (apart (sym p ∙ q))
      | no q ↦ ground (arith, is_held-others k j js apart)
    ]
    | no p ↦ ground (arith, is_held-others k j js apart)
  ]

module _ {U S : Type 0} (update_name : Text) (t : TtlCache Text S) where
  -- `TimedLock.acquire`: `False` if the lock is still held when `blocking_timeout` is over.
  unfoldable pub acquire : List Part → M (MemoryState S) (Exc U) Bool
  acquire key s =
      let name = build_key update_name key lock in
      if is_held name s.held then (s, ok false) else (record s { held = name ∷ s.held }, ok true)

  -- `AsyncioLock.release`: an error if the lock is not held.
  unfoldable pub release : List Part → M (MemoryState S) (Exc U) (Unit {0})
  release key s =
      let name = build_key update_name key lock in
      if is_held name s.held
      then (record s { held = let_go name s.held }, ok tt)
      else (s, raise runtime_error)

  unfoldable pub is_handled : List Part → M (MemoryState S) (Exc U) Bool
  is_handled key s = (s, ok (t.contains (build_key update_name key handled) s.handled))

  unfoldable pub mark_handled : List Part → M (MemoryState S) (Exc U) (Unit {0})
  mark_handled key s =
      (record s { handled = t.set (build_key update_name key handled) s.handled }, ok tt)

  unfoldable pub stop : M (MemoryState S) (Exc U) (Unit {0})
  stop s = (record s { handled = t.clear s.handled }, ok tt)

  unfoldable pub memory_coordinator : UpdateCoordinator U (MemoryState S) (List Part)
  memory_coordinator = record {
    acquire = acquire;
    release = release;
    is_handled = is_handled;
    mark_handled = mark_handled;
  }

module _ (U : Type 0) {S : Type 0} (update_name : Text) (t : TtlCache Text S) (s : MemoryState S)
    (k : List Part) where
  abbrev pub name : Text
  name = build_key update_name k lock

  pub acquire_excludes :
      is_held name s.held ≡ true → (acquire {U = U} update_name t k s).1 ≢ ok true
  unfolding acquire
  acquire_excludes h = rw (h, acquire) (λ e. ground arith)

  pub acquire_holds :
      (acquire {U = U} update_name t k s).1 ≡ ok true
      → is_held name (acquire {U = U} update_name t k s).0.held ≡ true
  unfolding acquire is_held
  acquire_holds e = ground arith

  pub acquire_handled : (acquire {U = U} update_name t k s).0.handled ≡ s.handled
  unfolding acquire
  acquire_handled = ground arith

  pub release_ok : is_held name s.held ≡ true → (release {U = U} update_name t k s).1 ≡ ok tt
  unfolding release
  release_ok h = rw (h, release) refl

  pub release_holds : is_held name (release {U = U} update_name t k s).0.held ≡ false
  unfolding release
  release_holds = elim (Bool-cases (is_held name s.held)) [
    | inl h ↦ rw (h, release) (is_held-let_go name s.held)
    | inr h ↦ rw (h, release) h
  ]

  pub release_others :
      (j : Text)
      → name ≢ j
      → is_held j (release {U = U} update_name t k s).0.held ≡ is_held j s.held
  unfolding release
  release_others j apart = elim (Bool-cases (is_held name s.held)) [
    | inl h ↦ rw (h, release) (is_held-others name j s.held apart)
    | inr h ↦ rw (h, release) refl
  ]

  pub release_handled : (release {U = U} update_name t k s).0.handled ≡ s.handled
  unfolding release
  release_handled = ground arith

unfoldable pub memory_update_contract :
    {U S : Type 0} (update_name : Text) (t : TtlCache Text S)
    → IsTtlCache Text S t
    → IsUpdateCoordinator U (MemoryState S) (List Part) (memory_coordinator update_name t)
unfolding memory_coordinator is_handled mark_handled
memory_update_contract {U} n t T = record {
  holds = λ s k. is_held (build_key n k lock) s.held;
  taken = λ s k. is_held (build_key n k lock) s.held;
  handled = λ s k. t.contains (build_key n k handled) s.handled;
  lock_name = λ k. build_key n k lock;
  handled_name = λ k. build_key n k handled;
  holds_taken = λ s k h. h;
  acquire_excludes = acquire_excludes U n t;
  acquire_holds = acquire_holds U n t;
  acquire_handled = λ s k j. ap (t.contains (build_key n j handled)) (acquire_handled U n t s k);
  is_handled_lem = λ s k. refl;
  mark_ok = λ s k. refl;
  mark_handled_lem = λ s k. T.contains-set (build_key n k handled) s.handled;
  mark_no_other =
      λ s k j. T.contains-others (build_key n k handled) (build_key n j handled) s.handled;
  mark_holds = λ s k j. refl;
  release_ok = release_ok U n t;
  release_holds = release_holds U n t;
  release_others = λ s k j. release_others U n t s k (build_key n j lock);
  release_handled = λ s k j. ap (t.contains (build_key n j handled)) (release_handled U n t s k);
}
