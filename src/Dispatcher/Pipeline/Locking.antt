-- ===== src/Dispatcher/Pipeline/Locking.antt =====
-- The attempt to take an update's lock.
use pyroflow.Prelude.{
  ◌≡◌, ◌≢◌, ◌⊎◌, refl, subst, sym, ap, ◌∙◌, inl, inr, Bool, true, false, DecEq, M, Outcome, ok,
  raise, and_then, if◌then◌else◌, Outcome-cases, return,
}
use pyroflow.Errors.{Exc}
use pyroflow.UpdateCoordinator.{
  UpdateCoordinator, IsUpdateCoordinator, Coordinated, is_coordinatable, extract_key,
}
use pyroflow.Dispatcher.Settlement.{Context, on_coordinator}
use pyroflow.Dispatcher.{Handler}
use pyroflow.Dispatcher.Pipeline.{Dispatcher, Attempt, uncoordinated, timed_out, locked, take_lock}

module _ {U C K : Type 0} (c : UpdateCoordinator U C K) (R : IsUpdateCoordinator U C K c)
    (safe_await : M C (Exc U) (Unit {0}) → M C (Exc U) (Unit {0})) where
  open R use {holds, handled}

  module _ {T W : Type 0} ⦃d : DecEq T⦄ (type_of : U → T)
      (on_error : Exc U → Handler U W → M W (Exc U) (Unit {0})) (disp : Dispatcher T U W K)
      (co : Coordinated U K) (u : U) where
    abbrev pub attempt : Context C W K → Context C W K × Outcome (Exc U) (Attempt K)
    attempt = take_lock type_of c safe_await on_error disp co u

    -- What the attempt makes of the acquisition of the lock.
    abbrev attempted :
        K → Context C W K × Outcome (Exc U) Bool → Context C W K × Outcome (Exc U) (Attempt K)
    attempted k out = and_then out (λ b. return (if b then locked k else timed_out))

    attempt_cases :
        (s : Context C W K)
        → ((r : Outcome (Exc U) (Attempt K)) × (attempt s ≡ (s, r)) × ((k : K) → r ≢ ok (locked k)))
          ⊎ ((k : K) × (attempt s ≡ attempted k (on_coordinator (c.acquire k) s)))
    unfolding take_lock
    attempt_cases s = elim (Outcome-cases (is_coordinatable co u)) [
      | inr (e, p) ↦ inl (raise e, rw (p, take_lock), λ k h. cc)
      | inl (false, p) ↦ inl (ok uncoordinated, rw (p, take_lock), λ k h. cc)
      | inl (true, p) ↦ elim (Outcome-cases (extract_key co u)) [
        | inr (e, q) ↦ inl (raise e, rw (p, take_lock) (rw q), λ k h. cc)
        | inl (k, q) ↦ inr (k, rw (p, take_lock) (rw q))
      ]
    ]

    attempted_state :
        (k : K) (out : Context C W K × Outcome (Exc U) Bool) → (attempted k out).0 ≡ out.0
    attempted_state k (t, ok b) = refl
    attempted_state k (t, raise e) = refl

    attempted_locked :
        (k j : K) (out : Context C W K × Outcome (Exc U) Bool)
        → (attempted j out).1 ≡ ok (locked k)
        → (out.1 ≡ ok true) × (j ≡ k)
    attempted_locked k j (t, ok true) r = (refl, cc)
    attempted_locked k j (t, ok false) r = cc
    attempted_locked k j (t, raise e) r = cc

    -- Taking the lock neither touches the world nor registers anything.
    pub take_lock_keeps :
        (s : Context C W K)
        → ((attempt s).0.world ≡ s.world)
          × ((j : K) → handled (attempt s).0.coordinator j ≡ handled s.coordinator j)
    take_lock_keeps s = elim (attempt_cases s) [
      | inl (r, e, _) ↦ rw e (refl, λ j. refl)
      | inr (k, e) ↦ rw e (
          rw (attempted_state k (on_coordinator (c.acquire k) s))
            (refl, R.acquire_handled s.coordinator k))
    ]

    -- A lock that was taken is held.
    pub take_lock_holds :
        (s : Context C W K) (k : K)
        → (attempt s).1 ≡ ok (locked k)
        → holds (attempt s).0.coordinator k ≡ true
    take_lock_holds s k r = elim (attempt_cases s) [
      | inl (x, e, other) ↦ absurd (other k (sym (ap (λ x. x.1) e) ∙ r))
      | inr (j, e) ↦
          let (got, same) =
            attempted_locked k j (on_coordinator (c.acquire j) s) (sym (ap (λ x. x.1) e) ∙ r) in
          rw e (
            rw (attempted_state j (on_coordinator (c.acquire j) s)) (
              subst (λ x. holds (c.acquire j s.coordinator).0 x ≡ true) same
                (R.acquire_holds s.coordinator j got)))
    ]
