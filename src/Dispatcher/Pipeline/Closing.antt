-- ===== src/Dispatcher/Pipeline/Closing.antt =====
-- What settling an update in progress leaves behind.
use pyroflow.Prelude.{
  ◌≡◌, refl, sym, ap, ◌∙◌, ◌||◌, inl, inr, Bool, true, false, M, Outcome, ok, if◌then◌else◌,
  Bool-cases,
}
use pyroflow.Errors.{Exc}
use pyroflow.UpdateCoordinator.{UpdateCoordinator, IsUpdateCoordinator}
use pyroflow.Dispatcher.Settlement.{Release, Context, IsSafeAwait, settle_now, settle}
use pyroflow.Dispatcher.Pipeline.Settled.{
  InProgress, closed_handled, settle_now_lem, settle_now_again,
}

module _ {U C K : Type 0} (c : UpdateCoordinator U C K) (R : IsUpdateCoordinator U C K c)
    (safe_await : M C (Exc U) (Unit {0}) → M C (Exc U) (Unit {0}))
    (A : IsSafeAwait U C safe_await) where
  open R use {holds, handled}

  pub settle_lem :
      {W : Type 0} (b : Bool) (r : Release K) (s : Context C W K)
      → settle c safe_await b r s ≡ settle_now c safe_await (b || r.early) r s
  unfolding settle
  settle_lem b r s = pick r.early b
    where
      pick :
          (e b : Bool)
          → (if e then settle_now c safe_await true r s else settle_now c safe_await b r s)
            ≡ settle_now c safe_await (b || e) r s
      pick true true = refl
      pick true false = refl
      pick false true = refl
      pick false false = refl

  module _ (k i : K) {W : Type 0} where
    -- What settling leaves: the lock is released, and `b` says whether the update is registered.
    abbrev pub Closes : Bool → Context C W K → Context C W K × Outcome (Exc U) (Unit {0}) → Type 0
    Closes b s out =
        (out.1 ≡ ok tt)
        × (holds out.0.coordinator k ≡ false)
        × (handled out.0.coordinator i ≡ b)
        × (out.0.world ≡ s.world)

    pub closes :
        (s : Context C W K) (y : InProgress c R safe_await A k i s.coordinator s.marker) (b : Bool)
        → Closes (b || y.release.early) s (settle c safe_await b y.release s)
    closes s y b = rw (settle_lem b y.release s) (elim (Bool-cases y.release.released) [
      | inl shut ↦
          rw (settle_now_again c R safe_await A k i (b || y.release.early) y.release s shut)
            (refl, (y.settled shut).0, (y.settled shut).1 ∙ or_true b _ (y.early_first shut), refl)
      | inr fresh ↦
          rw
            (settle_now_lem c R safe_await A k i (b || y.release.early) y.release s y.same_lock
              y.same_id fresh (y.unsettled fresh).0)
            (
              refl,
              R.release_holds _ k,
              closed_handled c R safe_await A k i (b || y.release.early) s.coordinator
                  ∙ ap (λ x. (b || y.release.early) || x) (y.unsettled fresh).1
                  ∙ or_false (b || y.release.early),
              refl,
            )
    ])
      where
        or_true : (b e : Bool) → e ≡ true → true ≡ (b || e)
        or_true true e h = refl
        or_true false e h = sym h

        or_false : (b : Bool) → (b || false) ≡ b
        or_false true = refl
        or_false false = refl
