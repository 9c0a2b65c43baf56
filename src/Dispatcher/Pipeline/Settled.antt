-- ===== src/Dispatcher/Pipeline/Settled.antt =====
-- While an update is handled under its lock: its settlement happens at most once, and whatever
-- handlers do, only `mark_handled` brings it forward.
use pyroflow.Prelude.{
  ◌≡◌, refl, ap, ◌∙◌, ◌||◌, inl, inr, Bool, true, false, Option, some, M, Outcome, ok, raise,
  and_then, if◌then◌else◌, Bool-cases,
}
use pyroflow.Errors.{Exc, is_exception}
use pyroflow.UpdateCoordinator.{UpdateCoordinator, IsUpdateCoordinator}
use pyroflow.Dispatcher.Settlement.{
  Release, Context, IsSafeAwait, then_finally, mark_handled, claim_early, register_handled,
  settle_now, run_early,
}
use pyroflow.Dispatcher.{Program, finishes, acts, reads, marks, yields, or_else, perform}

module _ {U C K : Type 0} (c : UpdateCoordinator U C K) (R : IsUpdateCoordinator U C K c)
    (safe_await : M C (Exc U) (Unit {0}) → M C (Exc U) (Unit {0}))
    (A : IsSafeAwait U C safe_await) where
  open R use {holds, handled}

  awaited :
      (m : M C (Exc U) (Unit {0})) (s : C) → (m s).1 ≡ ok tt → safe_await m s ≡ ((m s).0, ok tt)
  awaited m s e = A.runs m s e ∙ ap (λ r. ((m s).0, r)) e

  module _ (k i : K) where
    registered_lem :
        (b : Bool) (s : C)
        → register_handled c safe_await b (some i) s
          ≡ ((if b then (c.mark_handled i s).0 else s), ok tt)
    registered_lem true s = awaited (c.mark_handled i) s (R.mark_ok s i)
    registered_lem false s = refl

    -- The coordinator once an update is settled.
    abbrev pub closed : Bool → C → C
    closed b s = (c.release k (if b then (c.mark_handled i s).0 else s)).0

    still_holds :
        (b : Bool) (s : C)
        → holds s k ≡ true
        → holds (if b then (c.mark_handled i s).0 else s) k ≡ true
    still_holds true s h = R.mark_holds s i k ∙ h
    still_holds false s h = h

    settled_lem :
        (b : Bool) (s : C)
        → holds s k ≡ true
        → then_finally (register_handled c safe_await b (some i) s) (safe_await (c.release k))
          ≡ (closed b s, ok tt)
    settled_lem b s h = rw (registered_lem b s) (
        rw (
          awaited (c.release k) (if b then (c.mark_handled i s).0 else s)
            (R.release_ok _ k (still_holds b s h))))

    pub closed_handled : (b : Bool) (s : C) → handled (closed b s) i ≡ (b || handled s i)
    closed_handled true s = R.release_handled (c.mark_handled i s).0 k i ∙ R.mark_handled_lem s i
    closed_handled false s = R.release_handled s k i

    -- The release of one update in progress, by the state of its coordinator and the marker.
    pub record InProgress (s : C) (m : Option (Release K)) : Type 0 where
      pub release : Release K
      pub marked : m ≡ some release
      pub same_lock : release.lock ≡ k
      pub same_id : release.update_id ≡ some i
      pub early_first : release.released ≡ true → release.early ≡ true
      pub settled : release.released ≡ true → (holds s k ≡ false) × (handled s i ≡ true)
      pub unsettled : release.released ≡ false → (holds s k ≡ true) × (handled s i ≡ false)

    module _ {W : Type 0} where
      abbrev pub Progress : Context C W K → Type 0
      Progress s = InProgress s.coordinator s.marker

      pub settle_now_lem :
          (b : Bool) (r : Release K) (s : Context C W K)
          → r.lock ≡ k
          → r.update_id ≡ some i
          → r.released ≡ false
          → holds s.coordinator k ≡ true
          → settle_now c safe_await b r s ≡ (
            record s {
              coordinator = closed b s.coordinator;
              marker = some (record r { released = true });
            },
            ok tt,
          )
      unfolding settle_now
      settle_now_lem b r s lock id fresh h =
          rw (fresh, settle_now) (rw (lock, id) (rw (settled_lem b s.coordinator h)))

      pub settle_now_again :
          (b : Bool) (r : Release K) (s : Context C W K)
          → r.released ≡ true
          → settle_now c safe_await b r s ≡ (s, ok tt)
      unfolding settle_now
      settle_now_again b r s shut = rw (shut, settle_now)

      -- An update that was open is settled as handled.
      settled_now :
          (s : Context C W K) (y : Progress s)
          → y.release.early ≡ true
          → Progress (settle_now c safe_await true y.release s).0
      settled_now s y e = elim (Bool-cases y.release.released) [
        | inl shut ↦ rw (settle_now_again true y.release s shut) y
        | inr fresh ↦
            rw (settle_now_lem true y.release s y.same_lock y.same_id fresh (y.unsettled fresh).0)
              (record {
                release = record y.release { released = true };
                marked = refl;
                same_lock = y.same_lock;
                same_id = y.same_id;
                early_first = λ h. e;
                settled = λ h. (
                  R.release_holds (c.mark_handled i s.coordinator).0 k,
                  closed_handled true s.coordinator,
                );
                unsettled = λ h. cc;
              })
      ]

      run_early_lem :
          (s : Context C W K) (r : Release K)
          → s.marker ≡ some r
          → run_early c safe_await s
            ≡ (if r.early then settle_now c safe_await true r s else (s, ok tt))
      unfolding run_early
      run_early_lem s r m = simp (m, run_early)

      run_early-Progress : (s : Context C W K) → Progress s → Progress (run_early c safe_await s).0
      run_early-Progress s y =
          rw (run_early_lem s y.release y.marked) (by_early y.release.early refl)
        where
          by_early :
              (b : Bool)
              → y.release.early ≡ b
              → Progress (if b then settle_now c safe_await true y.release s else (s, ok tt)).0
          by_early true e = settled_now s y e
          by_early false e = y

      pub mark_handled-Progress :
          (s : Context C W K) → Progress s → Progress (mark_handled {U = U} s).0
      unfolding mark_handled claim_early
      mark_handled-Progress s y = elim (Bool-cases (y.release.early || y.release.released)) [
        | inl e ↦ rw (y.marked, mark_handled) (rw e y)
        | inr e ↦
            rw (y.marked, mark_handled)
              (rw e (record {
                release = record y.release { early = true };
                marked = refl;
                same_lock = y.same_lock;
                same_id = y.same_id;
                early_first = λ h. refl;
                settled = y.settled;
                unsettled = y.unsettled;
              }))
      ]

      pub bind-Progress :
          {A B : Type 0} (out : Context C W K × Outcome (Exc U) A)
          (m : A → M (Context C W K) (Exc U) B)
          → Progress out.0
          → ((a : A) (t : Context C W K) → Progress t → Progress (m a t).0)
          → Progress (and_then out m).0
      bind-Progress (t, ok a) m y f = f a t y
      bind-Progress (t, raise e) m y f = y

      pub or_else-Progress :
          {A : Type 0} (a : A) (out : Context C W K × Outcome (Exc U) A)
          → Progress out.0
          → Progress (or_else a out).0
      or_else-Progress a (t, ok b) y = y
      or_else-Progress a (t, raise e) y = elim (Bool-cases (is_exception e)) [
        | inl h ↦ rw h y
        | inr h ↦ rw h y
      ]

      pub perform-Progress :
          (p : Program U W) (s : Context C W K) → Progress s → Progress (perform c safe_await p s).0
      unfolding perform
      perform-Progress (finishes r) s y = y
      perform-Progress (acts f p) s y = perform-Progress p (record s { world = f s.world }) y
      perform-Progress (reads p) s y = perform-Progress (p s.world) s y
      perform-Progress (marks p) s y =
          bind-Progress (mark_handled s) _ (mark_handled-Progress s y) (λ b. perform-Progress (p b))
      perform-Progress (yields p) s y =
          bind-Progress (run_early c safe_await s) _ (run_early-Progress s y)
            (λ b. perform-Progress p)
