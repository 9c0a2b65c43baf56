-- ===== src/Dispatcher/Pipeline/Once.antt =====
-- An update is handled under its lock, registered as its handlers' outcome says, and not handled
-- again once it is registered.
use pyroflow.Prelude.{
  ◌<◌, ◌⊎◌, ◌↔◌, inl, inr, arith, Bool-cases, ◌≡◌, refl, subst, sym, ap, ◌∙◌, ◌||◌, Bool, true,
  false, Option, none, some, DecEq, lookup, M, Outcome, ok, raise, and_then,
}
use pyroflow.Errors.{Exc, stop_propagation}
use pyroflow.UpdateCoordinator.{
  UpdateCoordinator, IsUpdateCoordinator, Coordinated, extract_update_id,
}
use pyroflow.Dispatcher.Settlement.{Release, Context, IsSafeAwait, settle}
use pyroflow.Dispatcher.{Handler, Tally}
use pyroflow.Dispatcher.Pipeline.{
  Dispatcher, locked, was_handled, dropped, handle_groups, take_lock, check_and_handle,
  finish_update, handle_locked, handle_update,
}
use pyroflow.Dispatcher.Pipeline.Settled.{InProgress, closed_handled, settle_now_lem}
use pyroflow.Dispatcher.Pipeline.Progress.{handle_groups-Progress}
use pyroflow.Dispatcher.Pipeline.Closing.{settle_lem, Closes, closes}
use pyroflow.Dispatcher.Pipeline.Locking.{take_lock_keeps, take_lock_holds}

-- Whether a handler has called `mark_handled`.
abbrev pub was_claimed : {K : Type 0} → Option (Release K) → Bool
was_claimed none = false
was_claimed (some r) = r.early

-- What counts as an update that ran: some handler was counted as done or as failed, or the
-- propagation was stopped.
abbrev pub Ran : {U : Type 0} → Outcome (Exc U) Tally → Type 0
Ran (ok t) = (0 < t.handled_count) ⊎ (0 < t.exc_count)
Ran (raise e) = e ≡ stop_propagation

was_handled_iff : {U : Type 0} (r : Outcome (Exc U) Tally) → was_handled r ≡ true ↔ Ran r
was_handled_iff (ok t) =
    ((λ h. ground arith), λ h. elim h [ inl p ↦ ground arith | inr p ↦ ground arith ])
was_handled_iff (raise stop_propagation) = (λ h. refl, λ h. refl)
was_handled_iff (raise _) = (λ h. ground arith, λ h. cc)

either : {b : Bool} {A : Type 0} (e : Bool) → b ≡ true ↔ A → (b || e) ≡ true ↔ (A ⊎ (e ≡ true))
either {b} e both = elim (Bool-cases b) [
  | inl h ↦ rw h (λ _. inl (both.0 h), λ _. refl)
  | inr h ↦ rw h ((λ x. inr x), elim [ inl a ↦ absurd (ground (arith, both.1 a)) | inr x ↦ x ])
]

module _ {U C K : Type 0} (c : UpdateCoordinator U C K) (R : IsUpdateCoordinator U C K c)
    (safe_await : M C (Exc U) (Unit {0}) → M C (Exc U) (Unit {0}))
    (A : IsSafeAwait U C safe_await) where
  open R use {holds, handled}

  module _ {T W : Type 0} ⦃d : DecEq T⦄ (type_of : U → T)
      (on_error : Exc U → Handler U W → M W (Exc U) (Unit {0})) (disp : Dispatcher T U W K)
      (co : Coordinated U K) (u : U) where
    -- An update that is over: the outcome of its handlers, the lock that was released, whether the
    -- update is registered, and the world that the handlers left.
    abbrev pub Over :
        K
        → K
        → Bool
        → Outcome (Exc U) Tally
        → W
        → Context C W K × Outcome (Exc U) (Unit {0})
        → Type 0
    Over k i b r w out =
        (out.1 ≡ dropped r)
        × (holds out.0.coordinator k ≡ false)
        × (handled out.0.coordinator i ≡ b)
        × (out.0.world ≡ w)

    closed_then :
        (k i : K) (b : Bool) (before : Option (Release K)) (r : Outcome (Exc U) Tally)
        (t : Context C W K) (out : Context C W K × Outcome (Exc U) (Unit {0}))
        → Closes c R safe_await A k i b t out
        → Over k i b r t.world (and_then out (λ _ s'. (record s' { marker = before }, dropped r)))
    closed_then k i b before r t (s', ok x) (_, free, registered, same) =
        (refl, free, registered, same)
    closed_then k i b before r t (s', raise e) (x, _, _, _) = cc

    finish_lem :
        (before : Option (Release K)) (r : Outcome (Exc U) Tally) (t : Context C W K)
        (m : Release K)
        → t.marker ≡ some m
        → finish_update type_of c safe_await on_error disp before (t, r)
          ≡ and_then
              (settle c safe_await (was_handled r) m t)
              (λ _ s'. (record s' { marker = before }, dropped r))
    unfolding finish_update
    finish_lem before r t m e = simp (e, finish_update)

    finish-Over :
        (k i : K) (before : Option (Release K)) (out : Context C W K × Outcome (Exc U) Tally)
        → InProgress c R safe_await A k i out.0.coordinator out.0.marker
        → Over k i
            (was_handled out.1 || was_claimed out.0.marker)
            out.1
            out.0.world
            (finish_update type_of c safe_await on_error disp before out)
    finish-Over k i before (t, r) y = rw (finish_lem before r t y.release y.marked) (
        subst
          (λ e. Over k i (was_handled r || e) r t.world (
            and_then (settle c safe_await (was_handled r) y.release t)
              (λ _ s'. (record s' { marker = before }, dropped r))))
          (sym (ap was_claimed y.marked))
          (closed_then k i _ before r t _ (closes c R safe_await A k i t y (was_handled r))))

    module _ (k i : K) (s s1 : Context C W K)
        (found : lookup (type_of u) disp.coordinateds ≡ some co)
        (taken : take_lock type_of c safe_await on_error disp co u s ≡ (s1, ok (locked k)))
        (identified : extract_update_id co u ≡ ok i) where
      -- The context in which the handler groups start.
      abbrev pub opened : Context C W K
      opened = record s1 {
        marker = some (record { lock = k; early = false; released = false; update_id = some i });
      }

      taken_holds : holds s1.coordinator k ≡ true
      taken_holds =
          sym (ap (λ x. holds x.0.coordinator k) taken)
          ∙ take_lock_holds c R safe_await type_of on_error disp co u s k (ap (λ x. x.1) taken)

      skip_lem :
          handled s1.coordinator i ≡ true
          → handle_update type_of c safe_await on_error disp (some u) s
            ≡ finish_update type_of c safe_await on_error disp s1.marker
                (opened, ok (record { handled_count = 0; exc_count = 0; records = none }))
      unfolding handle_update handle_locked check_and_handle
      skip_lem h =
          rw (found, handle_update)
            (rw taken (rw identified (rw (R.is_handled_lem s1.coordinator i) (rw h))))

      run_lem :
          handled s1.coordinator i ≡ false
          → handle_update type_of c safe_await on_error disp (some u) s
            ≡ finish_update type_of c safe_await on_error disp s1.marker
                (handle_groups type_of c safe_await on_error disp (some u) opened)
      unfolding handle_update handle_locked check_and_handle
      run_lem h =
          rw (found, handle_update)
            (rw taken (rw identified (rw (R.is_handled_lem s1.coordinator i) (rw h))))

      pub handle_update_settles :
          handled s1.coordinator i ≡ false
          → let body = handle_groups type_of c safe_await on_error disp (some u) opened in
            Over k i
              (was_handled body.1 || was_claimed body.0.marker)
              body.1
              body.0.world
              (handle_update type_of c safe_await on_error disp (some u) s)
      handle_update_settles h = rw (run_lem h) (
          finish-Over k i s1.marker
            (handle_groups type_of c safe_await on_error disp (some u) opened)
            (handle_groups-Progress c R safe_await A k i type_of on_error disp u opened (record {
              release = record { lock = k; early = false; released = false; update_id = some i };
              marked = refl;
              same_lock = refl;
              same_id = refl;
              early_first = λ e. e;
              settled = λ e. cc;
              unsettled = λ e. (taken_holds, h);
            })))

      -- Let the coordinator keep its contract and `safe_await` run what it is given. Let an
      -- update's type be coordinated, the lock of its key be taken and its identity not be
      -- registered. Then `handle_update` ends as the handler groups end, the lock is released, and
      -- the update is registered exactly if the groups end with some handler counted as done or some
      -- counted as failed, if a listener or a handler stopped the propagation, or if a handler had
      -- called `mark_handled`. When `UnhandledUpdate` leaves the groups, only that last case is
      -- left, whatever ran before.
      pub handle_update_registers :
          handled s1.coordinator i ≡ false
          → let body = handle_groups type_of c safe_await on_error disp (some u) opened in
            let out = handle_update type_of c safe_await on_error disp (some u) s in
            (out.1 ≡ dropped body.1)
            × (holds out.0.coordinator k ≡ false)
            × (out.0.world ≡ body.0.world)
            × (handled out.0.coordinator i ≡ true
                ↔ (Ran body.1 ⊎ (was_claimed body.0.marker ≡ true)))
      handle_update_registers h =
          let body = handle_groups type_of c safe_await on_error disp (some u) opened in
          let (e, free, registered, same) = handle_update_settles h in
          (
            e,
            free,
            same,
            rw registered (either (was_claimed body.0.marker) (was_handled_iff body.1)),
          )

      -- Let the coordinator keep its contract and `safe_await` run what it is given. Let an
      -- update's type be coordinated, the lock of its key be taken and its identity be registered
      -- already. Then `handle_update` returns, no listener, handler or history acts on the world,
      -- the update stays registered, and the lock is released.
      pub handle_update_drops :
          handled s1.coordinator i ≡ true
          → let out = handle_update type_of c safe_await on_error disp (some u) s in
            (out.1 ≡ ok tt)
            × (out.0.world ≡ s.world)
            × (handled out.0.coordinator i ≡ true)
            × (holds out.0.coordinator k ≡ false)
      handle_update_drops h =
          let (e, free, registered, same) = over in (e, same ∙ before, registered, free)
        where
          before : s1.world ≡ s.world
          before =
              sym (ap (λ x. x.0.world) taken)
              ∙ (take_lock_keeps c R safe_await type_of on_error disp co u s).0

          zeros : Tally
          zeros = record { handled_count = 0; exc_count = 0; records = none }

          release : Release K
          release = record { lock = k; early = false; released = false; update_id = some i }

          shut : Closes c R safe_await A k i true opened (settle c safe_await false release opened)
          shut = rw (settle_lem c R safe_await A false release opened) (
              rw
                (settle_now_lem c R safe_await A k i false release opened refl refl refl
                  taken_holds)
                (
                  refl,
                  R.release_holds _ k,
                  closed_handled c R safe_await A k i false s1.coordinator ∙ h,
                  refl,
                ))

          over :
              Over k i true
                (ok zeros)
                s1.world
                (handle_update type_of c safe_await on_error disp (some u) s)
          over = rw (skip_lem h) (
              rw (finish_lem s1.marker (ok zeros) opened release refl)
                (closed_then k i true s1.marker (ok zeros) opened _ shut))

  -- Two sessions share the state of a coordinator that keeps its contract, `safe_await` runs what
  -- it is given, and both get the same update, one after the other, under the same identity. Let
  -- the first take the lock of the update while it is not registered, and end with some handler
  -- counted, with a stopped propagation or with a call of `mark_handled`. Then the second,
  -- whatever its handlers and its lock's key, returns and does nothing to its world once it has
  -- taken the lock.
  pub handled_only_once :
      {T W : Type 0} ⦃d : DecEq T⦄ (type_of : U → T)
      → (on_error on_error' : Exc U → Handler U W → M W (Exc U) (Unit {0}))
      → (disp disp' : Dispatcher T U W K) → (co co' : Coordinated U K) → (u : U) → (k k' i : K)
      → (s s1 s' s1' : Context C W K) → (found : lookup (type_of u) disp.coordinateds ≡ some co)
      → (found' : lookup (type_of u) disp'.coordinateds ≡ some co')
      → (taken : take_lock type_of c safe_await on_error disp co u s ≡ (s1, ok (locked k)))
      → (taken' : take_lock type_of c safe_await on_error' disp' co' u s' ≡ (s1', ok (locked k')))
      → (identified : extract_update_id co u ≡ ok i)
      → (identified' : extract_update_id co' u ≡ ok i)
      → (shared : s'.coordinator
          ≡ (handle_update type_of c safe_await on_error disp (some u) s).0.coordinator)
      → handled s1.coordinator i ≡ false
      → let body =
          handle_groups type_of c safe_await on_error disp
            (some u)
            (opened type_of on_error disp co u k i s s1 found taken identified) in
        (was_handled body.1 || was_claimed body.0.marker) ≡ true
        → let out = handle_update type_of c safe_await on_error' disp' (some u) s' in
          (out.1 ≡ ok tt) × (out.0.world ≡ s'.world)
  handled_only_once type_of on_error on_error' disp disp' co co' u k k' i s s1 s' s1' found found'
        taken taken' identified identified' shared new ran =
      let (_, _, registered, _) =
        handle_update_settles type_of on_error disp co u k i s s1 found taken identified new in
      let here : handled s1'.coordinator i ≡ true =
        sym (ap (λ x. handled x.0.coordinator i) taken')
        ∙ (take_lock_keeps c R safe_await type_of on_error' disp' co' u s').1 i
        ∙ ap (λ x. handled x i) shared
        ∙ registered
        ∙ ran in
      let (e, same, _, _) =
        handle_update_drops type_of on_error' disp' co' u k' i s' s1' found' taken' identified'
          here in
      (e, same)
