-- ===== src/Dispatcher/Pipeline/Progress.antt =====
-- While the handler groups run, the settlement of the update in progress stays as it is or is
-- brought forward by a handler.
use pyroflow.Prelude.{
  ℕ, Bool, true, false, Option, none, some, List, [], ◌∷◌, DecEq, suc, M, Outcome, ok, raise, throw,
  ◌>>◌, if◌then◌else◌, return,
}
use pyroflow.Errors.{Exc}
use pyroflow.UpdateCoordinator.{UpdateCoordinator, IsUpdateCoordinator}
use pyroflow.Dispatcher.Settlement.{Context, IsSafeAwait, on_world}
use pyroflow.Dispatcher.{
  parsed, raw, Handler, History, Tally, Verdict, propagates, continues, counts, verdict,
  after_callback, unless_resolved, perform, handle_listen, matches, run_group, run_groups,
}
use pyroflow.Dispatcher.Pipeline.{
  Dispatcher, get_for, try_listener, start_records, store_records, handle_groups,
}
use pyroflow.Dispatcher.Pipeline.Settled.{
  Progress, bind-Progress, or_else-Progress, perform-Progress,
}

module _ {U C K : Type 0} (c : UpdateCoordinator U C K) (R : IsUpdateCoordinator U C K c)
    (safe_await : M C (Exc U) (Unit {0}) → M C (Exc U) (Unit {0})) (A : IsSafeAwait U C safe_await)
    (k i : K) where
  module _ {W : Type 0} where
    abbrev Kept : Context C W K → Type 0
    Kept = Progress c R safe_await A k i

    handle_listen-Progress :
        (l : Option (U → M W (Exc U) (Unit {0}))) (u : U) (s : Context C W K)
        → Kept s
        → Kept (handle_listen c safe_await l u s).0
    unfolding handle_listen
    handle_listen-Progress none u s y = y
    handle_listen-Progress (some l) u s y = caught (on_world (l u) s) y
      where
        caught :
            (out : Context C W K × Outcome (Exc U) (Unit {0}))
            → Kept out.0
            → Kept (unless_resolved out).0
        caught (t, ok x) y = y
        caught (t, raise e) y = or_else-Progress c R safe_await A k i tt (t, raise e) y

    if-Progress :
        {A : Type 0} (b : Bool) (x y : Context C W K × Outcome (Exc U) A)
        → Kept x.0
        → Kept y.0
        → Kept (if b then x else y).0
    if-Progress true x y p q = p
    if-Progress false x y p q = q

    matches-Progress :
        (h : Handler U W) (s : Context C W K) → Kept s → Kept (matches c safe_await h s).0
    unfolding matches
    matches-Progress h s y = if-Progress h.is_error_handler _ _ y (
        if-Progress h.is_instance _ _
          (or_else-Progress c R safe_await A k i none _
            (bind-Progress c R safe_await A k i (on_world (h.check parsed) s) _ y (λ a t z. z)))
          (if-Progress h.is_raw _ _
            (or_else-Progress c R safe_await A k i none _
              (bind-Progress c R safe_await A k i (on_world (h.check raw) s) _ y (λ a t z. z)))
            y))

    module _ (on_error : Exc U → Handler U W → M W (Exc U) (Unit {0})) where
      after-Progress :
          (h : Handler U W) (rest : M (Context C W K) (Exc U) Tally) (t : Tally)
          (out : Context C W K × Outcome (Exc U) (Unit {0}))
          → ((s : Context C W K) → Kept s → Kept (rest s).0)
          → Kept out.0
          → Kept (after_callback c safe_await on_error h rest t out).0
      after-Progress h rest t (s, ok x) f y = y
      after-Progress h rest t (s, raise e) f y = by_verdict (verdict e)
        where
          by_verdict :
              (v : Verdict)
              → Kept
                  ((elim v as (λ v. M (Context C W K) (Exc U) Tally) [
                    | propagates ↦ throw e
                    | continues ↦ rest
                    | counts ↦ do
                      on_world (on_error e h)
                      return (record t { exc_count = suc t.exc_count })
                  ])
                    s).0
          by_verdict propagates = y
          by_verdict continues = f s y
          by_verdict counts =
              bind-Progress c R safe_await A k i (on_world (on_error e h) s) _ y (λ a t z. z)

      run_group-Progress :
          (hs : List (Handler U W)) (t : Tally) (s : Context C W K)
          → Kept s
          → Kept (run_group c safe_await on_error hs t s).0
      unfolding run_group
      run_group-Progress [] t s y = y
      run_group-Progress (h ∷ hs) t s y =
          bind-Progress c R safe_await A k i (matches c safe_await h s) _ (matches-Progress h s y)
            (elim [
              | none ↦ run_group-Progress hs t
              | some a ↦ λ s' z.
                  after-Progress h (run_group c safe_await on_error hs t) t
                    (perform c safe_await (h.callback a) s') (run_group-Progress hs t)
                    (perform-Progress c R safe_await A k i (h.callback a) s' z)
            ])

      run_groups-Progress :
          (gs : List (List (Handler U W))) (t : Tally) (s : Context C W K)
          → Kept s
          → Kept (run_groups c safe_await on_error gs t s).0
      unfolding run_groups
      run_groups-Progress [] t s y = y
      run_groups-Progress (g ∷ gs) t s y =
          bind-Progress c R safe_await A k i (run_group c safe_await on_error g t s) _
            (run_group-Progress g t s y) (run_groups-Progress gs)

  module _ {T W : Type 0} ⦃d : DecEq T⦄ (type_of : U → T)
      (on_error : Exc U → Handler U W → M W (Exc U) (Unit {0})) (disp : Dispatcher T U W K) where
    start-Progress :
        (h : Option (History U W)) (u : Option U) (s : Context C W K)
        → Kept s
        → Kept (start_records type_of c safe_await on_error disp h u s).0
    start-Progress none u s y = y
    start-Progress (some h) none s y = y
    start-Progress (some h) (some u) s y =
        or_else-Progress c R safe_await A k i none _
          (bind-Progress c R safe_await A k i (on_world (h.is_recordable u) s) _ y (λ a t z. z))

    store-Progress :
        (h : Option (History U W)) (u : Option U) (rs : Option (List ℕ)) (s : Context C W K)
        → Kept s
        → Kept (store_records type_of c safe_await on_error disp h u rs s).0
    store-Progress none u rs s y = y
    store-Progress (some h) none rs s y = y
    store-Progress (some h) (some u) none s y = y
    store-Progress (some h) (some u) (some []) s y = y
    store-Progress (some h) (some u) (some (r ∷ rs)) s y =
        or_else-Progress c R safe_await A k i tt (on_world (h.record_many u (r ∷ rs)) s) y

    pub handle_groups-Progress :
        (u : U) (s : Context C W K)
        → Kept s
        → Kept (handle_groups type_of c safe_await on_error disp (some u) s).0
    unfolding handle_groups
    handle_groups-Progress u s y =
        bind-Progress c R safe_await A k i
          (try_listener type_of c safe_await on_error disp (some u) s) _
          (handle_listen-Progress (get_for type_of disp.listeners (some u)) u s y)
          λ _ s1 y1.
            bind-Progress c R safe_await A k i
              (start_records type_of c safe_await on_error disp (history u) (some u) s1) _
              (start-Progress (history u) (some u) s1 y1)
              λ rs s2 y2.
                bind-Progress c R safe_await A k i
                  (run_groups c safe_await on_error disp.groups
                    (record { handled_count = 0; exc_count = 0; records = rs }) s2)
                  _ (run_groups-Progress on_error disp.groups _ s2 y2)
                  λ t s3 y3.
                    bind-Progress c R safe_await A k i
                      (store_records type_of c safe_await on_error disp (history u) (some u)
                        t.records s3)
                      _ (store-Progress (history u) (some u) t.records s3 y3) (λ _ s4 y4. y4)
      where
        history : U → Option (History U W)
        history u = get_for type_of disp.histories (some u)
