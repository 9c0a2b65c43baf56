-- ===== src/Dispatcher/Settlement.antt =====
-- `_CoordinatedRelease` and `mark_handled` of pyroflow/dispatcher.py: an update's settlement, once.
use pyroflow.Prelude.{
  ◌≡◌, Bool, true, false, ◌||◌, Option, none, some, M, Outcome, ok, and_then, if◌then◌else◌,
}
use pyroflow.Errors.{Exc}
use pyroflow.UpdateCoordinator.{UpdateCoordinator}

-- `early` is `_early is not None`: a task that settles has been scheduled.
pub record Release (K : Type 0) : Type 0 where
  pub lock : K
  pub early : Bool
  pub released : Bool
  pub update_id : Option K

-- What a session's worker mutates while it handles an update: the coordinator, everything else,
-- and the value of `_handled_marker`.
pub record Context (C W K : Type 0) : Type 0 where
  pub coordinator : C
  pub world : W
  pub marker : Option (Release K)

module _ {U C W K : Type 0} where
  -- Calls that touch one part of the context.
  abbrev pub on_coordinator : {A : Type 0} → M C (Exc U) A → M (Context C W K) (Exc U) A
  on_coordinator m s = let (c', r) = m s.coordinator in (record s { coordinator = c' }, r)

  abbrev pub on_world : {A : Type 0} → M W (Exc U) A → M (Context C W K) (Exc U) A
  on_world m s = let (w', r) = m s.world in (record s { world = w' }, r)

  -- `_CoordinatedRelease.claim_early`
  unfoldable pub claim_early : Release K → M (Context C W K) (Exc U) Bool
  claim_early r s =
      if r.early || r.released
      then (s, ok false)
      else (record s { marker = some (record r { early = true }) }, ok true)

  -- `mark_handled`
  unfoldable pub mark_handled : M (Context C W K) (Exc U) Bool
  mark_handled s = elim s.marker [ none ↦ (s, ok false) | some r ↦ claim_early r s ]

-- A `try` with a `finally` and no `except`: what the `finally` block raises wins.
abbrev pub then_finally :
    {S E : Type 0} → S × Outcome E (Unit {0}) → M S E (Unit {0}) → S × Outcome E (Unit {0})
then_finally (s, r) m = and_then (m s) (λ _ s'. (s', r))

-- What the code relies on of `safe_await`: the call runs, and an error of it is not raised.
pub record IsSafeAwait (U C : Type 0) (safe_await : M C (Exc U) (Unit {0}) → M C (Exc U) (Unit {0}))
    : Type 0 where
  pub runs : (m : M C (Exc U) (Unit {0})) (s : C) → (m s).1 ≡ ok tt → safe_await m s ≡ m s

-- `if handled and self.update_id is not None`
abbrev pub register_handled :
    {U C K : Type 0}
    → UpdateCoordinator U C K
    → (M C (Exc U) (Unit {0}) → M C (Exc U) (Unit {0}))
    → Bool
    → Option K
    → M C (Exc U) (Unit {0})
register_handled c safe_await true (some i) s = safe_await (c.mark_handled i) s
register_handled c safe_await true none s = (s, ok tt)
register_handled c safe_await false update_id s = (s, ok tt)

module _ {U C W K : Type 0} (c : UpdateCoordinator U C K)
    (safe_await : M C (Exc U) (Unit {0}) → M C (Exc U) (Unit {0})) where
  -- `_settle`
  unfoldable pub settle_now : Bool → Release K → M (Context C W K) (Exc U) (Unit {0})
  settle_now handled r s =
      if r.released
      then (s, ok tt)
      else on_coordinator
          (λ x.
            then_finally (register_handled c safe_await handled r.update_id x)
              (safe_await (c.release r.lock)))
          (record s { marker = some (record r { released = true }) })

  -- The event loop runs the scheduled task, if there is one.
  unfoldable pub run_early : M (Context C W K) (Exc U) (Unit {0})
  run_early s = elim s.marker [
    | none ↦ (s, ok tt)
    | some r ↦ if r.early then settle_now true r s else (s, ok tt)
  ]

  -- `settle`: a task that is scheduled is awaited, so it has run by then.
  unfoldable pub settle : Bool → Release K → M (Context C W K) (Exc U) (Unit {0})
  settle handled r s = if r.early then settle_now true r s else settle_now handled r s
