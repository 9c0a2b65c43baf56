-- ===== src/Dispatcher/Pipeline.antt =====
-- `_handle_update` and `handle_update` of pyroflow/dispatcher.py, and the tables they look into.
pub mod Settled
pub mod Swallow
pub mod Tables
mod Tests
pub mod Counts
pub mod Progress
pub mod Closing
pub mod Locking
pub mod Once
use pyroflow.Prelude.{
  ℕ, ◌+◌, Bool, true, false, Option, none, some, List, [], ◌∷◌, leb, DecEq, Dict, lookup, M,
  Outcome, ok, raise, and_then, return, lift, modify, ◌>>=◌, ◌>>◌, if◌then◌else◌,
}
use pyroflow.Errors.{Exc, stop_propagation}
use pyroflow.UpdateCoordinator.{
  UpdateCoordinator, Coordinated, is_coordinatable, extract_key, extract_update_id,
}
use pyroflow.Dispatcher.Settlement.{Release, Context, on_coordinator, on_world, settle}
use pyroflow.Dispatcher.{Handler, History, Tally, or_else, handle_listen, run_groups}

-- The dispatcher's tables by update type, and its handler groups in order. A listener is its
-- `resolve`.
pub record Dispatcher (T U W K : Type 0) : Type 0 where
  pub listeners : Dict T (U → M W (Exc U) (Unit {0}))
  pub coordinateds : Dict T (Coordinated U K)
  pub histories : Dict T (History U W)
  pub groups : List (List (Handler U W))
  pub is_started : Bool

-- `table.get(type(parsed_update))`; no table has an entry for the type of `None`.
abbrev pub get_for : {T U A : Type 0} ⦃d : DecEq T⦄ → (U → T) → Dict T A → Option U → Option A
get_for type_of table none = none
get_for type_of table (some u) = lookup (type_of u) table

-- How the attempt to take an update's lock ends.
pub data Attempt (K : Type 0) : Type 0 where
  uncoordinated timed_out : Attempt K
  locked : K → Attempt K

-- `if not handled: handled = sum(result) >= 1`; the result is `(0, 0)` if `_handle_update` raised.
abbrev pub was_handled : {U : Type 0} → Outcome (Exc U) Tally → Bool
was_handled (ok t) = leb 1 (t.handled_count + t.exc_count)
was_handled (raise stop_propagation) = true
was_handled (raise e) = false

-- `handle_update` returns nothing.
abbrev pub dropped : {U A : Type 0} → Outcome (Exc U) A → Outcome (Exc U) (Unit {0})
dropped (ok a) = ok tt
dropped (raise e) = raise e

module _ {T U C W K : Type 0} ⦃d : DecEq T⦄ (type_of : U → T) (c : UpdateCoordinator U C K)
    (safe_await : M C (Exc U) (Unit {0}) → M C (Exc U) (Unit {0}))
    (on_error : Exc U → Handler U W → M W (Exc U) (Unit {0})) (disp : Dispatcher T U W K) where
  -- `handle_listen`, unless the update was not parsed.
  abbrev pub try_listener : Option U → M (Context C W K) (Exc U) (Unit {0})
  try_listener none s = (s, ok tt)
  try_listener (some u) s = handle_listen c safe_await (get_for type_of disp.listeners (some u)) u s

  -- `records`, as `is_recordable` decides.
  abbrev pub start_records :
      Option (History U W) → Option U → M (Context C W K) (Exc U) (Option (List ℕ))
  start_records (some h) (some u) s =
      or_else none
        (and_then (on_world (h.is_recordable u) s) (λ b. return (if b then some [] else none)))
  start_records (some h) none s = (s, ok none)
  start_records none u s = (s, ok none)

  -- `if records: ... record_many`
  abbrev pub store_records :
      Option (History U W) → Option U → Option (List ℕ) → M (Context C W K) (Exc U) (Unit {0})
  store_records (some h) (some u) (some (r ∷ rs)) s =
      or_else tt (on_world (h.record_many u (r ∷ rs)) s)
  store_records h u records s = (s, ok tt)

  -- `_handle_update`
  unfoldable pub handle_groups : Option U → M (Context C W K) (Exc U) Tally
  handle_groups parsed = do
    try_listener parsed
    records ← start_records (get_for type_of disp.histories parsed) parsed
    t ←
        run_groups c safe_await on_error disp.groups
          (record { handled_count = 0; exc_count = 0; records = records })
    store_records (get_for type_of disp.histories parsed) parsed t.records
    return t

  -- The block that takes the lock.
  unfoldable pub take_lock : Coordinated U K → U → M (Context C W K) (Exc U) (Attempt K)
  take_lock co u = do
    coordinatable ← lift (is_coordinatable co u)
    elim coordinatable [
      | false ↦ return uncoordinated
      | true ↦ do
        k ← lift (extract_key co u)
        taken ← on_coordinator (c.acquire k)
        return (if taken then locked k else timed_out)
    ]

  -- `release.update_id = update_id`
  abbrev pub identify : K → Context C W K → Context C W K
  identify i s = record s {
    marker = elim s.marker [ none ↦ none | some r ↦ some (record r { update_id = some i }) ];
  }

  -- The `try` block under the lock.
  unfoldable pub check_and_handle : Coordinated U K → U → M (Context C W K) (Exc U) Tally
  check_and_handle co u = do
    i ← lift (extract_update_id co u)
    modify (identify i)
    done ← on_coordinator (c.is_handled i)
    elim done [
      | true ↦ return (record { handled_count = 0; exc_count = 0; records = none })
      | false ↦ handle_groups (some u)
    ]

  -- The `finally` block: the marker is reset and the release that it held is settled.
  unfoldable pub finish_update :
      Option (Release K)
      → Context C W K × Outcome (Exc U) Tally
      → Context C W K × Outcome (Exc U) (Unit {0})
  finish_update before (s, r) = elim s.marker [
    | none ↦ (record s { marker = before }, dropped r)
    | some release ↦
        and_then (settle c safe_await (was_handled r) release s)
          (λ _ s'. (record s' { marker = before }, dropped r))
  ]

  -- What follows once the attempt to take the lock has ended.
  unfoldable pub handle_locked :
      Coordinated U K → U → Attempt K → M (Context C W K) (Exc U) (Unit {0})
  handle_locked co u uncoordinated = do handle_groups (some u); return tt
  handle_locked co u timed_out = return tt
  handle_locked co u (locked k) = λ s. finish_update s.marker (
      check_and_handle co u (record s {
        marker = some (record { lock = k; early = false; released = false; update_id = none });
      }))

  -- `handle_update`
  unfoldable pub handle_update : Option U → M (Context C W K) (Exc U) (Unit {0})
  handle_update none = do handle_groups none; return tt
  handle_update (some u) = elim (get_for type_of disp.coordinateds (some u)) [
    | none ↦ do handle_groups (some u); return tt
    | some co ↦ λ s. and_then (or_else uncoordinated (take_lock co u s)) (handle_locked co u)
  ]
