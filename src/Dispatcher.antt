-- ===== src/Dispatcher.antt =====
-- pyroflow/dispatcher.py: the way of an update through the listener, the coordination, the handler
-- groups and the history.
pub mod Settlement
pub mod Pipeline
pub mod Worker
use pyroflow.Prelude.{
  ℕ, suc, ◌+◌, ◌≡◌, Bool, true, false, Option, none, some, List, [], ◌∷◌, ◌++◌, leb, DecEq, Dict,
  lookup, insert, delete, M, Outcome, ok, raise, ◌>>=◌, ◌>>◌, and_then, return, throw, gets, lift,
  modify, if◌then◌else◌, is_some,
}
use pyroflow.Errors.{
  Exc, is_exception, unresolved_update, unhandled_update, stop_propagation, continue_propagation,
  runtime_error, value_error,
}
use pyroflow.UpdateCoordinator.{
  UpdateCoordinator, Coordinated, is_coordinatable, extract_key, extract_update_id,
}
use pyroflow.Dispatcher.Settlement.{
  Release, Context, on_coordinator, on_world, mark_handled, run_early, settle,
}

-- The arguments that a handler's check and callback get: the parsed update or the raw one.
pub data Argument : Type 0 where
  parsed raw : Argument

-- A handler's callback, as the calls it makes: it does something to the world, calls
-- `mark_handled()` and sees what that returns, or lets the event loop run, and it ends somehow.
pub data Program (U W : Type 0) : Type 0 where
  finishes : Outcome (Exc U) (Unit {0}) → Program U W
  acts : (W → W) → Program U W → Program U W
  reads : (W → Program U W) → Program U W
  marks : (Bool → Program U W) → Program U W
  yields : Program U W → Program U W

-- A handler: `isinstance` with `ErrorHandler`, with the packet's `handler_type` and with
-- `RawUpdateHandler`, its check, and its callback.
pub record Handler (U W : Type 0) : Type 0 where
  pub name : ℕ
  pub is_error_handler : Bool
  pub is_instance : Bool
  pub is_raw : Bool
  pub check : Argument → M W (Exc U) Bool
  pub callback : Argument → Program U W

-- The methods of an `UpdateHistory` that the dispatcher calls; handlers are recorded by name.
pub record History (U W : Type 0) : Type 0 where
  pub is_recordable : U → M W (Exc U) Bool
  pub record_many : U → List ℕ → M W (Exc U) (Unit {0})

-- The counters of `_handle_update` and its records, `none` if nothing is to be recorded.
pub record Tally : Type 0 where
  pub handled_count : ℕ
  pub exc_count : ℕ
  pub records : Option (List ℕ)

-- `if records is not None: records.append(handler)`
abbrev pub appended : ℕ → Option (List ℕ) → Option (List ℕ)
appended h none = none
appended h (some hs) = some (hs ++ h ∷ [])

-- What becomes of the loops after an error of a callback: `except (StopPropagation,
-- UnhandledUpdate)`, `except ContinuePropagation`, `except Exception`, or none of these.
pub data Verdict : Type 0 where
  propagates continues counts : Verdict

abbrev pub verdict : {U : Type 0} → Exc U → Verdict
verdict stop_propagation = propagates
verdict (unhandled_update u) = propagates
verdict continue_propagation = continues
verdict e = if is_exception e then counts else propagates

-- `try ... except Exception: log.exception(...)`, with a value to go on with.
abbrev pub or_else : {S U A : Type 0} → A → S × Outcome (Exc U) A → S × Outcome (Exc U) A
or_else a (s, ok b) = (s, ok b)
or_else a (s, raise e) = if is_exception e then (s, ok a) else (s, raise e)

-- The `except` and `else` clauses of `handle_listen`.
abbrev pub unless_resolved :
    {S U : Type 0} → S × Outcome (Exc U) (Unit {0}) → S × Outcome (Exc U) (Unit {0})
unless_resolved (s, ok x) = (s, raise stop_propagation)
unless_resolved (s, raise e) = or_else tt (s, raise e)

module _ {U C W K : Type 0} (c : UpdateCoordinator U C K)
    (safe_await : M C (Exc U) (Unit {0}) → M C (Exc U) (Unit {0})) where
  unfoldable pub perform : Program U W → M (Context C W K) (Exc U) (Unit {0})
  perform (finishes r) s = (s, r)
  perform (acts f p) s = perform p (record s { world = f s.world })
  perform (reads p) s = perform (p s.world) s
  perform (marks p) s = and_then (mark_handled s) (λ b. perform (p b))
  perform (yields p) s = and_then (run_early c safe_await s) (λ _. perform p)

  -- `handle_listen`; `listener` is the `resolve` of the listener of the update's type.
  unfoldable pub handle_listen :
      Option (U → M W (Exc U) (Unit {0})) → U → M (Context C W K) (Exc U) (Unit {0})
  handle_listen none u s = (s, ok tt)
  handle_listen (some listener) u s = unless_resolved (on_world (listener u) s)

  -- The arguments that a handler is to be called with, if its check passes.
  unfoldable pub matches : Handler U W → M (Context C W K) (Exc U) (Option Argument)
  matches h s =
      if h.is_error_handler
      then (s, ok none)
      else if h.is_instance
      then or_else none (and_then (on_world (h.check parsed) s) (selected parsed))
      else if h.is_raw
      then or_else none (and_then (on_world (h.check raw) s) (selected raw))
      else (s, ok none)
    where
      selected : Argument → Bool → M (Context C W K) (Exc U) (Option Argument)
      selected a b s = (s, ok (if b then some a else none))

  module _ (on_error : Exc U → Handler U W → M W (Exc U) (Unit {0})) where
    -- The `except` and `else` clauses around a callback: `rest` is what `continue` goes on with.
    abbrev pub after_callback :
        Handler U W
        → M (Context C W K) (Exc U) Tally
        → Tally
        → Context C W K × Outcome (Exc U) (Unit {0})
        → Context C W K × Outcome (Exc U) Tally
    after_callback h rest t (s, ok x) = (
      s,
      ok (record t { handled_count = suc t.handled_count; records = appended h.name t.records }),
    )
    after_callback h rest t (s, raise e) =
        (elim (verdict e) as (λ v. M (Context C W K) (Exc U) Tally) [
          | propagates ↦ throw e
          | continues ↦ rest
          | counts ↦ do on_world (on_error e h); return (record t { exc_count = suc t.exc_count })
        ])
          s

    -- The loop over the handlers of a group: it ends with the first that neither declines nor
    -- continues propagation.
    unfoldable pub run_group : List (Handler U W) → Tally → M (Context C W K) (Exc U) Tally
    run_group [] t s = (s, ok t)
    run_group (h ∷ hs) t s = and_then (matches h s) (elim [
      | none ↦ run_group hs t
      | some a ↦ λ s'. after_callback h (run_group hs t) t (perform (h.callback a) s')
    ])

    unfoldable pub run_groups : List (List (Handler U W)) → Tally → M (Context C W K) (Exc U) Tally
    run_groups [] t s = (s, ok t)
    run_groups (g ∷ gs) t s = and_then (run_group g t s) (run_groups gs)
