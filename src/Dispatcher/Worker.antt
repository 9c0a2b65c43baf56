-- ===== src/Dispatcher/Worker.antt =====
-- `handler_worker` of pyroflow/dispatcher.py: the loop that takes packets off the queue. The lock
-- that a worker holds while it handles a packet makes a round one step. Pyrogram's parsers are a
-- parameter.
pub mod Rounds
mod Tests
use pyroflow.Prelude.{
  ℕ, Bool, true, false, Option, none, some, List, [], ◌∷◌, map, DecEq, M, Outcome, ok, raise,
  and_then, if◌then◌else◌,
}
use pyroflow.Errors.{Exc, is_exception, stop_propagation, unhandled_update}
use pyroflow.UpdateCoordinator.{UpdateCoordinator}
use pyroflow.Dispatcher.{Handler}
use pyroflow.Dispatcher.Settlement.{Context, on_world}
use pyroflow.Dispatcher.Pipeline.{Dispatcher, handle_update}

-- The `except` clauses of the loop.
abbrev pub caught : {S U : Type 0} → S × Outcome (Exc U) (Unit {0}) → S × Outcome (Exc U) (Unit {0})
caught (s, ok x) = (s, ok x)
caught (s, raise stop_propagation) = (s, ok tt)
caught (s, raise (unhandled_update u)) = (s, ok tt)
caught (s, raise e) = if is_exception e then (s, ok tt) else (s, raise e)

-- How a worker's run ends: at the sentinel, by an error that is no `Exception`, or not yet, when
-- it waits for the next packet. What is left on the queue is told.
pub data Ending (U P : Type 0) : Type 0 where
  waiting : Ending U P
  stopped : List (Option P) → Ending U P
  killed : Exc U → List (Option P) → Ending U P

module _ {T U C W K P H : Type 0} ⦃d : DecEq T⦄ (type_of : U → T) (c : UpdateCoordinator U C K)
    (safe_await : M C (Exc U) (Unit {0}) → M C (Exc U) (Unit {0}))
    (on_error : Exc U → Handler U W → M W (Exc U) (Unit {0}))
    (update_parsers : P → Option (M W (Exc U) (Option U × H))) (none_type : H)
    (is_instance_of : ℕ → H → Bool) (disp : Dispatcher T U W K) where
  -- The dispatcher, as a packet of this handler type finds it.
  abbrev pub seen_by : H → Dispatcher T U W K
  seen_by handler_type = record disp {
    groups =
        map
          (map (λ (h : Handler U W). record h { is_instance = is_instance_of h.name handler_type }))
          disp.groups;
  }

  -- `await parser(update, users, chats)`, if there is a parser for the update's type.
  unfoldable pub parse : P → M W (Exc U) (Option U × H)
  parse packet w = elim (update_parsers packet) [
    | none ↦ (w, ok (none, none_type))
    | some parser ↦ parser w
  ]

  -- A round of the loop, for a packet.
  unfoldable pub handle_packet : P → M (Context C W K) (Exc U) (Unit {0})
  handle_packet packet s = caught (
      and_then (on_world (parse packet) s)
        λ parsed. handle_update type_of c safe_await on_error (seen_by parsed.1) parsed.0)

  -- The loop, over what `updates_queue.get()` will return.
  unfoldable pub handler_worker : List (Option P) → Context C W K → Context C W K × Ending U P
  handler_worker [] s = (s, waiting)
  handler_worker (none ∷ queue) s = (s, stopped queue)
  handler_worker (some packet ∷ queue) s =
      let (s', r) = handle_packet packet s in
      elim r [ ok x ↦ handler_worker queue s' | raise e ↦ (s', killed e queue) ]
