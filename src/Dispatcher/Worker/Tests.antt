-- ===== src/Dispatcher/Worker/Tests.antt =====
-- A worker with two packets on its queue, at a dispatcher with one handler.
use pyroflow.Prelude.{
  ℕ, ◌+◌, ◌≡◌, true, false, Option, Bool, none, some, List, [], ◌∷◌, ◌++◌, map, ◌⊎◌, M, ok, raise,
}
use pyroflow.Errors.{Exc, task_cancelled}
use pyroflow.ListenerCoordinator.Memory.{nat_eq}
use pyroflow.UpdateCoordinator.{UpdateCoordinator}
use pyroflow.Dispatcher.{Handler, acts, finishes}
use pyroflow.Dispatcher.Settlement.{Context}
use pyroflow.Dispatcher.Pipeline.{Dispatcher}
use pyroflow.Dispatcher.Worker.{Ending, stopped, killed, handler_worker}
use pyroflow.Dispatcher.Worker.Rounds.{Rounds, Serves, worker-Serves}

abbrev adding : Handler ℕ ℕ
adding = record {
  name = 1;
  is_error_handler = false;
  is_instance = false;
  is_raw = false;
  check = λ a w. (w, ok true);
  callback = λ a. acts (λ w. w + 1) (finishes (ok tt));
}

abbrev dispatcher : Dispatcher ℕ ℕ ℕ ℕ
dispatcher = record {
  listeners = [];
  coordinateds = [];
  histories = [];
  groups = (adding ∷ []) ∷ [];
  is_started = true;
}

-- No update is coordinated, so the coordinator is never asked.
abbrev idle : UpdateCoordinator ℕ ℕ ℕ
idle = record {
  acquire = λ k c. (c, ok true);
  release = λ k c. (c, ok tt);
  is_handled = λ k c. (c, ok false);
  mark_handled = λ k c. (c, ok tt);
}

abbrev type_of : ℕ → ℕ
type_of u = 0

abbrev safe_await : M ℕ (Exc ℕ) (Unit {0}) → M ℕ (Exc ℕ) (Unit {0})
safe_await m = m

abbrev on_error : Exc ℕ → Handler ℕ ℕ → M ℕ (Exc ℕ) (Unit {0})
on_error e h w = (w, ok tt)

-- Every packet is parsed, for handlers of type 7.
abbrev parsers : ℕ → Option (M ℕ (Exc ℕ) (Option ℕ × ℕ))
parsers p = some (λ w. (w, ok (some p, 7)))

abbrev instance_of : ℕ → ℕ → Bool
instance_of name handler_type = true

abbrev before : Context ℕ ℕ ℕ
before = record { coordinator = 0; world = 0; marker = none }

abbrev packets : List ℕ
packets = 4 ∷ 5 ∷ []

abbrev run : Context ℕ ℕ ℕ × Ending ℕ ℕ
run =
    handler_worker type_of idle safe_await on_error parsers 0 instance_of dispatcher
      (some 4 ∷ some 5 ∷ none ∷ some 6 ∷ []) before

worker-Serves_example :
    ((t : Context ℕ ℕ ℕ) × Rounds type_of idle safe_await on_error parsers 0 instance_of dispatcher
        packets before t
      × (run ≡ (t, stopped (some 6 ∷ []))))
    ⊎ ((qs : List ℕ) × (p : ℕ) × (more : List ℕ) × (t s' : Context ℕ ℕ ℕ) × (packets
          ≡ qs ++ p ∷ more)
        × Rounds type_of idle safe_await on_error parsers 0 instance_of dispatcher qs before t
        × Serves type_of idle safe_await on_error parsers 0 instance_of dispatcher p t
            (s', raise task_cancelled)
        × (run ≡ (s', killed task_cancelled (map some more ++ none ∷ some 6 ∷ []))))
worker-Serves_example =
    worker-Serves type_of idle safe_await on_error parsers 0 instance_of dispatcher packets
      (some 6 ∷ []) before
