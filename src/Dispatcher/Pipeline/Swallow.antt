-- ===== src/Dispatcher/Pipeline/Swallow.antt =====
-- The dispatcher with an `UpdateListener` for which nothing waits.
use pyroflow.Prelude.{◌≡◌, true, some, [], DecEq, lookup, M, ok, raise}
use pyroflow.Models.{ListenerKey}
use pyroflow.Errors.{Exc, stop_propagation}
use pyroflow.ListenerCoordinator.{ListenerCoordinator, IsRegistry}
use pyroflow.Session.{Session}
use pyroflow.UpdateListener.{Hooks, is_listenable, extract_key, resolve}
use pyroflow.UpdateListener.Resolve.Update.{resolve_no_listeners}
use pyroflow.UpdateCoordinator.{UpdateCoordinator}
use pyroflow.Dispatcher.Settlement.{Context}
use pyroflow.Dispatcher.{Handler, handle_listen}
use pyroflow.Dispatcher.Pipeline.{Dispatcher, handle_groups}

module _ {T U C K L Token : Type 0} ⦃d : DecEq T⦄ ⦃e : DecEq Token⦄ (type_of : U → T)
    (c : UpdateCoordinator U C K) (safe_await : M C (Exc U) (Unit {0}) → M C (Exc U) (Unit {0}))
    (on_error : Exc U → Handler U (Session U L Token) → M (Session U L Token) (Exc U) (Unit {0}))
    (disp : Dispatcher T U (Session U L Token) K) (l : ListenerCoordinator U L Token)
    (R : IsRegistry U L Token l) (h : Hooks U) where
  -- A defect: let the update's type have a listener, let the update be listenable, and let nothing
  -- wait for any update. Then the propagation of the update stops: `_handle_update` ends before the
  -- handler groups, no handler runs and nothing changes.
  pub handle_groups_swallows :
      (u : U) (k : ListenerKey) (s : Context C (Session U L Token) K)
      → lookup (type_of u) disp.listeners ≡ some (resolve l h)
      → is_listenable h u ≡ ok true
      → extract_key h u ≡ ok k
      → s.world.listeners ≡ []
      → handle_groups type_of c safe_await on_error disp (some u) s ≡ (s, raise stop_propagation)
  unfolding handle_groups handle_listen
  handle_groups_swallows u k s found listenable keyed empty =
      rw (found, handle_groups) (rw (resolve_no_listeners l R h u k s.world listenable keyed empty))
