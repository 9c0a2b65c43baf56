-- ===== src/Dispatcher/Pipeline/Tests.antt =====
-- One update at a dispatcher with one handler, which adds to a number.
use pyroflow.Prelude.{
  inl, inr, ◌⊎◌, ◌<◌, ◌↔◌, ℕ, ℕ_discrete, suc, ◌+◌, ◌≤◌, ◌≡◌, refl, true, false, none, some, List,
  [], ◌∷◌, arith, lookup, M, ok, raise,
}
use pyroflow.Prelude.Int.{pos}
use pyroflow.Text.{Text, Text-discrete, text_eq, join}
use pyroflow.UpdateCoordinator.Keys.{Part, text, lock, handled, build_key, part_text}
use pyroflow.Models.{ListenerKey}
use pyroflow.Errors.{Exc, stop_propagation}
use pyroflow.ListenerCoordinator.Memory.{Registry, nat_eq, memory}
use pyroflow.ListenerCoordinator.Memory.Contract.{memory_contract}
use pyroflow.Session.{Session, pending}
use pyroflow.UpdateListener.{Hooks, is_listenable, extract_key, resolve}
use pyroflow.UpdateCoordinator.{
  Coordinated, is_coordinatable, extract_key as lock_key, extract_update_id,
}
use pyroflow.UpdateCoordinator.Memory.{
  TtlCache, IsTtlCache, MemoryState, is_held, let_go, acquire, release, is_handled, mark_handled,
  memory_coordinator, memory_update_contract,
}
use pyroflow.Dispatcher.Settlement.{Context, IsSafeAwait, settle, settle_now}
use pyroflow.Dispatcher.{
  Handler, Tally, acts, finishes, perform, handle_listen, matches, run_group, run_groups,
}
use pyroflow.Dispatcher.Pipeline.{
  Dispatcher, take_lock, handle_groups, check_and_handle, finish_update, handle_locked,
  handle_update,
}
use pyroflow.Dispatcher.Pipeline.Counts.{Recorded, handle_groups_counts}
use pyroflow.Dispatcher.Pipeline.Once.{
  handle_update_registers, handle_update_drops, handled_only_once,
}
use pyroflow.Dispatcher.Pipeline.Swallow.{handle_groups_swallows}

-- A cache that never evicts.
abbrev cache : TtlCache Text (List Text)
cache = record { contains = λ k s. is_held k s; set = λ k s. k ∷ s; clear = λ s. [] }

cache-IsTtlCache : IsTtlCache Text (List Text) cache
unfolding is_held
cache-IsTtlCache = record {
  contains-set = λ k s. ground arith;
  contains-others =
      λ k j s h. elim (text_eq.dec k j) [ yes e ↦ inr e | no apart ↦ inl (ground arith) ];
}

-- "M"
abbrev update_name : Text
update_name = 77 ∷ []

abbrev Store : Type 0
Store = MemoryState (List Text)

abbrev safe_await : M Store (Exc ℕ) (Unit {0}) → M Store (Exc ℕ) (Unit {0})
safe_await m = m

safe_await-IsSafeAwait : IsSafeAwait ℕ Store safe_await
safe_await-IsSafeAwait = record { runs = λ m s e. refl }

abbrev coordinated : Coordinated ℕ (List Part)
coordinated = record {
  is_update = λ u. true;
  is_coordinatable_func = some (λ u. ok true);
  extract_key_func = some (λ u. ok (text (55 ∷ []) ∷ []));
  extract_update_id_func = some (λ u. ok (text (57 ∷ []) ∷ []));
}

abbrev adds : Handler ℕ ℕ
adds = record {
  name = 1;
  is_error_handler = false;
  is_instance = true;
  is_raw = false;
  check = λ a w. (w, ok true);
  callback = λ a. acts suc (finishes (ok tt));
}

abbrev on_error : {W : Type 0} → Exc ℕ → Handler ℕ W → M W (Exc ℕ) (Unit {0})
on_error e h w = (w, ok tt)

abbrev dispatcher : Dispatcher ℕ ℕ ℕ (List Part)
dispatcher = record {
  listeners = [];
  coordinateds = (0, coordinated) ∷ [];
  histories = [];
  groups = (adds ∷ []) ∷ [];
  is_started = true;
}

abbrev context : List Text → List Text → Context Store ℕ (List Part)
context names marks = record {
  coordinator = record { held = names; handled = marks };
  world = 0;
  marker = none;
}

abbrev type_of : ℕ → ℕ
type_of u = 0

abbrev once : Tally
once = record { handled_count = 1; exc_count = 0; records = none }

handle_groups_counts_example : (1 + 0 ≤ 1) × Recorded none 1
unfolding ℕ_discrete lookup handle_groups run_groups run_group matches perform handle_listen
handle_groups_counts_example =
    handle_groups_counts (memory_coordinator update_name cache) safe_await on_error type_of
      dispatcher (some 5) (context [] []) once refl

-- The names of the lock and of the update.
abbrev lock_name : Text
lock_name = build_key update_name (text (55 ∷ []) ∷ []) lock

abbrev handled_name : Text
handled_name = build_key update_name (text (57 ∷ []) ∷ []) handled

handle_update_registers_example :
    let out =
      handle_update type_of
        (memory_coordinator update_name cache)
        safe_await
        on_error
        dispatcher
        (some 5)
        (context [] []) in
    (out.1 ≡ ok tt)
    × (is_held lock_name out.0.coordinator.held ≡ false)
    × (out.0.world ≡ 1)
    × (is_held handled_name out.0.coordinator.handled ≡ true
        ↔ (((0 < 1) ⊎ (0 < 0)) ⊎ (false ≡ true)))
unfolding ℕ_discrete Text-discrete build_key part_text join lookup take_lock is_coordinatable
    lock_key extract_update_id memory_coordinator memory_update_contract acquire is_held
    handle_groups run_groups run_group matches perform handle_listen
handle_update_registers_example =
    handle_update_registers (memory_coordinator update_name cache)
      (memory_update_contract update_name cache cache-IsTtlCache) safe_await safe_await-IsSafeAwait
      type_of on_error dispatcher coordinated 5 (text (55 ∷ []) ∷ []) (text (57 ∷ []) ∷ [])
      (context [] []) (context (lock_name ∷ []) []) refl refl refl refl

handle_update_drops_example :
    let out =
      handle_update type_of
        (memory_coordinator update_name cache)
        safe_await
        on_error
        dispatcher
        (some 5)
        (context [] (handled_name ∷ [])) in
    (out.1 ≡ ok tt)
    × (out.0.world ≡ 0)
    × (is_held handled_name out.0.coordinator.handled ≡ true)
    × (is_held lock_name out.0.coordinator.held ≡ false)
unfolding ℕ_discrete Text-discrete build_key part_text join lookup take_lock is_coordinatable
    lock_key extract_update_id memory_coordinator memory_update_contract acquire is_held
handle_update_drops_example =
    handle_update_drops (memory_coordinator update_name cache)
      (memory_update_contract update_name cache cache-IsTtlCache) safe_await safe_await-IsSafeAwait
      type_of on_error dispatcher coordinated 5 (text (55 ∷ []) ∷ []) (text (57 ∷ []) ∷ [])
      (context [] (handled_name ∷ [])) (context (lock_name ∷ []) (handled_name ∷ [])) refl refl refl
      refl

handled_only_once_example :
    let out =
      handle_update type_of
        (memory_coordinator update_name cache)
        safe_await
        on_error
        dispatcher
        (some 5)
        (context [] (handled_name ∷ [])) in
    (out.1 ≡ ok tt) × (out.0.world ≡ 0)
unfolding ℕ_discrete Text-discrete build_key part_text join lookup take_lock is_coordinatable
    lock_key extract_update_id memory_coordinator memory_update_contract acquire release is_handled
    mark_handled is_held let_go settle settle_now handle_groups run_groups run_group matches perform
    handle_listen check_and_handle finish_update handle_locked handle_update
handled_only_once_example =
    handled_only_once (memory_coordinator update_name cache)
      (memory_update_contract update_name cache cache-IsTtlCache) safe_await safe_await-IsSafeAwait
      type_of on_error on_error dispatcher dispatcher coordinated coordinated 5
      (text (55 ∷ []) ∷ []) (text (55 ∷ []) ∷ []) (text (57 ∷ []) ∷ []) (context [] [])
      (context (lock_name ∷ []) []) (context [] (handled_name ∷ []))
      (context (lock_name ∷ []) (handled_name ∷ [])) refl refl refl refl refl refl refl refl refl

abbrev chat_key : ListenerKey
chat_key = record { chat_id = pos 5; user_id = none; message_id = none }

abbrev hooks : Hooks ℕ
hooks = record {
  is_update = λ u. true;
  is_listenable_func = some (λ u. ok true);
  extract_key_func = some (λ u. ok chat_key);
  bypass_func = none;
}

abbrev idle : Session ℕ Registry ℕ
idle = record {
  coordinator = record { entries = []; counter = 0 };
  listeners = [];
  futures = λ f. record { state = pending; callback_key = chat_key };
  next_future = 0;
  ready = [];
}

-- A dispatcher with a listener for the updates.
abbrev listening : Dispatcher ℕ ℕ (Session ℕ Registry ℕ) (List Part)
listening = record {
  listeners = (0, resolve memory hooks) ∷ [];
  coordinateds = [];
  histories = [];
  groups = [];
  is_started = true;
}

abbrev idle_context : Context Store (Session ℕ Registry ℕ) (List Part)
idle_context = record {
  coordinator = record { held = []; handled = [] };
  world = idle;
  marker = none;
}

handle_groups_swallows_example :
    handle_groups type_of
      (memory_coordinator update_name cache)
      safe_await
      on_error
      listening
      (some 5)
      idle_context
    ≡ (idle_context, raise stop_propagation)
unfolding ℕ_discrete lookup is_listenable extract_key
handle_groups_swallows_example =
    handle_groups_swallows type_of (memory_coordinator update_name cache) safe_await on_error
      listening memory (memory_contract ℕ) hooks 5 chat_key idle_context refl refl refl refl

abbrev stopped : Dispatcher ℕ ℕ ℕ (List Part)
stopped = record dispatcher { coordinateds = []; is_started = false }
