-- ===== src/UpdateListener/Tests.antt =====
-- Runs of the listener's operations on a small session with the in-memory coordinator.
use pyroflow.Prelude.{
  ℕ, ℕ_discrete, ◌≡◌, refl, ◌≢◌, ◌⊎◌, inr, ite, true, false, none, some, [], ◌∷◌, arith, lookup,
  delete, ok, raise,
}
use pyroflow.Prelude.Int.{pos}
use pyroflow.Models.{ListenerKey, ListenerKey-discrete, listener_key_eq, sub_keys}
use pyroflow.Errors.{listener_cancelled, listener_timeout, invalid_state_error, attribute_error}
use pyroflow.ListenerCoordinator.Memory.{Registry, nat_eq, memory, registered}
use pyroflow.ListenerCoordinator.Memory.Contract.{owner, memory_contract}
use pyroflow.Session.{
  pending, result, exception, cancelled, ListenerModel, Session, settled, finish,
}
use pyroflow.UpdateListener.{
  Hooks, replace, timed_out, cancel_locked, listen_register, listen_wait, resolve, try_keys,
  deliver, is_listenable, extract_key, is_bypass,
}
use pyroflow.UpdateListener.Message.{
  Message, plain, resolve_senderless, message_hooks, default_is_listenable, from_self,
}
use pyroflow.UpdateListener.Cancel.{cancel_generation}
use pyroflow.UpdateListener.Wait.{listen_wait_ends}
use pyroflow.UpdateListener.Register.{listen_replaces, Replaced}
use pyroflow.UpdateListener.Resolve.Order.{Delivered}
use pyroflow.UpdateListener.Resolve.First.{Distinct}
use pyroflow.UpdateListener.Resolve.Update.{resolve-Delivered, resolve_first, resolve-done_raises}

abbrev chat_key : ListenerKey
chat_key = record { chat_id = pos 5; user_id = none; message_id = none }

abbrev user_key : ListenerKey
user_key = record chat_key { user_id = some (pos 7) }

-- Every update is listenable, comes from the user and bypasses no listener.
abbrev hooks : Hooks ℕ
hooks = record {
  is_update = λ u. true;
  is_listenable_func = some (λ u. ok true);
  extract_key_func = some (λ u. ok user_key);
  bypass_func = none;
}

abbrev TestSession : Type 0
TestSession = Session ℕ Registry ℕ

abbrev start : TestSession
start = record {
  coordinator = record { entries = []; counter = 0 };
  listeners = [];
  futures = λ f. record { state = pending; callback_key = chat_key };
  next_future = 0;
  ready = [];
}

abbrev listener : ListenerKey → ℕ → ListenerModel ℕ
listener k i = record { key = k; meta = none; future = i; coordinator_id = some i }

-- The user's key has a listener whose registration a later generation took over; the chat's key
-- has one that owns its registration.
abbrev two : TestSession
two = record start {
  coordinator = record { entries = (user_key, 2) ∷ (chat_key, 1) ∷ []; counter = 3 };
  listeners = (user_key, listener user_key 0) ∷ (chat_key, listener chat_key 1) ∷ [];
  next_future = 2;
}

-- The chat's key has a listener.
abbrev one : TestSession
one = record start {
  coordinator = record { entries = (chat_key, 0) ∷ []; counter = 1 };
  listeners = (chat_key, listener chat_key 0) ∷ [];
  next_future = 1;
}

resolve-Delivered_example :
    Delivered memory
      (memory_contract ℕ)
      hooks
      42
      (sub_keys 1 user_key)
      two
      (resolve memory hooks 42 two).0
unfolding ListenerKey-discrete ℕ_discrete memory registered is_listenable extract_key is_bypass
    sub_keys resolve try_keys deliver cancel_locked lookup delete finish settled
resolve-Delivered_example =
    resolve-Delivered memory (memory_contract ℕ) hooks 42 user_key two refl refl refl refl

two-Distinct : Distinct memory (memory_contract ℕ) two
unfolding ListenerKey-discrete ℕ_discrete lookup
two-Distinct j k l m = ground arith

resolve_first_example :
    let s' = (resolve memory hooks 42 two).0 in
    ((resolve memory hooks 42 two).1 ≡ ok tt)
    × ((s'.futures 1).state ≡ result 42)
    × ((g : ℕ) → g ≢ 1 → (s'.futures g).state ≡ result 42 → (two.futures g).state ≡ result 42)
unfolding ListenerKey-discrete ℕ_discrete memory registered is_listenable extract_key is_bypass
    sub_keys lookup memory_contract
resolve_first_example =
    resolve_first memory (memory_contract ℕ) hooks 42 user_key two refl refl (user_key ∷ []) []
      chat_key (listener chat_key 1) refl refl refl refl two-Distinct
      (inr (listener user_key 0, refl, refl, refl), tt) refl

-- The chat's listener has got an update already, and its cleanup has yet to run.
abbrev spent : TestSession
spent = record one { futures = λ f. record { state = result 41; callback_key = chat_key } }

abbrev chat_hooks : Hooks ℕ
chat_hooks = record hooks { extract_key_func = some (λ u. ok chat_key) }

resolve-done_raises_example :
    resolve memory chat_hooks 42 spent ≡ (spent, raise invalid_state_error)
unfolding ListenerKey-discrete ℕ_discrete is_listenable extract_key is_bypass sub_keys lookup
    memory_contract
resolve-done_raises_example =
    resolve-done_raises memory (memory_contract ℕ) chat_hooks 42 chat_key spent refl refl [] []
      chat_key (listener chat_key 0) refl refl refl refl refl refl

cancel_generation_example :
    let s' = (cancel_locked memory chat_key true false (some 0) one).0 in
    ((cancel_locked memory chat_key true false (some 0) one).1 ≡ ok true)
    × ((j : ListenerKey)
        → lookup j s'.listeners
          ≡ ite (ListenerKey-discrete chat_key j) none (lookup j one.listeners))
    × ((f : ℕ)
        → (s'.futures f).state
          ≡ ite
              (ℕ_discrete 0 f)
              (exception (listener_cancelled chat_key false))
              (one.futures f).state)
    × ((j : ListenerKey)
        → owner s'.coordinator j
          ≡ ite (ListenerKey-discrete chat_key j) none (owner one.coordinator j))
unfolding ListenerKey-discrete ℕ_discrete lookup memory_contract
cancel_generation_example =
    cancel_generation memory (memory_contract ℕ) chat_key true false (some 0) one
      (listener chat_key 0) refl refl

listen_wait_ends_example :
    let s' = (listen_wait memory (timed_out true) chat_key 0 0 one).0 in
    ((listen_wait memory (timed_out true) chat_key 0 0 one).1 ≡ raise (listener_timeout chat_key))
    × ((g : ℕ) → (s'.futures g).state ≡ ite (ℕ_discrete 0 g) cancelled (one.futures g).state)
    × ((l : ListenerModel ℕ) → lookup chat_key s'.listeners ≡ some l → l.future ≢ 0)
    × ((j : ListenerKey) (l : ListenerModel ℕ)
        → ((j ≢ chat_key) ⊎ (l.future ≢ 0))
        → lookup j one.listeners ≡ some l
        → lookup j s'.listeners ≡ some l)
    × ((j : ListenerKey)
        → owner s'.coordinator j
          ≡ ite (ListenerKey-discrete chat_key j) none (owner one.coordinator j))
unfolding ListenerKey-discrete ℕ_discrete lookup memory_contract
listen_wait_ends_example =
    listen_wait_ends memory (memory_contract ℕ) (timed_out true) chat_key 0 0 one

listen_replaces_example :
    (i : ℕ) × Replaced memory
      (memory_contract ℕ)
      chat_key
      none
      one
      (listener chat_key 0)
      i
      (listen_register memory replace chat_key none one)
unfolding ListenerKey-discrete ℕ_discrete lookup memory_contract
listen_replaces_example =
    listen_replaces memory (memory_contract ℕ) chat_key none one 0 (listener chat_key 0) refl refl
      refl (omega arith)

-- A post of a channel, and a session in which somebody waits for any message of that channel.
abbrev post : Message
post = record {
  id = pos 9;
  chat = some (pos 5);
  from_user = none;
  outgoing = false;
  service = false;
  empty = false;
  edit_date = false;
  edit_hidden = false;
}

abbrev expecting : Session Message Registry ℕ
expecting = record {
  coordinator = record { entries = (chat_key, 0) ∷ []; counter = 1 };
  listeners = (chat_key, listener chat_key 0) ∷ [];
  futures = λ f. record { state = pending; callback_key = chat_key };
  next_future = 1;
  ready = [];
}

resolve_senderless_example :
    resolve memory (plain none) post expecting ≡ (expecting, raise attribute_error)
unfolding is_listenable message_hooks default_is_listenable from_self
resolve_senderless_example = resolve_senderless memory none post expecting refl refl
