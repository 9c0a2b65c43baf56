-- ===== src/UpdateListener/System/Tests.antt =====
-- A session on Redis in which a listener is cancelled, the coordinator stops and starts again, and
-- the key is listened to once more; then the first `listen` ends.
use pyroflow.Prelude.{
  ℕ, ℕ_discrete, ◌≡◌, refl, inl, inr, true, false, ok, raise, none, some, [], ◌∷◌, Dict, lookup,
  insert, delete, lookup-insert, lookup-delete,
}
use pyroflow.Prelude.Int.{pos}
use pyroflow.Models.{ListenerKey, ListenerKey-discrete, listener_key_eq, sub_keys}
use pyroflow.Errors.{listener_timeout, task_cancelled}
use pyroflow.ListenerCoordinator.{ListenerCoordinator}
use pyroflow.ListenerCoordinator.Memory.{nat_eq}
use pyroflow.ListenerCoordinator.Redis.{
  Redis, RedisState, redis_coordinator, register, registered, unregister, cancel, stop, set_nx,
  lua_unregister, lua_getdel, lua_bulk_unregister,
}
use pyroflow.ListenerCoordinator.Redis.Contract.{IsRedis, redis_contract}
use pyroflow.Session.{pending, ListenerModel, Session, settled, finish, create_future}
use pyroflow.UpdateListener.{
  reject, timed_out, interrupted, cancel_locked, check_duplicate, install, listen_register,
  listen_wait, Hooks, is_listenable, extract_key, is_bypass, resolve,
}
use pyroflow.UpdateListener.System.{
  Waiter, World, Reach, here, later, listens, cancels, coordinator_stops,
}
use pyroflow.UpdateListener.System.Delivery.{update_arrives}
use pyroflow.UpdateListener.System.Safety.{old_generation_harmless}
use pyroflow.UpdateListener.System.Shared.{redis_stops}

abbrev Server : Type 0
Server = Dict ListenerKey ℕ

abbrev server : Redis Server ℕ
server = record { get = λ k r. lookup k r; set = λ k i r. insert k i r; del = λ k r. delete k r }

server-IsRedis : IsRedis Server ℕ server
server-IsRedis = record {
  get-set = λ k j i r. lookup-insert k j i r;
  get-del = λ k j r. lookup-delete k j r;
}

-- The draws of `uuid4` are counted.
abbrev shared : ListenerCoordinator ℕ (RedisState Server ℕ) ℕ
shared = redis_coordinator server (λ n. n)

abbrev chat_key : ListenerKey
chat_key = record { chat_id = pos 5; user_id = none; message_id = none }

abbrev start : Session ℕ (RedisState Server ℕ) ℕ
start = record {
  coordinator = record { server = []; drawn = 0; published = []; owned_registrations = [] };
  listeners = [];
  futures = λ f. record { state = pending; callback_key = chat_key };
  next_future = 0;
  ready = [];
}

abbrev waiter : ℕ → Waiter ℕ
waiter i = record { key = chat_key; future = i; token = i }

abbrev listener : ℕ → ListenerModel ℕ
listener i = record { key = chat_key; meta = none; future = i; coordinator_id = some i }

abbrev first : Session ℕ (RedisState Server ℕ) ℕ
first = (listen_register shared reject chat_key none start).0

abbrev dropped : Session ℕ (RedisState Server ℕ) ℕ
dropped = (cancel_locked shared chat_key true false none first).0

abbrev stopped : Session ℕ (RedisState Server ℕ) ℕ
stopped = record dropped { coordinator = (shared.stop dropped.coordinator).0 }

abbrev second : World ℕ (RedisState Server ℕ) ℕ
second = record {
  session = (listen_register shared reject chat_key none stopped).0;
  waiters = waiter 1 ∷ waiter 0 ∷ [];
}

second_reached :
    Reach shared
      (redis_contract ℕ server server-IsRedis (λ n. n) (λ m n e. e))
      true
      (record { session = start; waiters = [] })
      second
unfolding ListenerKey-discrete ℕ_discrete lookup insert delete redis_coordinator register registered
    unregister cancel stop set_nx lua_unregister lua_getdel lua_bulk_unregister settled finish
    create_future cancel_locked check_duplicate install listen_register
second_reached =
    later
      (later
        (later (later here (listens reject chat_key none 0 0 refl))
          (cancels chat_key true false none))
        (coordinator_stops refl))
      (listens reject chat_key none 1 1 refl)

old_generation_harmless_example :
    let s' = (listen_wait shared (timed_out true) chat_key 0 0 second.session).0 in
    (lookup chat_key s'.listeners ≡ some (listener 1))
    × (lookup chat_key s'.coordinator.server ≡ lookup chat_key second.session.coordinator.server)
unfolding ListenerKey-discrete ℕ_discrete lookup insert delete redis_coordinator register registered
    unregister cancel stop set_nx lua_unregister lua_getdel lua_bulk_unregister settled finish
    create_future cancel_locked check_duplicate install listen_register redis_contract
old_generation_harmless_example =
    old_generation_harmless shared (redis_contract ℕ server server-IsRedis (λ n. n) (λ m n e. e))
      start refl (λ k i h. cc) second true
      (λ _. redis_stops ℕ server server-IsRedis (λ n. n) (λ m n e. e)) second_reached
      (timed_out true) (waiter 0) (listener 1) (inr (inl refl)) refl (λ e. cc)

abbrev user_key : ListenerKey
user_key = record chat_key { user_id = some (pos 7) }

-- Every update is listenable, comes from the user and bypasses no listener.
abbrev hooks : Hooks ℕ
hooks = record {
  is_update = λ u. true;
  is_listenable_func = some (λ u. ok true);
  extract_key_func = some (λ u. ok user_key);
  bypass_func = none;
}

update_arrives_example :
    let s' = (resolve shared hooks 42 second.session).0 in
    ((resolve shared hooks 42 second.session).1 ≡ ok tt)
    × ((listen_wait shared (timed_out true) chat_key 1 1 s').1 ≡ ok 42)
    × ((listen_wait shared (interrupted true) chat_key 1 1 s').1 ≡ ok 42)
    × ((listen_wait shared (timed_out false) chat_key 1 1 s').1 ≡ raise (listener_timeout chat_key))
    × ((listen_wait shared (interrupted false) chat_key 1 1 s').1 ≡ raise task_cancelled)
unfolding ListenerKey-discrete ℕ_discrete lookup insert delete redis_coordinator register registered
    unregister cancel stop set_nx lua_unregister lua_getdel lua_bulk_unregister settled finish
    create_future cancel_locked check_duplicate install listen_register redis_contract is_listenable
    extract_key is_bypass sub_keys
update_arrives_example =
    update_arrives shared (redis_contract ℕ server server-IsRedis (λ n. n) (λ m n e. e)) start refl
      (λ k i h. cc) second true (λ _. redis_stops ℕ server server-IsRedis (λ n. n) (λ m n e. e))
      second_reached hooks 42 user_key (waiter 1) (listener 1) (user_key ∷ []) [] refl refl refl
      refl (refl, tt) refl refl refl refl
