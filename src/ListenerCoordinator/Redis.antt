-- ===== src/ListenerCoordinator/Redis.antt =====
-- pyroflow/listener_coordinator/redis_listener_coordinator.py over a parameter for the Redis server:
-- the registry's operations and the Lua scripts behind them, each of which runs atomically. A
-- packed key stands for the key itself. Messages that are published are kept in order.
pub mod Contract
pub mod Release
pub mod Signals
pub mod Packing
use pyroflow.Prelude.{
  ℕ, suc, ite, Bool, true, false, Option, none, some, List, [], ◌∷◌, ◌++◌, DecEq, Dict, lookup,
  insert, delete, M, ok, raise, if◌then◌else◌, is_some, ◌==◌,
}
use pyroflow.Models.{ListenerKey, listener_key_eq}
use pyroflow.Errors.{Exc, key_error}
use pyroflow.ListenerCoordinator.{ListenerCoordinator, owned_by}

-- The commands of the server on the registry's keys, over its states `R`.
pub record Redis (R Token : Type 0) : Type 0 where
  pub get : ListenerKey → R → Option Token
  pub set : ListenerKey → Token → R → R
  pub del : ListenerKey → R → R

-- The server and the source of random tokens, which sessions share, what was published, and the
-- registrations of this session.
pub record RedisState (R Token : Type 0) : Type 0 where
  pub server : R
  pub drawn : ℕ
  pub published : List (ListenerKey × Token)
  pub owned_registrations : Dict ListenerKey Token

module _ {R Token : Type 0} ⦃d : DecEq Token⦄ (redis : Redis R Token) where
  -- `SET key value NX`: whether the value was set.
  unfoldable pub set_nx : ListenerKey → Token → R → R × Bool
  set_nx k i r = if is_some (redis.get k r) then (r, false) else (redis.set k i r, true)

  -- `LUA_UNREGISTER_SCRIPT`
  unfoldable pub lua_unregister : ListenerKey → Token → R → R × ℕ
  lua_unregister k i r = elim (redis.get k r) [
    | none ↦ (r, 1)
    | some value ↦ ite (d.dec value i) (redis.del k r, 1) (r, 0)
  ]

  -- `LUA_BULK_UNREGISTER_SCRIPT`, with `deleted_count` so far.
  unfoldable pub lua_bulk_unregister : List (ListenerKey × Token) → ℕ → R → R × ℕ
  lua_bulk_unregister [] deleted_count r = (r, deleted_count)
  lua_bulk_unregister ((k, i) ∷ es) deleted_count r =
      if owned_by (redis.get k r) (some i)
      then lua_bulk_unregister es (suc deleted_count) (redis.del k r)
      else lua_bulk_unregister es deleted_count r

  -- `LUA_GETDEL_SCRIPT`
  unfoldable pub lua_getdel : ListenerKey → R → R × Option Token
  lua_getdel k r = elim (redis.get k r) [
    | none ↦ (r, none)
    | some value ↦ (redis.del k r, some value)
  ]

  -- `if cid := pop(packed_key): if cid != coordinator_id: put it back`
  abbrev pub release_owned : ListenerKey → Token → Dict ListenerKey Token → Dict ListenerKey Token
  release_owned k i owned = elim (lookup k owned) [
    | none ↦ owned
    | some cid ↦ ite (d.dec cid i) (delete k owned) (insert k cid (delete k owned))
  ]

  module _ {U : Type 0} (uuid4 : ℕ → Token) where
    unfoldable pub register : ListenerKey → M (RedisState R Token) (Exc U) Token
    register k s =
        let coordinator_id = uuid4 s.drawn in
        let (r, success) = set_nx k coordinator_id s.server in
        if success
        then (
          record s {
            server = r;
            drawn = suc s.drawn;
            owned_registrations = insert k coordinator_id s.owned_registrations;
          },
          ok coordinator_id,
        )
        else (record s { server = r; drawn = suc s.drawn }, raise key_error)

    unfoldable pub unregister : ListenerKey → Option Token → M (RedisState R Token) (Exc U) Bool
    unregister k none s = (
      record s {
        server = redis.del k s.server;
        owned_registrations = delete k s.owned_registrations;
      },
      ok (is_some (redis.get k s.server)),
    )
    unregister k (some i) s =
        let (r, released) = lua_unregister k i s.server in
        (
          record s { server = r; owned_registrations = release_owned k i s.owned_registrations },
          ok (if released == 0 then false else true),
        )

    unfoldable pub registered : ListenerKey → Option Token → M (RedisState R Token) (Exc U) Bool
    registered k t s = (s, ok (owned_by (redis.get k s.server) t))

    -- `cancel`: deletes first, and then publishes which registration it was.
    unfoldable pub cancel : ListenerKey → M (RedisState R Token) (Exc U) Bool
    cancel k s =
        let (r, cancelled_id) = lua_getdel k s.server in
        let owned = delete k s.owned_registrations in
        elim cancelled_id [
          | none ↦ (record s { server = r; owned_registrations = owned }, ok false)
          | some i ↦ (
            record s {
              server = r;
              owned_registrations = owned;
              published = s.published ++ (k, i) ∷ [];
            },
            ok true,
          )
        ]

    -- The part of `stop` that gives up the session's registrations.
    unfoldable pub stop : M (RedisState R Token) (Exc U) (Unit {0})
    stop s =
        let (r, deleted) = lua_bulk_unregister s.owned_registrations 0 s.server in
        (record s { server = r; owned_registrations = [] }, ok tt)

    unfoldable pub redis_coordinator : ListenerCoordinator U (RedisState R Token) Token
    redis_coordinator = record {
      register = register;
      unregister = unregister;
      cancel = cancel;
      registered = registered;
      start = λ s. (s, ok tt);
      stop = stop;
    }
