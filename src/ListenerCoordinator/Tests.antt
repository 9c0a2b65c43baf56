-- ===== src/ListenerCoordinator/Tests.antt =====
-- The coordinators, over numbers as updates, tokens and characters.
use pyroflow.ListenerCoordinator.Redis.{
  Redis, RedisState, redis_coordinator, register, unregister, cancel, stop,
}
use pyroflow.ListenerCoordinator.Redis.Release.{stop_releases}
use pyroflow.Text.{Text}
use pyroflow.Text.Fields.{lacks→Lacks}
use pyroflow.ListenerCoordinator.Redis.Packing.{
  sep, subscribed, published, listen_for_cancel_signals,
}
use pyroflow.ListenerCoordinator.Redis.Packing.Published.{
  payload_of, silent, notice, malformed, carried, listen-Carries,
}
use pyroflow.ListenerCoordinator.Redis.Contract.{IsRedis, redis-IsRegistry}
use pyroflow.Prelude.{
  Among, Dict, insert, delete, lookup-insert, lookup-delete, ℕ, ◌<◌, ◌≡◌, ◌↔◌, Option, none, true,
  false, ok, lookup, ◌++◌, some, List, [], arith, ◌∷◌, ◌⊎◌, refl,
}
use pyroflow.Prelude.Int.{pos, negsuc}
use pyroflow.Models.{ListenerKey, listener_key_eq}
use pyroflow.ListenerCoordinator.{IsRegistry}
use pyroflow.ListenerCoordinator.Memory
use pyroflow.ListenerCoordinator.Memory.{Registry, nat_eq, init, memory}
use pyroflow.ListenerCoordinator.Memory.Contract.{memory-IsRegistry}

memory-IsRegistry_example :
    (R : IsRegistry ℕ Registry ℕ memory) × ((r : Registry) (k : ListenerKey)
      → R.owner r k ≡ lookup k r.entries)
    × ((r : Registry) (i : ℕ) → R.Issued r i ↔ (i < r.counter))
    × R.IsValid init
    × ((k : ListenerKey) → R.owner init k ≡ none)
    × ((r : Registry) (k : ListenerKey) (t : Option ℕ)
        → R.owner r k ≡ none
        → ((Memory.unregister {U = ℕ} k t r).1 ≡ ok true)
          × ((Memory.cancel {U = ℕ} k r).1 ≡ ok true))
    × ((r : Registry) (k : ListenerKey) → R.owner (Memory.stop {U = ℕ} r).0 k ≡ none)
    × ((r : Registry) (i : ℕ) → ¬ R.Issued (Memory.stop {U = ℕ} r).0 i)
memory-IsRegistry_example = memory-IsRegistry ℕ

-- A server whose keys are a dictionary, with numbers as tokens.
abbrev Server : Type 0
Server = Dict ListenerKey ℕ

abbrev server : Redis Server ℕ
server = record { get = λ k r. lookup k r; set = λ k i r. insert k i r; del = λ k r. delete k r }

server-IsRedis : IsRedis Server ℕ server
server-IsRedis = record {
  get-set = λ k j i r. lookup-insert k j i r;
  get-del = λ k j r. lookup-delete k j r;
}

redis-IsRegistry_example :
    (C : IsRegistry ℕ (RedisState Server ℕ) ℕ (redis_coordinator server (λ n. n)))
    × ((s : RedisState Server ℕ) (k : ListenerKey) → C.owner s k ≡ server.get k s.server)
    × ((s : RedisState Server ℕ) (n : ℕ) → n < s.drawn → C.Issued s n)
    × ((s : RedisState Server ℕ) (k : ListenerKey)
        → server.get k s.server ≡ none
        → lookup k (register server {U = ℕ} (λ n. n) k s).0.owned_registrations ≡ some s.drawn)
    × ((s : RedisState Server ℕ) (k : ListenerKey) (v : ℕ)
        → server.get k s.server ≡ some v
        → (cancel server {U = ℕ} (λ n. n) k s).0.published ≡ s.published ++ (k, v) ∷ [])
    × ((s : RedisState Server ℕ) (k : ListenerKey)
        → server.get k s.server ≡ none
        → ((cancel server {U = ℕ} (λ n. n) k s).1 ≡ ok false)
          × ((cancel server {U = ℕ} (λ n. n) k s).0.published ≡ s.published))
    × ((s : RedisState Server ℕ) (k : ListenerKey) (i : ℕ)
        → server.get k s.server ≡ none
        → (unregister server {U = ℕ} (λ n. n) k (some i) s).1 ≡ ok true)
redis-IsRegistry_example = redis-IsRegistry ℕ server server-IsRedis (λ n. n) (λ m n e. e)

abbrev first_chat : ListenerKey
first_chat = record { chat_id = pos 1; user_id = none; message_id = none }

abbrev second_chat : ListenerKey
second_chat = record { chat_id = pos 2; user_id = none; message_id = none }

-- A session that registered both chats, the second of which another session holds by now.
abbrev stopping : RedisState Server ℕ
stopping = record {
  server = (first_chat, 7) ∷ (second_chat, 9) ∷ [];
  drawn = 10;
  published = [];
  owned_registrations = (first_chat, 7) ∷ (second_chat, 8) ∷ [];
}

stop_releases_example :
    ((stop server {U = ℕ} (λ n. n) stopping).0.owned_registrations ≡ [])
    × (((server.get second_chat (stop server {U = ℕ} (λ n. n) stopping).0.server ≡ none)
          × Among (second_chat, 9) stopping.owned_registrations)
        ⊎ ((server.get second_chat (stop server {U = ℕ} (λ n. n) stopping).0.server ≡ some 9)
            × (¬ Among (second_chat, 9) stopping.owned_registrations)))
unfolding lookup pyroflow.Models.ListenerKey-discrete pyroflow.Prelude.ℕ_discrete
stop_releases_example = stop_releases server server-IsRedis second_chat ℕ (λ n. n) stopping 9 refl

-- "Message" and "f0" in code points.
abbrev message_name : Text
message_name = 77 ∷ 101 ∷ 115 ∷ 115 ∷ 97 ∷ 103 ∷ 101 ∷ []

abbrev token : Text
token = 102 ∷ 48 ∷ []

abbrev topic : ListenerKey
topic = record { chat_id = negsuc 99; user_id = none; message_id = some (pos 12) }

listen-Carries_example :
    listen_for_cancel_signals {U = ℕ}
      (subscribed ∷ published token ∷ published (payload_of message_name (topic, token)) ∷ [])
    ≡ ((topic, token) ∷ [], ok tt)
listen-Carries_example = listen-Carries {U = ℕ} message_name (lacks→Lacks sep message_name refl) (
    notice (
      malformed token (lacks→Lacks sep token refl)
        (carried (topic, token) (lacks→Lacks sep token refl) silent)))
