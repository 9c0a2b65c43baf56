-- ===== src/UpdateCoordinator/Tests.antt =====
-- Keys of the backend, and a small server for the Redis coordinator.
use pyroflow.Prelude.{
  Dict, lookup, insert, delete, lookup-insert, lookup-delete, is_some, none, some, map, ◌*◌, ◌/◌, ℕ,
  ◌==◌, ◌≡◌, refl, ◌<◌, ◌↔◌, true, false, List, [], ◌∷◌, ok, raise, if◌then◌else◌, arith,
}
use pyroflow.Prelude.Int.{ℤ, pos}
use pyroflow.Errors.{runtime_error, value_error}
use pyroflow.Text.{Text, text_eq}
use pyroflow.Text.Fields.{lacks→Lacks}
use pyroflow.UpdateCoordinator.{IsUpdateCoordinator, extract_update_id}
use pyroflow.UpdateCoordinator.Defaults.{
  Message, message_key, message_coordinated, message_identity,
}
use pyroflow.UpdateCoordinator.Keys.{Part, number, sep, lock, handled, build_key}
use pyroflow.UpdateCoordinator.Redis.{
  Number, acquire, mark_handled, Settings, milliseconds, Server, IsServer, truth, redis_coordinator,
  redis-IsUpdateCoordinator,
}

-- "Message"
abbrev name : Text
name = 77 ∷ 101 ∷ 115 ∷ 115 ∷ 97 ∷ 103 ∷ 101 ∷ []

-- The locks that are held with their leases, and the keys that exist with the times they have left.
abbrev Names : Type 0
Names = Dict Text Number × Dict Text ℕ

abbrev server : Server ℕ Names
server = record {
  acquire = λ k t w b s.
      if is_some (lookup k s.0) then (s, ok false) else ((insert k t s.0, s.1), ok true);
  release = λ k s.
      if is_some (lookup k s.0) then ((delete k s.0, s.1), ok tt) else (s, raise runtime_error);
  exists = λ k s. if is_some (lookup k s.1) then 1 else 0;
  set = λ k px s. if px == 0 then (s, raise value_error) else ((s.0, insert k px s.1), ok tt);
}

unfoldable server-IsServer : IsServer ℕ Names server
server-IsServer = record {
  holds = λ s k. is_some (lookup k s.0);
  taken = λ s k. is_some (lookup k s.0);
  lease = λ s k. lookup k s.0;
  remaining = λ s k. elim (lookup k s.1) [ none ↦ 0 | some px ↦ px ];
  holds_taken = λ s k h. h;
  acquire_excludes = λ s k t w b h. rw h (λ e. ground arith);
  acquire_holds = λ s k t w b e. ground (arith, lookup-insert k k t s.0);
  acquire_lease = λ s k t w b e. ground (arith, lookup-insert k k t s.0);
  acquire_exists = λ s k j t w b apart. ground arith;
  release_ok = λ s k h. ground arith;
  release_holds = λ s k. ground (arith, lookup-delete k k s.0);
  release_others = λ s k j apart. ground (arith, lookup-delete k j s.0);
  release_exists = λ s k j apart. ground arith;
  set_ok = λ s k px positive. ground arith;
  set_exists = λ s k px positive. ground (arith, lookup-insert k k px s.1);
  set_remaining = λ s k px positive. ground (arith, lookup-insert k k px s.1);
  set_others = λ s k j px apart. ground (arith, lookup-insert k j px s.1);
  set_holds = λ s k j px apart. ground arith;
}

abbrev settings : Settings
settings = record {
  update_name = name;
  lock_ttl = record { numerator = 3600; denominator = 1 };
  handled_ttl = record { numerator = 1; denominator = 2 };
  blocking_timeout = record { numerator = 5; denominator = 1 };
  sleep = record { numerator = 1; denominator = 10 };
}

positive : 0 < milliseconds settings.handled_ttl
unfolding milliseconds
positive = omega arith

redis-IsUpdateCoordinator_example :
    (C : IsUpdateCoordinator ℕ Names (List Part) (redis_coordinator settings server)) × ((s : Names)
        (k : List Part)
      → (C.holds s k ≡ is_some (lookup (build_key name k lock) s.0))
        × (C.taken s k ≡ is_some (lookup (build_key name k lock) s.0)))
    × ((s : Names) (k : List Part)
        → C.handled s k ≡ truth (server.exists (build_key name k handled) s))
    × ((s : Names) (k : List Part)
        → (acquire settings server k s).1 ≡ ok true
        → lookup (build_key name k lock) (acquire settings server k s).0.0 ≡ some settings.lock_ttl)
    × ((s : Names) (k : List Part)
        → server-IsServer.remaining (mark_handled settings server k s).0 (build_key name k handled)
          ≡ 1 * 1000 / 2)
    × ((i j : ℤ) (is js : List ℤ)
        → (C.lock_name (map number (i ∷ is)) ≡ C.lock_name (map number (j ∷ js))
            ↔ (i ∷ is ≡ j ∷ js))
          × (C.handled_name (map number (i ∷ is)) ≡ C.handled_name (map number (j ∷ js))
              ↔ (i ∷ is ≡ j ∷ js)))
unfolding server-IsServer
redis-IsUpdateCoordinator_example =
    redis-IsUpdateCoordinator settings server server-IsServer positive (lacks→Lacks sep name refl)

abbrev message : ℤ → Message ℤ
message i = record { peer_id = pos 5; id = i }

message_identity_example :
    build_key name (number (pos 5) ∷ number (pos 9) ∷ []) handled
      ≡ build_key name (number (pos 5) ∷ number (pos 8) ∷ []) handled
    ↔ ((pos 5 ≡ pos 5) × (pos 9 ≡ pos 8))
unfolding extract_update_id message_coordinated message_key
message_identity_example =
    message_identity (λ p. p) (λ m. true) name (message (pos 9)) (message (pos 8))
      (number (pos 5) ∷ number (pos 9) ∷ []) (number (pos 5) ∷ number (pos 8) ∷ [])
      (lacks→Lacks sep name refl) refl refl
