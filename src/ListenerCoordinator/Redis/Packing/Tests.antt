-- ===== src/ListenerCoordinator/Redis/Packing/Tests.antt =====
-- A signal for an earlier registration arrives after a new one of the same key.
use pyroflow.Prelude.{
  ℕ, ◌≡◌, refl, Among, none, some, [], ◌∷◌, lookup, insert, delete, lookup-insert, lookup-delete,
  Dict, ℕ_discrete,
}
use pyroflow.Prelude.Int.{pos}
use pyroflow.Models.{ListenerKey, ListenerKey-discrete, listener_key_eq}
use pyroflow.Text.{Text, text_eq}
use pyroflow.Text.Fields.{lacks→Lacks}
use pyroflow.ListenerCoordinator.{ListenerCoordinator, IsRegistry}
use pyroflow.ListenerCoordinator.Redis.{Redis, RedisState, redis_coordinator}
use pyroflow.ListenerCoordinator.Redis.Contract.{IsRedis, redis-IsRegistry}
use pyroflow.ListenerCoordinator.Redis.Packing.{
  sep, subscribed, published, listen_for_cancel_signals,
}
use pyroflow.ListenerCoordinator.Redis.Packing.Published.{payload_of, silent, notice, carried}
use pyroflow.ListenerCoordinator.Redis.Packing.Applied.{apply_signals, signals_cancel}
use pyroflow.Session.{pending, ListenerModel, Session}

abbrev Server : Type 0
Server = Dict ListenerKey Text

abbrev server : Redis Server Text
server = record { get = λ k r. lookup k r; set = λ k i r. insert k i r; del = λ k r. delete k r }

server-IsRedis : IsRedis Server Text server
server-IsRedis = record {
  get-set = λ k j i r. lookup-insert k j i r;
  get-del = λ k j r. lookup-delete k j r;
}

abbrev State : Type 0
State = RedisState Server Text

-- Tokens of one character.
abbrev token : ℕ → Text
token n = n ∷ []

abbrev coordinator : ListenerCoordinator ℕ State Text
coordinator = redis_coordinator server token

registry : IsRegistry ℕ State Text coordinator
registry = (redis-IsRegistry ℕ server server-IsRedis token (λ m n e. cc)).0

abbrev chat : ListenerKey
chat = record { chat_id = pos 1; user_id = none; message_id = none }

abbrev listener : ListenerModel Text
listener = record { key = chat; meta = none; future = 0; coordinator_id = some (token 1) }

abbrev session : Session ℕ State Text
session = record {
  coordinator = record {
    server = (chat, token 1) ∷ [];
    drawn = 2;
    published = [];
    owned_registrations = (chat, token 1) ∷ [];
  };
  listeners = (chat, listener) ∷ [];
  futures = λ f. record { state = pending; callback_key = chat };
  next_future = 1;
  ready = [];
}

-- "Message"
abbrev name : Text
name = 77 ∷ 101 ∷ 115 ∷ 115 ∷ 97 ∷ 103 ∷ 101 ∷ []

-- The signals that name the earlier registration, and the present one.
abbrev earlier : ListenerKey × Text
earlier = (chat, token 0)

abbrev present : ListenerKey × Text
present = (chat, token 1)

signals_cancel_example :
    let s' =
      apply_signals coordinator
        (listen_for_cancel_signals {U = ℕ}
          (subscribed ∷ published (payload_of name earlier) ∷ [])).0
        session in
    (Among present (earlier ∷ []) → lookup chat s'.listeners ≡ none)
    × ((¬ Among present (earlier ∷ [])) → lookup chat s'.listeners ≡ some listener)
unfolding lookup ListenerKey-discrete ℕ_discrete
signals_cancel_example =
    signals_cancel coordinator registry chat name session listener (token 1)
      (lacks→Lacks sep name refl) (notice (carried earlier (lacks→Lacks sep (token 0) refl) silent))
      refl refl
