-- ===== src/ListenerCoordinator/Redis/Contract.antt =====
-- The Redis coordinator meets the contract of the listener registry.
use pyroflow.Prelude.{
  ℕ, suc, ◌<◌, ◌≡◌, refl, ◌⊎◌, inl, inr, ite, Bool, true, false, Option, none, some, arith, DecEq,
  ok, raise, if◌then◌else◌, is_some, Option-cases, lookup, lookup-insert, [], ◌∷◌, ◌++◌,
}
use pyroflow.Models.{ListenerKey, ListenerKey-discrete, listener_key_eq}
use pyroflow.Errors.{key_error}
use pyroflow.ListenerCoordinator.{IsRegistry, owned_by}
use pyroflow.ListenerCoordinator.Redis.{
  Redis, RedisState, set_nx, lua_unregister, lua_getdel, register, unregister, registered, cancel,
  redis_coordinator,
}

-- What the code relies on of the server: a value that was set or deleted is what `GET` sees, and
-- other keys are left alone.
pub record IsRedis (R Token : Type 0) (redis : Redis R Token) : Type 0 where
  pub get-set :
      (k j : ListenerKey) (i : Token) (r : R)
      → redis.get j (redis.set k i r) ≡ ite (ListenerKey-discrete k j) (some i) (redis.get j r)
  pub get-del :
      (k j : ListenerKey) (r : R)
      → redis.get j (redis.del k r) ≡ ite (ListenerKey-discrete k j) none (redis.get j r)

-- What the code relies on of `uuid4`: no two draws are equal.
abbrev pub IsFresh : {Token : Type 0} → (ℕ → Token) → Type 0
IsFresh uuid4 = (m n : ℕ) → uuid4 m ≡ uuid4 n → m ≡ n

module _ (U : Type 0) {R Token : Type 0} ⦃d : DecEq Token⦄ (redis : Redis R Token)
    (S : IsRedis R Token redis) (uuid4 : ℕ → Token) (fresh : IsFresh uuid4) where
  abbrev pub owner : RedisState R Token → ListenerKey → Option Token
  owner s k = redis.get k s.server

  -- The tokens that were drawn.
  abbrev pub Issued : RedisState R Token → Token → Type 0
  Issued s i = (n : ℕ) × (n < s.drawn) × (uuid4 n ≡ i)

  abbrev pub IsValid : RedisState R Token → Type 0
  IsValid s = (k : ListenerKey) (i : Token) → owner s k ≡ some i → Issued s i

  module _ (s : RedisState R Token) (k : ListenerKey) where
    pub register_taken :
        (i : Token) → owner s k ≡ some i → (register redis {U = U} uuid4 k s).1 ≡ raise key_error
    unfolding register set_nx
    register_taken i h = ground arith

    free_lem :
        owner s k ≡ none
        → ((register redis {U = U} uuid4 k s).1 ≡ ok (uuid4 s.drawn))
          × ((register redis {U = U} uuid4 k s).0.server ≡ redis.set k (uuid4 s.drawn) s.server)
    unfolding register set_nx
    free_lem h = ground arith

    pub drawn_lem : (register redis {U = U} uuid4 k s).0.drawn ≡ suc s.drawn
    unfolding register set_nx
    drawn_lem = ground arith

    pub unregister_server :
        (t : Option Token) (j : ListenerKey)
        → owner (unregister redis {U = U} uuid4 k t s).0 j ≡ (
            if owned_by (owner s k) t
            then ite (ListenerKey-discrete k j) none (owner s j)
            else owner s j)
    unfolding unregister lua_unregister
    unregister_server none j = elim (Option-cases (redis.get k s.server)) [
      | inl h ↦ ground (arith, S.get-del k j s.server)
      | inr (v, h) ↦ ground (arith, S.get-del k j s.server)
    ]
    unregister_server (some i) j = elim (Option-cases (redis.get k s.server)) [
      | inl h ↦ ground (arith, S.get-del k j s.server)
      | inr (v, h) ↦ ground (arith, S.get-del k j s.server)
    ]

    pub unregister_drawn :
        (t : Option Token) → (unregister redis {U = U} uuid4 k t s).0.drawn ≡ s.drawn
    unfolding unregister
    unregister_drawn none = refl
    unregister_drawn (some i) = refl

    pub cancel_server :
        (j : ListenerKey)
        → owner (cancel redis {U = U} uuid4 k s).0 j
          ≡ ite (ListenerKey-discrete k j) none (owner s j)
    unfolding cancel lua_getdel
    cancel_server j = elim (Option-cases (redis.get k s.server)) [
      | inl h ↦ ground (arith, S.get-del k j s.server)
      | inr (v, h) ↦ ground (arith, S.get-del k j s.server)
    ]

    pub cancel_drawn : (cancel redis {U = U} uuid4 k s).0.drawn ≡ s.drawn
    unfolding cancel lua_getdel
    cancel_drawn = ground arith

    pub cancel_ok : (b : Bool) × ((cancel redis {U = U} uuid4 k s).1 ≡ ok b)
    unfolding cancel lua_getdel
    cancel_ok = elim (Option-cases (redis.get k s.server)) [
      | inl h ↦ (false, ground arith)
      | inr (v, h) ↦ (true, ground arith)
    ]

    pub unregister_ok :
        (t : Option Token) → (b : Bool) × ((unregister redis {U = U} uuid4 k t s).1 ≡ ok b)
    unfolding unregister
    unregister_ok none = (_, refl)
    unregister_ok (some i) = (_, refl)

    pub unregister_removed :
        (t : Option Token)
        → owned_by (owner s k) t ≡ true
        → (unregister redis {U = U} uuid4 k t s).1 ≡ ok true
    unfolding unregister lua_unregister
    unregister_removed none o = elim (Option-cases (redis.get k s.server)) [
      | inl h ↦ ground arith
      | inr (v, h) ↦ ground arith
    ]
    unregister_removed (some i) o = elim (Option-cases (redis.get k s.server)) [
      | inl h ↦ ground arith
      | inr (v, h) ↦ ground arith
    ]

    pub unregister_refused :
        (t : Option Token) (v : Token)
        → owner s k ≡ some v
        → owned_by (some v) t ≡ false
        → (unregister redis {U = U} uuid4 k t s).1 ≡ ok false
    unfolding unregister lua_unregister
    unregister_refused none v h o = ground arith
    unregister_refused (some i) v h o = ground arith

    unregister_absent :
        (i : Token) → owner s k ≡ none → (unregister redis {U = U} uuid4 k (some i) s).1 ≡ ok true
    unfolding unregister lua_unregister
    unregister_absent i h = ground arith

    pub cancel_removed :
        (v : Token)
        → owner s k ≡ some v
        → ((cancel redis {U = U} uuid4 k s).1 ≡ ok true)
          × ((cancel redis {U = U} uuid4 k s).0.published ≡ s.published ++ (k, v) ∷ [])
    unfolding cancel lua_getdel
    cancel_removed v h = ground arith

    cancel_absent :
        owner s k ≡ none
        → ((cancel redis {U = U} uuid4 k s).1 ≡ ok false)
          × ((cancel redis {U = U} uuid4 k s).0.published ≡ s.published)
    unfolding cancel lua_getdel
    cancel_absent h = ground arith

    register_remembers :
        owner s k ≡ none
        → lookup k (register redis {U = U} uuid4 k s).0.owned_registrations ≡ some (uuid4 s.drawn)
    unfolding register set_nx
    register_remembers h = ground (arith, lookup-insert k k (uuid4 s.drawn) s.owned_registrations)

    pub register_server :
        (j : ListenerKey)
        → owner (register redis {U = U} uuid4 k s).0 j ≡ (
            if is_some (owner s k)
            then owner s j
            else ite (ListenerKey-discrete k j) (some (uuid4 s.drawn)) (owner s j))
    unfolding register set_nx
    register_server j = elim (Option-cases (redis.get k s.server)) [
      | inl h ↦ ground (arith, S.get-set k j (uuid4 s.drawn) s.server)
      | inr (v, h) ↦ ground (arith, S.get-set k j (uuid4 s.drawn) s.server)
    ]

  -- A token stays issued as long as draws are not taken back.
  pub Issued-later :
      (s s' : RedisState R Token) (i : Token)
      → ((n : ℕ) → n < s.drawn → n < s'.drawn)
      → Issued s i
      → Issued s' i
  Issued-later s s' i le (n, lt, e) = (n, le n lt, e)

  pub not_drawn : (s : RedisState R Token) → ¬ Issued s (uuid4 s.drawn)
  not_drawn s (n, lt, e) = let same = fresh n s.drawn e in omega arith

  stored :
      (s : RedisState R Token) (k j : ListenerKey) (i : Token)
      → owner (register redis {U = U} uuid4 k s).0 j ≡ some i
      → (owner s j ≡ some i) ⊎ (uuid4 s.drawn ≡ i)
  stored s k j i h = ground (arith, register_server s k j)

  pub drawn_later :
      (s : RedisState R Token) (k : ListenerKey) (n : ℕ)
      → n < s.drawn
      → n < (register redis {U = U} uuid4 k s).0.drawn
  drawn_later s k n lt = omega (arith, drawn_lem s k)

  pub register-IsValid :
      (s : RedisState R Token) (k : ListenerKey)
      → IsValid s
      → IsValid (register redis {U = U} uuid4 k s).0
  register-IsValid s k v j i h = elim (stored s k j i h) [
    | inl old ↦ Issued-later s (register redis {U = U} uuid4 k s).0 i (drawn_later s k) (v j i old)
    | inr new ↦ (s.drawn, omega (arith, drawn_lem s k), new)
  ]

  -- Taking registrations away keeps the tokens that are stored issued.
  pub fewer-IsValid :
      (s s' : RedisState R Token)
      → s'.drawn ≡ s.drawn
      → ((j : ListenerKey) (i : Token) → owner s' j ≡ some i → owner s j ≡ some i)
      → IsValid s
      → IsValid s'
  fewer-IsValid s s' same less v j i h =
      Issued-later s s' i (λ n lt. omega arith) (v j i (less j i h))

  pub unregister_less :
      (s : RedisState R Token) (k : ListenerKey) (t : Option Token) (j : ListenerKey) (i : Token)
      → owner (unregister redis {U = U} uuid4 k t s).0 j ≡ some i
      → owner s j ≡ some i
  unregister_less s k t j i h = ground (arith, unregister_server s k t j)

  pub cancel_less :
      (s : RedisState R Token) (k j : ListenerKey) (i : Token)
      → owner (cancel redis {U = U} uuid4 k s).0 j ≡ some i
      → owner s j ≡ some i
  cancel_less s k j i h = ground (arith, cancel_server s k j)

  pub register_free :
      (s : RedisState R Token) (k : ListenerKey)
      → owner s k ≡ none
      → (i : Token) × ((register redis {U = U} uuid4 k s).1 ≡ ok i)
        × (¬ Issued s i)
        × Issued (register redis {U = U} uuid4 k s).0 i
        × ((j : ListenerKey)
            → owner (register redis {U = U} uuid4 k s).0 j
              ≡ ite (ListenerKey-discrete k j) (some i) (owner s j))
  register_free s k h = (
    uuid4 s.drawn,
    (free_lem s k h).0,
    not_drawn s,
    (s.drawn, omega (arith, drawn_lem s k), refl),
    λ j. ground (arith, register_server s k j),
  )

  -- The contract, for the coordinator on Redis.
  unfoldable pub redis_contract :
      IsRegistry U (RedisState R Token) Token (redis_coordinator redis uuid4)
  unfolding redis_coordinator registered
  redis_contract = record {
    owner = owner;
    IsValid = IsValid;
    Issued = Issued;
    owner-Issued = λ s k i v. v k i;
    registered_lem = λ s k t. refl;
    register_taken = register_taken;
    register_free = register_free;
    register_kept = λ s k. (
      register-IsValid s k,
      λ i. Issued-later s (register redis {U = U} uuid4 k s).0 i (drawn_later s k),
    );
    unregister_ok = unregister_ok;
    unregister_removed = unregister_removed;
    unregister_refused = unregister_refused;
    unregister_owner = unregister_server;
    unregister_kept = λ s k t. (
      fewer-IsValid s (unregister redis {U = U} uuid4 k t s).0 (unregister_drawn s k t)
          (unregister_less s k t),
      λ i.
          Issued-later s (unregister redis {U = U} uuid4 k t s).0 i
            (λ n lt. rw (unregister_drawn s k t) lt),
    );
    cancel_ok = cancel_ok;
    cancel_removed = λ s k v h. (cancel_removed s k v h).0;
    cancel_owner = cancel_server;
    cancel_kept = λ s k. (
      fewer-IsValid s (cancel redis {U = U} uuid4 k s).0 (cancel_drawn s k) (cancel_less s k),
      λ i. Issued-later s (cancel redis {U = U} uuid4 k s).0 i (λ n lt. rw (cancel_drawn s k) lt),
    );
  }

  -- The coordinator on Redis keeps the contract of listener registries, over any server whose `GET`
  -- sees what was set and deleted, if no two draws of `uuid4` are equal: the owner of a key is the
  -- token that the server stores for it, and the issued tokens are those that were drawn. Beside
  -- the contract: a registration that succeeds is among those that the session gives up when it
  -- stops; `cancel` publishes the key with the token that owned it, and nothing when there is none;
  -- and `unregister` with a token returns `True` for a key without an owner, although nothing is
  -- removed.
  pub redis-IsRegistry :
      (C : IsRegistry U (RedisState R Token) Token (redis_coordinator redis uuid4))
      × ((s : RedisState R Token) (k : ListenerKey) → C.owner s k ≡ redis.get k s.server)
      × ((s : RedisState R Token) (n : ℕ) → n < s.drawn → C.Issued s (uuid4 n))
      × ((s : RedisState R Token) (k : ListenerKey)
          → redis.get k s.server ≡ none
          → lookup k (register redis {U = U} uuid4 k s).0.owned_registrations
            ≡ some (uuid4 s.drawn))
      × ((s : RedisState R Token) (k : ListenerKey) (v : Token)
          → redis.get k s.server ≡ some v
          → (cancel redis {U = U} uuid4 k s).0.published ≡ s.published ++ (k, v) ∷ [])
      × ((s : RedisState R Token) (k : ListenerKey)
          → redis.get k s.server ≡ none
          → ((cancel redis {U = U} uuid4 k s).1 ≡ ok false)
            × ((cancel redis {U = U} uuid4 k s).0.published ≡ s.published))
      × ((s : RedisState R Token) (k : ListenerKey) (i : Token)
          → redis.get k s.server ≡ none
          → (unregister redis {U = U} uuid4 k (some i) s).1 ≡ ok true)
  unfolding redis_contract
  redis-IsRegistry = (
    redis_contract,
    λ s k. refl,
    λ s n lt. (n, lt, refl),
    register_remembers,
    λ s k v h. (cancel_removed s k v h).1,
    cancel_absent,
    unregister_absent,
  )
