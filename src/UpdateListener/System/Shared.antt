-- ===== src/UpdateListener/System/Shared.antt =====
-- A session whose registry is shared through Redis: the stop of its coordinator takes no token back,
-- and what other sessions call is what `rival_acts` allows.
use pyroflow.Prelude.{
  ℕ, ◌≡◌, sym, refl, ◌∙◌, ◌⊎◌, none, Dict, Option-cases, inl, inr, arith, DecEq, Option,
}
use pyroflow.Models.{ListenerKey, ListenerKey-discrete}
use pyroflow.ListenerCoordinator.Redis.{
  Redis, RedisState, register, unregister, cancel, stop, redis_coordinator,
}
use pyroflow.ListenerCoordinator.Redis.Contract.{
  IsRedis, IsFresh, redis_contract, register_server, not_drawn, register-IsValid, Issued-later,
  drawn_later, fewer-IsValid, unregister_server, unregister_drawn, cancel_server, cancel_drawn,
}
use pyroflow.ListenerCoordinator.Redis.Release.{bulk_keeps}
use pyroflow.UpdateListener.System.{Foreign}
use pyroflow.UpdateListener.System.Steps.{StopsSafely}

module _ (U : Type 0) {R Token : Type 0} ⦃d : DecEq Token⦄ (redis : Redis R Token)
    (S : IsRedis R Token redis) (uuid4 : ℕ → Token) (fresh : IsFresh uuid4) where
  pub redis_stops :
      StopsSafely {U = U} (redis_coordinator redis uuid4) (redis_contract U redis S uuid4 fresh)
  unfolding redis_contract redis_coordinator stop
  redis_stops s = record {
    owners = λ k. elim (bulk_keeps redis S k s.owned_registrations 0 s.server) [
      | inl same ↦ inl same
      | inr gone ↦ inr (inl gone)
    ];
    valid_kept = λ v j i h. elim (bulk_keeps redis S j s.owned_registrations 0 s.server) [
      | inl same ↦ v j i (rw (sym same) h)
      | inr gone ↦ ground arith
    ];
    issued_kept = λ i h. h;
  }

  -- Another session's call, with the registrations that it keeps for itself.
  abbrev pub by_rival :
      Dict ListenerKey Token
      → (RedisState R Token → RedisState R Token)
      → RedisState R Token
      → RedisState R Token
  by_rival theirs call s =
      let s' = call (record s { owned_registrations = theirs }) in
      record s' { owned_registrations = s.owned_registrations }

  abbrev pub Allowed : (RedisState R Token → RedisState R Token) → Type 0
  Allowed call =
      (theirs : Dict ListenerKey Token) (s : RedisState R Token)
      → Foreign (redis_coordinator redis uuid4) (redis_contract U redis S uuid4 fresh) s
          (by_rival theirs call s)

  pub redis_registers : (k : ListenerKey) → Allowed (λ s. (register redis {U = U} uuid4 k s).0)
  unfolding redis_contract
  redis_registers k theirs s =
      let s0 = record s { owned_registrations = theirs } in
      record {
        owners = λ j. elim (Option-cases (redis.get k s.server)) [
          | inl free ↦ elim (ListenerKey-discrete k j) [
            | yes same ↦ inr (
                inr (
                  uuid4 s.drawn,
                  ground (arith, register_server U redis S uuid4 fresh s0 k j),
                  not_drawn U redis S uuid4 fresh s,
                ))
            | no apart ↦ inl (ground (arith, register_server U redis S uuid4 fresh s0 k j))
          ]
          | inr (v, e) ↦ inl (ground (arith, register_server U redis S uuid4 fresh s0 k j))
        ];
        valid_kept = register-IsValid U redis S uuid4 fresh s0 k;
        issued_kept = λ i.
            Issued-later U redis S uuid4 fresh s0 (register redis {U = U} uuid4 k s0).0 i
              (drawn_later U redis S uuid4 fresh s0 k);
      }

  -- A call that frees keys and draws no token.
  frees :
      (call : RedisState R Token → RedisState R Token)
      → ((s : RedisState R Token) (j : ListenerKey)
          → (redis.get j (call s).server ≡ redis.get j s.server)
            ⊎ (redis.get j (call s).server ≡ none))
      → ((s : RedisState R Token) → (call s).drawn ≡ s.drawn)
      → Allowed call
  unfolding redis_contract
  frees call fewer same theirs s =
      let s0 = record s { owned_registrations = theirs } in
      record {
        owners = λ j. elim (fewer s0 j) [ inl e ↦ inl e | inr e ↦ inr (inl e) ];
        valid_kept =
            fewer-IsValid U redis S uuid4 fresh s0 (by_rival theirs call s) (same s0)
              (λ j i h. elim (fewer s0 j) [ inl e ↦ sym e ∙ h | inr e ↦ ground arith ]);
        issued_kept =
            λ i. Issued-later U redis S uuid4 fresh s0 (call s0) i (λ n lt. rw (same s0) lt);
      }

  pub redis_unregisters :
      (k : ListenerKey) (t : Option Token) → Allowed (λ s. (unregister redis {U = U} uuid4 k t s).0)
  redis_unregisters k t =
      frees (λ s. (unregister redis {U = U} uuid4 k t s).0)
        (λ s j. ground (arith, unregister_server U redis S uuid4 fresh s k t j))
        (λ s. unregister_drawn U redis S uuid4 fresh s k t)

  pub redis_cancels : (k : ListenerKey) → Allowed (λ s. (cancel redis {U = U} uuid4 k s).0)
  redis_cancels k =
      frees (λ s. (cancel redis {U = U} uuid4 k s).0)
        (λ s j. ground (arith, cancel_server U redis S uuid4 fresh s k j))
        (λ s. cancel_drawn U redis S uuid4 fresh s k)

  pub redis_stops_elsewhere : Allowed (λ s. (stop redis {U = U} uuid4 s).0)
  unfolding stop
  redis_stops_elsewhere =
      frees (λ s. (stop redis {U = U} uuid4 s).0)
        (λ s j. bulk_keeps redis S j s.owned_registrations 0 s.server) (λ s. refl)
