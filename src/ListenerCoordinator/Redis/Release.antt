-- ===== src/ListenerCoordinator/Redis/Release.antt =====
-- What a session gives up when its Redis coordinator stops.
use pyroflow.Prelude.{
  Among, ℕ, suc, ◌≡◌, refl, sym, ap, ◌∙◌, ◌⊎◌, inl, inr, true, Option, none, some, List, [], ◌∷◌,
  arith, DecEq, subst, Bool-cases, Option-cases,
}
use pyroflow.Models.{ListenerKey, ListenerKey-discrete}
use pyroflow.ListenerCoordinator.{owned_by}
use pyroflow.ListenerCoordinator.Redis.{Redis, RedisState, lua_bulk_unregister, stop}
use pyroflow.ListenerCoordinator.Redis.Contract.{IsRedis}

module _ {R Token : Type 0} ⦃d : DecEq Token⦄ (redis : Redis R Token) (S : IsRedis R Token redis)
    (j : ListenerKey) where
  bulk_none :
      (es : List (ListenerKey × Token)) (n : ℕ) (r : R)
      → redis.get j r ≡ none
      → redis.get j (lua_bulk_unregister redis es n r).0 ≡ none
  unfolding lua_bulk_unregister
  bulk_none [] n r h = h
  bulk_none ((k, t) ∷ es) n r h = elim (Bool-cases (owned_by (redis.get k r) (some t))) [
    | inl o ↦
        rw (o, lua_bulk_unregister)
          (bulk_none es (suc n) (redis.del k r) (ground (arith, S.get-del k j r)))
    | inr o ↦ rw (o, lua_bulk_unregister) (bulk_none es n r h)
  ]

  -- A stored token is given up, or stays.
  abbrev Decided : ListenerKey × Token → List (ListenerKey × Token) → Option Token → Type 0
  Decided x es after = ((after ≡ none) × Among x es) ⊎ ((after ≡ some (x.1)) × (¬ Among x es))

  Decided-later :
      (x y : ListenerKey × Token) (es : List (ListenerKey × Token)) (after : Option Token)
      → ¬ (x ≡ y)
      → Decided x es after
      → Decided x (y ∷ es) after
  Decided-later x y es after other (inl (e, a)) = inl (e, inr a)
  Decided-later x y es after other (inr (e, never)) =
      inr (e, elim [ inl same ↦ other same | inr a ↦ never a ])

  owned_same : (i t : Token) → owned_by (some i) (some t) ≡ true → i ≡ t
  owned_same i t o = elim (d.dec i t) [ yes e ↦ e | no apart ↦ ground arith ]

  owned_self :
      (i : Token) (x : ListenerKey × Token) (r : R)
      → redis.get j r ≡ some i
      → ◌≡◌ {A = ListenerKey × Token} (j, i) x
      → owned_by (redis.get x.0 r) (some x.1) ≡ true
  owned_self i x r h e =
      subst (λ y. owned_by (redis.get y.0 r) (some y.1) ≡ true) e (rw (h) (ground arith))

  same_entry :
      (i : Token) (k : ListenerKey) (t : Token) (r : R)
      → redis.get j r ≡ some i
      → owned_by (redis.get k r) (some t) ≡ true
      → k ≡ j
      → ◌≡◌ {A = ListenerKey × Token} (j, i) (k, t)
  same_entry i k t r h o same = λ n. (
    sym same n,
    owned_same i t (sym (ap (λ x. owned_by x (some t)) (ap (λ y. redis.get y r) same ∙ h)) ∙ o) n,
  )

  bulk_decides :
      (i : Token) (es : List (ListenerKey × Token)) (n : ℕ) (r : R)
      → redis.get j r ≡ some i
      → Decided (j, i) es (redis.get j (lua_bulk_unregister redis es n r).0)
  unfolding lua_bulk_unregister
  bulk_decides i [] n r h = inr (h, λ a. a)
  bulk_decides i ((k, t) ∷ es) n r h = elim (Bool-cases (owned_by (redis.get k r) (some t))) [
    | inl o ↦
        rw (o, lua_bulk_unregister)
          (elim (ListenerKey-discrete k j) [
            | yes same ↦ inl (
              bulk_none es (suc n) (redis.del k r) (ground (arith, S.get-del k j r)),
              inl (same_entry i k t r h o same),
            )
            | no apart ↦
                Decided-later (j, i) (k, t) es _ (λ e. apart (sym (ap (λ x. x.0) e)))
                  (bulk_decides i es (suc n) (redis.del k r) (ground (arith, S.get-del k j r)))
          ])
    | inr o ↦
        rw (o, lua_bulk_unregister)
          (Decided-later (j, i) (k, t) es _ (λ e. ground (arith, owned_self i (k, t) r h e))
            (bulk_decides i es n r h))
  ]

  -- Giving up registrations leaves a key's owner, or takes it away.
  pub bulk_keeps :
      (es : List (ListenerKey × Token)) (n : ℕ) (r : R)
      → (redis.get j (lua_bulk_unregister redis es n r).0 ≡ redis.get j r)
        ⊎ (redis.get j (lua_bulk_unregister redis es n r).0 ≡ none)
  bulk_keeps es n r = elim (Option-cases (redis.get j r)) [
    | inl h ↦ inr (bulk_none es n r h)
    | inr (i, h) ↦ elim (bulk_decides i es n r h) [
      | inl (gone, _) ↦ inr gone
      | inr (kept, _) ↦ inl (kept ∙ sym h)
    ]
  ]

  -- A session that stops its Redis coordinator owns nothing afterwards. A key that is registered in
  -- the server at that time is free afterwards if its token is the one that the session keeps for
  -- this key; else it stays registered with its token, for the session that registered it since.
  pub stop_releases :
      (U : Type 0) (uuid4 : ℕ → Token) (s : RedisState R Token) (i : Token)
      → redis.get j s.server ≡ some i
      → ((stop redis {U = U} uuid4 s).0.owned_registrations ≡ [])
        × (((redis.get j (stop redis {U = U} uuid4 s).0.server ≡ none)
              × Among (j, i) s.owned_registrations)
            ⊎ ((redis.get j (stop redis {U = U} uuid4 s).0.server ≡ some i)
                × (¬ Among (j, i) s.owned_registrations)))
  unfolding stop
  stop_releases U uuid4 s i h = (refl, bulk_decides i s.owned_registrations 0 s.server h)
