-- ===== src/UpdateListener/Register.antt =====
-- The critical section of `listen`: what it does with a key that is taken and with one that is free.
use pyroflow.Prelude.{
  ℕ, suc, ◌≡◌, refl, ap, inl, inr, Bool, true, false, Option, none, some, arith, DecEq, lookup,
  insert, Outcome, ok, and_then, ◌<◌, lookup-insert, Option-cases, Bool-cases,
}
use pyroflow.Models.{ListenerKey, listener_key_eq}
use pyroflow.Errors.{Exc, listener_cancelled}
use pyroflow.ListenerCoordinator.{ListenerCoordinator, IsRegistry, owned_by}
use pyroflow.Session.{
  Json, pending, exception, settled, ListenerModel, Session, done, update, create_future,
}
use pyroflow.UpdateListener.{
  DuplicatePolicy, reject, replace, cancel_locked, check_duplicate, install, listen_register,
}
use pyroflow.UpdateListener.Cancel.{
  cleared, withdrawn, cancel_absent, cancel_pending, cancel_done, cleared_owner,
}
use pyroflow.UpdateListener.Shrinks.{withdrawn_gone, Shrinks, Shrinks-refl, cancel_locked-Shrinks}

module _ {U C Token : Type 0} ⦃d : DecEq Token⦄ (c : ListenerCoordinator U C Token)
    (R : IsRegistry U C Token c) where
  open R use {owner, Issued}

  -- A session in which nothing stands in the way of registering the key.
  abbrev pub IsFree : ListenerKey → Session U C Token → Type 0
  IsFree k s = (lookup k s.listeners ≡ none) × (owner s.coordinator k ≡ none)

  pub owner_none : (o : Option Token) → owned_by o none ≡ false → o ≡ none
  owner_none none e = refl
  owner_none (some i) e = cc

  cancel_frees :
      (k : ListenerKey) (dup : Bool) (s : Session U C Token) {b : Bool}
      → (cancel_locked c k true dup none s).1 ≡ ok b
      → IsFree k (cancel_locked c k true dup none s).0
  cancel_frees k dup s r = elim (Option-cases (lookup k s.listeners)) [
    | inl e ↦
        rw (cancel_absent c R k true dup none s e) (e, ground (arith, cleared_owner c R k true s k))
    | inr (l, e) ↦ elim (Bool-cases (done s l.future)) [
      | inl p ↦ cc (r, ap (λ x. x.1) (cancel_done c R k true dup none s l e refl p))
      | inr p ↦ rw (cancel_pending c R k true dup none s l e refl p) (
        withdrawn_gone c R k true dup none s l,
        ground (arith, cleared_owner c R k true (withdrawn c R k true dup none s l) k),
      )
    ]
  ]

  module _ (k : ListenerKey) (s : Session U C Token) where
    pub check_duplicate-Shrinks :
        (policy : DuplicatePolicy) (b : Bool) → Shrinks c R s (check_duplicate c policy k b s).0
    unfolding check_duplicate
    check_duplicate-Shrinks reject true = Shrinks-refl c R s
    check_duplicate-Shrinks replace true = cancel_locked-Shrinks c R k true true none s
    check_duplicate-Shrinks policy false = ground (arith, Shrinks-refl c R s)

    -- Once the check has passed, the key is free.
    vacant :
        owner s.coordinator k ≡ none
        → (policy : DuplicatePolicy) {b : Bool} → (check_duplicate c policy k false s).1 ≡ ok b
        → IsFree k (check_duplicate c policy k false s).0
    unfolding check_duplicate
    vacant o policy r = ground arith

    freed_by :
        (policy : DuplicatePolicy) (taken : Bool) {b : Bool}
        → owned_by (owner s.coordinator k) none ≡ taken
        → (check_duplicate c policy k taken s).1 ≡ ok b
        → IsFree k (check_duplicate c policy k taken s).0
    unfolding check_duplicate
    freed_by reject true o r = cc
    freed_by replace true o r = cancel_frees k true s r
    freed_by policy false o r = vacant (owner_none (owner s.coordinator k) o) policy r

    pub check_duplicate_frees :
        (policy : DuplicatePolicy) {b : Bool}
        → (check_duplicate c policy k (owned_by (owner s.coordinator k) none) s).1 ≡ ok b
        → IsFree k (check_duplicate c policy k (owned_by (owner s.coordinator k) none) s).0
    check_duplicate_frees policy r = freed_by policy (owned_by (owner s.coordinator k) none) refl r

  -- The new entry.
  abbrev pub installed : ListenerKey → Option Json → Session U C Token → Token → Session U C Token
  installed k meta s i = record s {
    coordinator = (c.register k s.coordinator).0;
    listeners =
        insert k (record { key = k; meta = meta; future = s.next_future; coordinator_id = some i })
          s.listeners;
    futures = update s.futures s.next_future (record { state = pending; callback_key = k });
    next_future = suc s.next_future;
  }

  pub install_lem :
      (k : ListenerKey) (meta : Option Json) (s : Session U C Token) (i : Token)
      → (c.register k s.coordinator).1 ≡ ok i
      → install c k meta s ≡ (installed k meta s i, ok (s.next_future, i))
  unfolding install create_future
  install_lem k meta s i e = rw (e, install)

  module _ (k : ListenerKey) (meta : Option Json) (s : Session U C Token) where
    -- The session once the check has passed, and what the check returned.
    abbrev pub checked : DuplicatePolicy → Session U C Token × Outcome (Exc U) Bool
    checked policy = check_duplicate c policy k (owned_by (owner s.coordinator k) none) s

    pub register_lem :
        (policy : DuplicatePolicy)
        → listen_register c policy k meta s ≡ and_then (checked policy) (λ _. install c k meta)
    unfolding listen_register
    register_lem policy = rw (R.registered_lem s.coordinator k none, listen_register)

    replaced_lem :
        (o i : Token) (l : ListenerModel Token)
        → owner s.coordinator k ≡ some o
        → lookup k s.listeners ≡ some l
        → done s l.future ≡ false
        → (c.register k (c.cancel k s.coordinator).0).1 ≡ ok i
        → listen_register c replace k meta s ≡ (
          installed k meta (cleared c R k true (withdrawn c R k true true none s l)) i,
          ok (s.next_future, i),
        )
    unfolding check_duplicate settled
    replaced_lem o i l owned here p e =
        rw (register_lem replace, owned)
          (rw (cancel_pending c R k true true none s l here refl p)
            (install_lem k meta (cleared c R k true (withdrawn c R k true true none s l)) i e))

    -- The outcome of replacing the listener `l` by one under the token `i`.
    abbrev pub Replaced :
        ListenerModel Token → Token → Session U C Token × Outcome (Exc U) (ℕ × Token) → Type 0
    Replaced l i out =
        (out.1 ≡ ok (s.next_future, i))
        × (¬ Issued s.coordinator i)
        × (lookup k out.0.listeners
            ≡ some
                (record { key = k; meta = meta; future = s.next_future; coordinator_id = some i }))
        × (owner out.0.coordinator k ≡ some i)
        × ((out.0.futures l.future).state ≡ exception (listener_cancelled k true))
        × ((out.0.futures s.next_future).state ≡ pending)

    -- `DuplicatePolicy.REPLACE`: let a key be registered and have a listener here whose future is
    -- pending. Then `listen` succeeds with a new future and a token that was never issued: the old
    -- future, if it is older than the new one, fails with `ListenerCancelled` marked as a
    -- duplicate, the new one is pending, the key's listener is the new one, and the registry names
    -- the new token as the key's owner.
    pub listen_replaces :
        (o : Token) (l : ListenerModel Token)
        → owner s.coordinator k ≡ some o
        → lookup k s.listeners ≡ some l
        → done s l.future ≡ false
        → l.future < s.next_future
        → (i : Token) × Replaced l i (listen_register c replace k meta s)
    unfolding settled
    listen_replaces o l owned here p older =
        let freed : owner (c.cancel k s.coordinator).0 k ≡ none =
          ground (arith, R.cancel_owner s.coordinator k k) in
        let (i, e, new, issued, owners) = R.register_free (c.cancel k s.coordinator).0 k freed in
        (
          i,
          rw (replaced_lem o i l owned here p e) (
            refl,
            λ old. new ((R.cancel_kept s.coordinator k).1 i old),
            rw lookup-insert (ground arith),
            ground (arith, owners k),
            ground arith,
            ground arith,
          ),
        )
