-- ===== src/UpdateListener/Shrinks.antt =====
-- Calls that only take listeners away: cancellations, resolutions and cleanups. What stays keeps
-- its registration.
use pyroflow.Prelude.{
  ℕ, ◌≡◌, refl, ◌∙◌, inl, inr, if_pos, if_neg, ℕ_discrete, Bool, true, false, Option, none, some,
  List, [], ◌∷◌, arith, DecEq, lookup, lookup-delete, delete, Outcome, ok, raise, Option-cases,
  Bool-cases, and_then, return, M, ◌>>=◌, ◌>>◌,
}
use pyroflow.Models.{ListenerKey, listener_key_eq, sub_keys}
use pyroflow.Errors.{Exc}
use pyroflow.ListenerCoordinator.{ListenerCoordinator, IsRegistry}
use pyroflow.Session.{FutureState, result, ListenerModel, Session, done, settled, finish}
use pyroflow.UpdateListener.{
  Hooks, is_listenable, extract_key, is_bypass, is_stale, cancel_locked, cleanup_listen,
  on_unresolved, deliver, try_keys, resolve, has_listeners,
}
use pyroflow.UpdateListener.Cancel.{
  cleared, withdrawn, cancel_absent, cancel_stale, cancel_pending, cancel_done,
}

module _ {U C Token : Type 0} ⦃d : DecEq Token⦄ (c : ListenerCoordinator U C Token)
    (R : IsRegistry U C Token c) where
  open R use {owner, IsValid, Issued}

  pub record Shrinks (s s' : Session U C Token) : Type 0 where
    pub listeners_kept :
        (j : ListenerKey) (l : ListenerModel Token)
        → lookup j s'.listeners ≡ some l
        → (lookup j s.listeners ≡ some l) × (owner s'.coordinator j ≡ owner s.coordinator j)
    pub same_futures : s'.next_future ≡ s.next_future
    pub valid_kept : IsValid s.coordinator → IsValid s'.coordinator
    pub issued_kept : (i : Token) → Issued s.coordinator i → Issued s'.coordinator i

  pub Shrinks-refl : (s : Session U C Token) → Shrinks s s
  Shrinks-refl s = record {
    listeners_kept = λ j l e. (e, refl);
    same_futures = refl;
    valid_kept = λ v. v;
    issued_kept = λ i v. v;
  }

  pub Shrinks-trans : {s t r : Session U C Token} → Shrinks s t → Shrinks t r → Shrinks s r
  Shrinks-trans a b = record {
    listeners_kept = λ j l e.
        let (f, g) = b.listeners_kept j l e in
        let (f', g') = a.listeners_kept j l f in (f', g ∙ g');
    same_futures = b.same_futures ∙ a.same_futures;
    valid_kept = λ v. b.valid_kept (a.valid_kept v);
    issued_kept = λ i v. b.issued_kept i (a.issued_kept i v);
  }

  -- A future may be settled in passing.
  pub settled-Shrinks :
      (f : ℕ) (st : FutureState U) (s : Session U C Token) → Shrinks s (settled f st s)
  unfolding settled
  settled-Shrinks f st s = record {
    listeners_kept = λ j l e. (e, refl);
    same_futures = refl;
    valid_kept = λ v. v;
    issued_kept = λ i v. v;
  }

  delete-Shrinks :
      (k : ListenerKey) (s : Session U C Token)
      → Shrinks s (record s { listeners = delete k s.listeners })
  delete-Shrinks k s = record {
    listeners_kept = λ j l e. (ground (arith, lookup-delete k j s.listeners), refl);
    same_futures = refl;
    valid_kept = λ v. v;
    issued_kept = λ i v. v;
  }

  -- Clearing the registration of a key that has no listener any more.
  cleared-Shrinks :
      (k : ListenerKey) (cc : Bool) (s : Session U C Token)
      → lookup k s.listeners ≡ none
      → Shrinks s (cleared c R k cc s)
  cleared-Shrinks k true s e = record {
    listeners_kept = λ j l e'. (e', ground (arith, R.cancel_owner s.coordinator k j));
    same_futures = refl;
    valid_kept = (R.cancel_kept s.coordinator k).0;
    issued_kept = (R.cancel_kept s.coordinator k).1;
  }
  cleared-Shrinks k false s e = Shrinks-refl s

  pub withdrawn_gone :
      (k : ListenerKey) (cc dup : Bool) (t : Option Token) (s : Session U C Token)
      (l : ListenerModel Token)
      → lookup k (withdrawn c R k cc dup t s l).listeners ≡ none
  unfolding settled
  withdrawn_gone k cc dup t s l = ground (arith, lookup-delete k k s.listeners)

  module _ (k : ListenerKey) (cc dup : Bool) (t : Option Token) (s : Session U C Token) where
    pub cancel_locked-Shrinks : Shrinks s (cancel_locked c k cc dup t s).0
    cancel_locked-Shrinks = elim (Option-cases (lookup k s.listeners)) [
      | inl e ↦ rw (cancel_absent c R k cc dup t s e) (cleared-Shrinks k cc s e)
      | inr (l, e) ↦ elim (Bool-cases (is_stale c t l.coordinator_id)) [
        | inl st ↦ rw (cancel_stale c R k cc dup t s l e st) (Shrinks-refl s)
        | inr st ↦ elim (Bool-cases (done s l.future)) [
          | inl p ↦ rw (cancel_done c R k cc dup t s l e st p) (delete-Shrinks k s)
          | inr p ↦ rw (cancel_pending c R k cc dup t s l e st p) (
              Shrinks-trans (Shrinks-trans (delete-Shrinks k s) (settled-Shrinks l.future _ _)) (
                cleared-Shrinks k cc (withdrawn c R k cc dup t s l)
                  (withdrawn_gone k cc dup t s l)))
        ]
      ]
    ]

  pub cleanup_listen-Shrinks :
      (k : ListenerKey) (f : ℕ) (s : Session U C Token) → Shrinks s (cleanup_listen c k f s)
  unfolding cleanup_listen
  cleanup_listen-Shrinks k f s = elim (Option-cases (lookup k s.listeners)) [
    | inl e ↦ rw (e, cleanup_listen) (Shrinks-refl s)
    | inr (l, e) ↦ elim (ℕ_discrete l.future f) [
      | yes p ↦ rw (e, cleanup_listen) (rw (if_pos _ p) (delete-Shrinks k s))
      | no p ↦ rw (e, cleanup_listen) (rw (if_neg _ p) (Shrinks-refl s))
    ]
  ]

  finish-Shrinks :
      (f : ℕ) (st : FutureState U) (s : Session U C Token) → Shrinks s (finish f st s).0
  unfolding finish
  finish-Shrinks f st s = elim (Bool-cases (done s f)) [
    | inl p ↦ rw (p, finish) (Shrinks-refl s)
    | inr p ↦ rw (p, finish) (settled-Shrinks f st s)
  ]

  -- Running two parts one after the other, whatever they return.
  bind-Shrinks :
      {A B : Type 0} (s : Session U C Token) (out : Session U C Token × Outcome (Exc U) A)
      (m : A → Session U C Token → Session U C Token × Outcome (Exc U) B)
      → Shrinks s out.0
      → ((a : A) (t : Session U C Token) → Shrinks t (m a t).0)
      → Shrinks s (and_then out m).0
  bind-Shrinks s (t, ok a) m first second = Shrinks-trans first (second a t)
  bind-Shrinks s (t, raise e) m first second = first

  module _ (h : Hooks U) (u : U) where
    deliver-Shrinks :
        (j : ListenerKey) (l : ListenerModel Token) (s : Session U C Token)
        → Shrinks s (deliver c h u j l s).0
    unfolding deliver
    deliver-Shrinks j l s =
        bind-Shrinks s (s, is_bypass h u) _ (Shrinks-refl s)
          (elim [
            | true ↦ λ t.
                bind-Shrinks t (cancel_locked c j true false l.coordinator_id t) _
                  (cancel_locked-Shrinks j true false l.coordinator_id t) (λ a r. Shrinks-refl r)
            | false ↦ λ t.
                bind-Shrinks t (finish l.future (result u) t) _
                  (finish-Shrinks l.future (result u) t) (λ a r. Shrinks-refl r)
          ])

    -- One round of the loop, where the key has a listener.
    try_found-Shrinks :
        (j : ListenerKey) (subs : List ListenerKey) (s : Session U C Token)
        (l : ListenerModel Token)
        → lookup j s.listeners ≡ some l
        → ((t : Session U C Token) → Shrinks t (try_keys c h u subs t).0)
        → Shrinks s (try_keys c h u (j ∷ subs) s).0
    unfolding try_keys
    try_found-Shrinks j subs s l e rest =
        rw (e, try_keys) (rw (R.registered_lem s.coordinator j l.coordinator_id) (found _))
      where
        found :
            (b : Bool)
            → Shrinks s
                ((elim b as (λ x. M (Session U C Token) (Exc U) Bool) [
                  | true ↦ deliver c h u j l
                  | false ↦ do cancel_locked c j false false l.coordinator_id; try_keys c h u subs
                ])
                  s).0
        found true = deliver-Shrinks j l s
        found false =
            bind-Shrinks s (cancel_locked c j false false l.coordinator_id s) _
              (cancel_locked-Shrinks j false false l.coordinator_id s) (λ a t. rest t)

    try_keys-Shrinks :
        (subs : List ListenerKey) (s : Session U C Token) → Shrinks s (try_keys c h u subs s).0
    unfolding try_keys
    try_keys-Shrinks [] s = Shrinks-refl s
    try_keys-Shrinks (j ∷ subs) s = elim (Option-cases (lookup j s.listeners)) [
      | inl e ↦ rw (e, try_keys) (try_keys-Shrinks subs s)
      | inr (l, e) ↦ try_found-Shrinks j subs s l e (try_keys-Shrinks subs)
    ]

    pub resolve-Shrinks : (s : Session U C Token) → Shrinks s (resolve c h u s).0
    unfolding resolve on_unresolved
    resolve-Shrinks s =
        bind-Shrinks s (s, is_listenable h u) _ (Shrinks-refl s)
          (elim [
            | false ↦ Shrinks-refl
            | true ↦ λ t.
                bind-Shrinks t (t, extract_key h u) _ (Shrinks-refl t)
                  λ k r. active k (has_listeners r.listeners) r
          ])
      where
        active :
            (k : ListenerKey) (b : Bool) (r : Session U C Token)
            → Shrinks r
                ((elim b as (λ x. M (Session U C Token) (Exc U) (Unit {0})) [
                  | false ↦ return tt
                  | true ↦ do
                    found ← try_keys c h u (sub_keys 1 k)
                    elim found [ true ↦ return tt | false ↦ on_unresolved c k u ]
                ])
                  r).0
        active k false r = Shrinks-refl r
        active k true r =
            bind-Shrinks r (try_keys c h u (sub_keys 1 k) r) _ (try_keys-Shrinks (sub_keys 1 k) r)
              (elim [ true ↦ Shrinks-refl | false ↦ Shrinks-refl ])
