-- ===== src/UpdateListener/Resolve/Order.antt =====
-- The loop of `resolve` over the candidate keys: which listener gets the update, and who does not.
use pyroflow.Prelude.{
  Among, ℕ, ◌≡◌, refl, sym, ap, ◌∙◌, ◌≢◌, ◌⊎◌, inl, inr, Bool, true, false, Option, some, List, [],
  ◌∷◌, arith, DecEq, lookup, lookup-delete, Outcome, ok, raise, Option-cases, Bool-cases,
}
use pyroflow.Models.{ListenerKey, listener_key_eq}
use pyroflow.Errors.{Exc}
use pyroflow.ListenerCoordinator.{ListenerCoordinator, IsRegistry}
use pyroflow.Session.{result, ListenerModel, Session, done, settled}
use pyroflow.UpdateListener.{Hooks, is_bypass, deliver, try_keys}
use pyroflow.UpdateListener.Cancel.{withdrawn}
use pyroflow.UpdateListener.Resolve.{
  owns, try_absent, try_owned, try_superseded, try_superseded_done, deliver_lem, deliver-done,
  deliver_bypass_raises, deliver_error,
}

module _ {U C Token : Type 0} ⦃d : DecEq Token⦄ (c : ListenerCoordinator U C Token)
    (R : IsRegistry U C Token c) (h : Hooks U) (u : U) where
  open R use {owner}

  -- The listener that got the update: it was registered under a candidate key, the registry named
  -- its token as the owner, and its pending future now holds the update.
  abbrev pub Delivered : List ListenerKey → Session U C Token → Session U C Token → Type 0
  Delivered subs s s' =
      (sub : ListenerKey) × (l : ListenerModel Token) × Among sub subs
      × (lookup sub s.listeners ≡ some l)
      × (owns c R s sub l ≡ true)
      × (done s l.future ≡ false)
      × ((s'.futures l.future).state ≡ result u)

  -- Discarding a superseded listener leaves every other listener, and no future pending that was not.
  withdrawn_back :
      (j : ListenerKey) (t : Option Token) (s : Session U C Token) (l : ListenerModel Token)
      (sub : ListenerKey) (l' : ListenerModel Token)
      → lookup sub (withdrawn c R j false false t s l).listeners ≡ some l'
      → lookup sub s.listeners ≡ some l'
  unfolding settled
  withdrawn_back j t s l sub l' e = ground (arith, lookup-delete j sub s.listeners)

  withdrawn_pending :
      (j : ListenerKey) (t : Option Token) (s : Session U C Token) (l : ListenerModel Token) (f : ℕ)
      → done (withdrawn c R j false false t s l) f ≡ false
      → done s f ≡ false
  unfolding settled
  withdrawn_pending j t s l f e = ground arith

  settled_result :
      (s : Session U C Token) (f : ℕ) → ((settled f (result u) s).futures f).state ≡ result u
  unfolding settled
  settled_result s f = ground arith

  Outcome-cases :
      (r : Outcome (Exc U) Bool) → (r ≡ ok true) ⊎ (r ≡ ok false) ⊎ ((e : Exc U) × (r ≡ raise e))
  Outcome-cases (ok true) = inl refl
  Outcome-cases (ok false) = inr (inl refl)
  Outcome-cases (raise e) = inr (inr (e, refl))

  delivers_here :
      (j : ListenerKey) (subs : List ListenerKey) (l : ListenerModel Token) (s : Session U C Token)
      → lookup j s.listeners ≡ some l
      → owns c R s j l ≡ true
      → (deliver c h u j l s).1 ≡ ok true
      → Delivered (j ∷ subs) s (deliver c h u j l s).0
  delivers_here j subs l s e o r = elim (Outcome-cases (is_bypass h u)) [
    | inl b ↦ absurd (deliver_bypass_raises c R h u j s l b r)
    | inr (inl b) ↦ elim (Bool-cases (done s l.future)) [
      | inl p ↦ cc (r, ap (λ x. x.1) (deliver-done c R h u j s l b p))
      | inr p ↦
          (j, l, inl refl, e, o, p, rw (deliver_lem c R h u j s l b p) (settled_result s l.future))
    ]
    | inr (inr (x, b)) ↦ cc (r, ap (λ x. x.1) (deliver_error c R h u j s l x b))
  ]

  delivers_absent :
      (j : ListenerKey) (subs : List ListenerKey) (s s' : Session U C Token)
      → Delivered subs s s'
      → Delivered (j ∷ subs) s s'
  delivers_absent j subs s s' (sub, l', among, e, o, p, r) = (sub, l', inr among, e, o, p, r)

  delivers_later :
      (j : ListenerKey) (subs : List ListenerKey) (t : Option Token) (l : ListenerModel Token)
      (s s' : Session U C Token)
      → Delivered subs (withdrawn c R j false false t s l) s'
      → Delivered (j ∷ subs) s s'
  unfolding settled
  delivers_later j subs t l s s' (sub, l', among, e, o, p, r) = (
    sub,
    l',
    inr among,
    withdrawn_back j t s l sub l' e,
    o,
    withdrawn_pending j t s l l'.future p,
    r,
  )

  try_none : (s : Session U C Token) → (try_keys c h u [] s).1 ≢ ok true
  unfolding try_keys
  try_none s r = cc

  -- Whenever the loop reports a delivery, it was to a listener whose ownership the registry
  -- confirmed: a superseded listener never gets an update.
  pub try_keys-Delivered :
      (subs : List ListenerKey) (s : Session U C Token)
      → (try_keys c h u subs s).1 ≡ ok true
      → Delivered subs s (try_keys c h u subs s).0
  try_keys-Delivered [] s r = absurd (try_none s r)
  try_keys-Delivered (j ∷ subs) s r = elim (Option-cases (lookup j s.listeners)) [
    | inl e ↦ rw (try_absent c R h u j s subs e) (
        delivers_absent j subs s (try_keys c h u subs s).0
          (try_keys-Delivered subs s (ap (λ x. x.1) (sym (try_absent c R h u j s subs e)) ∙ r)))
    | inr (l, e) ↦ elim (Bool-cases (owns c R s j l)) [
      | inl o ↦ rw (try_owned c R h u j s subs l e o) (
          delivers_here j subs l s e o (ap (λ x. x.1) (sym (try_owned c R h u j s subs l e o)) ∙ r))
      | inr o ↦ elim (Bool-cases (done s l.future)) [
        | inl p ↦ cc (r, try_superseded_done c R h u j s subs l e o p)
        | inr p ↦ rw (try_superseded c R h u j s subs l e o p) (
            delivers_later j subs l.coordinator_id l s
              (try_keys c h u subs (withdrawn c R j false false l.coordinator_id s l)).0
              (try_keys-Delivered subs (withdrawn c R j false false l.coordinator_id s l)
                (ap (λ x. x.1) (sym (try_superseded c R h u j s subs l e o p)) ∙ r)))
      ]
    ]
  ]
