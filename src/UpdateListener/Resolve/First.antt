-- ===== src/UpdateListener/Resolve/First.antt =====
-- `resolve` reaches the most specific listener that still owns its key.
use pyroflow.Prelude.{
  ℕ, ◌≡◌, refl, ◌≢◌, ◌⊎◌, inl, inr, ite, Bool, true, false, none, some, List, [], ◌∷◌, ◌++◌, arith,
  DecEq, lookup, lookup-delete, Outcome, ok, All,
}
use pyroflow.Models.{ListenerKey, ListenerKey-discrete, listener_key_eq}
use pyroflow.Errors.{Exc}
use pyroflow.ListenerCoordinator.{ListenerCoordinator, IsRegistry}
use pyroflow.Session.{result, ListenerModel, Session, done, settled}
use pyroflow.UpdateListener.{Hooks, is_bypass, try_keys}
use pyroflow.UpdateListener.Cancel.{withdrawn}
use pyroflow.UpdateListener.Resolve.{owns, try_absent, try_owned, try_superseded, deliver_lem}

module _ {U C Token : Type 0} ⦃d : DecEq Token⦄ (c : ListenerCoordinator U C Token)
    (R : IsRegistry U C Token c) where
  -- A candidate that the loop passes over: no listener, or one whose registration was taken over.
  abbrev pub Skipped : Session U C Token → ListenerKey → Type 0
  Skipped s j =
      (lookup j s.listeners ≡ none)
      ⊎ ((l : ListenerModel Token) × (lookup j s.listeners ≡ some l)
          × (owns c R s j l ≡ false)
          × (done s l.future ≡ false))

  -- No future is waited for under two keys.
  abbrev pub Distinct : Session U C Token → Type 0
  Distinct s =
      (j k : ListenerKey) (l m : ListenerModel Token)
      → lookup j s.listeners ≡ some l
      → lookup k s.listeners ≡ some m
      → l.future ≡ m.future
      → j ≡ k

  module _ (j : ListenerKey) (s : Session U C Token) (l : ListenerModel Token)
      (here : lookup j s.listeners ≡ some l) (distinct : Distinct s) where
    next : Session U C Token
    next = withdrawn c R j false false l.coordinator_id s l

    lookup-next :
        (k : ListenerKey)
        → lookup k next.listeners ≡ ite (ListenerKey-discrete j k) none (lookup k s.listeners)
    unfolding next settled
    lookup-next k = lookup-delete j k s.listeners

    owns-next : (k : ListenerKey) (m : ListenerModel Token) → owns c R next k m ≡ owns c R s k m
    unfolding next settled
    owns-next k m = refl

    done-next :
        (k : ListenerKey) (m : ListenerModel Token)
        → j ≢ k
        → lookup k s.listeners ≡ some m
        → done next m.future ≡ done s m.future
    unfolding next settled
    done-next k m other e = ground (arith, distinct j k l m)

    -- A superseded listener and one that owns its key stand under different keys.
    apart :
        (k : ListenerKey) (m : ListenerModel Token)
        → owns c R s j l ≡ false
        → lookup k s.listeners ≡ some m
        → owns c R s k m ≡ true
        → j ≢ k
    apart k m lost e o same = ground arith

    kept-next :
        (k : ListenerKey) (m : ListenerModel Token)
        → j ≢ k
        → lookup k s.listeners ≡ some m
        → lookup k next.listeners ≡ some m
    kept-next k m other e = ground (arith, lookup-next k)

    Distinct-next : Distinct next
    Distinct-next k k' m m' e e' = ground (arith, distinct k k' m m', lookup-next k, lookup-next k')

    Skipped-next : (k : ListenerKey) → Skipped s k → Skipped next k
    Skipped-next k (inl e) = inl (ground (arith, lookup-next k))
    Skipped-next k (inr (m, e, o, p)) = elim (ListenerKey-discrete j k) [
      | yes same ↦ inl (ground (arith, lookup-next k))
      | no other ↦
          inr (m, ground (arith, lookup-next k), rw (owns-next k m) o, rw (done-next k m other e) p)
    ]

    All-Skipped-next : (ks : List ListenerKey) → All (Skipped s) ks → All (Skipped next) ks
    All-Skipped-next [] a = tt
    All-Skipped-next (k ∷ ks) a = (Skipped-next k a.0, All-Skipped-next ks a.1)

  module _ (h : Hooks U) (u : U) (sub : ListenerKey) (post : List ListenerKey)
      (l : ListenerModel Token) (keep : is_bypass h u ≡ ok false) where
    -- The update reached the listener's future, and no other future got it.
    abbrev pub Reaches : Session U C Token → Session U C Token × Outcome (Exc U) Bool → Type 0
    Reaches s out =
        (out.1 ≡ ok true)
        × ((out.0.futures l.future).state ≡ result u)
        × ((g : ℕ)
            → g ≢ l.future
            → (out.0.futures g).state ≡ result u
            → (s.futures g).state ≡ result u)

    settled-Reaches : (s : Session U C Token) → Reaches s (settled l.future (result u) s, ok true)
    unfolding settled
    settled-Reaches s = (refl, ground arith, λ g other e. ground arith)

    Reaches-next :
        (j : ListenerKey) (s : Session U C Token) (m : ListenerModel Token)
        (here : lookup j s.listeners ≡ some m) (distinct : Distinct s)
        (out : Session U C Token × Outcome (Exc U) Bool)
        → Reaches (next j s m here distinct) out
        → Reaches s out
    unfolding next settled
    Reaches-next j s m here distinct out (a, b, f) =
        (a, b, λ g other e. ground (arith, f g other e))

    -- If every candidate before a key is passed over, and that key's listener owns its registration
    -- and has a pending future, then the loop ends with that listener's future holding the update,
    -- and no other future gets it; less specific listeners are not asked.
    pub try_keys_first :
        (pre : List ListenerKey) (s : Session U C Token)
        → Distinct s
        → All (Skipped s) pre
        → lookup sub s.listeners ≡ some l
        → owns c R s sub l ≡ true
        → done s l.future ≡ false
        → Reaches s (try_keys c h u (pre ++ sub ∷ post) s)
    unfolding next
    try_keys_first [] s distinct passed e o p =
        rw (try_owned c R h u sub s post l e o)
          (rw (deliver_lem c R h u sub s l keep p) (settled-Reaches s))
    try_keys_first (j ∷ pre) s distinct (inl gone, passed) e o p =
        rw (try_absent c R h u j s (pre ++ sub ∷ post) gone)
          (try_keys_first pre s distinct passed e o p)
    try_keys_first (j ∷ pre) s distinct (inr (m, here, lost, p'), passed) e o p =
        rw (try_superseded c R h u j s (pre ++ sub ∷ post) m here lost p') (
          Reaches-next j s m here distinct
            (try_keys c h u (pre ++ sub ∷ post) (next j s m here distinct))
            (try_keys_first pre (next j s m here distinct) (Distinct-next j s m here distinct)
              (All-Skipped-next j s m here distinct pre passed)
              (kept-next j s m here distinct sub l other e)
              (rw (owns-next j s m here distinct sub l) o)
              (rw (done-next j s m here distinct sub l other e) p)))
      where
        other : j ≢ sub
        other = apart j s m here distinct sub l lost e o
