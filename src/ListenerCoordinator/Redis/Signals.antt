-- ===== src/ListenerCoordinator/Redis/Signals.antt =====
-- The payload of a cancel signal in pyroflow/listener_coordinator/redis_listener_coordinator.py,
-- over any type `A` of characters: `cancel` publishes it and `_listen_for_cancel_signals` reads it.
use pyroflow.Prelude.{
  ◌≡◌, ◌≢◌, refl, ite, Option, none, some, List, [], ◌∷◌, ◌++◌, arith, DecEq, All,
}

module _ {A : Type 0} ⦃d : DecEq A⦄ (sep : A) where
  -- `str.rpartition`: what stands before and after the last separator, if there is one.
  unfoldable pub rpartition : List A → Option (List A × List A)
  rpartition [] = none
  rpartition (c ∷ cs) = elim (rpartition cs) [
    | some (before, after) ↦ some (c ∷ before, after)
    | none ↦ ite (d.dec c sep) (some ([], cs)) none
  ]

  -- `f"{packed_key}{self._sep}{cancelled_id}"`
  unfoldable pub signal : List A → List A → List A
  signal packed_key cancelled_id = packed_key ++ sep ∷ cancelled_id

  -- The packed key and the token, or nothing for a malformed payload.
  unfoldable pub read_signal : List A → Option (List A × List A)
  read_signal payload = elim (rpartition payload) [
    | none ↦ none
    | some ([], coordinator_id) ↦ none
    | some (c ∷ cs, coordinator_id) ↦ some (c ∷ cs, coordinator_id)
  ]

  rpartition-none : (i : List A) → All (λ c. c ≢ sep) i → rpartition i ≡ none
  unfolding rpartition
  rpartition-none [] a = refl
  rpartition-none (c ∷ cs) (apart, a) = elim (d.dec c sep) [
    | yes e ↦ elim (apart e) [ ]
    | no other ↦ ground (arith, rpartition-none cs a)
  ]

  rpartition-signal : (p i : List A) → All (λ c. c ≢ sep) i → rpartition (signal p i) ≡ some (p, i)
  unfolding rpartition signal
  rpartition-signal [] i a = ground (arith, rpartition-none i a)
  rpartition-signal (c ∷ cs) i a = rw (rpartition-signal cs i a) refl

  -- A session that receives a cancel signal reads the packed key and the token that were published:
  -- the packed key is not empty, and the separator does not occur in the token, while it may occur
  -- in the packed key.
  pub read_signal-signal :
      (p i : List A) → p ≢ [] → All (λ c. c ≢ sep) i → read_signal (signal p i) ≡ some (p, i)
  unfolding read_signal rpartition signal
  read_signal-signal [] i full a = elim (full refl) [ ]
  read_signal-signal (c ∷ cs) i full a = rw (rpartition-signal (c ∷ cs) i a) refl

  pub read_signal_malformed : (t : List A) → All (λ c. c ≢ sep) t → read_signal t ≡ none
  unfolding read_signal
  read_signal_malformed t a = rw (rpartition-none t a, read_signal)
