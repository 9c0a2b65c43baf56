-- ===== src/ListenerCoordinator/Redis/Packing/Applied.antt =====
-- `_apply_cancel_signal` of pyroflow/listener_coordinator/redis_listener_coordinator.py: what the
-- signals of the cancel channel do to a session.
use pyroflow.Prelude.{
  Among, ◌≡◌, refl, sym, ap, ◌∙◌, inl, inr, if_neg, false, Option, none, some, List, [], ◌∷◌, arith,
  lookup, lookup-delete, delete, Option-cases, Bool-cases,
}
use pyroflow.Models.{ListenerKey, ListenerKey-discrete, listener_key_eq}
use pyroflow.Text.{Text, text_eq}
use pyroflow.Text.Fields.{Lacks}
use pyroflow.ListenerCoordinator.{ListenerCoordinator, IsRegistry}
use pyroflow.ListenerCoordinator.Redis.Packing.{sep, Notice, listen_for_cancel_signals}
use pyroflow.ListenerCoordinator.Redis.Packing.Published.{Carries, listen-Carries}
use pyroflow.Session.{ListenerModel, Session, done, settled}
use pyroflow.UpdateListener.{is_stale, cancel_locked}
use pyroflow.UpdateListener.Cancel.{cancel_absent, cancel_stale, cancel_pending, cancel_done}
use pyroflow.UpdateListener.Shrinks.{cancel_locked-Shrinks}

module _ {U C : Type 0} (c : ListenerCoordinator U C Text) where
  -- `listener.cancel(key, cancel_coordinator=False, coordinator_id=coordinator_id)`, whose errors
  -- are logged.
  unfoldable pub apply_cancel_signal : ListenerKey × Text → Session U C Text → Session U C Text
  apply_cancel_signal (k, i) s = (cancel_locked c k false false (some i) s).0

  -- The tasks for the signals, in the order in which they were started.
  unfoldable pub apply_signals : List (ListenerKey × Text) → Session U C Text → Session U C Text
  apply_signals [] s = s
  apply_signals (p ∷ ps) s = apply_signals ps (apply_cancel_signal p s)

  module _ (R : IsRegistry U C Text c) (j : ListenerKey) (t : Text) (s : Session U C Text) where
    removed :
        (m : ListenerModel Text)
        → lookup j s.listeners ≡ some m
        → is_stale c (some t) m.coordinator_id ≡ false
        → (apply_cancel_signal (j, t) s).listeners ≡ delete j s.listeners
    unfolding apply_cancel_signal settled
    removed m e st = elim (Bool-cases (done s m.future)) [
      | inl p ↦ rw (cancel_done c R j false false (some t) s m e st p, apply_cancel_signal) refl
      | inr p ↦ rw (cancel_pending c R j false false (some t) s m e st p, apply_cancel_signal) refl
    ]

    not_stale_token : (o : Option Text) → is_stale c (some t) o ≡ false → o ≡ some t
    not_stale_token none e = cc
    not_stale_token (some i) e = ground arith

    was_there :
        (k : ListenerKey) (l : ListenerModel Text)
        → lookup k (apply_cancel_signal (j, t) s).listeners ≡ some l
        → lookup k s.listeners ≡ some l
    unfolding apply_cancel_signal
    was_there k l e = ((cancel_locked-Shrinks c R j false false (some t) s).listeners_kept k l e).0

    absent_stays :
        (k : ListenerKey)
        → lookup k s.listeners ≡ none
        → lookup k (apply_cancel_signal (j, t) s).listeners ≡ none
    absent_stays k e = elim (Option-cases (lookup k (apply_cancel_signal (j, t) s).listeners)) [
      | inl gone ↦ gone
      | inr (l, there) ↦ let still = was_there k l there in cc
    ]

    hit :
        (l : ListenerModel Text)
        → lookup j s.listeners ≡ some l
        → l.coordinator_id ≡ some t
        → lookup j (apply_cancel_signal (j, t) s).listeners ≡ none
    hit l e token =
        rw (removed l e (rw token (ground arith))) (ground (arith, lookup-delete j j s.listeners))

    missed :
        (k : ListenerKey) (l : ListenerModel Text) (i : Text)
        → lookup k s.listeners ≡ some l
        → l.coordinator_id ≡ some i
        → (¬ ((j ≡ k) × (t ≡ i)))
        → lookup k (apply_cancel_signal (j, t) s).listeners ≡ some l
    unfolding apply_cancel_signal
    missed k l i e token other = elim (Option-cases (lookup j s.listeners)) [
      | inl n ↦ rw (cancel_absent c R j false false (some t) s n, apply_cancel_signal) e
      | inr (m, h) ↦ elim (Bool-cases (is_stale c (some t) m.coordinator_id)) [
        | inl st ↦ rw (cancel_stale c R j false false (some t) s m h st, apply_cancel_signal) e
        | inr st ↦ elim (ListenerKey-discrete j k) [
          | yes p ↦
              let same : some m ≡ some l = sym h ∙ ap (λ x. lookup x s.listeners) p ∙ e in
              let issued = not_stale_token m.coordinator_id st in absurd (other (p, cc))
          | no p ↦
              rw (removed m h st)
                (lookup-delete j k s.listeners ∙ if_neg (ListenerKey-discrete j k) p _ _ ∙ e)
        ]
      ]
    ]

  module _ (R : IsRegistry U C Text c) (k : ListenerKey) where
    gone_stays :
        (ps : List (ListenerKey × Text)) (s : Session U C Text)
        → lookup k s.listeners ≡ none
        → lookup k (apply_signals ps s).listeners ≡ none
    unfolding apply_signals
    gone_stays [] s e = e
    gone_stays ((j, t) ∷ ps) s e =
        gone_stays ps (apply_cancel_signal (j, t) s) (absent_stays R j t s k e)

    module _ (l : ListenerModel Text) (i : Text) (token : l.coordinator_id ≡ some i) where
      named_gone :
          (ps : List (ListenerKey × Text)) (s : Session U C Text)
          → lookup k s.listeners ≡ some l
          → Among (k, i) ps
          → lookup k (apply_signals ps s).listeners ≡ none
      unfolding apply_signals
      named_gone [] s e a = elim a [ ]
      named_gone ((j, t) ∷ ps) s e (inl same) =
          gone_stays ps (apply_cancel_signal (j, t) s) (rw (sym same) (hit R k i s l e token))
      named_gone ((j, t) ∷ ps) s e (inr more) =
          elim (Option-cases (lookup k (apply_cancel_signal (j, t) s).listeners)) [
            | inl gone ↦ gone_stays ps (apply_cancel_signal (j, t) s) gone
            | inr (m, there) ↦
                named_gone ps (apply_cancel_signal (j, t) s)
                  (there ∙ (sym (was_there R j t s k m there) ∙ e)) more
          ]

      unnamed_stays :
          (ps : List (ListenerKey × Text)) (s : Session U C Text)
          → lookup k s.listeners ≡ some l
          → (¬ Among (k, i) ps)
          → lookup k (apply_signals ps s).listeners ≡ some l
      unfolding apply_signals
      unnamed_stays [] s e free = e
      unnamed_stays ((j, t) ∷ ps) s e free =
          unnamed_stays ps (apply_cancel_signal (j, t) s)
            (missed R j t s k l i e token (λ (p, q). free (inl (cc)))) (λ a. free (inr a))

    -- Let the cancel channel carry signals, and let a key have a listener that holds a token. Once the
    -- signals of the channel are applied, the key has no listener if one of them names the
    -- key and that token, and the very same listener if none does: a late signal for another
    -- generation does not touch it. The coordinator keeps its contract, and the name of the update type
    -- and the tokens do not hold the separator.
    pub signals_cancel :
        (name : Text) {ps : List (ListenerKey × Text)} {ns : List Notice} (s : Session U C Text)
        (l : ListenerModel Text) (i : Text)
        → Lacks sep name
        → Carries name ps ns
        → lookup k s.listeners ≡ some l
        → l.coordinator_id ≡ some i
        → let s' = apply_signals (listen_for_cancel_signals {U = U} ns).0 s in
          (Among (k, i) ps → lookup k s'.listeners ≡ none)
          × ((¬ Among (k, i) ps) → lookup k s'.listeners ≡ some l)
    signals_cancel name {ps} s l i lacks carries e token =
        rw (listen-Carries {U = U} name lacks carries)
          (named_gone l i token ps s e, unnamed_stays l i token ps s e)
