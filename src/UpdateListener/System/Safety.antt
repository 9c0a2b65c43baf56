-- ===== src/UpdateListener/System/Safety.antt =====
-- In every world that a session can reach, a coroutine of an earlier generation does not harm a
-- later one.
use pyroflow.Prelude.{Bool, true, Among, ◌≡◌, sym, ap, ◌∙◌, ◌≢◌, inr, some, [], DecEq, lookup}
use pyroflow.Models.{listener_key_eq}
use pyroflow.ListenerCoordinator.{ListenerCoordinator, IsRegistry}
use pyroflow.Session.{ListenerModel, Session}
use pyroflow.UpdateListener.{Interrupt, listen_wait}
use pyroflow.UpdateListener.Wait.{listen_wait_ends}
use pyroflow.UpdateListener.System.{Waiter, World, Reach}
use pyroflow.UpdateListener.System.Invariant.{Inv}
use pyroflow.UpdateListener.System.Steps.{StopsSafely, Reach-Inv, not_owned}

module _ {U C Token : Type 0} ⦃d : DecEq Token⦄ (c : ListenerCoordinator U C Token)
    (R : IsRegistry U C Token c) (s : Session U C Token) (no_listeners : s.listeners ≡ [])
    (valid : R.IsValid s.coordinator) (w : World U C Token) (may_stop : Bool)
    (stops : may_stop ≡ true → StopsSafely c R)
    (reached : Reach c R may_stop (record { session = s; waiters = [] }) w) where
  open R use {owner}

  pub reached-Inv : Inv c R w
  unfolding lookup
  reached-Inv = Reach-Inv c R may_stop stops _ w reached (record {
    valid = valid;
    in_sync = λ k l e. absurd (cc (sym e ∙ ap (λ x. lookup k x) no_listeners));
    tied = λ v a. elim a [ ];
    distinct = λ j k l m e. absurd (cc (sym e ∙ ap (λ x. lookup j x) no_listeners));
  })

  -- Start from a session without listeners or waiting coroutines, with a coordinator that keeps
  -- its contract and is valid. If it may stop meanwhile, let its stop take no token back, which is
  -- true of the one on Redis. Let listens, ends of waits, cancels, resolutions, done callbacks and
  -- stops of the coordinator run in any order, and other sessions take, free and replace
  -- registrations between them. A coroutine that then ends its `listen` while its key has a
  -- listener with another future, one of a later generation, leaves that listener in place and the
  -- key's owner in the registry as it was.
  pub old_generation_harmless :
      (q : Interrupt) (v : Waiter Token) (l : ListenerModel Token)
      → Among v w.waiters
      → lookup v.key w.session.listeners ≡ some l
      → l.future ≢ v.future
      → let s' = (listen_wait c q v.key v.future v.token w.session).0 in
        (lookup v.key s'.listeners ≡ some l)
        × (owner s'.coordinator v.key ≡ owner w.session.coordinator v.key)
  old_generation_harmless q v l a e later =
      let (_, _, _, kept, owners) = listen_wait_ends c R q v.key v.future v.token w.session in
      (
        kept v.key l (inr later) e,
        owners v.key
            ∙ rw (
                not_owned c R (owner w.session.coordinator v.key) v.token
                  ((reached-Inv.tied v a).superseded l e later)),
      )
