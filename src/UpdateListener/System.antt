-- ===== src/UpdateListener/System.antt =====
-- One session over time: calls of `listen` in progress, and what can come between their steps. Other
-- sessions may change the registry that they share. `stop` is the cancels of the keys that it
-- finds, and then the `stop` of the coordinator; a cancel that cannot get its lock is left out.
pub mod Invariant
pub mod Steps
pub mod Safety
pub mod Delivery
pub mod Shared
mod Tests
use pyroflow.Prelude.{
  Among, ℕ, ◌≡◌, ◌⊎◌, ite, none, some, ℕ_discrete, Bool, true, Option, List, [], ◌∷◌, DecEq, ok,
  raise,
}
use pyroflow.Models.{ListenerKey}
use pyroflow.Errors.{Exc}
use pyroflow.ListenerCoordinator.{ListenerCoordinator, IsRegistry}
use pyroflow.Session.{Json, Session}
use pyroflow.UpdateListener.{
  Hooks, DuplicatePolicy, Interrupt, cancel_locked, cleanup_listen, listen_register, listen_wait,
  resolve,
}

-- A coroutine suspended in `listen`: its key, its future and its ownership token.
pub record Waiter (Token : Type 0) : Type 0 where
  pub key : ListenerKey
  pub future : ℕ
  pub token : Token

pub record World (U C Token : Type 0) : Type 0 where
  pub session : Session U C Token
  pub waiters : List (Waiter Token)

-- The coroutine that waits for a future is done.
pub without : {Token : Type 0} → ℕ → List (Waiter Token) → List (Waiter Token)
without f [] = []
without f (w ∷ ws) = ite (ℕ_discrete w.future f) (without f ws) (w ∷ without f ws)

module _ {U C Token : Type 0} ⦃d : DecEq Token⦄ (c : ListenerCoordinator U C Token)
    (R : IsRegistry U C Token c) where
  open R use {owner, IsValid, Issued}

  -- What an operation of another session may do to the coordinator's state: any key may lose its
  -- owner or get a token that was never issued, and no token is taken back.
  pub record Foreign (s s' : C) : Type 0 where
    pub owners :
        (k : ListenerKey)
        → (owner s' k ≡ owner s k)
          ⊎ ((owner s' k ≡ none) ⊎ ((i : Token) × (owner s' k ≡ some i) × (¬ Issued s i)))
    pub valid_kept : IsValid s → IsValid s'
    pub issued_kept : (i : Token) → Issued s i → Issued s' i

  pub data Step (may_stop : Bool) (w : World U C Token) : World U C Token → Type 0 where
    listens :
        (policy : DuplicatePolicy) (k : ListenerKey) (meta : Option Json) (f : ℕ) (i : Token)
        → (listen_register c policy k meta w.session).1 ≡ ok (f, i)
        → Step may_stop w (record {
          session = (listen_register c policy k meta w.session).0;
          waiters = record { key = k; future = f; token = i } ∷ w.waiters;
        })
    listen_fails :
        (policy : DuplicatePolicy) (k : ListenerKey) (meta : Option Json) (e : Exc U)
        → (listen_register c policy k meta w.session).1 ≡ raise e
        → Step may_stop w (record w { session = (listen_register c policy k meta w.session).0 })
    ends :
        (q : Interrupt) (v : Waiter Token)
        → Among v w.waiters
        → Step may_stop w (record {
          session = (listen_wait c q v.key v.future v.token w.session).0;
          waiters = without v.future w.waiters;
        })
    cancels :
        (k : ListenerKey) (cc dup : Bool) (t : Option Token)
        → Step may_stop w (record w { session = (cancel_locked c k cc dup t w.session).0 })
    resolves :
        (h : Hooks U) (u : U) → Step may_stop w (record w { session = (resolve c h u w.session).0 })
    coordinator_stops :
        may_stop ≡ true
        → Step may_stop w (record w {
          session = record (w.session) { coordinator = (c.stop w.session.coordinator).0 };
        })
    rival_acts :
        (s' : C)
        → Foreign w.session.coordinator s'
        → Step may_stop w (record w { session = record (w.session) { coordinator = s' } })
    runs_callback :
        (k : ListenerKey) (f : ℕ) (rest : List (ListenerKey × ℕ))
        → w.session.ready ≡ (k, f) ∷ rest
        → Step may_stop w
            (record w { session = record (cleanup_listen c k f w.session) { ready = rest } })

  -- A run, in which the coordinator may stop if `may_stop` says so.
  pub data Reach (may_stop : Bool) (w : World U C Token) : World U C Token → Type 0 where
    here : Reach may_stop w w
    later : {v u : World U C Token} → Reach may_stop w v → Step may_stop v u → Reach may_stop w u
