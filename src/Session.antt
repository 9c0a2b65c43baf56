-- ===== src/Session.antt =====
-- The mutable state of one session's `UpdateListener` (pyroflow/update_listener/update_listener.py)
-- with `ListenerModel` of pyroflow/models.py. A future is shared by the waiting coroutine and the
-- listener that is registered for it, so futures live on a heap and are named by numbers.
use pyroflow.Prelude.{
  ℕ, suc, ite, Bool, true, false, Option, List, [], ◌∷◌, ◌++◌, ℕ_discrete, Dict, M, ok, raise,
}
use pyroflow.Prelude.Int.{ℤ}
use Prim.Native.String.{String}
use pyroflow.Models.{ListenerKey}
use pyroflow.Errors.{Exc, invalid_state_error}

-- JSON values, the metadata that a caller attaches to a listener.
mutual
  pub data Json : Type 0 where
    null : Json
    boolean : Bool → Json
    number : ℤ → Json
    text : String → Json
    array : JsonItems → Json
    object : JsonFields → Json

  pub data JsonItems : Type 0 where
    no_items : JsonItems
    item : Json → JsonItems → JsonItems

  pub data JsonFields : Type 0 where
    no_fields : JsonFields
    field : String → Json → JsonFields → JsonFields

pub data FutureState (U : Type 0) : Type 0 where
  pending cancelled : FutureState U
  result : U → FutureState U
  exception : Exc U → FutureState U

-- A future, and the key that its done callback `partial(_cleanup_listen, key)` is bound to.
pub record Future (U : Type 0) : Type 0 where
  pub state : FutureState U
  pub callback_key : ListenerKey

pub record ListenerModel (Token : Type 0) : Type 0 where
  pub key : ListenerKey
  pub meta : Option Json
  pub future : ℕ
  pub coordinator_id : Option Token

-- `ready` holds the done callbacks that the event loop has yet to run, as the key and the future.
pub record Session (U C Token : Type 0) : Type 0 where
  pub coordinator : C
  pub listeners : Dict ListenerKey (ListenerModel Token)
  pub futures : ℕ → Future U
  pub next_future : ℕ
  pub ready : List (ListenerKey × ℕ)

abbrev pub update : {A : Type 0} → (ℕ → A) → ℕ → A → ℕ → A
update h i a j = ite (ℕ_discrete i j) a (h j)

abbrev pub is_done : {U : Type 0} → FutureState U → Bool
is_done pending = false
is_done cancelled = true
is_done (result u) = true
is_done (exception e) = true

module _ {U C Token : Type 0} where
  -- `future.done()`
  abbrev pub done : Session U C Token → ℕ → Bool
  done s f = is_done (s.futures f).state

  -- A future leaves the pending state, and its done callback is scheduled.
  unfoldable pub settled : ℕ → FutureState U → Session U C Token → Session U C Token
  settled f st s = record s {
    futures = update s.futures f (record (s.futures f) { state = st });
    ready = s.ready ++ ((s.futures f).callback_key, f) ∷ [];
  }

  -- `future.set_result(update)` and `future.set_exception(exc)`: an error once the future is done.
  unfoldable pub finish : ℕ → FutureState U → M (Session U C Token) (Exc U) (Unit {0})
  finish f st s = elim (done s f) [
    | true ↦ (s, raise invalid_state_error)
    | false ↦ (settled f st s, ok tt)
  ]

  -- `future.cancel()`
  unfoldable pub cancel_future : ℕ → M (Session U C Token) (Exc U) (Unit {0})
  cancel_future f s = elim (done s f) [ true ↦ (s, ok tt) | false ↦ (settled f cancelled s, ok tt) ]

  -- `create_future()` with its done callback for the key.
  unfoldable pub create_future : ListenerKey → M (Session U C Token) (Exc U) ℕ
  create_future k s = (
    record s {
      futures = update s.futures s.next_future (record { state = pending; callback_key = k });
      next_future = suc s.next_future;
    },
    ok s.next_future,
  )
