-- ===== src/UpdateListener/Callback.antt =====
-- pyroflow/update_listener/callback_query_listener.py: the default hooks of a listener for callback
-- queries, and `resolve` with its `on_unresolved`, which may cancel a listener of the client's
-- `message_listen`. `U` is the type of updates of either kind.
pub mod Buttons
mod Tests
use pyroflow.Prelude.{
  ℕ, or_default, Bool, true, false, Option, none, some, List, [], ◌∷◌, DecEq, M, Outcome, ok, raise,
  ite, lookup, and_then, ◌>>=◌, ◌>>◌, return, throw, gets, lift, if◌then◌else◌, is_some,
}
use pyroflow.Prelude.Int.{ℤ, pos, ℤ_discrete}
use Prim.Native.String.{String}
use text.Mathlib.Text.{◌==◌}
use pyroflow.Models.{ListenerKey, listener_key_eq, sub_keys}
use pyroflow.Errors.{Exc, attribute_error, unresolved_update}
use pyroflow.ListenerCoordinator.{ListenerCoordinator}
use pyroflow.Session.{
  Json, boolean, number, object, JsonFields, no_fields, field, Session, ListenerModel,
}
use pyroflow.UpdateListener.{
  Hooks, is_listenable, extract_key, has_listeners, cancel_locked, on_unresolved, try_keys,
}

-- What is read of the message under which a button was pressed.
pub record QueryMessage : Type 0 where
  pub id : ℤ
  pub chat : Option ℤ

-- What is read of a callback query, which always has a sender.
pub record CallbackQuery : Type 0 where
  pub from_user : ℤ
  pub message : Option QueryMessage

-- `CallbackQueryListener._is_listenable`
unfoldable pub query_is_listenable : {U : Type 0} → CallbackQuery → Outcome (Exc U) Bool
query_is_listenable q = elim q.message [ none ↦ ok false | some m ↦ ok (is_some m.chat) ]

-- `CallbackQueryListener._extract_key`
unfoldable pub query_key : {U : Type 0} → CallbackQuery → Outcome (Exc U) ListenerKey
query_key q = elim q.message [
  | none ↦ raise attribute_error
  | some m ↦ elim m.chat [
    | none ↦ raise attribute_error
    | some chat_id ↦
        ok (record { chat_id = chat_id; user_id = some q.from_user; message_id = some m.id })
  ]
]

-- `CallbackQueryListener.__init__`, with how an update is read as a query.
unfoldable pub callback_hooks : {U : Type 0} → (U → CallbackQuery) → Hooks U → Hooks U
callback_hooks query h = record h {
  is_listenable_func = or_default h.is_listenable_func (λ u. query_is_listenable (query u));
  extract_key_func = or_default h.extract_key_func (λ u. query_key (query u));
}

-- `value == message_id`, where `True` and `False` are numbers.
unfoldable pub is_number : Json → ℤ → Bool
is_number (number j) i = ite (ℤ_discrete j i) true false
is_number (boolean b) i = ite (ℤ_discrete (pos (if b then 1 else 0)) i) true false
is_number value i = false

-- `meta.get("message_id") == message_id`
unfoldable pub field_is : JsonFields → ℤ → Bool
field_is no_fields i = false
field_is (field name value fs) i = if name == "message_id" then is_number value i else field_is fs i

-- `isinstance(meta, dict) and meta.get("message_id") == message_id`
unfoldable pub names_message : Option Json → ℤ → Bool
names_message (some (object fs)) i = field_is fs i
names_message meta i = false

-- `not m or not getattr(m, "id", None)`: the number of the message that a query is about.
unfoldable pub message_of : CallbackQuery → Option ℤ
message_of q = elim q.message [
  | none ↦ none
  | some m ↦ ite (ℤ_discrete m.id (pos 0)) none (some m.id)
]

module _ {U D Token : Type 0} ⦃d : DecEq Token⦄ (messages : ListenerCoordinator U D Token) where
  -- The loop over the keys: the first listener for messages that there is.
  unfoldable pub cancel_asking : ℤ → List ListenerKey → M (Session U D Token) (Exc U) (Unit {0})
  cancel_asking i [] s = (s, ok tt)
  cancel_asking i (sub ∷ subs) s = elim (lookup sub s.listeners) [
    | none ↦ cancel_asking i subs s
    | some l ↦
        if names_message l.meta i
        then and_then (cancel_locked messages sub true false none s) (λ _. return tt)
        else (s, ok tt)
  ]

module _ {U C D Token : Type 0} ⦃d : DecEq Token⦄ (c : ListenerCoordinator U C Token)
    (messages : ListenerCoordinator U D Token) where
  -- The session of the query listener, and that of the client's listener for messages, if it has one.
  abbrev pub Sessions : Type 0
  Sessions = Session U C Token × Option (Session U D Token)

  abbrev pub on_own : {A : Type 0} → M (Session U C Token) (Exc U) A → M Sessions (Exc U) A
  on_own m (own, others) = let (own', r) = m own in ((own', others), r)

  -- What `on_unresolved` does before it calls that of the base class.
  unfoldable pub cancel_question : ListenerKey → CallbackQuery → M Sessions (Exc U) (Unit {0})
  cancel_question k q (own, none) = ((own, none), ok tt)
  cancel_question k q (own, some s) = elim (message_of q) [
    | none ↦ ((own, some s), ok tt)
    | some i ↦ let (s', r) = cancel_asking messages i (sub_keys 1 k) s in ((own, some s'), r)
  ]

  module _ (h : Hooks U) (query : U → CallbackQuery) (u : U) where
    -- `CallbackQueryListener.on_unresolved`
    unfoldable pub on_unresolved_query : ListenerKey → M Sessions (Exc U) (Unit {0})
    on_unresolved_query k = do cancel_question k (query u); on_own (on_unresolved c k u)

    -- `resolve`, which calls that method.
    unfoldable pub resolve_query : M Sessions (Exc U) (Unit {0})
    resolve_query = do
      listenable ← lift (is_listenable h u)
      elim listenable [
        | false ↦ throw (unresolved_update u)
        | true ↦ do
          k ← lift (extract_key h u)
          active ← gets (λ w. has_listeners w.0.listeners)
          elim active [
            | false ↦ return tt
            | true ↦ do
              found ← on_own (try_keys c h u (sub_keys 1 k))
              elim found [ true ↦ return tt | false ↦ on_unresolved_query k ]
          ]
      ]
