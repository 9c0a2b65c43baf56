-- ===== src/UpdateListener/Message.antt =====
-- pyroflow/update_listener/message_listener.py: the hooks that a listener for messages has unless
-- others are given, and what `resolve` does with them.
use pyroflow.Prelude.{
  ◌≡◌, refl, Bool, true, false, Option, none, some, DecEq, or_default, Outcome, ok, raise,
  if◌then◌else◌, is_some, arith,
}
use pyroflow.Prelude.Int.{ℤ}
use pyroflow.Models.{ListenerKey}
use pyroflow.Errors.{Exc, attribute_error}
use pyroflow.ListenerCoordinator.{ListenerCoordinator}
use pyroflow.Session.{Session}
use pyroflow.UpdateListener.{Hooks, is_listenable, extract_key, resolve}

pub record User : Type 0 where
  pub id : ℤ
  pub is_self : Bool

-- What the hooks read of a message. A post of a channel or of an anonymous administrator has no
-- `from_user`. Flags and dates are read for being set.
pub record Message : Type 0 where
  pub id : ℤ
  pub chat : Option ℤ
  pub from_user : Option User
  pub outgoing : Bool
  pub service : Bool
  pub empty : Bool
  pub edit_date : Bool
  pub edit_hidden : Bool

-- `getattr(update.from_user, "is_self", False)`
unfoldable pub from_self : Option User → Bool
from_self none = false
from_self (some user) = user.is_self

unfoldable pub default_is_listenable : Message → Outcome (Exc Message) Bool
default_is_listenable m =
    if m.outgoing
    then ok false
    else if m.service
    then ok false
    else if from_self m.from_user
    then ok false
    else if m.empty
    then ok false
    else if m.edit_date
    then ok false
    else if m.edit_hidden
    then ok false
    else ok (is_some m.chat)

unfoldable pub default_extract_key : Message → Outcome (Exc Message) ListenerKey
default_extract_key m = elim m.chat [
  | none ↦ raise attribute_error
  | some chat_id ↦ elim m.from_user [
    | none ↦ raise attribute_error
    | some user ↦ ok (record { chat_id = chat_id; user_id = some user.id; message_id = some m.id })
  ]
]

-- `MessageListener.__init__`
unfoldable pub message_hooks : Hooks Message → Hooks Message
message_hooks h = record h {
  is_listenable_func = or_default h.is_listenable_func default_is_listenable;
  extract_key_func = or_default h.extract_key_func default_extract_key;
}

-- The hooks when only `bypass_func` may have been given, and every update is a message.
abbrev pub plain : Option (Message → Outcome (Exc Message) Bool) → Hooks Message
plain bypass = message_hooks (record {
  is_update = λ m. true;
  is_listenable_func = none;
  extract_key_func = none;
  bypass_func = bypass;
})

senderless_key :
    (bypass : Option (Message → Outcome (Exc Message) Bool)) (m : Message)
    → m.from_user ≡ none
    → extract_key (plain bypass) m ≡ raise attribute_error
unfolding extract_key message_hooks default_extract_key
senderless_key bypass m senderless = ground arith

-- A defect: with the default hooks, let a message without a sender (a post of a channel, say) be
-- listenable. Then `resolve` raises `AttributeError` and changes nothing, whatever listens, also
-- when a listener waits for any message of the chat.
pub resolve_senderless :
    {C Token : Type 0} ⦃d : DecEq Token⦄ (c : ListenerCoordinator Message C Token)
    (bypass : Option (Message → Outcome (Exc Message) Bool)) (m : Message)
    (s : Session Message C Token)
    → is_listenable (plain bypass) m ≡ ok true
    → m.from_user ≡ none
    → resolve c (plain bypass) m s ≡ (s, raise attribute_error)
unfolding resolve
resolve_senderless c bypass m s listenable senderless =
    rw (listenable, resolve) (rw (senderless_key bypass m senderless) refl)
