-- ===== src/Client/Reply.antt =====
-- `Message.ask` of pyroflow/types.py: a question in answer to a message, or in place of it.
use pyroflow.Prelude.{
  Bool, true, false, not, ◌&&◌, ◌||◌, Option, none, some, ite, DecEq, M, raise, if◌then◌else◌,
  is_some,
}
use pyroflow.Prelude.Int.{ℤ, ℤ_discrete, pos}
use Prim.Native.String.{String}
use pyroflow.Errors.{Exc, value_error}
use pyroflow.Session.{Json}
use pyroflow.Client.{
  Options, SendOptions, by_id, ListenMessageId, ErrorHandlers, Question, Client, ask,
}

-- What is read of the message. `own` is `from_user.is_self`, where there is a sender, `sender_chat`
-- that chat's id, and `me` the id of the client's user.
pub record Source (V : Type 0) : Type 0 where
  pub id : ℤ
  pub chat_id : ℤ
  pub service : Bool
  pub empty : Bool
  pub own : Option Bool
  pub sender_chat : Option ℤ
  pub me : Option ℤ
  pub message_thread_id : Option V
  pub direct_messages_topic_id : Option V
  pub business_connection_id : Option V

-- The arguments of `Message.ask`, but for the timeout. The connection among the options is not one.
pub record Request (T U W X V : Type 0) : Type 0 where
  pub text : String
  pub force_send : Bool
  pub options : Options V
  pub send_options : SendOptions V
  pub listen_user_id : Option ℤ
  pub listen_message_id : ListenMessageId U
  pub meta : Option Json
  pub update_type : T
  pub error_handlers : Option (ErrorHandlers U W X)

-- `getattr(sender_chat, "id", None) == getattr(me, "id", 0)`
unfoldable pub sent_as_me : Option ℤ → Option ℤ → Bool
sent_as_me none me = false
sent_as_me (some i) none = ite (ℤ_discrete i (pos 0)) true false
sent_as_me (some i) (some j) = ite (ℤ_discrete i j) true false

unfoldable pub editable : {V : Type 0} → Source V → Bool
editable m = elim m.own [ some true ↦ true | _ ↦ sent_as_me m.sender_chat m.me ]

-- `any(v is not None for v in (...))`
unfoldable pub has_send_options : {V : Type 0} → Options V → SendOptions V → Bool
has_send_options o s =
    is_some s.reply_parameters
    || is_some s.disable_notification
    || is_some s.message_thread_id
    || is_some s.direct_messages_topic_id
    || is_some s.effect_id
    || is_some o.schedule_date
    || is_some s.repeat_period
    || is_some s.protect_content
    || is_some s.allow_paid_broadcast
    || is_some s.paid_message_star_count
    || is_some s.suggested_post_parameters

abbrev pub or_given : {V : Type 0} → Option V → Option V → Option V
or_given none v = v
or_given (some a) v = some a

-- The options of a message that is sent as a reply.
unfoldable pub reply_options : {V : Type 0} → (ℤ → V) → Source V → SendOptions V → SendOptions V
reply_options reply_to m s = record s {
  reply_parameters = or_given s.reply_parameters (some (reply_to m.id));
  message_thread_id = or_given s.message_thread_id m.message_thread_id;
  direct_messages_topic_id = or_given s.direct_messages_topic_id m.direct_messages_topic_id;
}

-- The call of the client's `ask`.
unfoldable pub question_of :
    {T U W X V : Type 0}
    → Source V
    → Request T U W X V
    → Option ℤ
    → SendOptions V
    → Question T U W X V
question_of m r message_id send_options = record {
  chat_id = by_id m.chat_id;
  text = r.text;
  message_id = message_id;
  options = record r.options { business_connection_id = m.business_connection_id };
  send_options = send_options;
  listen_user_id = r.listen_user_id;
  listen_message_id = r.listen_message_id;
  meta = r.meta;
  update_type = r.update_type;
  error_handlers = r.error_handlers;
}

-- `Message.ask`; `reply_to` makes the parameters of a reply to a message.
unfoldable pub message_ask :
    {T U W X V : Type 0} ⦃t_eq : DecEq T⦄
    → (ℤ → V)
    → Client T U W X V
    → Source V
    → Request T U W X V
    → M W (Exc U) U
message_ask reply_to client m r w =
    if m.service || m.empty
    then (w, raise value_error)
    else if not r.force_send && editable m
    then if has_send_options r.options r.send_options
      then (w, raise value_error)
      else ask client (question_of m r (some m.id) r.send_options) w
    else ask client (question_of m r none (reply_options reply_to m r.send_options)) w
