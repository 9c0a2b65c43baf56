-- ===== src/Client.antt =====
-- `ask` of pyroflow/client.py and of the messages in pyroflow/types.py, `handle_ask_error` of
-- pyroflow/utils/misc_tools.py, and the client's table of error handlers. Telegram's methods and the
-- listeners are parameters over a world `W`; `V` is the type of option values that are only passed on.
pub mod AskErrors
pub mod Reply
mod Tests
use pyroflow.Prelude.{
  ℕ, ◌≡◌, Bool, true, false, not, ◌&&◌, ◌||◌, Option, none, some, List, [], ◌∷◌, DecEq, Dict,
  lookup, insert, delete, M, Outcome, ok, raise, and_then, ◌>>=◌, ◌>>◌, return, throw, lift,
  if◌then◌else◌, is_some,
}
use pyroflow.Prelude.Int.{ℤ, ℤ_discrete}
use Prim.Native.String.{String}
use text.Mathlib.Text.{◌==◌}
use pyroflow.Errors.{Exc, is_exception, runtime_error, value_error}
use pyroflow.Session.{Json, number, object, JsonFields, no_fields, field}

-- The options that `send_message` and `edit_message_text` share.
pub record Options (V : Type 0) : Type 0 where
  pub parse_mode : Option V
  pub entities : Option V
  pub link_preview_options : Option V
  pub schedule_date : Option V
  pub business_connection_id : Option V
  pub reply_markup : Option V
  pub kw : List V

-- Those of `send_message` alone.
pub record SendOptions (V : Type 0) : Type 0 where
  pub disable_notification : Option V
  pub message_thread_id : Option V
  pub direct_messages_topic_id : Option V
  pub effect_id : Option V
  pub reply_parameters : Option V
  pub repeat_period : Option V
  pub protect_content : Option V
  pub allow_paid_broadcast : Option V
  pub paid_message_star_count : Option V
  pub suggested_post_parameters : Option V

-- A chat by its id or by its name.
pub data ChatRef : Type 0 where
  by_id : ℤ → ChatRef
  by_name : String → ChatRef

-- What is read of the message that was sent or edited.
pub record Sent : Type 0 where
  pub id : ℤ
  pub chat : Option ℤ

-- `listen_message_id`: an id, or a function of the message.
pub data ListenMessageId (U : Type 0) : Type 0 where
  fixed : Option ℤ → ListenMessageId U
  computed : (Sent → Outcome (Exc U) (Option ℤ)) → ListenMessageId U

-- The arguments of a call of a listener, but for the timeout.
pub record Wait : Type 0 where
  pub chat_id : ℤ
  pub user_id : Option ℤ
  pub message_id : Option ℤ
  pub meta : Option Json

-- `AskErrorHandlersT`, over the keys `X`: exception types, or tuples of them.
abbrev pub ErrorHandlers : Type 0 → Type 0 → Type 0 → Type 0
ErrorHandlers U W X = Dict X (Exc U → Sent → M W (Exc U) (Unit {0}))

pub record Question (T U W X V : Type 0) : Type 0 where
  pub chat_id : ChatRef
  pub text : String
  pub message_id : Option ℤ
  pub options : Options V
  pub send_options : SendOptions V
  pub listen_user_id : Option ℤ
  pub listen_message_id : ListenMessageId U
  pub meta : Option Json
  pub update_type : T
  pub error_handlers : Option (ErrorHandlers U W X)

-- What `ask` finds at the client: Pyrogram's methods, and in the world the listeners by update type
-- and the table of error handlers. `awaited` is `maybe_awaitable` with `return_exc=True`, `is_instance` the test
-- `isinstance(exc, exc_types)`, and `is_inline` that of the type `InlineKeyboardMarkup`.
pub record Client (T U W X V : Type 0) : Type 0 where
  pub send_message : ChatRef → String → Options V → SendOptions V → M W (Exc U) Sent
  pub edit_message_text : ChatRef → ℤ → String → Options V → M W (Exc U) Sent
  pub resolve_peer : String → M W (Exc U) ℤ
  pub listeners : W → Dict T (Wait → M W (Exc U) U)
  pub ask_error_handlers : W → Dict T (ErrorHandlers U W X)
  pub awaited : M W (Exc U) (Unit {0}) → M W (Exc U) (Unit {0})
  pub is_instance : Exc U → X → Bool
  pub is_inline : V → Bool

-- `"message_id" in meta`
unfoldable pub has_message_id : JsonFields → Bool
has_message_id no_fields = false
has_message_id (field name value fs) = if name == "message_id" then true else has_message_id fs

unfoldable pub add_field : String → Json → JsonFields → JsonFields
add_field name value no_fields = field name value no_fields
add_field name value (field other v fs) = field other v (add_field name value fs)

-- The metadata that the listener gets: the message's id is added, unless it is there or the
-- metadata is no object.
unfoldable pub with_message_id : Option Json → ℤ → Option Json
with_message_id none i = some (object (field "message_id" (number i) no_fields))
with_message_id (some (object fs)) i =
    some (object (if has_message_id fs then fs else add_field "message_id" (number i) fs))
with_message_id (some j) i = some j

module _ {U W X : Type 0} (awaited : M W (Exc U) (Unit {0}) → M W (Exc U) (Unit {0}))
    (is_instance : Exc U → X → Bool) (exc : Exc U) (m : Sent) where
  -- The loop over one mapping: whether a handler matched and ran.
  unfoldable pub try_handlers : ErrorHandlers U W X → M W (Exc U) Bool
  try_handlers [] w = (w, ok false)
  try_handlers ((exc_types, handler) ∷ hdlrs) w = elim (is_instance exc exc_types) [
    | true ↦ and_then (awaited (handler exc m) w) (λ _. return true)
    | false ↦ try_handlers hdlrs w
  ]

  -- `handle_ask_error`
  unfoldable pub handle_ask_error : List (Option (ErrorHandlers U W X)) → M W (Exc U) Bool
  handle_ask_error [] w = (w, ok false)
  handle_ask_error (none ∷ handlers) w = handle_ask_error handlers w
  handle_ask_error (some hdlrs ∷ handlers) w =
      and_then (try_handlers hdlrs w)
        λ found. elim found [ true ↦ return true | false ↦ handle_ask_error handlers ]

unfoldable pub listened_message :
    {U : Type 0} → ListenMessageId U → Sent → Outcome (Exc U) (Option ℤ)
listened_message (fixed i) m = ok i
listened_message (computed f) m = f m

-- The listener's arguments.
abbrev pub request : {T U W X V : Type 0} → Question T U W X V → Sent → ℤ → Option ℤ → Wait
request q m chat_id message_id = record {
  chat_id = chat_id;
  user_id = q.listen_user_id;
  message_id = message_id;
  meta = with_message_id q.meta m.id;
}

module _ {T U W X V : Type 0} ⦃t_eq : DecEq T⦄ (client : Client T U W X V) where
  -- The message of the question: edited, or sent.
  unfoldable pub put_question : Question T U W X V → M W (Exc U) Sent
  put_question q = elim q.message_id [
    | none ↦ client.send_message q.chat_id q.text q.options q.send_options
    | some i ↦ elim q.options.reply_markup [
      | none ↦ client.edit_message_text q.chat_id i q.text q.options
      | some markup ↦
          if client.is_inline markup
          then client.edit_message_text q.chat_id i q.text q.options
          else throw value_error
    ]
  ]

  -- `m.chat.id if m.chat else chat_id`, as an id.
  unfoldable pub final_chat_id : ChatRef → Sent → M W (Exc U) ℤ
  final_chat_id chat m = elim m.chat [
    | some i ↦ return i
    | none ↦ elim chat [ by_id i ↦ return i | by_name name ↦ client.resolve_peer name ]
  ]

  -- The `except` clause.
  unfoldable pub report_error :
      Question T U W X V → Sent → W × Outcome (Exc U) U → W × Outcome (Exc U) U
  report_error q m (w, ok u) = (w, ok u)
  report_error q m (w, raise exc) =
      if is_exception exc
      then and_then
          (handle_ask_error client.awaited client.is_instance exc m
            (q.error_handlers ∷ lookup q.update_type (client.ask_error_handlers w) ∷ []) w)
          (λ _. throw exc)
      else (w, raise exc)

  -- The call of the listener, once the question has been put.
  unfoldable pub wait_for_answer :
      Question T U W X V → (Wait → M W (Exc U) U) → Sent → M W (Exc U) U
  wait_for_answer q listener m = do
    message_id ← lift (listened_message q.listen_message_id m)
    chat_id ← final_chat_id q.chat_id m
    λ w. report_error q m (listener (request q m chat_id message_id) w)

  -- `Client.ask`
  unfoldable pub ask : Question T U W X V → M W (Exc U) U
  ask q w = elim (lookup q.update_type (client.listeners w)) [
    | none ↦ (w, raise runtime_error)
    | some listener ↦ and_then (put_question q w) (wait_for_answer q listener)
  ]

-- `register_ask_error_handler` and `unregister_ask_error_handler`, on the table. The second tells
-- whether an entry was removed.
module _ {T U W X : Type 0} ⦃t_eq : DecEq T⦄ ⦃x_eq : DecEq X⦄ where
  unfoldable pub register_ask_error_handler :
      X
      → (Exc U → Sent → M W (Exc U) (Unit {0}))
      → T
      → Dict T (ErrorHandlers U W X)
      → Dict T (ErrorHandlers U W X)
  register_ask_error_handler exc_types handler update_type table = elim (lookup update_type table) [
    | none ↦ insert update_type ((exc_types, handler) ∷ []) table
    | some handlers ↦ insert update_type (insert exc_types handler handlers) table
  ]

  unfoldable pub unregister_ask_error_handler :
      X → T → Dict T (ErrorHandlers U W X) → Dict T (ErrorHandlers U W X) × Bool
  unregister_ask_error_handler exc_types update_type table = elim (lookup update_type table) [
    | none ↦ (table, false)
    | some handlers ↦
        (insert update_type (delete exc_types handlers) table, is_some (lookup exc_types handlers))
  ]
