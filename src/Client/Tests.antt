-- ===== src/Client/Tests.antt =====
-- A client that counts, with numbers as updates, update types, exception types and option values.
use pyroflow.Prelude.{
  ℕ, ◌+◌, ◌≡◌, refl, arith, Bool, true, false, not, ◌&&◌, Option, none, some, List, [], ◌∷◌, Dict,
  lookup, M, ok, raise, ◌==◌, if◌then◌else◌, Outcome,
}
use pyroflow.Prelude.Int.{pos}
use pyroflow.Errors.{Exc, user_error, is_exception}
use pyroflow.ListenerCoordinator.Memory.{nat_eq}
use pyroflow.Client.{
  Options, SendOptions, by_id, Sent, fixed, Wait, Question, Client, put_question, listened_message,
  final_chat_id, ask,
}
use pyroflow.Client.AskErrors.{IsAwaited, ask_reraises}

abbrev sent : Sent
sent = record { id = pos 70; chat = some (pos 5) }

abbrev no_options : Options ℕ
no_options = record {
  parse_mode = none;
  entities = none;
  link_preview_options = none;
  schedule_date = none;
  business_connection_id = none;
  reply_markup = none;
  kw = [];
}

abbrev no_send_options : SendOptions ℕ
no_send_options = record {
  disable_notification = none;
  message_thread_id = none;
  direct_messages_topic_id = none;
  effect_id = none;
  reply_parameters = none;
  repeat_period = none;
  protect_content = none;
  allow_paid_broadcast = none;
  paid_message_star_count = none;
  suggested_post_parameters = none;
}

-- The listener fails with error 4.
abbrev failing : Wait → M ℕ (Exc ℕ) ℕ
failing wait w = (w + 1, raise (user_error 4))

abbrev adds : ℕ → Exc ℕ → Sent → M ℕ (Exc ℕ) (Unit {0})
adds n e m w = (w + n, ok tt)

abbrev swallow : ℕ × Outcome (Exc ℕ) (Unit {0}) → ℕ × Outcome (Exc ℕ) (Unit {0})
swallow (w, ok x) = (w, ok tt)
swallow (w, raise e) = if is_exception e then (w, ok tt) else (w, raise e)

abbrev has_number : Exc ℕ → ℕ → Bool
has_number (user_error n) x = n == x
has_number _ x = false

abbrev client : Client ℕ ℕ ℕ ℕ ℕ
client = record {
  send_message = λ chat text o s w. (w + 100, ok sent);
  edit_message_text = λ chat i text o w. (w + 200, ok sent);
  resolve_peer = λ name w. (w, ok (pos 6));
  listeners = λ w. (0, failing) ∷ [];
  ask_error_handlers = λ w. (0, (4, adds 1000) ∷ []) ∷ [];
  awaited = λ m w. swallow (m w);
  is_instance = has_number;
  is_inline = λ v. true;
}

client-IsAwaited : IsAwaited ℕ ℕ client.awaited
client-IsAwaited = record { returns = λ m w e. ground arith; swallows = λ m w x e q. ground arith }

abbrev question : Question ℕ ℕ ℕ ℕ ℕ
question = record {
  chat_id = by_id (pos 5);
  text = "name?";
  message_id = none;
  options = no_options;
  send_options = no_send_options;
  listen_user_id = none;
  listen_message_id = fixed none;
  meta = none;
  update_type = 0;
  error_handlers = some ((3, adds 5) ∷ []);
}

ask_reraises_example : ask client question 0 ≡ (1101, raise (user_error 4))
unfolding put_question listened_message final_chat_id lookup pyroflow.Prelude.ℕ_discrete
ask_reraises_example =
    ask_reraises client client-IsAwaited question 0 100 100 101 failing sent none (pos 5)
      (user_error 4) refl refl refl refl refl refl (λ e h. ground arith)
