-- ===== src/UpdateListener/Callback/Tests.antt =====
-- A button under a question, with the in-memory coordinators.
use pyroflow.Prelude.{ℕ, ◌≡◌, refl, lookup, ℕ_discrete, true, false, none, some, [], ◌∷◌, raise}
use pyroflow.Prelude.Int.{pos, ℤ_discrete}
use pyroflow.Models.{ListenerKey, sub_keys, ListenerKey-discrete}
use pyroflow.Errors.{unresolved_update}
use pyroflow.ListenerCoordinator.Memory.{Registry, nat_eq, memory}
use pyroflow.ListenerCoordinator.Memory.Contract.{memory_contract}
use pyroflow.Session.{pending, ListenerModel, Session, object, no_fields}
use pyroflow.Client.{with_message_id, has_message_id}
use pyroflow.UpdateListener.{Hooks, is_listenable, extract_key}
use pyroflow.UpdateListener.Cancel.{cleared, withdrawn}
use pyroflow.UpdateListener.Callback.{
  CallbackQuery, callback_hooks, query_is_listenable, query_key, message_of, resolve_query,
}
use pyroflow.UpdateListener.Callback.Buttons.{button_cancels_question}

abbrev key : ListenerKey
key = record { chat_id = pos 5; user_id = some (pos 7); message_id = some (pos 9) }

abbrev query : ℕ → CallbackQuery
query u = record { from_user = pos 7; message = some (record { id = pos 9; chat = some (pos 5) }) }

abbrev hooks : Hooks ℕ
hooks = callback_hooks query (record {
  is_update = λ u. true;
  is_listenable_func = none;
  extract_key_func = none;
  bypass_func = none;
})

abbrev user_key : ListenerKey
user_key = record key { message_id = none }

abbrev other_chat : ListenerKey
other_chat = record { chat_id = pos 6; user_id = none; message_id = none }

abbrev session : ListenerKey → ListenerModel ℕ → Session ℕ Registry ℕ
session k l = record {
  coordinator = record { entries = (k, 0) ∷ []; counter = 1 };
  listeners = (k, l) ∷ [];
  futures = λ f. record { state = pending; callback_key = k };
  next_future = 1;
  ready = [];
}

abbrev listener : ListenerKey → ListenerModel ℕ
listener k = record { key = k; meta = none; future = 0; coordinator_id = some 0 }

-- The listener of a question whose number is 9.
abbrev asking : ListenerModel ℕ
asking = record (listener user_key) { meta = with_message_id (some (object no_fields)) (pos 9) }

button_cancels_question_example :
    resolve_query memory memory hooks query 42
      (session other_chat (listener other_chat), some (session user_key asking))
    ≡ (
      (
        session other_chat (listener other_chat),
        some (
            cleared memory (memory_contract ℕ) user_key true (
              withdrawn memory
                (memory_contract ℕ)
                user_key
                true
                false
                none
                (session user_key asking)
                asking)),
      ),
      raise (unresolved_update 42),
    )
unfolding sub_keys ListenerKey-discrete ℕ_discrete ℤ_discrete lookup is_listenable extract_key
    callback_hooks query_is_listenable query_key message_of has_message_id
button_cancels_question_example =
    button_cancels_question memory memory (memory_contract ℕ) hooks query 42 key (pos 9)
      (session other_chat (listener other_chat)) (session user_key asking) no_fields (key ∷ [])
      (record key { user_id = none }
        ∷ record { chat_id = pos 5; user_id = none; message_id = none }
        ∷ [])
      user_key asking refl refl refl (refl, (refl, (refl, (refl, tt)))) refl (refl, tt) refl refl
      refl refl
