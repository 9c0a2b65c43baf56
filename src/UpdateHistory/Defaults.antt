-- ===== src/UpdateHistory/Defaults.antt =====
-- The default hooks of pyroflow/update_history/message_history.py and callback_query_history.py.
use pyroflow.Prelude.{
  ℕ, ◌≡◌, refl, Bool, true, false, or_default, Option, none, some, List, Outcome, ok, raise,
  is_some, Option-cases, inl, inr,
}
use pyroflow.Prelude.Int.{ℤ}
use pyroflow.Errors.{Exc, attribute_error}
use pyroflow.Text.{Text}
use pyroflow.UpdateHistoryStore.{UpdateHistoryStore as Store}
use pyroflow.UpdateHistory.{
  HistoryHooks, HistoryState, is_recordable, extract_key, extract_data, store_handlers, record_many,
}

-- What the hooks read of a message, and of a callback query.
pub record Message : Type 0 where
  pub id : ℤ
  pub chat : Option ℤ
  pub from_user : Option ℤ
  pub text : Option Text

pub record Query : Type 0 where
  pub from_user : Option ℤ
  pub message : Option Message
  pub payload : Option Text

-- A chat, a sender and a message.
abbrev pub Key : Type 0
Key = ℤ × Option ℤ × ℤ

-- `MessageHistory._extract_key`
unfoldable pub message_key : Message → Outcome (Exc Message) Key
message_key m = elim m.chat [
  | none ↦ raise attribute_error
  | some chat_id ↦ ok (chat_id, m.from_user, m.id)
]

-- `MessageHistory.__init__`
unfoldable pub message_history :
    HistoryHooks Message Key (Option Text) → HistoryHooks Message Key (Option Text)
message_history h = record h {
  is_recordable_func = or_default h.is_recordable_func (λ m. ok (is_some m.chat));
  extract_key_func = or_default h.extract_key_func message_key;
  extract_data_func = or_default h.extract_data_func (λ m. ok m.text);
}

-- `m and m.chat is not None`
unfoldable pub query_is_recordable : Query → Bool
query_is_recordable q = elim q.message [ none ↦ false | some m ↦ is_some m.chat ]

-- `CallbackQueryHistory._extract_key`
unfoldable pub query_key : Query → Outcome (Exc Query) Key
query_key q = elim q.message [
  | none ↦ raise attribute_error
  | some m ↦ elim m.chat [
    | none ↦ raise attribute_error
    | some chat_id ↦ ok (chat_id, q.from_user, m.id)
  ]
]

-- `CallbackQueryHistory.__init__`
unfoldable pub query_history :
    HistoryHooks Query Key (Option Text) → HistoryHooks Query Key (Option Text)
query_history h = record h {
  is_recordable_func = or_default h.is_recordable_func (λ q. ok (query_is_recordable q));
  extract_key_func = or_default h.extract_key_func query_key;
  extract_data_func = or_default h.extract_data_func (λ q. ok q.payload);
}

-- No hook is given, and every update is of the type.
abbrev pub no_hooks : {U : Type 0} → HistoryHooks U Key (Option Text)
no_hooks = record {
  is_update = λ u. true;
  is_recordable_func = none;
  extract_key_func = none;
  extract_data_func = none;
}

module _ {S : Type 0} (now : ℕ) (handlers : List ℕ) (s : HistoryState S) where
  stored :
      {U K D : Type 0} (h : HistoryHooks U K D) (st : Store K D S) (u : U) (k : K) (d : D)
      → extract_key h u ≡ ok k
      → extract_data h u ≡ ok d
      → (store_handlers h st now u handlers s).1 ≡ ok tt
  unfolding store_handlers
  stored h st u k d keyed read = rw (keyed, store_handlers) (rw read refl)

  record_message :
      (st : Store Key (Option Text) S) (m : Message)
      → (record_many (message_history no_hooks) st now m handlers true s).1 ≡ ok tt
  unfolding record_many is_recordable extract_key extract_data message_history message_key
  record_message st m = elim (Option-cases m.chat) [
    | inl e ↦ rw e refl
    | inr (chat_id, e) ↦ rw e (
        stored (message_history no_hooks) st m (chat_id, m.from_user, m.id) m.text (rw e refl) refl)
  ]

  record_query :
      (st : Store Key (Option Text) S) (q : Query)
      → (record_many (query_history no_hooks) st now q handlers true s).1 ≡ ok tt
  unfolding record_many is_recordable extract_key extract_data query_history query_key
      query_is_recordable
  record_query st q = elim (Option-cases q.message) [
    | inl e ↦ rw e refl
    | inr (m, e) ↦ elim (Option-cases m.chat) [
      | inl f ↦ rw e (rw f refl)
      | inr (chat_id, f) ↦ rw e (
          rw f (
            stored (query_history no_hooks) st q (chat_id, q.from_user, m.id) q.payload
              (rw e (rw f refl)) refl))
    ]
  ]

  -- With the default hooks, a checked recording never fails, neither of a message nor of a callback
  -- query, whether or not they have a chat, a sender, a message and data.
  pub defaults_record :
      (st : Store Key (Option Text) S)
      → ((m : Message)
          → (record_many (message_history no_hooks) st now m handlers true s).1 ≡ ok tt)
        × ((q : Query) → (record_many (query_history no_hooks) st now q handlers true s).1 ≡ ok tt)
  defaults_record st = (record_message st, record_query st)
