-- ===== src/ListenerCoordinator/Redis/Packing.antt =====
-- How pyroflow/listener_coordinator/redis_listener_coordinator.py writes a key as a key of the
-- server (`_pack_key`), reads it back (`_unpack_key`), and what a session does with the messages of
-- the cancel channel (`_listen_for_cancel_signals`).
pub mod Published
pub mod Applied
mod Tests
use pyroflow.Prelude.{
  ℕ, suc, zero, Option, none, some, List, [], ◌∷◌, ◌++◌, map, ite, Outcome, ok, raise,
}
use pyroflow.Prelude.Int.{ℤ}
use pyroflow.Models.{ListenerKey}
use pyroflow.Errors.{Exc, value_error, type_error}
use pyroflow.Text.{Text, Text-discrete, split, join, code_eq}
use pyroflow.Text.Decimal.{str_int, read_int}
use pyroflow.ListenerCoordinator.Redis.Signals.{read_signal}

-- `self._sep` and `self._null`: "|" and "_".
abbrev pub sep : ℕ
sep = 124

abbrev pub null : Text
null = 95 ∷ []

-- "listen"
abbrev pub listen : Text
listen = 108 ∷ 105 ∷ 115 ∷ 116 ∷ 101 ∷ 110 ∷ []

pub data Section : Type 0 where
  registry lock : Section

abbrev pub section_name : Section → Text
section_name registry = 114 ∷ 101 ∷ 103 ∷ 105 ∷ 115 ∷ 116 ∷ 114 ∷ 121 ∷ []
section_name lock = 108 ∷ 111 ∷ 99 ∷ 107 ∷ []

-- `key.to_tuple`
unfoldable pub to_tuple : ListenerKey → List (Option ℤ)
to_tuple k = some k.chat_id ∷ k.user_id ∷ k.message_id ∷ []

-- `str(i if i is not None else self._null)`
unfoldable pub field_text : Option ℤ → Text
field_text none = null
field_text (some i) = str_int i

-- `self._key_format`, filled in.
unfoldable pub pack_key : Text → Section → ListenerKey → Text
pack_key update_type_name section k =
    let bar = sep ∷ [] in
    listen
    ++ (bar
        ++ (section_name section
            ++ (bar ++ (update_type_name ++ (bar ++ join bar (map field_text (to_tuple k)))))))

-- `None if key == self._null else int(key)`
unfoldable pub read_field : {U : Type 0} → Text → Outcome (Exc U) (Option ℤ)
read_field t =
    ite (Text-discrete t null) (ok none)
      (elim (read_int t) [ none ↦ raise value_error | some i ↦ ok (some i) ])

unfoldable pub read_fields : {U : Type 0} → List Text → Outcome (Exc U) (List (Option ℤ))
read_fields [] = ok []
read_fields (t ∷ ts) = elim (read_field t) [
  | raise e ↦ raise e
  | ok i ↦ elim (read_fields ts) [ raise e ↦ raise e | ok is ↦ ok (i ∷ is) ]
]

-- `ListenerKey(*keys)`: a key has a chat, the other fields may be left off. A `None` in place of the
-- chat, which Python would take, is an error here.
unfoldable pub listener_key : {U : Type 0} → List (Option ℤ) → Outcome (Exc U) ListenerKey
listener_key (some chat ∷ []) = ok (record { chat_id = chat; user_id = none; message_id = none })
listener_key (some chat ∷ user ∷ []) =
    ok (record { chat_id = chat; user_id = user; message_id = none })
listener_key (some chat ∷ user ∷ message ∷ []) =
    ok (record { chat_id = chat; user_id = user; message_id = message })
listener_key _ = raise type_error

-- `packed_key.split(self._sep)[3:]`
abbrev pub after_three : List Text → List Text
after_three (a ∷ b ∷ c ∷ rest) = rest
after_three _ = []

unfoldable pub unpack_key : {U : Type 0} → Text → Outcome (Exc U) ListenerKey
unpack_key packed_key = elim (read_fields (after_three (split (sep ∷ []) packed_key))) [
  | raise e ↦ raise e
  | ok fields ↦ listener_key fields
]

-- What `pubsub.listen()` yields: a message with its payload, or a notice of the subscription.
pub data Notice : Type 0 where
  subscribed : Notice
  published : Text → Notice

-- The rounds of `_listen_for_cancel_signals`, until the channel ends or the task crashes: the tasks
-- `_apply_cancel_signal` that they start, in order.
unfoldable pub listen_for_cancel_signals :
    {U : Type 0} → List Notice → List (ListenerKey × Text) × Outcome (Exc U) (Unit {0})
listen_for_cancel_signals [] = ([], ok tt)
listen_for_cancel_signals (subscribed ∷ ns) = listen_for_cancel_signals ns
listen_for_cancel_signals (published payload ∷ ns) = elim (read_signal sep payload) [
  | none ↦ listen_for_cancel_signals ns
  | some (packed_key, coordinator_id) ↦ elim (unpack_key packed_key) [
    | raise e ↦ ([], raise e)
    | ok k ↦ let (tasks, r) = listen_for_cancel_signals ns in ((k, coordinator_id) ∷ tasks, r)
  ]
]
