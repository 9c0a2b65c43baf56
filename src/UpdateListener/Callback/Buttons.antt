-- ===== src/UpdateListener/Callback/Buttons.antt =====
-- What happens to a question of `ask` when a button under it is pressed.
use pyroflow.Prelude.{
  ◌≡◌, refl, if_pos, true, false, none, some, List, [], ◌∷◌, ◌++◌, All, DecEq, lookup, ok, raise,
  if◌then◌else◌, Bool-cases, inl, inr,
}
use pyroflow.Prelude.Int.{ℤ, ℤ_discrete}
use text.Mathlib.Text.{◌==◌}
use pyroflow.Models.{ListenerKey, listener_key_eq, sub_keys}
use pyroflow.Errors.{unresolved_update}
use pyroflow.ListenerCoordinator.{ListenerCoordinator, IsRegistry}
use pyroflow.Session.{number, object, JsonFields, no_fields, field, Session, ListenerModel, done}
use pyroflow.Client.{with_message_id, add_field, has_message_id}
use pyroflow.UpdateListener.{
  Hooks, is_listenable, extract_key, has_listeners, try_keys, on_unresolved,
}
use pyroflow.UpdateListener.Cancel.{cleared, withdrawn, cancel_pending}
use pyroflow.UpdateListener.Callback.{
  CallbackQuery, message_of, is_number, field_is, names_message, cancel_asking, cancel_question,
  on_unresolved_query, resolve_query,
}

-- No listener waits under the key.
abbrev pub Absent : {U C Token : Type 0} → Session U C Token → ListenerKey → Type 0
Absent s k = lookup k s.listeners ≡ none

field_is-add_field :
    (fs : JsonFields) (i : ℤ)
    → has_message_id fs ≡ false
    → field_is (add_field "message_id" (number i) fs) i ≡ true
unfolding has_message_id field_is add_field is_number
field_is-add_field no_fields i e = rw (if_pos (ℤ_discrete i i) refl) refl
field_is-add_field (field name value fs) i e = elim (Bool-cases (name == "message_id")) [
  | inl h ↦ let bad = rw (h, has_message_id) at e in cc
  | inr h ↦ rw (h, field_is) (field_is-add_field fs i (rw (h, has_message_id) at e))
]

-- The metadata that `ask` attaches to its wait names the question's message.
names_message-with_message_id :
    (fs : JsonFields) (i : ℤ)
    → has_message_id fs ≡ false
    → names_message (with_message_id (some (object fs)) i) i ≡ true
unfolding names_message with_message_id
names_message-with_message_id fs i e = rw e (field_is-add_field fs i e)

module _ {U C Token : Type 0} ⦃d : DecEq Token⦄ (c : ListenerCoordinator U C Token) (h : Hooks U)
    (u : U) (s : Session U C Token) where
  try_keys-Absent :
      (subs : List ListenerKey) → All (Absent s) subs → try_keys c h u subs s ≡ (s, ok false)
  unfolding try_keys
  try_keys-Absent [] a = refl
  try_keys-Absent (sub ∷ subs) (e, a) = rw (e, try_keys) (try_keys-Absent subs a)

module _ {U D Token : Type 0} ⦃d : DecEq Token⦄ (messages : ListenerCoordinator U D Token)
    (R : IsRegistry U D Token messages) (s : Session U D Token) (i : ℤ) (sub : ListenerKey)
    (l : ListenerModel Token) (post : List ListenerKey) where
  cancel_asking-first :
      (pre : List ListenerKey)
      → All (Absent s) pre
      → lookup sub s.listeners ≡ some l
      → names_message l.meta i ≡ true
      → done s l.future ≡ false
      → cancel_asking messages i (pre ++ sub ∷ post) s
        ≡ (cleared messages R sub true (withdrawn messages R sub true false none s l), ok tt)
  unfolding cancel_asking
  cancel_asking-first [] a here named p =
      rw (here, cancel_asking)
        (rw named (rw (cancel_pending messages R sub true false none s l here refl p) refl))
  cancel_asking-first (k ∷ pre) (e, a) here named p =
      rw (e, cancel_asking) (cancel_asking-first pre a here named p)

module _ {U C D Token : Type 0} ⦃d : DecEq Token⦄ (c : ListenerCoordinator U C Token)
    (messages : ListenerCoordinator U D Token) (R : IsRegistry U D Token messages) (h : Hooks U)
    (query : U → CallbackQuery) (u : U) (k : ListenerKey) (i : ℤ) where
  -- Let a listenable query be about a message, and let no listener for queries wait under one of
  -- its candidate keys. Let the first candidate key under which a listener for messages waits have
  -- one that `ask` made for that very message, with metadata that did not name one, and let its
  -- future be pending. If any listener for queries waits, then `UnresolvedUpdate` is raised, the
  -- question's listener is gone, its wait fails by `ListenerCancelled`, and its registration
  -- is cleared. A defect: if none does, then `resolve` returns, and the question goes on waiting.
  pub button_cancels_question :
      (own : Session U C Token) (s : Session U D Token) (fs : JsonFields)
      (pre post : List ListenerKey) (sub : ListenerKey) (l : ListenerModel Token)
      → is_listenable h u ≡ ok true
      → extract_key h u ≡ ok k
      → message_of (query u) ≡ some i
      → All (Absent own) (sub_keys 1 k)
      → sub_keys 1 k ≡ pre ++ sub ∷ post
      → All (Absent s) pre
      → lookup sub s.listeners ≡ some l
      → has_message_id fs ≡ false
      → l.meta ≡ with_message_id (some (object fs)) i
      → done s l.future ≡ false
      → resolve_query c messages h query u (own, some s) ≡ (
          if has_listeners own.listeners
          then (
            (
              own,
              some (cleared messages R sub true (withdrawn messages R sub true false none s l)),
            ),
            raise (unresolved_update u),
          )
          else ((own, some s), ok tt))
  unfolding resolve_query on_unresolved_query on_unresolved cancel_question
  button_cancels_question own s fs pre post sub l listenable keyed about quiet split before here
        unnamed asked p =
      let cancelled : cancel_asking messages i (sub_keys 1 k) s
          ≡ (cleared messages R sub true (withdrawn messages R sub true false none s l), ok tt) =
        rw split (
          cancel_asking-first messages R s i sub l post pre before here
            (rw asked (names_message-with_message_id fs i unnamed)) p) in
      elim (Bool-cases (has_listeners own.listeners)) [
        | inl active ↦
            rw (listenable, resolve_query)
              (rw keyed (
                rw active (
                  rw (try_keys-Absent c h u own (sub_keys 1 k) quiet)
                    (rw (about, cancel_question) (rw (cancelled) refl)))))
        | inr idle ↦ rw (listenable, resolve_query) (rw keyed (rw idle refl))
      ]
