-- ===== src/UpdateCoordinator/Defaults.antt =====
-- The default hooks of pyroflow/update_coordinated/message_coordinated.py and
-- callback_query_coordinated.py. `get_peer_id` is Pyrogram's, over its type `P` of peers.
use pyroflow.Prelude.{
  ◌≡◌, refl, sym, ◌↔◌, Bool, true, false, raise, or_default, none, List, [], ◌∷◌, ok, if◌then◌else◌,
}
use pyroflow.Prelude.Int.{ℤ}
use pyroflow.Errors.{type_error}
use pyroflow.Text.{Text}
use pyroflow.Text.Fields.{Lacks}
use pyroflow.UpdateCoordinator.{Coordinated, extract_update_id}
use pyroflow.UpdateCoordinator.Keys.{Part, number, text, handled, sep, build_key, build_key_apart}

-- What the hooks read of a message: its peer and its number.
pub record Message (P : Type 0) : Type 0 where
  pub peer_id : P
  pub id : ℤ

-- A callback query has a textual number.
pub record Query : Type 0 where
  pub id : Text

module _ {P : Type 0} (get_peer_id : P → ℤ) where
  -- `MessageCoordinated._extract_key` and `_extract_update_id`
  unfoldable pub message_key : Message P → List Part
  message_key m = number (get_peer_id m.peer_id) ∷ number m.id ∷ []

  -- `MessageCoordinated.__init__`
  unfoldable pub message_coordinated :
      Coordinated (Message P) (List Part) → Coordinated (Message P) (List Part)
  message_coordinated h = record h {
    is_coordinatable_func = or_default h.is_coordinatable_func (λ m. ok true);
    extract_key_func = or_default h.extract_key_func (λ m. ok (message_key m));
    extract_update_id_func = or_default h.extract_update_id_func (λ m. ok (message_key m));
  }

-- `CallbackQueryCoordinated._extract_key` and `_extract_update_id`
unfoldable pub query_key : Query → List Part
query_key q = text q.id ∷ []

-- `CallbackQueryCoordinated.__init__`
unfoldable pub query_coordinated : Coordinated Query (List Part) → Coordinated Query (List Part)
query_coordinated h = record h {
  is_coordinatable_func = or_default h.is_coordinatable_func (λ q. ok true);
  extract_key_func = or_default h.extract_key_func (λ q. ok (query_key q));
  extract_update_id_func = or_default h.extract_update_id_func (λ q. ok (query_key q));
}

validated :
    {E A : Type 0} (b : Bool) {a k : A} (e : E) → (if b then ok a else raise e) ≡ ok k → a ≡ k
validated true e found = cc
validated false e found = cc

-- With the default hooks, let the identities of two messages be extracted. The backend registers
-- both messages under one key exactly if they are the same message: the same number at the same
-- peer. The name of the update type must not hold the separator.
pub message_identity :
    {P : Type 0} (get_peer_id : P → ℤ) (is_update : Message P → Bool) (name : Text)
    (m n : Message P) (k j : List Part)
    → Lacks sep name
    → let h = message_coordinated get_peer_id (record {
      is_update = is_update;
      is_coordinatable_func = none;
      extract_key_func = none;
      extract_update_id_func = none;
    }) in
      extract_update_id h m ≡ ok k
      → extract_update_id h n ≡ ok j
      → build_key name k handled ≡ build_key name j handled
        ↔ ((get_peer_id m.peer_id ≡ get_peer_id n.peer_id) × (m.id ≡ n.id))
unfolding extract_update_id message_coordinated message_key
message_identity get_peer_id is_update name m n k j l first second =
    let apart =
      build_key_apart name (get_peer_id m.peer_id) (get_peer_id n.peer_id) (m.id ∷ []) (n.id ∷ [])
        handled handled l in
    rw
      (
        sym (validated (is_update m) type_error first),
        sym (validated (is_update n) type_error second),
      )
      (
        (λ e. let (section, ids) = apart.0 e in (cc, cc)),
        λ e. apart.1 (refl, (let (peers, ids) = e in cc)),
      )
