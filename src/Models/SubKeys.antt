-- ===== src/Models/SubKeys.antt =====
-- What `ListenerKey.sub_keys` yields: every more general key, each once, most specific first.
use pyroflow.Prelude.{
  Among, ℕ, ◌+◌, ◌*◌, ◌<◌, ◌≡◌, ◌⊎◌, ◌↔◌, Option, none, some, List, [], ◌∷◌, map, arith, is_some,
  if◌then◌else◌, leb,
}
use pyroflow.Prelude.Int.{ℤ}
use pyroflow.Models.{ListenerKey, sub_keys}

-- `j` names the same chat, and each other component of `j` is absent or that of `k`.
abbrev pub Generalises : ListenerKey → ListenerKey → Type 0
Generalises j k =
    (j.chat_id ≡ k.chat_id)
    × ((j.user_id ≡ none) ⊎ (j.user_id ≡ k.user_id))
    × ((j.message_id ≡ none) ⊎ (j.message_id ≡ k.message_id))

abbrev pub components : ListenerKey → ℕ
components k = 1 + (if is_some k.user_id then 1 else 0) + (if is_some k.message_id then 1 else 0)

abbrev pub rank : ListenerKey → ℕ
rank k = 2 * components k + (if is_some k.user_id then 1 else 0)

abbrev pub Descending : List ℕ → Type 0
Descending [] = Unit
Descending (x ∷ []) = Unit
Descending (x ∷ y ∷ l) = (y < x) × Descending (y ∷ l)

abbrev pub at_least : ℕ → List ListenerKey → List ListenerKey
at_least d [] = []
at_least d (k ∷ ks) = if leb d (components k) then k ∷ at_least d ks else at_least d ks

abbrev key : ℤ → Option ℤ → Option ℤ → ListenerKey
key c u m = record { chat_id = c; user_id = u; message_id = m }

fields_complete :
    (c : ℤ) (u m : Option ℤ) (j : ListenerKey)
    → Generalises j (key c u m)
    → Among j (sub_keys 1 (key c u m))
unfolding sub_keys
fields_complete c (some u) (some m) j h = ground arith
fields_complete c (some u) none j h = ground arith
fields_complete c none (some m) j h = ground arith
fields_complete c none none j h = ground arith

fields_sound :
    (c : ℤ) (u m : Option ℤ) (j : ListenerKey)
    → Among j (sub_keys 1 (key c u m))
    → Generalises j (key c u m)
unfolding sub_keys
fields_sound c (some u) (some m) j h = ground arith
fields_sound c (some u) none j h = ground arith
fields_sound c none (some m) j h = ground arith
fields_sound c none none j h = ground arith

-- A key is a candidate for an update's key exactly when it names the same chat and each of its
-- other components is absent or equal to the update's.
pub Among-sub_keys : (j k : ListenerKey) → Among j (sub_keys 1 k) ↔ Generalises j k
Among-sub_keys j k = (
  fields_sound k.chat_id k.user_id k.message_id j,
  fields_complete k.chat_id k.user_id k.message_id j,
)

fields-Descending : (c : ℤ) (u m : Option ℤ) → Descending (map rank (sub_keys 1 (key c u m)))
unfolding sub_keys
fields-Descending c (some u) (some m) = omega arith
fields-Descending c (some u) none = omega arith
fields-Descending c none (some m) = omega arith
fields-Descending c none none = omega arith

-- Candidates come with strictly falling rank: by the number of components, and among two keys
-- with as many the one that names the user first. So no candidate comes twice.
pub sub_keys-Descending : (k : ListenerKey) → Descending (map rank (sub_keys 1 k))
sub_keys-Descending k = fields-Descending k.chat_id k.user_id k.message_id

fields_at_least :
    (d : ℕ) (c : ℤ) (u m : Option ℤ) → sub_keys d (key c u m) ≡ at_least d (sub_keys 1 (key c u m))
unfolding sub_keys
fields_at_least d c (some u) (some m) = ground arith
fields_at_least d c (some u) none = ground arith
fields_at_least d c none (some m) = ground arith
fields_at_least d c none none = ground arith

-- A minimum number of components leaves out exactly the candidates with fewer.
pub sub_keys-at_least : (d : ℕ) (k : ListenerKey) → sub_keys d k ≡ at_least d (sub_keys 1 k)
sub_keys-at_least d k = fields_at_least d k.chat_id k.user_id k.message_id
