-- ===== src/Models/Tests.antt =====
-- Keys with their candidates.
use pyroflow.Prelude.{Among, ◌≡◌, ◌↔◌, refl, none, some, [], ◌∷◌, map}
use pyroflow.Prelude.Int.{pos, negsuc}
use pyroflow.Models.{ListenerKey, sub_keys}
use pyroflow.Models.SubKeys.{
  Generalises, Descending, rank, Among-sub_keys, sub_keys-Descending, at_least, sub_keys-at_least,
}

abbrev full_key : ListenerKey
full_key = record { chat_id = negsuc 99; user_id = some (pos 7); message_id = some (pos 3) }

full_key_plan :
    sub_keys 2 full_key
    ≡ full_key ∷ record full_key { message_id = none } ∷ record full_key { user_id = none } ∷ []
unfolding sub_keys
full_key_plan = refl

Among-sub_keys_example :
    Among (record full_key { user_id = none }) (sub_keys 1 full_key)
    ↔ Generalises (record full_key { user_id = none }) full_key
Among-sub_keys_example = Among-sub_keys (record full_key { user_id = none }) full_key

sub_keys-Descending_example : Descending (map rank (sub_keys 1 full_key))
sub_keys-Descending_example = sub_keys-Descending full_key

sub_keys-at_least_example : sub_keys 2 full_key ≡ at_least 2 (sub_keys 1 full_key)
sub_keys-at_least_example = sub_keys-at_least 2 full_key
