-- ===== src/UpdateListener/Bypass/Tests.antt =====
-- A bot called "bot" with one command, "st".
use pyroflow.Prelude.{
  ℕ, suc, ◌≡◌, refl, ◌↔◌, true, none, some, List, [], ◌∷◌, M, Outcome, ok, lookup,
}
use pyroflow.Errors.{Exc}
use pyroflow.Text.{Text}
use pyroflow.UpdateListener.Bypass.{Bot, Words, Cache, is_name, get_bot_commands, is_bypass}
use pyroflow.UpdateListener.Bypass.Command.{space_not_name}
use pyroflow.UpdateListener.Bypass.Registered.{Bypasses, bypass_iff}

abbrev same : Text → Text
same t = t

-- The world counts the fetches.
abbrev fetch : M ℕ (Exc ℕ) (Outcome (Exc ℕ) (List Text))
fetch w = (suc w, ok (ok ((115 ∷ 116 ∷ []) ∷ [])))

abbrev bot : Bot
bot = record { id = 1; username = some (98 ∷ 111 ∷ 116 ∷ []); usernames = [] }

-- "/st@bot"
abbrev message : Words
message = record { text = some (47 ∷ 115 ∷ 116 ∷ 64 ∷ 98 ∷ 111 ∷ 116 ∷ []); caption = none }

abbrev fresh : ℕ × Cache
fresh = (0, [])

known : (get_bot_commands is_name same fetch bot.id fresh).1 ≡ ok ((115 ∷ 116 ∷ []) ∷ [])
unfolding get_bot_commands lookup
known = refl

bypass_iff_example :
    ((is_bypass is_name same fetch bot message fresh).1 ≡ ok true
      ↔ Bypasses is_name same fetch space_not_name bot message fresh ((115 ∷ 116 ∷ []) ∷ []) known)
    × (get_bot_commands is_name same fetch bot.id
          (get_bot_commands is_name same fetch bot.id fresh).0
        ≡ ((get_bot_commands is_name same fetch bot.id fresh).0, ok ((115 ∷ 116 ∷ []) ∷ [])))
bypass_iff_example =
    bypass_iff is_name same fetch space_not_name bot message fresh ((115 ∷ 116 ∷ []) ∷ []) known
