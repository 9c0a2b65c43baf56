-- ===== src/BotCommands/Tests.antt =====
-- Groups of commands that are numbers.
use pyroflow.Prelude.{
  Among, ℕ, List, ◌≤◌, ◌≡◌, ◌↔◌, [], ◌∷◌, refl, if_pos, true, false, none, some, Option, ◌⊎◌, DecEq,
  ℕ_discrete,
}
use pyroflow.ListenerCoordinator.Memory.{nat_eq}
use pyroflow.BotCommands.{Groups, commands_of, collect, discard, prune}
use pyroflow.BotCommands.Counting.{count, OnePerKey, discard-collect}
use pyroflow.BotCommands.Pruning.{IsDeclared}
use pyroflow.BotCommands.Tasks.{
  Entry, bare, GroupKey, Pyrogram, Bot, holds, is_registered, add_handler, release_locks,
}
use pyroflow.BotCommands.Tasks.Registration.{IsPyrogram, add_handler_collects}
use pyroflow.BotCommands.Tasks.Publishing.{
  calls, keys, push_bot_commands, remove_bot_commands, push_publishes, push_remove,
}
use pyroflow.Errors.{Exc, timeout_error}

abbrev groups : Groups ℕ ℕ
groups = (0, 5 ∷ 6 ∷ []) ∷ (1, 5 ∷ []) ∷ []

abbrev entries : List (ℕ × List ℕ)
entries = (0, 5 ∷ []) ∷ []

push_publishes_example :
    OnePerKey (calls (prune entries groups))
    × ((j c : ℕ)
        → (Among c (commands_of j (calls (prune entries groups)))
            ↔ (Among c (commands_of j groups) × IsDeclared j c entries))
          × (count c (commands_of j (calls (prune entries groups))) ≤ 1))
push_publishes_example = push_publishes entries groups (((λ e. cc), tt), (tt, tt))

discard-collect_example :
    count 5 (commands_of 0 (discard 0 (5 ∷ 7 ∷ []) (collect 0 (5 ∷ 7 ∷ []) groups)))
    ≡ count 5 (commands_of 0 groups)
discard-collect_example = discard-collect 0 0 (5 ∷ 7 ∷ []) 5 groups (((λ e. cc), tt), (tt, tt))

-- Telegram refuses every deletion of one group.
abbrev refuses : List ℕ → Option (Exc ℕ)
refuses (k ∷ []) = some timeout_error
refuses ks = none

push_remove_example :
    remove_bot_commands refuses (push_bot_commands {X = ℕ} (λ gs. none) entries groups).1
    ≡ refuses (keys (calls (prune entries groups)))
push_remove_example = push_remove {X = ℕ} (λ gs. none) refuses entries groups

-- Pyrogram's tasks put a handler into a group of its own, and take all handlers away.
abbrev pyrogram : Pyrogram ℕ
pyrogram = record { add = λ h g gs. (g, h ∷ []) ∷ gs; remove = λ h g gs. [] }

pyrogram-IsPyrogram : IsPyrogram pyrogram
unfolding is_registered holds
pyrogram-IsPyrogram = record { added = λ h g gs. rw (if_pos (nat_eq.dec h h) refl) refl }

abbrev bot_entries : ℕ → List (Entry ℕ ℕ ℕ)
bot_entries h = bare (5 ∷ []) ∷ []

unfoldable key-discrete : Discrete (GroupKey ℕ ℕ)
key-discrete = hlevel ℕ_discrete

instance abbrev key_eq : DecEq (GroupKey ℕ ℕ)
key_eq = record { dec = key-discrete }

abbrev bot : Bot ℕ (GroupKey ℕ ℕ) ℕ
bot = record { groups = []; bot_command_groups = []; busy = false; waiting = [] }

add_handler_collects_example :
    let end = release_locks pyrogram bot_entries (add_handler pyrogram bot_entries 3 0 bot) in
    (is_registered 3 end.groups ≡ true)
    × (((false ≡ true) × (end.bot_command_groups ≡ []))
        ⊎ ((false ≡ false)
            × ((j : GroupKey ℕ ℕ) (c : ℕ)
                → Among c (commands_of j end.bot_command_groups)
                  ↔ (⊥ ⊎ (((j ≡ (none, none)) × ((c ≡ 5) ⊎ ⊥)) ⊎ ⊥)))))
unfolding is_registered commands_of
add_handler_collects_example =
    add_handler_collects pyrogram pyrogram-IsPyrogram bot_entries 3 0 bot refl refl
