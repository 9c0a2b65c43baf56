-- ===== src/BotCommands/Tasks.antt =====
-- The tasks of `BotCommandsMixin` (pyroflow/client.py) beside those of Pyrogram: what follows a
-- handler's registration, and what is sent to Telegram. `split_bot_command_entry` and
-- `mark_bot_commands` are those of pyroflow/utils/misc_tools.py. A critical section is one step.
pub mod Registration
pub mod Publishing
use pyroflow.Prelude.{
  ℕ, ◌≡◌, ite, Bool, true, false, not, Option, none, some, List, [], ◌∷◌, ◌++◌, map, DecEq, Dict, M,
  Outcome, ok, raise, and_then, if◌then◌else◌,
}
use pyroflow.Errors.{Exc}
use pyroflow.BotCommands.{Groups, nonempty, collect, discard, unique, prune}

-- `BotCommandEntryT`: one command stands for the list of it.
pub data Entry (L S C : Type 0) : Type 0 where
  bare : List C → Entry L S C
  scoped : S → List C → Entry L S C
  localised : L → S → List C → Entry L S C

-- The key of a group: a language and a scope, or `None`.
abbrev pub GroupKey : Type 0 → Type 0 → Type 0
GroupKey L S = Option L × Option S

-- `split_bot_command_entry`.
unfoldable pub split_bot_command_entry : {L S C : Type 0} → Entry L S C → GroupKey L S × List C
split_bot_command_entry (bare cs) = ((none, none), cs)
split_bot_command_entry (scoped scope cs) = ((none, some scope), cs)
split_bot_command_entry (localised language scope cs) = ((some language, some scope), cs)

-- A handler, as the mixin sees it: what `mark_bot_commands` stored on it.
pub record Marked (H L S C : Type 0) : Type 0 where
  pub identity : H
  pub is_message_handler : Bool
  pub bot_commands : List (Entry L S C)

-- `mark_bot_commands(*entries)`, on the handlers of a function: only handlers of messages are marked.
unfoldable pub mark_bot_commands :
    {H L S C : Type 0} → List (Entry L S C) → List (Marked H L S C) → List (Marked H L S C)
mark_bot_commands entries [] = []
mark_bot_commands entries (h ∷ hs) =
    (if h.is_message_handler then record h { bot_commands = entries } else h)
    ∷ mark_bot_commands entries hs

-- A task on the event loop: Pyrogram's, that of the mixin, or that of the mixin behind its test.
pub data Task (H : Type 0) : Type 0 where
  pyro_add pyro_remove : H → ℕ → Task H
  track : H → Bool → Task H
  apply_track : H → Bool → Task H

-- `groups` is Pyrogram's table of handlers, `busy` says whether a worker holds its lock, and `waiting`
-- are the tasks that wait for the locks, in order.
pub record Bot (H K C : Type 0) : Type 0 where
  pub groups : Dict ℕ (List H)
  pub bot_command_groups : Groups K C
  pub busy : Bool
  pub waiting : List (Task H)

-- What Pyrogram's tasks do to its table under the locks.
pub record Pyrogram (H : Type 0) : Type 0 where
  pub add : H → ℕ → Dict ℕ (List H) → Dict ℕ (List H)
  pub remove : H → ℕ → Dict ℕ (List H) → Dict ℕ (List H)

module _ {H : Type 0} ⦃h_eq : DecEq H⦄ where
  unfoldable pub holds : H → List H → Bool
  holds h [] = false
  holds h (x ∷ xs) = ite (h_eq.dec x h) true (holds h xs)

  -- `any(handler in handlers for handlers in self.dispatcher.groups.values())`
  unfoldable pub is_registered : H → Dict ℕ (List H) → Bool
  is_registered h [] = false
  is_registered h ((g, hs) ∷ gs) = if holds h hs then true else is_registered h gs

module _ {H L S C : Type 0} ⦃h_eq : DecEq H⦄ ⦃k_eq : DecEq (GroupKey L S)⦄ ⦃c_eq : DecEq C⦄
    (pyro : Pyrogram H) (entries : H → List (Entry L S C)) where
  -- `for entry in ...: track(*split_bot_command_entry(entry))`
  unfoldable pub track_each :
      Bool → List (Entry L S C) → Groups (GroupKey L S) C → Groups (GroupKey L S) C
  track_each added [] gs = gs
  track_each added (e ∷ es) gs =
      let (k, cs) = split_bot_command_entry e in
      track_each added es (if added then collect k cs gs else discard k cs gs)

  -- What a task does once it has its locks.
  unfoldable pub run_locked : Task H → Bot H (GroupKey L S) C → Bot H (GroupKey L S) C
  run_locked (pyro_add h g) s = record s { groups = pyro.add h g s.groups }
  run_locked (pyro_remove h g) s = record s { groups = pyro.remove h g s.groups }
  run_locked (track h added) s = s
  run_locked (apply_track h added) s = record s {
    bot_command_groups = track_each added (entries h) s.bot_command_groups;
  }

  -- A task asks for the locks: it runs at once, or it waits behind the others.
  unfoldable pub acquire_locks : Task H → Bot H (GroupKey L S) C → Bot H (GroupKey L S) C
  acquire_locks t s = if s.busy then record s { waiting = s.waiting ++ t ∷ [] } else run_locked t s

  -- The first step of a task. That of the mixin looks at the table before it asks for the locks.
  unfoldable pub first_step : Task H → Bot H (GroupKey L S) C → Bot H (GroupKey L S) C
  first_step (track h added) s = elim (entries h) [
    | [] ↦ s
    | e ∷ es ↦ elim (is_registered h s.groups) [
      | true ↦ if added then acquire_locks (apply_track h true) s else s
      | false ↦ if added then s else acquire_locks (apply_track h false) s
    ]
  ]
  first_step t s = acquire_locks t s

  -- `add_handler` and `remove_handler` with the first steps of the two tasks that each creates.
  unfoldable pub add_handler : H → ℕ → Bot H (GroupKey L S) C → Bot H (GroupKey L S) C
  add_handler h g s = first_step (track h true) (first_step (pyro_add h g) s)

  unfoldable pub remove_handler : H → ℕ → Bot H (GroupKey L S) C → Bot H (GroupKey L S) C
  remove_handler h g s = first_step (track h false) (first_step (pyro_remove h g) s)

  unfoldable pub run_all : List (Task H) → Bot H (GroupKey L S) C → Bot H (GroupKey L S) C
  run_all [] s = s
  run_all (t ∷ ts) s = run_all ts (run_locked t s)

  -- The workers give their locks back, and the tasks that waited run.
  unfoldable pub release_locks : Bot H (GroupKey L S) C → Bot H (GroupKey L S) C
  release_locks s = run_all s.waiting (record s { busy = false; waiting = [] })
