-- ===== src/BotCommands.antt =====
-- `BotCommandsMixin` of pyroflow/client.py: the bookkeeping of the bot commands that handlers declare.
pub mod Counting
pub mod Pruning
pub mod Tasks
mod Tests
use pyroflow.Prelude.{
  ℕ, suc, ite, Bool, true, false, Option, none, some, List, [], ◌∷◌, ◌++◌, DecEq, if◌then◌else◌,
  ◌-◌, ◌+◌, ◌≡◌, refl,
}

-- `bot_command_groups`: the commands by language and scope.
abbrev pub Groups : Type 0 → Type 0 → Type 0
Groups K C = List (K × List C)

abbrev pub is_empty : {A : Type 0} → List A → Bool
is_empty [] = true
is_empty (x ∷ xs) = false

-- A group, unless it is empty.
abbrev pub nonempty : {K C : Type 0} → K → List C → Groups K C → Groups K C
nonempty k [] gs = gs
nonempty k (x ∷ xs) gs = (k, x ∷ xs) ∷ gs

module _ {C : Type 0} ⦃c_eq : DecEq C⦄ where
  -- `safe_call(_commands.remove, command, include_exc=ValueError)`
  unfoldable pub remove_first : C → List C → List C
  remove_first c [] = []
  remove_first c (x ∷ xs) = ite (c_eq.dec x c) xs (x ∷ remove_first c xs)

  unfoldable pub remove_each : List C → List C → List C
  remove_each [] xs = xs
  remove_each (c ∷ cs) xs = remove_each cs (remove_first c xs)

  -- `command in live`
  unfoldable pub elem : C → List C → Bool
  elem c [] = false
  elem c (x ∷ xs) = ite (c_eq.dec x c) true (elem c xs)

  unfoldable pub keep_live : List C → List C → List C
  keep_live live [] = []
  keep_live live (c ∷ cs) = if elem c live then c ∷ keep_live live cs else keep_live live cs

  -- `push_bot_commands` drops the duplicates of a group: `seen` is `unique` so far.
  unfoldable pub unique : List C → List C → List C
  unique seen [] = seen
  unique seen (c ∷ cs) = if elem c seen then unique seen cs else unique (seen ++ c ∷ []) cs

module _ {K C : Type 0} ⦃k_eq : DecEq K⦄ where
  -- `next((_commands for _key, _commands in groups if _key == key), ())`
  unfoldable pub commands_of : K → Groups K C → List C
  commands_of k [] = []
  commands_of k ((j, cs) ∷ gs) = ite (k_eq.dec j k) cs (commands_of k gs)

  -- `_collect_bot_commands`: a group that is not there goes to the end.
  unfoldable pub collect : K → List C → Groups K C → Groups K C
  collect k cs [] = (k, cs) ∷ []
  collect k cs ((j, xs) ∷ gs) = ite (k_eq.dec j k) ((j, xs ++ cs) ∷ gs) ((j, xs) ∷ collect k cs gs)

  -- The commands that the registered handlers declare, in one group for each key.
  unfoldable pub declared : List (K × List C) → Groups K C → Groups K C
  declared [] gs = gs
  declared ((k, cs) ∷ es) gs = declared es (collect k cs gs)

module _ {K C : Type 0} ⦃k_eq : DecEq K⦄ ⦃c_eq : DecEq C⦄ where
  -- `_discard_bot_commands`
  unfoldable pub discard : K → List C → Groups K C → Groups K C
  discard k cs [] = []
  discard k cs ((j, xs) ∷ gs) =
      ite (k_eq.dec j k) (nonempty j (remove_each cs xs) gs) ((j, xs) ∷ discard k cs gs)

  unfoldable pub prune_groups : Groups K C → Groups K C → Groups K C
  prune_groups live [] = []
  prune_groups live ((k, cs) ∷ gs) =
      nonempty k (keep_live (commands_of k live) cs) (prune_groups live gs)

  -- `_prune_bot_commands`, over the entries of the handlers that are registered.
  unfoldable pub prune : List (K × List C) → Groups K C → Groups K C
  prune entries groups =
      let live = declared entries [] in prune_groups live (if is_empty live then [] else groups)
