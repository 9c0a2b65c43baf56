-- ===== src/BotCommands/Tasks/Publishing.antt =====
-- `push_bot_commands`, `remove_bot_commands`, `start` and `stop` of `BotCommandsMixin`
-- (pyroflow/client.py). Telegram and the client's own `start` and `stop` are parameters.
use pyroflow.Prelude.{
  Among, ◌≡◌, ◌≤◌, ◌↔◌, inl, inr, refl, Option, none, List, [], ◌∷◌, map, DecEq, if◌then◌else◌,
  arith, Bool-cases, ◌++◌,
}
use pyroflow.Errors.{Exc}
use pyroflow.BotCommands.{
  Groups, nonempty, unique, prune, commands_of, is_empty, elem, declared, keep_live, prune_groups,
}
use pyroflow.BotCommands.Counting.{
  count, Unlisted, OnePerKey, commands_of-nonempty, Unlisted-nonempty, OnePerKey-nonempty,
}
use pyroflow.BotCommands.Pruning.{IsDeclared, prune_exact, unique_lem, OnePerKey-prune}

module _ {K C : Type 0} ⦃c_eq : DecEq C⦄ where
  -- The calls of `set_bot_commands`, in order: a group that is empty is skipped.
  unfoldable pub calls : Groups K C → Groups K C
  calls [] = []
  calls ((k, cs) ∷ gs) = nonempty k (unique [] cs) (calls gs)

-- The languages and scopes of the groups.
abbrev pub keys : {K C : Type 0} → Groups K C → List K
keys gs = map (λ g. g.0) gs

module _ {X K C : Type 0} ⦃k_eq : DecEq K⦄ ⦃c_eq : DecEq C⦄ where
  -- `push_bot_commands`, with the groups it leaves. `send` is `gather_abort` of the calls.
  unfoldable pub push_bot_commands :
      (send : Groups K C → Option (Exc X))
      → List (K × List C)
      → Groups K C
      → Option (Exc X) × Groups K C
  push_bot_commands send entries gs =
      let live = prune entries gs in
      (if is_empty (calls live) then none else send (calls live), live)

  -- `remove_bot_commands`, one call of `delete_bot_commands` for each group.
  unfoldable pub remove_bot_commands :
      (delete : List K → Option (Exc X)) → Groups K C → Option (Exc X)
  remove_bot_commands delete gs = delete (keys gs)

module _ {K C : Type 0} ⦃k_eq : DecEq K⦄ ⦃c_eq : DecEq C⦄ where
  Unlisted-calls : (k : K) (gs : Groups K C) → Unlisted k gs → Unlisted k (calls gs)
  unfolding calls
  Unlisted-calls k [] u = tt
  Unlisted-calls k ((j, cs) ∷ gs) u =
      Unlisted-nonempty k j (unique [] cs) (calls gs) u.0 (Unlisted-calls k gs u.1)

  OnePerKey-calls : (gs : Groups K C) → OnePerKey gs → OnePerKey (calls gs)
  unfolding calls
  OnePerKey-calls [] o = tt
  OnePerKey-calls ((k, cs) ∷ gs) o =
      OnePerKey-nonempty k (unique [] cs) (calls gs) (Unlisted-calls k gs o.0)
        (OnePerKey-calls gs o.1)

  commands_of-calls :
      (j : K) (gs : Groups K C)
      → OnePerKey gs
      → commands_of j (calls gs) ≡ unique [] (commands_of j gs)
  unfolding commands_of calls unique
  commands_of-calls j [] o = refl
  commands_of-calls j ((k, cs) ∷ gs) o = ground (
    arith,
    commands_of-calls j gs o.1,
    commands_of-nonempty k j (unique [] cs) (calls gs) (Unlisted-calls k gs o.0),
  )

  -- Let no two groups have the same key. Then `push_bot_commands` makes at most one call for each
  -- key, and the call has exactly those of the group's commands that a registered handler
  -- declares under the key, none of them twice.
  pub push_publishes :
      (entries : List (K × List C)) (gs : Groups K C)
      → OnePerKey gs
      → OnePerKey (calls (prune entries gs))
        × ((j : K) (c : C)
            → (Among c (commands_of j (calls (prune entries gs)))
                ↔ (Among c (commands_of j gs) × IsDeclared j c entries))
              × (count c (commands_of j (calls (prune entries gs))) ≤ 1))
  push_publishes entries gs o =
      let one = OnePerKey-prune entries gs o in
      (
        OnePerKey-calls (prune entries gs) one,
        λ j c.
            let (same, once) = unique_lem (commands_of j (prune entries gs)) in
            let (into, from) = prune_exact entries gs o j c in
            rw (commands_of-calls j (prune entries gs) one)
              (((λ a. into ((same c).0 a)), λ b. (same c).1 (from b)), once c),
      )

  nonempty-unique :
      (k : K) (x : C) (seen cs : List C) (gs : Groups K C)
      → nonempty k (unique (x ∷ seen) cs) gs ≡ (k, unique (x ∷ seen) cs) ∷ gs
  unfolding unique
  nonempty-unique k x seen [] gs = refl
  nonempty-unique k x seen (c ∷ cs) gs = elim (Bool-cases (elem c (x ∷ seen))) [
    | inl old ↦ rw (old, unique) (nonempty-unique k x seen cs gs)
    | inr new ↦ rw (new, unique) (nonempty-unique k x (seen ++ c ∷ []) cs gs)
  ]

  keys-nonempty :
      (k : K) (cs : List C) (gs : Groups K C)
      → keys (calls gs) ≡ keys gs
      → keys (calls (nonempty k cs gs)) ≡ keys (nonempty k cs gs)
  unfolding calls unique elem
  keys-nonempty k [] gs same = same
  keys-nonempty k (c ∷ cs) gs same = rw (nonempty-unique k c [] cs (calls gs), same) refl

  keys-prune_groups :
      (live gs : Groups K C) → keys (calls (prune_groups live gs)) ≡ keys (prune_groups live gs)
  unfolding prune_groups calls
  keys-prune_groups live [] = refl
  keys-prune_groups live ((k, cs) ∷ gs) =
      keys-nonempty k (keep_live (commands_of k live) cs) (prune_groups live gs)
        (keys-prune_groups live gs)

  -- When the commands are removed after they were pushed, the groups that are deleted at Telegram
  -- are, in order, exactly those for which the push made a call.
  pub push_remove :
      {X : Type 0} (send : Groups K C → Option (Exc X)) (delete : List K → Option (Exc X))
      (entries : List (K × List C)) (gs : Groups K C)
      → let (result, left) = push_bot_commands send entries gs in
        remove_bot_commands delete left ≡ delete (keys (calls (prune entries gs)))
  unfolding push_bot_commands remove_bot_commands prune
  push_remove send delete entries gs =
      rw
        (keys-prune_groups (declared entries [])
          (if is_empty (declared entries []) then [] else gs))
        refl
