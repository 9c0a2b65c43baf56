-- ===== src/BotCommands/Tasks/Registration.antt =====
-- Whether the commands of a handler are collected when it is added (pyroflow/client.py).
use pyroflow.Prelude.{
  Among, ◌⊎◌, ◌↔◌, none, some, arith, ℕ, ◌≡◌, refl, true, false, List, [], ◌∷◌, ◌++◌, DecEq, Dict,
  Bool-cases, List-cases, inl, inr,
}
use pyroflow.BotCommands.{Groups, commands_of, collect}
use pyroflow.BotCommands.Counting.{commands_of-collect}
use pyroflow.BotCommands.Pruning.{Among-append}
use pyroflow.BotCommands.Tasks.{
  bare, scoped, localised, split_bot_command_entry, Entry, GroupKey, pyro_add, track, Bot, Pyrogram,
  is_registered, track_each, run_locked, acquire_locks, first_step, add_handler, run_all,
  release_locks,
}

-- What the code relies on: a handler that Pyrogram has added is in its table.
pub record IsPyrogram {H : Type 0} ⦃h_eq : DecEq H⦄ (pyro : Pyrogram H) : Type 0 where
  pub added : (h : H) (g : ℕ) (gs : Dict ℕ (List H)) → is_registered h (pyro.add h g gs) ≡ true

-- An entry declares the command under the language and the scope that it names, if any.
abbrev pub Declares : {L S C : Type 0} → GroupKey L S → C → List (Entry L S C) → Type 0
Declares j c [] = ⊥
Declares j c (bare cs ∷ es) = ((j ≡ (none, none)) × Among c cs) ⊎ Declares j c es
Declares j c (scoped s cs ∷ es) = ((j ≡ (none, some s)) × Among c cs) ⊎ Declares j c es
Declares j c (localised l s cs ∷ es) = ((j ≡ (some l, some s)) × Among c cs) ⊎ Declares j c es

module _ {H L S C : Type 0} ⦃h_eq : DecEq H⦄ ⦃k_eq : DecEq (GroupKey L S)⦄ ⦃c_eq : DecEq C⦄
    (pyro : Pyrogram H) (P : IsPyrogram pyro) (entries : H → List (Entry L S C)) where
  regroup : {A B D E F : Type 0} → A ↔ (B ⊎ D) → B ↔ (E ⊎ F) → A ↔ (F ⊎ (E ⊎ D))
  regroup outer inner = (
    (λ a. elim (outer.0 a) [
      | inl b ↦ elim (inner.0 b) [ inl e ↦ inr (inl e) | inr f ↦ inl f ]
      | inr d ↦ inr (inr d)
    ]),
    elim [
      | inl f ↦ outer.1 (inl (inner.1 (inr f)))
      | inr (inl e) ↦ outer.1 (inl (inner.1 (inl e)))
      | inr (inr d) ↦ outer.1 (inr d)
    ],
  )

  -- What a declaration adds to the commands of a key.
  collected :
      (j k : GroupKey L S) (c : C) (cs : List C) (gs : Groups (GroupKey L S) C)
      → Among c (commands_of j (collect k cs gs))
        ↔ (((j ≡ k) × Among c cs) ⊎ Among c (commands_of j gs))
  collected j k c cs gs = elim (k_eq.dec k j) [
    | yes p ↦ ground (arith, commands_of-collect k j cs gs, Among-append c (commands_of k gs) cs)
    | no p ↦ ground (arith, commands_of-collect k j cs gs)
  ]

  track_each_collects :
      (j : GroupKey L S) (c : C) (es : List (Entry L S C)) (gs : Groups (GroupKey L S) C)
      → Among c (commands_of j (track_each pyro entries true es gs))
        ↔ (Among c (commands_of j gs) ⊎ Declares j c es)
  unfolding track_each split_bot_command_entry
  track_each_collects j c [] gs = (inl, elim [ inl a ↦ a | inr e ↦ elim e [ ] ])
  track_each_collects j c (bare cs ∷ es) gs =
      regroup (track_each_collects j c es (collect (none, none) cs gs))
        (collected j (none, none) c cs gs)
  track_each_collects j c (scoped s cs ∷ es) gs =
      regroup (track_each_collects j c es (collect (none, some s) cs gs))
        (collected j (none, some s) c cs gs)
  track_each_collects j c (localised l s cs ∷ es) gs =
      regroup (track_each_collects j c es (collect (some l, some s) cs gs))
        (collected j (some l, some s) c cs gs)

  -- The first step of the mixin's task when the handler is not registered.
  track-absent :
      (h : H) (s : Bot H (GroupKey L S) C)
      → is_registered h s.groups ≡ false
      → first_step pyro entries (track h true) s ≡ s
  unfolding first_step
  track-absent h s absent = elim (List-cases (entries h)) [
    | inl no_entries ↦ rw (no_entries, first_step) refl
    | inr (e, es, eq) ↦ rw (eq, first_step, absent) refl
  ]

  -- And when it is, and the locks are free.
  track-present :
      (h : H) (s : Bot H (GroupKey L S) C)
      → is_registered h s.groups ≡ true
      → s.busy ≡ false
      → first_step pyro entries (track h true) s ≡ (record s {
        bot_command_groups = track_each pyro entries true (entries h) s.bot_command_groups;
      })
  unfolding first_step acquire_locks run_locked track_each
  track-present h s present free = elim (List-cases (entries h)) [
    | inl no_entries ↦ rw (no_entries, first_step) refl
    | inr (e, es, eq) ↦ rw (eq, first_step, present, free, eq) refl
  ]

  add-busy :
      (h : H) (g : ℕ) (s : Bot H (GroupKey L S) C)
      → s.busy ≡ true
      → first_step pyro entries (pyro_add h g) s
        ≡ (record s { waiting = s.waiting ++ pyro_add h g ∷ [] })
  unfolding first_step acquire_locks
  add-busy h g s busy = rw busy refl

  add-free :
      (h : H) (g : ℕ) (s : Bot H (GroupKey L S) C)
      → s.busy ≡ false
      → first_step pyro entries (pyro_add h g) s ≡ (record s { groups = pyro.add h g s.groups })
  unfolding first_step acquire_locks run_locked track_each
  add-free h g s free = rw free refl

  -- Let a handler be added that is not registered yet, while no task waits for the locks, and let
  -- all tasks then run to their end. The handler is registered. If no worker held its lock, the
  -- commands of each language and scope are those from before and those that an entry of the
  -- handler declares for them. A defect: if a worker did, as when a handler of an update adds
  -- another one, then no command is collected, and the groups stay as they were: the test whether
  -- the handler is registered is made before the locks are taken.
  pub add_handler_collects :
      (h : H) (g : ℕ) (s : Bot H (GroupKey L S) C)
      → is_registered h s.groups ≡ false
      → s.waiting ≡ []
      → let end = release_locks pyro entries (add_handler pyro entries h g s) in
        (is_registered h end.groups ≡ true)
        × (((s.busy ≡ true) × (end.bot_command_groups ≡ s.bot_command_groups))
            ⊎ ((s.busy ≡ false)
                × ((j : GroupKey L S) (c : C)
                    → Among c (commands_of j end.bot_command_groups)
                      ↔ (Among c (commands_of j s.bot_command_groups) ⊎ Declares j c (entries h)))))
  unfolding add_handler release_locks run_all run_locked
  add_handler_collects h g s fresh idle = elim (Bool-cases s.busy) [
    | inl b ↦
        rw
          (
            add-busy h g s b,
            track-absent h (record s { waiting = s.waiting ++ pyro_add h g ∷ [] }) fresh,
            idle,
          )
          (P.added h g s.groups, inl (b, refl))
    | inr b ↦
        rw
          (
            add-free h g s b,
            track-present h (record s { groups = pyro.add h g s.groups }) (P.added h g s.groups) b,
            idle,
          )
          (
            P.added h g s.groups,
            inr (b, λ j c. track_each_collects j c (entries h) s.bot_command_groups),
          )
  ]
