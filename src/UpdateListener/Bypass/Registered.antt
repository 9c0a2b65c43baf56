-- ===== src/UpdateListener/Bypass/Registered.antt =====
-- Which messages bypass a listener, and how often the commands are fetched.
use pyroflow.Prelude.{
  ℕ, ◌≡◌, refl, ap, ◌∙◌, if_pos, ◌↔◌, inl, inr, Bool, true, false, Option, none, some, List, Among,
  DecEq, lookup, lookup-insert, insert, M, Outcome, ok, raise, arith, Bool-cases, Option-cases,
  Outcome-cases, [], ◌∷◌,
}
use pyroflow.Errors.{Exc}
use pyroflow.Text.{Text, is_space, text_eq}
use pyroflow.BotCommands.{elem}
use pyroflow.ListenerCoordinator.Memory.{nat_eq}
use pyroflow.UpdateListener.Bypass.{
  match_command, Bot, Words, Cache, words_of, me_usernames, get_bot_commands, commands_or_none,
  is_addressed, is_bypass,
}
use pyroflow.UpdateListener.Bypass.Command.{IsCommand, match_command_iff}

ok_injective : {E A : Type 0} {a b : A} → ◌≡◌ {A = Outcome E A} (ok a) (ok b) → a ≡ b
ok_injective e = cc

elem_iff : {C : Type 0} ⦃c_eq : DecEq C⦄ (c : C) (xs : List C) → elem c xs ≡ true ↔ Among c xs
unfolding elem
elem_iff c [] = ((λ e. cc), λ a. elim a [ ])
elem_iff c (x ∷ xs) = ground (arith, elem_iff c xs)

module _ {W U : Type 0} (is_word : ℕ → Bool) (lower : Text → Text)
    (fetch : M W (Exc U) (Outcome (Exc U) (List Text))) where
  -- The bot is meant: the command has no target, or one of the bot's own names in small letters.
  abbrev pub IsAddressed : Bot → Option Text → Type 0
  IsAddressed bot none = Unit
  IsAddressed bot (some target) = Among (lower target) (me_usernames is_word lower fetch bot)

  is_addressed_iff :
      (bot : Bot) (g : Option Text)
      → is_addressed is_word lower fetch bot g ≡ true ↔ IsAddressed bot g
  unfolding is_addressed
  is_addressed_iff bot none = ((λ e. tt), λ u. refl)
  is_addressed_iff bot (some target) =
      elem_iff (lower target) (me_usernames is_word lower fetch bot)

  kept :
      (i : ℕ) (w : W) (cache : Cache) (commands : List Text)
      → lookup i cache ≡ some commands
      → get_bot_commands is_word lower fetch i (w, cache) ≡ ((w, cache), ok commands)
  unfolding get_bot_commands
  kept i w cache commands h = rw (h, get_bot_commands) refl

  fetched :
      (i : ℕ) (w : W) (cache : Cache) (r : Outcome (Exc U) (List Text))
      → lookup i cache ≡ none
      → (fetch w).1 ≡ ok r
      → let commands = commands_or_none is_word lower fetch r in
        get_bot_commands is_word lower fetch i (w, cache)
        ≡ (((fetch w).0, insert i commands cache), ok commands)
  unfolding get_bot_commands
  fetched i w cache r h f = rw (h, get_bot_commands) (rw f refl)

  failed :
      (i : ℕ) (w : W) (cache : Cache) (e : Exc U)
      → lookup i cache ≡ none
      → (fetch w).1 ≡ raise e
      → get_bot_commands is_word lower fetch i (w, cache) ≡ (((fetch w).0, cache), raise e)
  unfolding get_bot_commands
  failed i w cache e h f = rw (h, get_bot_commands) (rw f refl)

  cached :
      (i : ℕ) (s : W × Cache) (commands : List Text)
      → (get_bot_commands is_word lower fetch i s).1 ≡ ok commands
      → get_bot_commands is_word lower fetch i (get_bot_commands is_word lower fetch i s).0
        ≡ ((get_bot_commands is_word lower fetch i s).0, ok commands)
  cached i (w, cache) commands e = elim (Option-cases (lookup i cache)) [
    | inr (cs, h) ↦
        let same : cs ≡ commands = ok_injective (rw (kept i w cache cs h) at e) in
        rw (kept i w cache cs h, kept i w cache cs h) (ap (λ x. ((w, cache), ok x)) same)
    | inl h ↦ elim (Outcome-cases (fetch w).1) [
      | inl (r, f) ↦
          let same = ok_injective (rw (fetched i w cache r h f) at e) in
          let there =
            lookup-insert i i (commands_or_none is_word lower fetch r) cache
            ∙ if_pos (nat_eq.dec i i) refl _ _ in
          rw (fetched i w cache r h f) (
            rw
              (kept i (fetch w).0 (insert i (commands_or_none is_word lower fetch r) cache)
                (commands_or_none is_word lower fetch r) there)
              (ap
                (λ x.
                  (((fetch w).0, insert i (commands_or_none is_word lower fetch r) cache), ok x))
                same))
      | inr (x, f) ↦ let bad = rw (failed i w cache x h f) at e in cc
    ]
  ]

  module _ (spaces : (c : ℕ) → is_space c ≡ true → is_word c ≡ false) (bot : Bot) (m : Words)
      (s : W × Cache) (commands : List Text)
      (registered : (get_bot_commands is_word lower fetch bot.id s).1 ≡ ok commands) where
    -- The message is a command for this bot that is registered.
    abbrev pub Bypasses : Type 0
    Bypasses =
        (name : Text) × (g : Option Text) × IsCommand is_word (words_of m) name g
        × IsAddressed bot g
        × Among (lower name) commands

    unmatched_lem :
        match_command is_word (words_of m) ≡ none
        → (is_bypass is_word lower fetch bot m s).1 ≡ ok false
    unfolding is_bypass
    unmatched_lem e = rw (e, is_bypass) refl

    module _ (name : Text) (g : Option Text)
        (matched : match_command is_word (words_of m) ≡ some (name, g)) where
      unaddressed_lem :
          is_addressed is_word lower fetch bot g ≡ false
          → (is_bypass is_word lower fetch bot m s).1 ≡ ok false
      unfolding is_bypass
      unaddressed_lem a = rw (matched, is_bypass) (rw a refl)

      addressed_lem :
          is_addressed is_word lower fetch bot g ≡ true
          → (is_bypass is_word lower fetch bot m s).1 ≡ ok (elem (lower name) commands)
      unfolding is_bypass
      addressed_lem a = rw (matched, is_bypass) (rw a (rw registered refl))

    only_commands : (is_bypass is_word lower fetch bot m s).1 ≡ ok true → Bypasses
    only_commands e = elim (Option-cases (match_command is_word (words_of m))) [
      | inl unmatched ↦ let bad = ok_injective (rw (unmatched_lem unmatched) at e) in cc
      | inr ((name, g), matched) ↦ elim (Bool-cases (is_addressed is_word lower fetch bot g)) [
        | inl a ↦ (
          name,
          g,
          (match_command_iff is_word spaces (words_of m) name g).0 matched,
          (is_addressed_iff bot g).0 a,
          (elem_iff (lower name) commands).0
              (ok_injective (rw (addressed_lem name g matched a) at e)),
        )
        | inr a ↦ let bad = ok_injective (rw (unaddressed_lem name g matched a) at e) in cc
      ]
    ]

    all_commands : Bypasses → (is_bypass is_word lower fetch bot m s).1 ≡ ok true
    all_commands (name, g, command, addressed, among) =
        let matched = (match_command_iff is_word spaces (words_of m) name g).1 command in
        addressed_lem name g matched ((is_addressed_iff bot g).1 addressed)
        ∙ ap (λ b. ok b) ((elem_iff (lower name) commands).1 among)

    -- Let the commands of the bot be known, from the cache or by fetching them, and let no white
    -- space be a word character. A message bypasses the listener exactly if its text, or else its
    -- caption, is a command, with no target or with one of the bot's own names, and the name of the
    -- command is registered. The commands of the bot are then known without fetching again.
    pub bypass_iff :
        ((is_bypass is_word lower fetch bot m s).1 ≡ ok true ↔ Bypasses)
        × (get_bot_commands is_word lower fetch bot.id
              (get_bot_commands is_word lower fetch bot.id s).0
            ≡ ((get_bot_commands is_word lower fetch bot.id s).0, ok commands))
    bypass_iff = ((only_commands, all_commands), cached bot.id s commands registered)
