-- ===== src/UpdateListener/Bypass.antt =====
-- The ready-made bypass test of pyroflow/update_listener/message_listener.py: `_COMMAND_RE`,
-- `_is_bypass` and `_get_bot_commands`. Whether a character is matched by `\w` and what `str.lower`
-- makes of a text stand in Unicode's tables, which are parameters.
pub mod Command
pub mod Registered
mod Tests
use pyroflow.Prelude.{
  ℕ, Bool, true, false, ◌||◌, ◌&&◌, not, Option, none, some, List, [], ◌∷◌, ◌++◌, map, length, leb,
  ◌==◌, DecEq, Dict, lookup, insert, M, Outcome, ok, raise, ◌>>=◌, ◌>>◌, return, if◌then◌else◌,
}
use pyroflow.Errors.{Exc}
use pyroflow.Text.{Text, is_space, text_eq}
use pyroflow.BotCommands.{elem}
use pyroflow.ListenerCoordinator.Memory.{nat_eq}

-- `[a-zA-Z]`, and `[a-zA-Z0-9_]`
unfoldable pub is_letter : ℕ → Bool
is_letter c = (leb 65 c && leb c 90) || (leb 97 c && leb c 122)

unfoldable pub is_name : ℕ → Bool
is_name c = is_letter c || (leb 48 c && leb c 57) || c == 95

-- The longest part in front whose characters all pass, and the rest.
unfoldable pub span : (ℕ → Bool) → Text → Text × Text
span p [] = ([], [])
span p (c ∷ cs) = let (front, rest) = span p cs in if p c then (c ∷ front, rest) else ([], c ∷ cs)

-- `(?:\s|$)`: white space, or the end. `$` also matches before a line break at the end, which is
-- white space.
unfoldable pub ends : Text → Bool
ends [] = true
ends (c ∷ cs) = is_space c

module _ (is_word : ℕ → Bool) where
  -- `(?:@(\w+))?(?:\s|$)`, behind the name, with `@`.
  unfoldable pub match_target : Text → Text × Text → Option (Text × Option Text)
  match_target name ([], rest) = none
  match_target name (t ∷ ts, rest) = if ends rest then some (name, some (t ∷ ts)) else none

  unfoldable pub match_rest : Text → Text → Option (Text × Option Text)
  match_rest name [] = some (name, none)
  match_rest name (c ∷ cs) =
      if is_space c
      then some (name, none)
      else if c == 64
      then match_target name (span is_word cs)
      else none

  -- `_COMMAND_RE.match`: the groups. A repetition takes all it can; no shorter one leads to a match,
  -- since what follows it would be one of its own characters.
  unfoldable pub match_command : Text → Option (Text × Option Text)
  match_command (slash ∷ c ∷ cs) =
      let (tail, rest) = span is_name cs in
      if slash == 47 && is_letter c && leb (length tail) 31
      then match_rest (c ∷ tail) rest
      else none
  match_command _ = none

-- `client.me`, as far as it is read, and the client's `id`.
pub record Bot : Type 0 where
  pub id : ℕ
  pub username : Option Text
  pub usernames : List Text

-- The text and the caption of a message.
pub record Words : Type 0 where
  pub text : Option Text
  pub caption : Option Text

abbrev pub Cache : Type 0
Cache = Dict ℕ (List Text)

-- `update.text or update.caption or ""`
unfoldable pub first_text : Option Text → Text → Text
first_text (some (c ∷ cs)) other = c ∷ cs
first_text _ other = other

unfoldable pub words_of : Words → Text
words_of m = first_text m.text (first_text m.caption [])

module _ {W U : Type 0} (is_word : ℕ → Bool) (lower : Text → Text)
    (fetch : M W (Exc U) (Outcome (Exc U) (List Text))) where
  -- `me_usernames`
  unfoldable pub me_usernames : Bot → List Text
  me_usernames bot = lower (first_text bot.username []) ∷ map lower bot.usernames

  -- `cmds`, where `fetch` is `safe_await(client.get_bot_commands())`.
  abbrev pub commands_or_none : Outcome (Exc U) (List Text) → List Text
  commands_or_none (ok cmds) = map lower cmds
  commands_or_none (raise e) = []

  -- `_get_bot_commands`, on the world and the cache.
  unfoldable pub get_bot_commands : ℕ → M (W × Cache) (Exc U) (List Text)
  get_bot_commands i (w, cache) = elim (lookup i cache) [
    | some commands ↦ ((w, cache), ok commands)
    | none ↦
        let (w', r) = fetch w in
        elim r [
          | raise e ↦ ((w', cache), raise e)
          | ok cmds ↦ ((w', insert i (commands_or_none cmds) cache), ok (commands_or_none cmds))
        ]
  ]

  -- Whether the command is for this bot, by its target.
  unfoldable pub is_addressed : Bot → Option Text → Bool
  is_addressed bot none = true
  is_addressed bot (some target) = elem (lower target) (me_usernames bot)

  -- `_is_bypass`
  unfoldable pub is_bypass : Bot → Words → M (W × Cache) (Exc U) Bool
  is_bypass bot m = elim (match_command is_word (words_of m)) [
    | none ↦ return false
    | some (name, target) ↦ elim (is_addressed bot target) [
      | true ↦ do commands ← get_bot_commands bot.id; return (elem (lower name) commands)
      | false ↦ return false
    ]
  ]
