-- ===== src/Filters/Tests.antt =====
-- Filters on small texts, in code points.
use pyroflow.Prelude.{
  ℕ, suc, ◌≡◌, refl, ◌≢◌, ◌↔◌, true, false, none, some, List, [], ◌∷◌, arith, ok, raise, Outcome,
}
use pyroflow.Text.{
  Text, Text-discrete, split_max, partition, remove_prefix, is_space, left_strip, right_strip,
  strip,
}
use pyroflow.Filters.{
  Update, message, query, Value, string, other_value, RawRule, container, callable, any_empty,
  caller, Rule, one_of, test, split_text, extract_text,
}
use pyroflow.Filters.Parts.{Selects}
use pyroflow.Filters.Accepts.{split_text_iff}

-- "/ban"
abbrev ban : Text
ban = 47 ∷ 98 ∷ 97 ∷ 110 ∷ []

abbrev rules : List RawRule
rules = container (string ban ∷ other_value ∷ []) ∷ callable (λ t. ok true) ∷ []

-- "/ban 7 8"
abbrev command : Update
command = message none (some (47 ∷ 98 ∷ 97 ∷ 110 ∷ 32 ∷ 55 ∷ 32 ∷ 56 ∷ []))

abbrev kept : List Rule
kept = one_of (ban ∷ []) ∷ test (λ t. ok true) ∷ []

split_text_iff_example :
    (caller kept true (some (32 ∷ [])) command ≡ ok true)
    ↔ ((extract_text command ≢ []) × Selects true (some (32 ∷ [])) rules (extract_text command))
unfolding split_text pyroflow.Filters.normalize_all pyroflow.Filters.normalize
    pyroflow.Filters.flat_texts any_empty pyroflow.Filters.lacks_separator
split_text_iff_example =
    split_text_iff rules true (some (32 ∷ [])) (caller kept true (some (32 ∷ []))) command refl

-- The run itself, and one that finds no separator.
command_matches : caller kept true (some (32 ∷ [])) command ≡ ok true
unfolding caller extract_text pyroflow.Filters.or_text pyroflow.Filters.match_text
    pyroflow.Filters.split_parts pyroflow.Filters.strip_parts pyroflow.Filters.check_parts
    pyroflow.Filters.check pyroflow.Filters.contains pyroflow.Filters.any split_max partition
    remove_prefix strip left_strip right_strip is_space Text-discrete pyroflow.Prelude.ℕ_discrete
command_matches = refl
