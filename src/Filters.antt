-- ===== src/Filters.antt =====
-- pyroflow/filters.py: filters on the text of an update. What `iter_flat_cont` of pytrove makes of
-- nested containers is given: a container is the list of the values in it.
pub mod Parts
pub mod Rules
pub mod Accepts
mod Tests
use pyroflow.Prelude.{
  ℕ, zero, suc, ◌-◌, ite, Bool, true, false, Option, none, some, List, [], ◌∷◌, map, Outcome, ok,
  raise, ◌==◌, if◌then◌else◌, length,
}
use pyroflow.Errors.{Exc, type_error, value_error}
use pyroflow.Text.{Text, Text-discrete, starts_with, ends_with, split_max, strip}

-- What the filters read of an update: the text and the caption of a message, or the payload of a
-- callback query if it is a `str`.
pub data Update : Type 0 where
  message : Option Text → Option Text → Update
  query : Option Text → Update

-- What a container holds, or an `Enum` class as its values.
pub data Value : Type 0 where
  string : Text → Value
  other_value : Value

-- `update.text or update.caption or ""`
unfoldable pub or_text : Option Text → Text → Text
or_text none t = t
or_text (some []) t = t
or_text (some (c ∷ cs)) t = c ∷ cs

unfoldable pub extract_text : Update → Text
extract_text (message text caption) = or_text text (or_text caption [])
extract_text (query payload) = or_text payload []

-- `{t for t in iter_flat_cont(texts) if isinstance(t, str) and t}`
unfoldable pub flat_texts : List Value → List Text
flat_texts [] = []
flat_texts (string [] ∷ vs) = flat_texts vs
flat_texts (string (c ∷ cs) ∷ vs) = (c ∷ cs) ∷ flat_texts vs
flat_texts (other_value ∷ vs) = flat_texts vs

unfoldable pub any : (Text → Bool) → List Text → Bool
any test [] = false
any test (t ∷ ts) = elim (test t) [ true ↦ true | false ↦ any test ts ]

unfoldable pub endswith : List Value → Update → Bool
endswith texts u = any (ends_with (extract_text u)) (flat_texts texts)

unfoldable pub startswith : List Value → Update → Bool
startswith texts u = any (starts_with (extract_text u)) (flat_texts texts)

-- `part in rule`
unfoldable pub contains : List Text → Text → Bool
contains ts t = any (λ x. ite (Text-discrete x t) true false) ts

unfoldable pub equal : List Value → Update → Bool
equal texts u = contains (flat_texts texts) (extract_text u)

-- A rule as it is given, and as it is kept.
pub data RawRule : Type 0 where
  enum_class container : List Value → RawRule
  callable : (Text → Outcome (Exc Update) Bool) → RawRule
  unsupported : RawRule

pub data Rule : Type 0 where
  one_of : List Text → Rule
  test : (Text → Outcome (Exc Update) Bool) → Rule

unfoldable pub normalize : RawRule → Outcome (Exc Update) Rule
normalize (enum_class vs) = ok (one_of (flat_texts vs))
normalize (container vs) = ok (one_of (flat_texts vs))
normalize (callable f) = ok (test f)
normalize unsupported = raise type_error

-- `tuple(... for rule in rules)`, which stops at the first error.
unfoldable pub normalize_all : List RawRule → Outcome (Exc Update) (List Rule)
normalize_all [] = ok []
normalize_all (r ∷ rs) = elim (normalize r) [
  | raise e ↦ raise e
  | ok rule ↦ elim (normalize_all rs) [ raise e ↦ raise e | ok rules ↦ ok (rule ∷ rules) ]
]

-- `not rule`
abbrev pub is_empty_rule : Rule → Bool
is_empty_rule (one_of []) = true
is_empty_rule (one_of (t ∷ ts)) = false
is_empty_rule (test f) = false

unfoldable pub any_empty : List Rule → Bool
any_empty [] = false
any_empty (r ∷ rs) = elim (is_empty_rule r) [ true ↦ true | false ↦ any_empty rs ]

unfoldable pub check : Rule → Text → Outcome (Exc Update) Bool
check (one_of ts) part = ok (contains ts part)
check (test f) part = f part

-- The loop over `zip(parts, normalized_rules)`.
unfoldable pub check_parts : List Rule → List Text → Outcome (Exc Update) Bool
check_parts [] parts = ok true
check_parts (r ∷ rs) [] = ok true
check_parts (r ∷ rs) (p ∷ ps) = elim (check r p) [
  | raise e ↦ raise e
  | ok false ↦ ok false
  | ok true ↦ check_parts rs ps
]

-- `[text] if separator is None else text.split(separator, maxsplit)`: an empty separator is an error.
unfoldable pub split_parts : Option Text → ℕ → Text → Outcome (Exc Update) (List Text)
split_parts none maxsplit t = ok (t ∷ [])
split_parts (some []) maxsplit t = raise value_error
split_parts (some (c ∷ cs)) maxsplit t = ok (split_max (c ∷ cs) maxsplit t)

unfoldable pub strip_parts : Bool → List Text → List Text
strip_parts stripped parts = if stripped then map strip parts else parts

-- The filter itself, for a text that is not empty.
unfoldable pub match_text : List Rule → Bool → Option Text → Text → Outcome (Exc Update) Bool
match_text rules stripped separator t = elim (split_parts separator (length rules - 1) t) [
  | raise e ↦ raise e
  | ok parts ↦
      if length (strip_parts stripped parts) == length rules
      then check_parts rules (strip_parts stripped parts)
      else ok false
]

unfoldable pub caller : List Rule → Bool → Option Text → Update → Outcome (Exc Update) Bool
caller rules stripped separator u = elim (extract_text u) [
  | [] ↦ ok false
  | c ∷ cs ↦ match_text rules stripped separator (c ∷ cs)
]

-- `len(normalized_rules) > 1 and separator is None`
unfoldable pub lacks_separator : List Rule → Option Text → Bool
lacks_separator (r ∷ s ∷ rs) none = true
lacks_separator _ _ = false

unfoldable pub split_text :
    List RawRule → Bool → Option Text → Outcome (Exc Update) (Update → Outcome (Exc Update) Bool)
split_text [] stripped separator = raise value_error
split_text (raw ∷ raws) stripped separator = elim (normalize_all (raw ∷ raws)) [
  | raise e ↦ raise e
  | ok rules ↦
      if any_empty rules
      then raise value_error
      else if lacks_separator rules separator
      then raise value_error
      else ok (caller rules stripped separator)
]
