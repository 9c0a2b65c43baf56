-- ===== src/Text.antt =====
-- Python's `str` as the code uses it: a text is the list of its code points.
pub mod Split
pub mod Fields
pub mod Decimal
use pyroflow.Prelude.{
  ℕ, zero, suc, ◌≡◌, refl, Bool, true, false, ◌||◌, ◌&&◌, Option, none, some, List, [], ◌∷◌, ◌++◌,
  ite, leb, ◌==◌, ℕ_discrete, DecEq, length, arith, ◌≢◌, sym, ap, ◌∙◌, is_some,
}

abbrev pub Text : Type 0
Text = List ℕ

unfoldable pub Text-discrete : Discrete Text
Text-discrete = hlevel ℕ_discrete

instance abbrev pub text_eq : DecEq Text
text_eq = record { dec = Text-discrete }

instance abbrev pub code_eq : DecEq ℕ
code_eq = record { dec = ℕ_discrete }

-- What is left of a text behind a prefix.
unfoldable pub remove_prefix : Text → Text → Option Text
remove_prefix [] s = some s
remove_prefix (p ∷ ps) [] = none
remove_prefix (p ∷ ps) (c ∷ cs) = ite (ℕ_discrete p c) (remove_prefix ps cs) none

-- `s.startswith(prefix)`
unfoldable pub starts_with : Text → Text → Bool
starts_with s prefix = is_some (remove_prefix prefix s)

-- `s.endswith(suffix)`: the suffix is what is left of the text somewhere.
unfoldable pub ends_with : Text → Text → Bool
ends_with [] suffix = ite (Text-discrete [] suffix) true false
ends_with (c ∷ cs) suffix = ite (Text-discrete (c ∷ cs) suffix) true (ends_with cs suffix)

-- `s.partition(sep)`: what stands before and after the first `sep`, if there is one.
unfoldable pub partition : Text → Text → Option (Text × Text)
partition sep [] = none
partition sep (c ∷ cs) = elim (remove_prefix sep (c ∷ cs)) [
  | some rest ↦ some ([], rest)
  | none ↦ elim (partition sep cs) [ none ↦ none | some (before, after) ↦ some (c ∷ before, after) ]
]

-- `s.split(sep, maxsplit)`, for a separator that is not empty.
unfoldable pub split_max : Text → ℕ → Text → List Text
split_max sep zero s = s ∷ []
split_max sep (suc n) s = elim (partition sep s) [
  | none ↦ s ∷ []
  | some (before, after) ↦ before ∷ split_max sep n after
]

-- `s.split(sep)`: a text has no more separators than characters.
unfoldable pub split : Text → Text → List Text
split sep s = split_max sep (length s) s

-- `sep.join(parts)`
unfoldable pub join : Text → List Text → Text
join sep [] = []
join sep (p ∷ []) = p
join sep (p ∷ q ∷ qs) = p ++ (sep ++ join sep (q ∷ qs))

-- The white space that `str.strip` removes.
unfoldable pub is_space : ℕ → Bool
is_space c =
    (leb 9 c && leb c 13)
    || (leb 28 c && leb c 32)
    || c == 133
    || c == 160
    || c == 5760
    || (leb 8192 c && leb c 8202)
    || c == 8232
    || c == 8233
    || c == 8239
    || c == 8287
    || c == 12288

-- `s.lstrip()`
unfoldable pub left_strip : Text → Text
left_strip [] = []
left_strip (c ∷ cs) = elim (is_space c) [ true ↦ left_strip cs | false ↦ c ∷ cs ]

-- `s.rstrip()`
unfoldable pub right_strip : Text → Text
right_strip [] = []
right_strip (c ∷ cs) = elim (right_strip cs) [
  | [] ↦ elim (is_space c) [ true ↦ [] | false ↦ c ∷ [] ]
  | d ∷ ds ↦ c ∷ d ∷ ds
]

-- `s.strip()`
unfoldable pub strip : Text → Text
strip s = right_strip (left_strip s)
