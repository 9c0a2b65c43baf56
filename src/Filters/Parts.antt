-- ===== src/Filters/Parts.antt =====
-- What the rules of `split_text` ask of the parts of a text, and the loop that checks them
-- (pyroflow/filters.py).
use pyroflow.Prelude.{
  ◌≡◌, refl, ◌≢◌, sym, ap, Bool, true, Option, none, some, List, [], ◌∷◌, ◌++◌, length, arith, ok,
  Among, if◌then◌else◌, inl, inr, map, subst,
}
use pyroflow.Text.{Text, strip, split_max, Text-discrete}
use pyroflow.Text.Split.{FirstAt, split_max_cases, split_max_first}
use pyroflow.Filters.{
  Rule, one_of, test, RawRule, enum_class, container, callable, unsupported, string, check,
  check_parts, contains, any,
}

-- A part passes its rule. Only texts that are not empty count in a container.
abbrev pub Passes : RawRule → Text → Type 0
Passes (enum_class vs) part = Among (string part) vs × (part ≢ [])
Passes (container vs) part = Among (string part) vs × (part ≢ [])
Passes (callable f) part = f part ≡ ok true
Passes unsupported part = ⊥

abbrev pub Holds : Rule → Text → Type 0
Holds (one_of ts) part = Among part ts
Holds (test f) part = f part ≡ ok true

-- The part that a rule is given: stripped, if that is wanted.
abbrev pub stripped_part : Bool → Text → Text
stripped_part b p = if b then strip p else p

-- The text is one part for each rule with separators between them, where each separator is the
-- first one of what is left, and the last part may hold more separators.
abbrev pub Matches : {R : Type 0} → (R → Text → Type 0) → Bool → Text → List R → Text → Type 0
Matches P b sep [] t = ⊥
Matches P b sep (r ∷ []) t = P r (stripped_part b t)
Matches P b sep (r ∷ s ∷ rs) t =
    (p : Text) × (rest : Text) × (t ≡ p ++ (sep ++ rest))
    × FirstAt sep p rest
    × P r (stripped_part b p)
    × Matches P b sep (s ∷ rs) rest

-- Without a separator there is one rule, for the whole text.
abbrev pub Selects : Bool → Option Text → List RawRule → Text → Type 0
Selects b none (r ∷ []) t = Passes r (stripped_part b t)
Selects b none _ t = ⊥
Selects b (some []) raws t = ⊥
Selects b (some (c ∷ cs)) raws t = Matches Passes b (c ∷ cs) raws t

contains→Among : (ts : List Text) (p : Text) → contains ts p ≡ true → Among p ts
unfolding contains any
contains→Among [] p e = ground arith
contains→Among (t ∷ ts) p e = elim (Text-discrete t p) [
  | yes same ↦ inl (sym same)
  | no apart ↦ inr (contains→Among ts p (ground arith))
]

Among→contains : (ts : List Text) (p : Text) → Among p ts → contains ts p ≡ true
unfolding contains any
Among→contains [] p m = absurd m
Among→contains (t ∷ ts) p (inl e) = ground arith
Among→contains (t ∷ ts) p (inr m) = ground (arith, Among→contains ts p m)

check_sound : (r : Rule) (p : Text) → check r p ≡ ok true → Holds r p
unfolding check
check_sound (one_of ts) p e = contains→Among ts p (cc)
check_sound (test f) p e = e

check_complete : (r : Rule) (p : Text) → Holds r p → check r p ≡ ok true
unfolding check
check_complete (one_of ts) p m = ap ok (Among→contains ts p m)
check_complete (test f) p e = e

-- What is asked of the parts: as many as rules, and all checks hold.
abbrev pub Accepted : List Rule → List Text → Type 0
Accepted rs ps = (length ps ≡ length rs) × (check_parts rs ps ≡ ok true)

pub Accepted-head :
    (r : Rule) (rs : List Rule) (p : Text) (ps : List Text)
    → Accepted (r ∷ rs) (p ∷ ps)
    → Holds r p × (length ps ≡ length rs) × (check_parts rs ps ≡ ok true)
unfolding check_parts
Accepted-head r rs p ps (l, e) = (check_sound r p (ground arith), omega arith, ground arith)

pub Accepted-cons :
    (r : Rule) (rs : List Rule) (p : Text) (ps : List Text)
    → Holds r p
    → Accepted rs ps
    → Accepted (r ∷ rs) (p ∷ ps)
unfolding check_parts
Accepted-cons r rs p ps h (l, e) = (omega arith, rw (check_complete r p h, check_parts) e)

abbrev pub parts_of : Bool → Text → List Rule → Text → List Text
parts_of b sep rs t = map (stripped_part b) (split_max sep (length rs) t)

module _ (b : Bool) (sep : Text) (full : sep ≢ []) where
  pub Accepted-Matches :
      (r : Rule) (rs : List Rule) (t : Text)
      → Accepted (r ∷ rs) (parts_of b sep rs t)
      → Matches Holds b sep (r ∷ rs) t
  unfolding split_max
  Accepted-Matches r [] t a = (Accepted-head r [] (stripped_part b t) [] a).0
  Accepted-Matches r (s ∷ rs) t a = elim (split_max_cases sep (length rs) t full) [
    | inl (e, never) ↦ absurd (omega (arith, a.0, ap (λ ps. length (map (stripped_part b) ps)) e))
    | inr (p, rest, split, first, e) ↦
        let a' =
          Accepted-head r (s ∷ rs) (stripped_part b p) (parts_of b sep rs rest)
            (subst (λ ps. Accepted (r ∷ s ∷ rs) (map (stripped_part b) ps)) e a) in
        (p, rest, split, first, a'.0, Accepted-Matches s rs rest (a'.1, a'.2))
  ]

  pub Matches-Accepted :
      (r : Rule) (rs : List Rule) (t : Text)
      → Matches Holds b sep (r ∷ rs) t
      → Accepted (r ∷ rs) (parts_of b sep rs t)
  unfolding split_max check_parts
  Matches-Accepted r [] t m = Accepted-cons r [] (stripped_part b t) [] m (refl, refl)
  Matches-Accepted r (s ∷ rs) t (p, rest, split, first, h, m) =
      rw (split, split_max_first sep p rest (length rs) full first)
        (Accepted-cons r (s ∷ rs) (stripped_part b p) (parts_of b sep rs rest) h
          (Matches-Accepted s rs rest m))
