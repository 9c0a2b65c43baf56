-- ===== src/Filters/Accepts.antt =====
-- What the filter of `split_text` accepts (pyroflow/filters.py).
use pyroflow.Prelude.{
  suc, ◌-◌, Bool-cases, ◌≡◌, refl, ◌≢◌, ap, ◌↔◌, Bool, true, false, Option, none, some, List, [],
  ◌∷◌, length, arith, ok, Outcome, Outcome-cases, if◌then◌else◌, inl, inr, ◌==◌, map,
}
use pyroflow.Text.{Text, split_max}
use pyroflow.Errors.{Exc}
use pyroflow.Filters.{
  Update, Rule, RawRule, normalize_all, check_parts, strip_parts, split_parts, match_text, caller,
  extract_text, lacks_separator, split_text, any_empty,
}
use pyroflow.Filters.Parts.{
  Holds, stripped_part, Selects, Accepted, Accepted-head, Accepted-cons, parts_of, Accepted-Matches,
  Matches-Accepted,
}
use pyroflow.Filters.Rules.{Holds-Passes, Normal, normalize_all-Normal, Matches-Normal}

strip_parts_lem : (b : Bool) (ps : List Text) → strip_parts b ps ≡ map (stripped_part b) ps
unfolding strip_parts
strip_parts_lem true ps = refl
strip_parts_lem false [] = refl
strip_parts_lem false (p ∷ ps) = ap (λ qs. p ∷ qs) (strip_parts_lem false ps)

-- The test on the number of parts, then the checks.
counted_iff :
    (rs : List Rule) (ps : List Text)
    → ((if length ps == length rs then check_parts rs ps else ok false) ≡ ok true) ↔ Accepted rs ps
counted_iff rs ps = (λ e. (ground arith, ground arith), λ a. ground arith)

iff_trans : {P Q R : Type 0} → P ↔ Q → Q ↔ R → P ↔ R
iff_trans p q = (λ x. q.0 (p.0 x), λ y. p.1 (q.1 y))

single_iff : (r : Rule) (p : Text) → Accepted (r ∷ []) (p ∷ []) ↔ Holds r p
unfolding check_parts
single_iff r p = (λ a. (Accepted-head r [] p [] a).0, λ h. Accepted-cons r [] p [] h (refl, refl))

match_text_iff :
    (b : Bool) (sep : Option Text) (raw : RawRule) (raws : List RawRule) (rs : List Rule) (t : Text)
    → Normal (raw ∷ raws) rs
    → lacks_separator rs sep ≡ false
    → (match_text rs b sep t ≡ ok true) ↔ Selects b sep (raw ∷ raws) t
unfolding match_text split_parts lacks_separator
match_text_iff b sep raw raws [] t n l = absurd n
match_text_iff b none raw [] (r ∷ []) t n l = rw (strip_parts_lem b (t ∷ [])) (
    iff_trans (counted_iff (r ∷ []) (stripped_part b t ∷ []))
      (iff_trans (single_iff r (stripped_part b t)) (Holds-Passes raw r (stripped_part b t) n.0)))
match_text_iff b none raw (raw' ∷ raws) (r ∷ []) t n l = absurd n.1
match_text_iff b none raw [] (r ∷ s ∷ rs) t n l = absurd n.1
match_text_iff b none raw (raw' ∷ raws) (r ∷ s ∷ rs) t n l = absurd (ground arith)
match_text_iff b (some []) raw raws (r ∷ rs) t n l = (λ e. cc, λ a. absurd a)
match_text_iff b (some (c ∷ cs)) raw raws (r ∷ rs) t n l =
    let count : suc (length rs) - 1 ≡ length rs = omega arith in
    rw (count, strip_parts_lem b (split_max (c ∷ cs) (length rs) t))
      (iff_trans (counted_iff (r ∷ rs) (parts_of b (c ∷ cs) rs t)) (
        iff_trans
          (
            Accepted-Matches b (c ∷ cs) (λ e. ground arith) r rs t,
            Matches-Accepted b (c ∷ cs) (λ e. ground arith) r rs t,
          )
          (Matches-Normal b (c ∷ cs) (raw ∷ raws) (r ∷ rs) t n)))

caller_iff :
    (b : Bool) (sep : Option Text) (raw : RawRule) (raws : List RawRule) (rs : List Rule)
    (u : Update)
    → Normal (raw ∷ raws) rs
    → lacks_separator rs sep ≡ false
    → (caller rs b sep u ≡ ok true)
      ↔ ((extract_text u ≢ []) × Selects b sep (raw ∷ raws) (extract_text u))
unfolding caller
caller_iff b sep raw raws rs u n l = by_text (extract_text u)
  where
    by_text :
        (t : Text)
        → ((elim t [ [] ↦ ok false | c ∷ cs ↦ match_text rs b sep (c ∷ cs) ]) ≡ ok true)
          ↔ ((t ≢ []) × Selects b sep (raw ∷ raws) t)
    by_text [] = (λ e. absurd (ground arith), λ a. absurd (a.0 refl))
    by_text (c ∷ cs) =
        let m = match_text_iff b sep raw raws rs (c ∷ cs) n l in
        (λ e. (λ z. ground arith, m.0 e), λ a. m.1 a.1)

made_by :
    (raw : RawRule) (raws : List RawRule) (b : Bool) (sep : Option Text)
    (f : Update → Outcome (Exc Update) Bool) (rs : List Rule)
    → normalize_all (raw ∷ raws) ≡ ok rs
    → split_text (raw ∷ raws) b sep ≡ ok f
    → (lacks_separator rs sep ≡ false) × (caller rs b sep ≡ f)
unfolding split_text
made_by raw raws b sep f rs n e = elim (Bool-cases (any_empty rs)) [
  | inl a ↦ absurd (ground arith)
  | inr a ↦ elim (Bool-cases (lacks_separator rs sep)) [
    | inl l ↦ absurd (ground arith)
    | inr l ↦ (l, ground arith)
  ]
]

-- The filter that `split_text` makes accepts an update exactly if its text is not empty and
-- consists of one part for each rule, in their order, each of which passes its rule after it was
-- stripped where that was asked for. Separators stand between the parts: each part but the last
-- ends at the first separator of what is left, so only the last may hold one. A container or
-- an enumeration passes the texts in it that are not empty, a callable those for which it returns
-- true. Without a separator the whole text is the one part; an empty separator accepts nothing.
pub split_text_iff :
    (raws : List RawRule) (b : Bool) (sep : Option Text) (f : Update → Outcome (Exc Update) Bool)
    (u : Update)
    → split_text raws b sep ≡ ok f
    → (f u ≡ ok true) ↔ ((extract_text u ≢ []) × Selects b sep raws (extract_text u))
unfolding split_text
split_text_iff [] b sep f u e = absurd (ground arith)
split_text_iff (raw ∷ raws) b sep f u e = elim (Outcome-cases (normalize_all (raw ∷ raws))) [
  | inr (x, n) ↦ absurd (ground arith)
  | inl (rs, n) ↦
      let made = made_by raw raws b sep f rs n e in
      rw (← made.1) (caller_iff b sep raw raws rs u (normalize_all-Normal (raw ∷ raws) rs n) made.0)
]
