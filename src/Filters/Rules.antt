-- ===== src/Filters/Rules.antt =====
-- Rules of `split_text` before and after they are normalised (pyroflow/filters.py).
use pyroflow.Prelude.{
  ◌≡◌, ◌≢◌, ap, ◌↔◌, Bool, List, [], ◌∷◌, arith, ok, raise, Among, Outcome, Outcome-cases, inl, inr,
  subst,
}
use pyroflow.Text.{Text}
use pyroflow.Errors.{Exc}
use pyroflow.Filters.{
  Update, Rule, RawRule, enum_class, container, callable, unsupported, Value, string, other_value,
  flat_texts, normalize, normalize_all,
}
use pyroflow.Filters.Parts.{Passes, Holds, stripped_part, Matches}

-- What a normalised rule holds of is what the rule lets pass.
flat_texts-Among :
    (vs : List Value) (p : Text) → Among p (flat_texts vs) → Among (string p) vs × (p ≢ [])
unfolding flat_texts
flat_texts-Among [] p m = absurd m
flat_texts-Among (string [] ∷ vs) p m = let (a, full) = flat_texts-Among vs p m in (inr a, full)
flat_texts-Among (string (c ∷ cs) ∷ vs) p (inl e) = (inl (ap string e), λ f. ground arith)
flat_texts-Among (string (c ∷ cs) ∷ vs) p (inr m) =
    let (a, full) = flat_texts-Among vs p m in (inr a, full)
flat_texts-Among (other_value ∷ vs) p m = let (a, full) = flat_texts-Among vs p m in (inr a, full)

Among-flat_texts :
    (vs : List Value) (p : Text) → Among (string p) vs → p ≢ [] → Among p (flat_texts vs)
unfolding flat_texts
Among-flat_texts [] p m full = absurd m
Among-flat_texts (string [] ∷ vs) p (inl e) full = absurd (full (cc))
Among-flat_texts (string [] ∷ vs) p (inr m) full = Among-flat_texts vs p m full
Among-flat_texts (string (c ∷ cs) ∷ vs) p (inl e) full = inl (cc)
Among-flat_texts (string (c ∷ cs) ∷ vs) p (inr m) full = inr (Among-flat_texts vs p m full)
Among-flat_texts (other_value ∷ vs) p (inl e) full = ground arith
Among-flat_texts (other_value ∷ vs) p (inr m) full = Among-flat_texts vs p m full

-- What a rule holds of after it was normalised, if it was.
abbrev HoldsOf : Outcome (Exc Update) Rule → Text → Type 0
HoldsOf (ok r) p = Holds r p
HoldsOf (raise e) p = ⊥

HoldsOf-Passes : (raw : RawRule) (p : Text) → HoldsOf (normalize raw) p ↔ Passes raw p
unfolding normalize
HoldsOf-Passes (enum_class vs) p = (flat_texts-Among vs p, λ a. Among-flat_texts vs p a.0 a.1)
HoldsOf-Passes (container vs) p = (flat_texts-Among vs p, λ a. Among-flat_texts vs p a.0 a.1)
HoldsOf-Passes (callable f) p = (λ h. h, λ h. h)
HoldsOf-Passes unsupported p = (λ h. h, λ h. h)

pub Holds-Passes :
    (raw : RawRule) (r : Rule) (p : Text) → normalize raw ≡ ok r → Holds r p ↔ Passes raw p
Holds-Passes raw r p e = subst (λ o. HoldsOf o p ↔ Passes raw p) e (HoldsOf-Passes raw p)

abbrev pub Normal : List RawRule → List Rule → Type 0
Normal [] [] = Unit
Normal [] (r ∷ rs) = ⊥
Normal (raw ∷ raws) [] = ⊥
Normal (raw ∷ raws) (r ∷ rs) = (normalize raw ≡ ok r) × Normal raws rs

pub normalize_all-Normal :
    (raws : List RawRule) (rs : List Rule) → normalize_all raws ≡ ok rs → Normal raws rs
unfolding normalize_all
normalize_all-Normal [] [] e = tt
normalize_all-Normal [] (r ∷ rs) e = ground arith
normalize_all-Normal (raw ∷ raws) rs e = elim (Outcome-cases (normalize raw)) [
  | inr (x, n) ↦ absurd (ground arith)
  | inl (r, n) ↦ elim (Outcome-cases (normalize_all raws)) [
    | inr (x, m) ↦ absurd (ground arith)
    | inl (rs', m) ↦
        let same : r ∷ rs' ≡ rs = ground arith in
        subst (Normal (raw ∷ raws)) same (n, normalize_all-Normal raws rs' m)
  ]
]

pub Matches-Normal :
    (b : Bool) (sep : Text) (raws : List RawRule) (rs : List Rule) (t : Text)
    → Normal raws rs
    → Matches Holds b sep rs t ↔ Matches Passes b sep raws t
Matches-Normal b sep [] [] t n = (λ m. m, λ m. m)
Matches-Normal b sep [] (r ∷ rs) t n = absurd n
Matches-Normal b sep (raw ∷ raws) [] t n = absurd n
Matches-Normal b sep (raw ∷ []) (r ∷ []) t (e, n) = Holds-Passes raw r (stripped_part b t) e
Matches-Normal b sep (raw ∷ []) (r ∷ s ∷ rs) t (e, n) = absurd n
Matches-Normal b sep (raw ∷ raw' ∷ raws) (r ∷ []) t (e, n) = absurd n
Matches-Normal b sep (raw ∷ raw' ∷ raws) (r ∷ s ∷ rs) t (e, n) = (
  λ m.
      let (p, rest, split, first, h, more) = m in
      (
        p,
        rest,
        split,
        first,
        (Holds-Passes raw r (stripped_part b p) e).0 h,
        (Matches-Normal b sep (raw' ∷ raws) (s ∷ rs) rest n).0 more,
      ),
  λ m.
      let (p, rest, split, first, h, more) = m in
      (
        p,
        rest,
        split,
        first,
        (Holds-Passes raw r (stripped_part b p) e).1 h,
        (Matches-Normal b sep (raw' ∷ raws) (s ∷ rs) rest n).1 more,
      ),
)
