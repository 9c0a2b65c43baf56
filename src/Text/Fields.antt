-- ===== src/Text/Fields.antt =====
-- Fields without the separator, joined and split again.
use pyroflow.Prelude.{
  ℕ, zero, suc, ◌≤◌, ◌≡◌, refl, ◌≢◌, sym, ap, ◌∙◌, List, [], ◌∷◌, ◌++◌, length, length-append,
  arith, All, inl, inr, Bool, true, false, ◌==◌, if◌then◌else◌,
}
use pyroflow.Text.{Text, split_max, split, join}
use pyroflow.Prelude.Int.{ℤ, pos, negsuc}
use pyroflow.Text.Decimal.{is_digit, natural, str_int, natural_digits}
use pyroflow.Text.Split.{FirstAt, split_max_cases, split_max_first}

-- A text that does not hold the separator.
abbrev pub Lacks : ℕ → Text → Type 0
Lacks sep = All (λ c. c ≢ sep)

abbrev pub lacks : ℕ → Text → Bool
lacks sep [] = true
lacks sep (c ∷ cs) = if c == sep then false else lacks sep cs

-- A literal text is checked by computation.
pub lacks→Lacks : (sep : ℕ) (s : Text) → lacks sep s ≡ true → Lacks sep s
lacks→Lacks sep [] e = tt
lacks→Lacks sep (c ∷ cs) e = (λ f. ground arith, lacks→Lacks sep cs (ground arith))

Lacks-FirstAt : (sep : ℕ) (p rest : Text) → Lacks sep p → FirstAt (sep ∷ []) p rest
Lacks-FirstAt sep [] rest l u v e = omega arith
Lacks-FirstAt sep (c ∷ p) rest (apart, l) [] v e = absurd (apart (cc))
Lacks-FirstAt sep (c ∷ p) rest (apart, l) (d ∷ u) v e =
    omega (arith, Lacks-FirstAt sep p rest l u v (cc))

Lacks-uncut : (sep : ℕ) (s p rest : Text) → Lacks sep s → p ++ ((sep ∷ []) ++ rest) ≢ s
Lacks-uncut sep [] [] rest l e = ground arith
Lacks-uncut sep [] (d ∷ p) rest l e = ground arith
Lacks-uncut sep (c ∷ s) [] rest (apart, l) e = apart (cc)
Lacks-uncut sep (c ∷ s) (d ∷ p) rest (apart, l) e = Lacks-uncut sep s p rest l (cc)

split_max-join :
    (sep : ℕ) (n : ℕ) (p : Text) (ps : List Text)
    → length ps ≤ n
    → All (Lacks sep) (p ∷ ps)
    → split_max (sep ∷ []) n (join (sep ∷ []) (p ∷ ps)) ≡ p ∷ ps
unfolding split_max join
split_max-join sep zero p [] h (l, ls) = refl
split_max-join sep (suc n) p [] h (l, ls) =
    elim (split_max_cases (sep ∷ []) n p (λ e. ground arith)) [
      | inl (e, never) ↦ e
      | inr (q, rest, e, first, f) ↦ absurd (Lacks-uncut sep p q rest l (sym e))
    ]
split_max-join sep zero p (q ∷ qs) h ls = absurd (omega arith)
split_max-join sep (suc n) p (q ∷ qs) h (l, ls) =
    split_max_first (sep ∷ []) p (join (sep ∷ []) (q ∷ qs)) n (λ e. ground arith)
      (Lacks-FirstAt sep p (join (sep ∷ []) (q ∷ qs)) l)
    ∙ ap (λ rs. p ∷ rs) (split_max-join sep n q qs (omega arith) ls)

length-join : (sep : ℕ) (p : Text) (ps : List Text) → length ps ≤ length (join (sep ∷ []) (p ∷ ps))
unfolding join
length-join sep p [] = omega arith
length-join sep p (q ∷ qs) =
    omega (arith, length-join sep q qs, length-append p ((sep ∷ []) ++ join (sep ∷ []) (q ∷ qs)))

-- `sep.join(parts).split(sep)`
pub split-join :
    (sep : ℕ) (p : Text) (ps : List Text)
    → All (Lacks sep) (p ∷ ps)
    → split (sep ∷ []) (join (sep ∷ []) (p ∷ ps)) ≡ p ∷ ps
unfolding split
split-join sep p ps ls =
    split_max-join sep (length (join (sep ∷ []) (p ∷ ps))) p ps (length-join sep p ps) ls

digits-Lacks :
    (sep : ℕ) (s : Text) → is_digit sep ≡ false → All (λ c. is_digit c ≡ true) s → Lacks sep s
digits-Lacks sep [] n a = tt
digits-Lacks sep (c ∷ s) n (d, a) = (λ e. ground arith, digits-Lacks sep s n a)

-- A separator that is neither a digit nor the minus sign is not in the text of a number.
pub str_int-Lacks : (sep : ℕ) (i : ℤ) → is_digit sep ≡ false → 45 ≢ sep → Lacks sep (str_int i)
unfolding str_int
str_int-Lacks sep (pos n) d m = digits-Lacks sep (natural n) d (natural_digits n)
str_int-Lacks sep (negsuc n) d m =
    (m, digits-Lacks sep (natural (suc n)) d (natural_digits (suc n)))
