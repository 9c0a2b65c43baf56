-- ===== src/Text/Decimal.antt =====
-- `str(i)` and `int(s)` of Python, for texts of digits with a sign or none.
use pyroflow.Prelude.{
  ℕ, zero, suc, ◌+◌, ◌-◌, ◌*◌, ◌/◌, ◌%◌, ◌<◌, ◌≡◌, refl, Bool, true, false, ◌&&◌, Option, none,
  some, [], ◌∷◌, ◌++◌, if◌then◌else◌, ltb, leb, ◌==◌, arith, All, All-append, Bool-cases, inl, inr,
  sym, ◌∙◌, ap, subst,
}
use pyroflow.Prelude.Int.{ℤ, pos, negsuc}
use pyroflow.Text.{Text}

-- The digits of a number, on fuel: each round divides it by ten, so more than the number is enough.
unfoldable pub digits : ℕ → ℕ → Text
digits zero n = []
digits (suc fuel) n =
    let front = digits fuel (n / 10) in
    if ltb n 10 then (48 + n) ∷ [] else front ++ (48 + n % 10) ∷ []

unfoldable pub natural : ℕ → Text
natural n = digits (suc n) n

-- `str(i)`
unfoldable pub str_int : ℤ → Text
str_int (pos n) = natural n
str_int (negsuc n) = 45 ∷ natural (suc n)

abbrev pub is_digit : ℕ → Bool
is_digit c = leb 48 c && leb c 57

-- The value of the digits that follow a number read so far.
unfoldable pub scan : ℕ → Text → Option ℕ
scan n [] = some n
scan n (c ∷ cs) = let rest = scan (n * 10 + (c - 48)) cs in if is_digit c then rest else none

unfoldable pub read_natural : Text → Option ℕ
read_natural [] = none
read_natural (c ∷ cs) = scan 0 (c ∷ cs)

abbrev negated : ℕ → ℤ
negated zero = pos 0
negated (suc n) = negsuc n

-- `int(s)`, or nothing for a `ValueError`.
unfoldable pub read_int : Text → Option ℤ
read_int [] = none
read_int (c ∷ cs) =
    if c == 45
    then elim (read_natural cs) [ none ↦ none | some n ↦ some (negated n) ]
    else elim (read_natural (c ∷ cs)) [ none ↦ none | some n ↦ some (pos n) ]

scan-append :
    (xs : Text) (c a n : ℕ)
    → scan a xs ≡ some n
    → is_digit c ≡ true
    → scan a (xs ++ c ∷ []) ≡ some (n * 10 + (c - 48))
unfolding scan
scan-append [] c a n e d = ground arith
scan-append (x ∷ xs) c a n e d = ground (arith, scan-append xs c (a * 10 + (x - 48)) n)

scan-digits : (fuel n : ℕ) → n < fuel → scan 0 (digits fuel n) ≡ some n
unfolding digits scan
scan-digits zero n h = absurd (omega arith)
scan-digits (suc fuel) n h = elim (Bool-cases (ltb n 10)) [
  | inl small ↦ rw small (ground arith)
  | inr large ↦ rw large (
      scan-append (digits fuel (n / 10)) (48 + n % 10) 0 (n / 10)
        (scan-digits fuel (n / 10) (ground arith)) (ground arith)
      ∙ ap some (ground arith))
]

digits-All : (fuel n : ℕ) → All (λ c. is_digit c ≡ true) (digits fuel n)
unfolding digits
digits-All zero n = tt
digits-All (suc fuel) n = elim (Bool-cases (ltb n 10)) [
  | inl small ↦ rw small (ground arith, tt)
  | inr large ↦ rw large (
      All-append (λ c. is_digit c ≡ true) (digits fuel (n / 10)) ((48 + n % 10) ∷ [])
        (digits-All fuel (n / 10)) (ground arith, tt))
]

abbrev IsCons : Text → Type 0
IsCons s = (c : ℕ) × (cs : Text) × (s ≡ c ∷ cs)

IsCons-snoc : (xs : Text) (c : ℕ) → IsCons (xs ++ c ∷ [])
IsCons-snoc [] c = (c, [], refl)
IsCons-snoc (x ∷ xs) c = (x, xs ++ c ∷ [], refl)

IsCons-natural : (n : ℕ) → IsCons (natural n)
unfolding natural digits
IsCons-natural n = elim (Bool-cases (ltb n 10)) [
  | inl small ↦ rw small (48 + n, [], refl)
  | inr large ↦ rw large (IsCons-snoc (digits n (n / 10)) (48 + n % 10))
]

-- The first character is a digit, so no sign.
pub natural_digits : (n : ℕ) → All (λ c. is_digit c ≡ true) (natural n)
unfolding natural
natural_digits n = digits-All (suc n) n

read_natural-natural : (n : ℕ) → read_natural (natural n) ≡ some n
unfolding read_natural
read_natural-natural n = let (c, cs, e) = IsCons-natural n in rw e (ap (scan 0) (sym e) ∙ scanned)
  where
    scanned : scan 0 (natural n) ≡ some n
    scanned = unfold natural in scan-digits (suc n) n (omega arith)

-- An integer is read back from its text.
pub read_int-str_int : (i : ℤ) → read_int (str_int i) ≡ some i
unfolding read_int str_int
read_int-str_int (pos n) =
    let (c, cs, e) = IsCons-natural n in
    let digit : is_digit c ≡ true = (subst (All (λ x. is_digit x ≡ true)) e (natural_digits n)).0 in
    let number : read_natural (c ∷ cs) ≡ some n =
      subst (λ s. read_natural s ≡ some n) e (read_natural-natural n) in
    let unsigned : (c == 45) ≡ false = ground arith in rw e (rw (unsigned, number))
read_int-str_int (negsuc n) = rw (read_natural-natural (suc n))
