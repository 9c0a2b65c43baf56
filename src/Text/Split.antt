-- ===== src/Text/Split.antt =====
-- Splitting at the first occurrence of a separator.
use pyroflow.Prelude.{
  ℕ, zero, suc, ◌≡◌, refl, ◌≢◌, sym, ap, ◌∙◌, ◌≤◌, Option, none, some, List, [], ◌∷◌, ◌++◌, length,
  arith, Option-cases, inl, inr, ◌⊎◌,
}
use pyroflow.Text.{Text, remove_prefix, partition, split_max, join}

-- The first `sep` of `p ++ sep ++ rest` stands right behind `p`.
abbrev pub FirstAt : Text → Text → Text → Type 0
FirstAt sep p rest = (u v : Text) → u ++ (sep ++ v) ≡ p ++ (sep ++ rest) → length p ≤ length u

remove_prefix_sound : (p s r : Text) → remove_prefix p s ≡ some r → s ≡ p ++ r
unfolding remove_prefix
remove_prefix_sound [] s r e = cc
remove_prefix_sound (p ∷ ps) [] r e = cc
remove_prefix_sound (p ∷ ps) (c ∷ cs) r e = ground (arith, remove_prefix_sound ps cs r)

remove_prefix-append : (p r : Text) → remove_prefix p (p ++ r) ≡ some r
unfolding remove_prefix
remove_prefix-append [] r = refl
remove_prefix-append (p ∷ ps) r = ground (arith, remove_prefix-append ps r)

append_cancel : (p q r s : Text) → length p ≡ length q → p ++ r ≡ q ++ s → (p ≡ q) × (r ≡ s)
append_cancel [] [] r s l e = (refl, e)
append_cancel [] (d ∷ q) r s l e = absurd (omega arith)
append_cancel (c ∷ p) [] r s l e = absurd (omega arith)
append_cancel (c ∷ p) (d ∷ q) r s l e = ground (arith, append_cancel p q r s)

-- What `partition` finds: no occurrence, or the first one.
abbrev pub Cut : Text → Text → Option (Text × Text) → Type 0
Cut sep s none = (u v : Text) → u ++ (sep ++ v) ≢ s
Cut sep s (some (b, a)) =
    (s ≡ b ++ (sep ++ a)) × ((u v : Text) → u ++ (sep ++ v) ≡ s → length b ≤ length u)

no_prefix : (sep s v : Text) → remove_prefix sep s ≡ none → sep ++ v ≢ s
no_prefix sep s v n e = cc (remove_prefix-append sep v)

never_later :
    (sep : Text) (c : ℕ) (cs : Text)
    → remove_prefix sep (c ∷ cs) ≡ none
    → Cut sep cs none
    → Cut sep (c ∷ cs) none
never_later sep c cs n never [] v e = no_prefix sep (c ∷ cs) v n e
never_later sep c cs n never (d ∷ ds) v e = never ds v (cc)

first_later :
    (sep : Text) (c : ℕ) (cs b : Text)
    → remove_prefix sep (c ∷ cs) ≡ none
    → ((u v : Text) → u ++ (sep ++ v) ≡ cs → length b ≤ length u)
    → (u v : Text) → u ++ (sep ++ v) ≡ c ∷ cs
    → suc (length b) ≤ length u
first_later sep c cs b n first [] v e = absurd (no_prefix sep (c ∷ cs) v n e)
first_later sep c cs b n first (d ∷ ds) v e = omega (arith, first ds v (cc))

Cut-later :
    (sep : Text) (c : ℕ) (cs : Text)
    → remove_prefix sep (c ∷ cs) ≡ none
    → (q : Option (Text × Text)) → Cut sep cs q
    → Cut sep (c ∷ cs) (elim q [ none ↦ none | some (b, a) ↦ some (c ∷ b, a) ])
Cut-later sep c cs n none never = never_later sep c cs n never
Cut-later sep c cs n (some (b, a)) (e, first) = (ap (λ x. c ∷ x) e, first_later sep c cs b n first)

no_occurrence : (x : ℕ) (xs u v : Text) → u ++ (x ∷ xs ++ v) ≢ []
no_occurrence x xs [] v e = ground arith
no_occurrence x xs (d ∷ ds) v e = ground arith

partition_cuts : (sep s : Text) → sep ≢ [] → Cut sep s (partition sep s)
unfolding partition
partition_cuts [] s full = absurd (full refl)
partition_cuts (x ∷ xs) [] full = no_occurrence x xs
partition_cuts (x ∷ xs) (c ∷ cs) full = elim (Option-cases (remove_prefix (x ∷ xs) (c ∷ cs))) [
  | inl n ↦
      rw (n, partition)
        (Cut-later (x ∷ xs) c cs n (partition (x ∷ xs) cs) (partition_cuts (x ∷ xs) cs full))
  | inr (r, e) ↦ rw (e, partition) (remove_prefix_sound (x ∷ xs) (c ∷ cs) r e, λ u v f. omega arith)
]

-- An occurrence that is the first one is where `partition` cuts.
pub partition_first :
    (sep p rest : Text)
    → sep ≢ []
    → FirstAt sep p rest
    → partition sep (p ++ (sep ++ rest)) ≡ some (p, rest)
partition_first sep p rest full first =
    at (partition sep (p ++ (sep ++ rest))) (partition_cuts sep (p ++ (sep ++ rest)) full)
  where
    at : (q : Option (Text × Text)) → Cut sep (p ++ (sep ++ rest)) q → q ≡ some (p, rest)
    at none never = absurd (never p rest refl)
    at (some (b, a)) (e, least) =
        let (same, left) =
          append_cancel b p (sep ++ a) (sep ++ rest)
            (omega (arith, least p rest refl, first b a (sym e))) (sym e) in
        let (_, tail) = append_cancel sep sep a rest refl left in cc

split_max_cons :
    (sep : Text) (n : ℕ) (s : Text) → (p : Text) × (ps : List Text) × (split_max sep n s ≡ p ∷ ps)
unfolding split_max
split_max_cons sep zero s = (s, [], refl)
split_max_cons sep (suc n) s = elim (Option-cases (partition sep s)) [
  | inl e ↦ (s, [], rw (e, split_max))
  | inr (q, e) ↦ (q.0, split_max sep n q.1, rw (e, split_max))
]

join_cons :
    (sep p : Text) (n : ℕ) (s : Text)
    → join sep (split_max sep n s) ≡ s
    → join sep (p ∷ split_max sep n s) ≡ p ++ (sep ++ s)
unfolding join
join_cons sep p n s e =
    let (q, qs, f) = split_max_cons sep n s in
    let e' : join sep (q ∷ qs) ≡ s = ap (join sep) (sym f) ∙ e in
    rw f (ap (λ t. p ++ (sep ++ t)) e')

-- What `split` cuts can be joined again.
pub join-split_max : (sep : Text) (n : ℕ) (s : Text) → sep ≢ [] → join sep (split_max sep n s) ≡ s
unfolding split_max join
join-split_max sep zero s full = refl
join-split_max sep (suc n) s full =
    cut (λ a. join-split_max sep n a full) (partition sep s) (partition_cuts sep s full)
  where
    cut :
        ((a : Text) → join sep (split_max sep n a) ≡ a)
        → (q : Option (Text × Text)) → Cut sep s q
        → join sep (elim q [ none ↦ s ∷ [] | some (b, a) ↦ b ∷ split_max sep n a ]) ≡ s
    cut ih none never = refl
    cut ih (some (b, a)) (e, first) = join_cons sep b n a (ih a) ∙ sym e

pub length-split_max-le : (sep : Text) (n : ℕ) (s : Text) → length (split_max sep n s) ≤ suc n
unfolding split_max
length-split_max-le sep zero s = omega arith
length-split_max-le sep (suc n) s = elim (Option-cases (partition sep s)) [
  | inl e ↦ rw (e, split_max) (omega arith)
  | inr (q, e) ↦ rw (e, split_max) (omega (arith, length-split_max-le sep n q.1))
]

-- One cut, where the first occurrence is known.
pub split_max_first :
    (sep p rest : Text) (n : ℕ)
    → sep ≢ []
    → FirstAt sep p rest
    → split_max sep (suc n) (p ++ (sep ++ rest)) ≡ p ∷ split_max sep n rest
unfolding split_max
split_max_first sep p rest n full first = rw (partition_first sep p rest full first, split_max)

-- What one cut does: nothing, where there is no separator, or it takes the first part off.
pub split_max_cases :
    (sep : Text) (n : ℕ) (s : Text)
    → sep ≢ []
    → ((split_max sep (suc n) s ≡ s ∷ []) × ((p rest : Text) → p ++ (sep ++ rest) ≢ s))
      ⊎ ((p : Text) × (rest : Text) × (s ≡ p ++ (sep ++ rest))
          × FirstAt sep p rest
          × (split_max sep (suc n) s ≡ p ∷ split_max sep n rest))
unfolding split_max
split_max_cases sep n s full = cases (partition sep s) (partition_cuts sep s full)
  where
    cases :
        (q : Option (Text × Text))
        → Cut sep s q
        → ((elim q [ none ↦ s ∷ [] | some (b, a) ↦ b ∷ split_max sep n a ] ≡ s ∷ [])
            × ((p rest : Text) → p ++ (sep ++ rest) ≢ s))
          ⊎ ((p : Text) × (rest : Text) × (s ≡ p ++ (sep ++ rest))
              × FirstAt sep p rest
              × (elim q [ none ↦ s ∷ [] | some (b, a) ↦ b ∷ split_max sep n a ]
                  ≡ p ∷ split_max sep n rest))
    cases none never = inl (refl, never)
    cases (some (b, a)) (e, first) = inr (b, a, e, λ u v f. first u v (f ∙ sym e), refl)
