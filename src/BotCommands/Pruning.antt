-- ===== src/BotCommands/Pruning.antt =====
-- What pruning leaves of the groups, and what is published of a group.
use pyroflow.Prelude.{
  Among, ◌≤◌, ◌≡◌, refl, ◌⊎◌, ◌↔◌, inl, inr, true, false, List, [], ◌∷◌, ◌++◌, arith, DecEq,
  if◌then◌else◌, Bool-cases, List-cases,
}
use pyroflow.BotCommands.{
  Groups, is_empty, commands_of, collect, elem, keep_live, declared, prune_groups, prune, unique,
}
use pyroflow.BotCommands.Counting.{
  count, count-append, Unlisted-nonempty, OnePerKey-nonempty, Unlisted, OnePerKey,
  commands_of-collect, commands_of-nonempty,
}

module _ {C : Type 0} ⦃c_eq : DecEq C⦄ where
  pub elem-true : (c : C) (xs : List C) → elem c xs ≡ true → Among c xs
  unfolding elem
  elem-true c [] e = cc
  elem-true c (x ∷ xs) e = ground (arith, elem-true c xs)

  pub elem-false : (c : C) (xs : List C) → elem c xs ≡ false → ¬ Among c xs
  unfolding elem
  elem-false c [] e a = a
  elem-false c (x ∷ xs) e a = ground (arith, elem-false c xs)

  keep_live_kept :
      (c : C) (live cs : List C) → Among c (keep_live live cs) → Among c cs × Among c live
  unfolding keep_live
  keep_live_kept c live [] = λ a. elim a [ ]
  keep_live_kept c live (x ∷ xs) = elim (Bool-cases (elem x live)) [
    | inl h ↦
        rw (h, keep_live)
          (λ a. elim a [
            | inl same ↦ (inl same, rw same (elem-true x live h))
            | inr b ↦ let (p, q) = keep_live_kept c live xs b in (inr p, q)
          ])
    | inr h ↦ rw (h, keep_live) (λ a. let (p, q) = keep_live_kept c live xs a in (inr p, q))
  ]

  keep_live_all :
      (c : C) (live cs : List C) → Among c cs → Among c live → Among c (keep_live live cs)
  unfolding keep_live
  keep_live_all c live [] a b = elim a [ ]
  keep_live_all c live (x ∷ xs) a b = elim (Bool-cases (elem x live)) [
    | inl h ↦
        rw (h, keep_live)
          (elim a [ inl same ↦ inl same | inr r ↦ inr (keep_live_all c live xs r b) ])
    | inr h ↦
        rw (h, keep_live)
          (elim a [
            | inl same ↦ absurd (elem-false x live h (rw⁻¹ same b))
            | inr r ↦ keep_live_all c live xs r b
          ])
  ]

  pub Among-append : (c : C) (xs ys : List C) → Among c (xs ++ ys) ↔ (Among c xs ⊎ Among c ys)
  Among-append c [] ys = (inr, elim [ inl a ↦ elim a [ ] | inr a ↦ a ])
  Among-append c (x ∷ xs) ys = ground (arith, Among-append c xs ys)

  unique_from : (c : C) (seen cs : List C) → Among c (unique seen cs) ↔ (Among c seen ⊎ Among c cs)
  unfolding unique
  unique_from c seen [] = (inl, elim [ inl a ↦ a | inr a ↦ elim a [ ] ])
  unique_from c seen (x ∷ xs) = elim (Bool-cases (elem x seen)) [
    | inl h ↦
        rw (h, unique)
          (
            (λ a. elim ((unique_from c seen xs).0 a) [ inl p ↦ inl p | inr q ↦ inr (inr q) ]),
            elim [
              | inl p ↦ (unique_from c seen xs).1 (inl p)
              | inr (inl same) ↦ (unique_from c seen xs).1 (inl (rw same (elem-true x seen h)))
              | inr (inr q) ↦ (unique_from c seen xs).1 (inr q)
            ],
          )
    | inr h ↦
        rw (h, unique)
          (
            (λ a. elim ((unique_from c (seen ++ x ∷ []) xs).0 a) [
              | inl p ↦ elim ((Among-append c seen (x ∷ [])).0 p) [
                | inl old ↦ inl old
                | inr (inl same) ↦ inr (inl same)
                | inr (inr e) ↦ elim e [ ]
              ]
              | inr q ↦ inr (inr q)
            ]),
            elim [
              | inl p ↦
                  (unique_from c (seen ++ x ∷ []) xs).1
                    (inl ((Among-append c seen (x ∷ [])).1 (inl p)))
              | inr (inl same) ↦
                  (unique_from c (seen ++ x ∷ []) xs).1
                    (inl ((Among-append c seen (x ∷ [])).1 (inr (inl same))))
              | inr (inr q) ↦ (unique_from c (seen ++ x ∷ []) xs).1 (inr q)
            ],
          )
  ]

  elem-count : (c : C) (xs : List C) → elem c xs ≡ false → count c xs ≡ 0
  unfolding elem count
  elem-count c [] e = refl
  elem-count c (x ∷ xs) e = ground (arith, elem-count c xs)

  unique_once : (c : C) (seen cs : List C) → count c seen ≤ 1 → count c (unique seen cs) ≤ 1
  unfolding unique count
  unique_once c seen [] le = le
  unique_once c seen (x ∷ xs) le = elim (Bool-cases (elem x seen)) [
    | inl h ↦ rw (h, unique) (unique_once c seen xs le)
    | inr h ↦
        rw (h, unique)
          (unique_once c (seen ++ x ∷ []) xs
            (ground (arith, count-append c seen (x ∷ []), elem-count x seen h)))
  ]

  -- What is published of a group has each of its commands, no other, and none twice.
  pub unique_lem :
      (cs : List C)
      → ((c : C) → Among c (unique [] cs) ↔ Among c cs) × ((c : C) → count c (unique [] cs) ≤ 1)
  unfolding count
  unique_lem cs = (
    (λ c. (
      (λ a. elim ((unique_from c [] cs).0 a) [ inl e ↦ elim e [ ] | inr b ↦ b ]),
      λ b. (unique_from c [] cs).1 (inr b),
    )),
    λ c. unique_once c [] cs (omega arith),
  )

-- Some registered handler declares the command under the key.
abbrev pub IsDeclared : {K C : Type 0} → K → C → List (K × List C) → Type 0
IsDeclared j c [] = ⊥
IsDeclared j c ((k, cs) ∷ es) = ((k ≡ j) × Among c cs) ⊎ IsDeclared j c es

module _ {K C : Type 0} ⦃k_eq : DecEq K⦄ ⦃c_eq : DecEq C⦄ where
  declared_from :
      (j : K) (c : C) (es : List (K × List C)) (gs : Groups K C)
      → Among c (commands_of j (declared es gs)) ↔ (IsDeclared j c es ⊎ Among c (commands_of j gs))
  unfolding declared
  declared_from j c [] gs = (inr, elim [ inl e ↦ elim e [ ] | inr a ↦ a ])
  declared_from j c ((k, cs) ∷ es) gs = ground (
    arith,
    declared_from j c es (collect k cs gs),
    commands_of-collect k j cs gs,
    Among-append c (commands_of k gs) cs,
  )

  Unlisted-prune :
      (k : K) (live gs : Groups K C) → Unlisted k gs → Unlisted k (prune_groups live gs)
  unfolding prune_groups
  Unlisted-prune k live [] u = tt
  Unlisted-prune k live ((j, cs) ∷ gs) u =
      Unlisted-nonempty k j (keep_live (commands_of j live) cs) (prune_groups live gs) u.0
        (Unlisted-prune k live gs u.1)

  OnePerKey-prune_groups : (live gs : Groups K C) → OnePerKey gs → OnePerKey (prune_groups live gs)
  unfolding prune_groups
  OnePerKey-prune_groups live [] o = tt
  OnePerKey-prune_groups live ((k, cs) ∷ gs) o =
      OnePerKey-nonempty k (keep_live (commands_of k live) cs) (prune_groups live gs)
        (Unlisted-prune k live gs o.0) (OnePerKey-prune_groups live gs o.1)

  pub OnePerKey-prune :
      (entries : List (K × List C)) (gs : Groups K C) → OnePerKey gs → OnePerKey (prune entries gs)
  unfolding prune prune_groups
  OnePerKey-prune entries gs o = elim (List-cases (declared entries [])) [
    | inl nothing ↦ rw nothing tt
    | inr (e, es, eq) ↦ rw eq (OnePerKey-prune_groups (e ∷ es) gs o)
  ]

  commands_of-prune :
      (j : K) (live gs : Groups K C)
      → OnePerKey gs
      → commands_of j (prune_groups live gs) ≡ keep_live (commands_of j live) (commands_of j gs)
  unfolding commands_of prune_groups keep_live
  commands_of-prune j live [] o = refl
  commands_of-prune j live ((k, cs) ∷ gs) o = ground (
    arith,
    commands_of-prune j live gs o.1,
    commands_of-nonempty k j (keep_live (commands_of k live) cs) (prune_groups live gs)
        (Unlisted-prune k live gs o.0),
  )

  pruned :
      (j : K) (c : C) (live gs : Groups K C)
      → OnePerKey gs
      → Among c (commands_of j (prune_groups live (if is_empty live then [] else gs)))
        ↔ (Among c (commands_of j gs) × Among c (commands_of j live))
  unfolding commands_of prune_groups
  pruned j c [] gs o = ((λ a. elim a [ ]), λ a. a.1)
  pruned j c (g ∷ live) gs o = rw (commands_of-prune j (g ∷ live) gs o) (
    keep_live_kept c (commands_of j (g ∷ live)) (commands_of j gs),
    λ a. keep_live_all c (commands_of j (g ∷ live)) (commands_of j gs) a.0 a.1,
  )

  -- Let no two groups have the same key. After pruning, a command is in a key's group exactly if it
  -- was there and some registered handler declares it under that key.
  pub prune_exact :
      (entries : List (K × List C)) (gs : Groups K C)
      → OnePerKey gs
      → (j : K) (c : C)
      → Among c (commands_of j (prune entries gs))
        ↔ (Among c (commands_of j gs) × IsDeclared j c entries)
  unfolding prune commands_of
  prune_exact entries gs o j c =
      let both = pruned j c (declared entries []) gs o in
      let from = declared_from j c entries [] in
      (
        (λ a.
            let (here, live) = both.0 a in
            (here, elim (from.0 live) [ inl e ↦ e | inr b ↦ elim b [ ] ])),
        λ a. both.1 (a.0, from.1 (inl a.1)),
      )
