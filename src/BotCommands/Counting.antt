-- ===== src/BotCommands/Counting.antt =====
-- Adding a handler's commands and taking them away again.
use pyroflow.Prelude.{
  ℕ, suc, ◌+◌, ◌-◌, ◌≡◌, ◌≢◌, refl, sym, ite, if_pos, if_neg, List, [], ◌∷◌, ◌++◌, arith, DecEq,
}
use pyroflow.BotCommands.{
  Groups, commands_of, collect, remove_first, remove_each, nonempty, discard,
}

module _ {C : Type 0} ⦃c_eq : DecEq C⦄ where
  unfoldable pub count : C → List C → ℕ
  count c [] = 0
  count c (x ∷ xs) = ite (c_eq.dec x c) (suc (count c xs)) (count c xs)

  pub count-append : (c : C) (xs ys : List C) → count c (xs ++ ys) ≡ count c xs + count c ys
  unfolding count
  count-append c [] ys = omega arith
  count-append c (x ∷ xs) ys = ground (arith, count-append c xs ys)

  count-remove_first :
      (c d : C) (xs : List C)
      → count c (remove_first d xs) ≡ ite (c_eq.dec d c) (count c xs - 1) (count c xs)
  unfolding count remove_first
  count-remove_first c d [] = ground arith
  count-remove_first c d (x ∷ xs) = ground (arith, count-remove_first c d xs)

  count-remove_each :
      (c : C) (cs xs : List C) → count c (remove_each cs xs) ≡ count c xs - count c cs
  unfolding count remove_each
  count-remove_each c [] xs = omega arith
  count-remove_each c (d ∷ cs) xs =
      ground (arith, count-remove_each c cs (remove_first d xs), count-remove_first c d xs)

  remove_each-nil : (cs : List C) → remove_each cs [] ≡ []
  unfolding remove_each remove_first
  remove_each-nil [] = refl
  remove_each-nil (c ∷ cs) = remove_each-nil cs

-- No group has the key.
abbrev pub Unlisted : {K C : Type 0} → K → Groups K C → Type 0
Unlisted k [] = Unit
Unlisted k ((j, cs) ∷ gs) = (j ≢ k) × Unlisted k gs

-- No two groups have the same key.
abbrev pub OnePerKey : {K C : Type 0} → Groups K C → Type 0
OnePerKey [] = Unit
OnePerKey ((k, cs) ∷ gs) = Unlisted k gs × OnePerKey gs

pub Unlisted-nonempty :
    {K C : Type 0} (k j : K) (xs : List C) (gs : Groups K C)
    → j ≢ k
    → Unlisted k gs
    → Unlisted k (nonempty j xs gs)
Unlisted-nonempty k j [] gs other u = u
Unlisted-nonempty k j (x ∷ xs) gs other u = (other, u)

pub OnePerKey-nonempty :
    {K C : Type 0} (k : K) (xs : List C) (gs : Groups K C)
    → Unlisted k gs
    → OnePerKey gs
    → OnePerKey (nonempty k xs gs)
OnePerKey-nonempty k [] gs u o = o
OnePerKey-nonempty k (x ∷ xs) gs u o = (u, o)

module _ {K C : Type 0} ⦃k_eq : DecEq K⦄ where
  pub commands_of-collect :
      (k j : K) (cs : List C) (gs : Groups K C)
      → commands_of j (collect k cs gs)
        ≡ ite (k_eq.dec k j) (commands_of k gs ++ cs) (commands_of j gs)
  unfolding commands_of collect
  commands_of-collect k j cs [] = ground arith
  commands_of-collect k j cs ((i, xs) ∷ gs) = ground (arith, commands_of-collect k j cs gs)

  Unlisted-collect :
      (k j : K) (cs : List C) (gs : Groups K C)
      → j ≢ k
      → Unlisted k gs
      → Unlisted k (collect j cs gs)
  unfolding collect
  Unlisted-collect k j cs [] other u = (other, tt)
  Unlisted-collect k j cs ((i, xs) ∷ gs) other u = elim (k_eq.dec i j) [
    | yes same ↦ rw (if_pos _ same) u
    | no apart ↦ rw (if_neg _ apart) (u.0, Unlisted-collect k j cs gs other u.1)
  ]

  pub OnePerKey-collect :
      (k : K) (cs : List C) (gs : Groups K C) → OnePerKey gs → OnePerKey (collect k cs gs)
  unfolding collect
  OnePerKey-collect k cs [] o = (tt, tt)
  OnePerKey-collect k cs ((i, xs) ∷ gs) o = elim (k_eq.dec i k) [
    | yes same ↦ rw (if_pos _ same) o
    | no apart ↦
        rw (if_neg _ apart)
          (Unlisted-collect i k cs gs (λ e. apart (sym e)) o.0, OnePerKey-collect k cs gs o.1)
  ]

  Unlisted-commands : (k : K) (gs : Groups K C) → Unlisted k gs → commands_of k gs ≡ []
  unfolding commands_of
  Unlisted-commands k [] u = refl
  Unlisted-commands k ((j, cs) ∷ gs) u = ground (arith, Unlisted-commands k gs)

  pub commands_of-nonempty :
      (k j : K) (cs : List C) (gs : Groups K C)
      → Unlisted k gs
      → commands_of j (nonempty k cs gs) ≡ ite (k_eq.dec k j) cs (commands_of j gs)
  unfolding commands_of
  commands_of-nonempty k j [] gs u = ground (arith, Unlisted-commands k gs u)
  commands_of-nonempty k j (c ∷ cs) gs u = refl

module _ {K C : Type 0} ⦃k_eq : DecEq K⦄ ⦃c_eq : DecEq C⦄ where
  commands_of-discard :
      (k j : K) (cs : List C) (gs : Groups K C)
      → OnePerKey gs
      → commands_of j (discard k cs gs)
        ≡ ite (k_eq.dec k j) (remove_each cs (commands_of k gs)) (commands_of j gs)
  unfolding commands_of discard
  commands_of-discard k j cs [] o = ground (arith, remove_each-nil cs)
  commands_of-discard k j cs ((i, xs) ∷ gs) o = ground (
    arith,
    commands_of-discard k j cs gs o.1,
    commands_of-nonempty i j (remove_each cs xs) gs o.0,
  )

  -- Let no two groups have the same key. A handler whose commands are collected and then discarded
  -- leaves every group with as many copies of each command as it had before.
  pub discard-collect :
      (k j : K) (cs : List C) (c : C) (gs : Groups K C)
      → OnePerKey gs
      → count c (commands_of j (discard k cs (collect k cs gs))) ≡ count c (commands_of j gs)
  discard-collect k j cs c gs o = ground (
    arith,
    commands_of-discard k j cs (collect k cs gs) (OnePerKey-collect k cs gs o),
    commands_of-collect k k cs gs,
    commands_of-collect k j cs gs,
    count-remove_each c cs (commands_of k gs ++ cs),
    count-append c (commands_of k gs) cs,
  )
