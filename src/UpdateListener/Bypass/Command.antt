-- ===== src/UpdateListener/Bypass/Command.antt =====
-- What the pattern of commands matches, and which messages bypass a listener.
use pyroflow.Prelude.{
  ℕ, ◌≡◌, refl, sym, ap, subst, ◌∙◌, ◌≢◌, ◌≤◌, inl, inr, ◌↔◌, Bool, true, false, Option, none, some,
  [], ◌∷◌, ◌++◌, length, leb, ◌==◌, ◌&&◌, arith, All, Bool-cases,
}
use pyroflow.Text.{Text, is_space, text_eq}
use pyroflow.ListenerCoordinator.Memory.{nat_eq}
use pyroflow.UpdateListener.Bypass.{
  is_letter, is_name, span, ends, match_target, match_rest, match_command,
}

-- A text that is empty or does not start with a character that passes.
abbrev pub Stops : (ℕ → Bool) → Text → Type 0
Stops p [] = Unit
Stops p (c ∷ cs) = p c ≡ false

-- A text that is empty or starts with white space.
abbrev pub Ends : Text → Type 0
Ends t = ends t ≡ true

-- What the pattern says of what follows a command's name, by the command's target.
abbrev pub IsTail : (ℕ → Bool) → Option Text → Text → Type 0
IsTail is_word none rest = Ends rest
IsTail is_word (some target) rest =
    (target ≢ [])
    × All (λ c. is_word c ≡ true) target
    × ((after : Text) × (rest ≡ 64 ∷ (target ++ after)) × Ends after)

-- A text is "/", a letter, at most 31 further letters, digits and underscores, perhaps "@" with a
-- target, and then ends or goes on with white space.
abbrev pub IsCommand : (ℕ → Bool) → Text → Text → Option Text → Type 0
IsCommand is_word t name target =
    (c : ℕ) × (tail : Text) × (rest : Text) × (name ≡ c ∷ tail)
    × (t ≡ 47 ∷ c ∷ (tail ++ rest))
    × (is_letter c ≡ true)
    × All (λ x. is_name x ≡ true) tail
    × (length tail ≤ 31)
    × IsTail is_word target rest

module _ (p : ℕ → Bool) where
  span-append : (cs : Text) → (span p cs).0 ++ (span p cs).1 ≡ cs
  unfolding span
  span-append [] = refl
  span-append (c ∷ cs) = elim (Bool-cases (p c)) [
    | inl h ↦ rw h (ap (λ t. c ∷ t) (span-append cs))
    | inr h ↦ rw h refl
  ]

  span-All : (cs : Text) → All (λ c. p c ≡ true) (span p cs).0
  unfolding span
  span-All [] = tt
  span-All (c ∷ cs) = elim (Bool-cases (p c)) [ inl h ↦ rw h (h, span-All cs) | inr h ↦ rw h tt ]

  span_longest :
      (front rest : Text)
      → All (λ c. p c ≡ true) front
      → Stops p rest
      → span p (front ++ rest) ≡ (front, rest)
  unfolding span
  span_longest [] [] a s = refl
  span_longest [] (c ∷ cs) a s = rw s refl
  span_longest (c ∷ front) rest (h, a) s = rw (span_longest front rest a s, h) refl

pub space_not_name : (c : ℕ) → is_space c ≡ true → is_name c ≡ false
unfolding is_space is_name is_letter
space_not_name c h = ground arith

space_not_at : (c : ℕ) → is_space c ≡ true → (c == 64) ≡ false
unfolding is_space
space_not_at c h = ground arith

at_not_space : is_space 64 ≡ false
unfolding is_space
at_not_space = refl

Ends-Stops : (t : Text) → Ends t → Stops is_name t
unfolding ends
Ends-Stops [] e = tt
Ends-Stops (c ∷ cs) e = space_not_name c e

module _ (is_word : ℕ → Bool) where
  match_target_parts :
      (name n : Text) (g : Option Text) (cs : Text) (parts : Text × Text)
      → span is_word cs ≡ parts
      → match_target is_word name parts ≡ some (n, g)
      → (name ≡ n) × IsTail is_word g (64 ∷ cs)
  unfolding match_target
  match_target_parts name n g cs ([], rest) s e = cc
  match_target_parts name n g cs (t ∷ ts, rest) s e = elim (Bool-cases (ends rest)) [
    | inl h ↦
        let found : some (name, some (t ∷ ts)) ≡ some (n, g) = (rw h at e) in
        let target : some (t ∷ ts) ≡ g = cc in
        (
          cc,
          rw⁻¹ target (
            (λ x. cc),
            subst (λ q. All (λ c. is_word c ≡ true) q.0) s (span-All is_word cs),
            (rest, ap (λ z. 64 ∷ z) (sym (span-append is_word cs) ∙ ap (λ q. q.0 ++ q.1) s), h),
          ),
        )
    | inr h ↦ let bad = (rw h at e) in cc
  ]

  match_rest-IsTail :
      (name n : Text) (g : Option Text) (rest : Text)
      → match_rest is_word name rest ≡ some (n, g)
      → (name ≡ n) × IsTail is_word g rest
  unfolding match_rest ends
  match_rest-IsTail name n g [] e = let target : none ≡ g = cc in (cc, rw⁻¹ target refl)
  match_rest-IsTail name n g (c ∷ cs) e = elim (Bool-cases (is_space c)) [
    | inl h ↦
        let found : some (name, none) ≡ some (n, g) = rw h at e in
        let target : none ≡ g = cc in (cc, rw⁻¹ target h)
    | inr h ↦ elim (Bool-cases (c == 64)) [
      | inl at ↦
          let same : c ≡ 64 = ground arith in
          rw same (match_target_parts name n g cs (span is_word cs) refl (rw (h, at) at e))
      | inr other ↦ let bad = rw (h, other) at e in cc
    ]
  ]

  IsTail-Stops : (g : Option Text) (rest : Text) → IsTail is_word g rest → Stops is_name rest
  unfolding is_name is_letter
  IsTail-Stops none rest e = Ends-Stops rest e
  IsTail-Stops (some target) rest (some_target, words, (after, e, end)) = rw e refl

  -- White space is no `\\w`.
  module _ (apart : (c : ℕ) → is_space c ≡ true → is_word c ≡ false) where
    Ends-word_Stops : (t : Text) → Ends t → Stops is_word t
    unfolding ends
    Ends-word_Stops [] e = tt
    Ends-word_Stops (c ∷ cs) e = apart c e

    match_rest-tail :
        (name rest : Text) (g : Option Text)
        → IsTail is_word g rest
        → match_rest is_word name rest ≡ some (name, g)
    unfolding match_rest match_target ends
    match_rest-tail name [] none e = refl
    match_rest-tail name (c ∷ cs) none e = rw e refl
    match_rest-tail name rest (some []) (some_target, words, more) = absurd (some_target refl)
    match_rest-tail name rest (some (t ∷ ts)) (some_target, words, (after, e, end)) =
        rw (e, at_not_space)
          (rw (span_longest is_word (t ∷ ts) after words (Ends-word_Stops after end), end) refl)

    match_command-IsCommand :
        (t name : Text) (g : Option Text)
        → match_command is_word t ≡ some (name, g)
        → IsCommand is_word t name g
    unfolding match_command
    match_command-IsCommand [] name g e = cc
    match_command-IsCommand (slash ∷ []) name g e = cc
    match_command-IsCommand (slash ∷ c ∷ cs) name g e =
        elim (Bool-cases (slash == 47 && is_letter c && leb (length (span is_name cs).0) 31)) [
          | inl h ↦
              let (same, tail) =
                match_rest-IsTail (c ∷ (span is_name cs).0) name g (span is_name cs).1
                  (rw h at e) in
              let slashed : slash ≡ 47 = ground arith in
              (
                c,
                (span is_name cs).0,
                (span is_name cs).1,
                sym same,
                rw (slashed, span-append is_name cs) refl,
                ground arith,
                span-All is_name cs,
                ground arith,
                tail,
              )
          | inr h ↦ let bad = rw h at e in cc
        ]

    pub match_command_iff :
        (t name : Text) (g : Option Text)
        → match_command is_word t ≡ some (name, g) ↔ IsCommand is_word t name g
    unfolding match_command
    match_command_iff t name g = (
      match_command-IsCommand t name g,
      λ (c, tail, rest, named, e, letter, names, short, ending).
          let fits : leb (length tail) 31 ≡ true = ground arith in
          rw (e, named)
            (rw (span_longest is_name tail rest names (IsTail-Stops g rest ending), letter, fits)
              (match_rest-tail (c ∷ tail) rest g ending)),
    )
