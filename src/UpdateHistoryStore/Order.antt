-- ===== src/UpdateHistoryStore/Order.antt =====
-- What an update of a key's history keeps: the newest records that have not expired.
use pyroflow.Prelude.{
  Among, ℕ, ◌≤◌, ◌<◌, ◌≡◌, refl, ◌⊎◌, inl, inr, true, false, List, [], ◌∷◌, arith, length,
  Bool-cases, ltb,
}
use pyroflow.UpdateHistoryStore.{
  UpdateRecord, lt, heappush, push_all, is_expired, clean_up, trim, updated_heap,
}

module _ {D : Type 0} where
  abbrev pub Older : UpdateRecord D → UpdateRecord D → Type 0
  Older a b = (a.created_at < b.created_at) ⊎ ((a.created_at ≡ b.created_at) × (a.seq ≤ b.seq))

  -- Oldest first.
  abbrev pub Sorted : List (UpdateRecord D) → Type 0
  Sorted [] = Unit
  Sorted (x ∷ xs) = ((y : UpdateRecord D) → Among y xs → Older x y) × Sorted xs

  lt-Older : (a b : UpdateRecord D) → lt a b ≡ true → Older a b
  unfolding lt
  lt-Older a b h = ground arith

  not_lt-Older : (a b : UpdateRecord D) → lt a b ≡ false → Older b a
  unfolding lt
  not_lt-Older a b h = ground arith

  Older-trans : (a b c : UpdateRecord D) → Older a b → Older b c → Older a c
  Older-trans a b c p q = omega arith

  push-Among :
      (r : UpdateRecord D) (xs : List (UpdateRecord D)) (y : UpdateRecord D)
      → Among y (heappush r xs)
      → (y ≡ r) ⊎ Among y xs
  unfolding heappush
  push-Among r [] y a = ground arith
  push-Among r (x ∷ xs) y a = ground (arith, push-Among r xs y)

  push_new : (r : UpdateRecord D) (xs : List (UpdateRecord D)) → Among r (heappush r xs)
  unfolding heappush
  push_new r [] = inl refl
  push_new r (x ∷ xs) = ground (arith, push_new r xs)

  push_old :
      (r : UpdateRecord D) (xs : List (UpdateRecord D)) (y : UpdateRecord D)
      → Among y xs
      → Among y (heappush r xs)
  unfolding heappush
  push_old r [] y a = elim a [ ]
  push_old r (x ∷ xs) y a = ground (arith, push_old r xs y)

  push-Sorted :
      (r : UpdateRecord D) (xs : List (UpdateRecord D)) → Sorted xs → Sorted (heappush r xs)
  unfolding heappush
  push-Sorted r [] s = (λ y a. elim a [ ], tt)
  push-Sorted r (x ∷ xs) s = elim (Bool-cases (lt r x)) [
    | inl h ↦
        rw (h, heappush)
          (
            (λ y a. elim a [
              | inl same ↦ rw same (lt-Older r x h)
              | inr rest ↦ Older-trans r x y (lt-Older r x h) (s.0 y rest)
            ]),
            s,
          )
    | inr h ↦
        rw (h, heappush)
          (
            (λ y a. elim (push-Among r xs y a) [
              | inl same ↦ rw same (not_lt-Older r x h)
              | inr old ↦ s.0 y old
            ]),
            push-Sorted r xs s.1,
          )
  ]

  push_all-Sorted : (rs xs : List (UpdateRecord D)) → Sorted xs → Sorted (push_all rs xs)
  unfolding push_all
  push_all-Sorted [] xs s = s
  push_all-Sorted (r ∷ rs) xs s = push_all-Sorted rs (heappush r xs) (push-Sorted r xs s)

  pushed_from :
      (rs xs : List (UpdateRecord D)) (y : UpdateRecord D)
      → Among y (push_all rs xs)
      → Among y rs ⊎ Among y xs
  unfolding push_all
  pushed_from [] xs y a = inr a
  pushed_from (r ∷ rs) xs y a = elim (pushed_from rs (heappush r xs) y a) [
    | inl new ↦ inl (inr new)
    | inr b ↦ elim (push-Among r xs y b) [ inl same ↦ inl (inl same) | inr old ↦ inr old ]
  ]

  pushed_all :
      (rs xs : List (UpdateRecord D)) (y : UpdateRecord D)
      → Among y rs ⊎ Among y xs
      → Among y (push_all rs xs)
  unfolding push_all
  pushed_all [] xs y (inl a) = elim a [ ]
  pushed_all [] xs y (inr a) = a
  pushed_all (r ∷ rs) xs y (inl (inl same)) =
      pushed_all rs (heappush r xs) y (inr (rw same (push_new r xs)))
  pushed_all (r ∷ rs) xs y (inl (inr new)) = pushed_all rs (heappush r xs) y (inl new)
  pushed_all (r ∷ rs) xs y (inr old) = pushed_all rs (heappush r xs) y (inr (push_old r xs y old))

  module _ (ttl now : ℕ) where
    Older-expired :
        (a b : UpdateRecord D)
        → Older a b
        → is_expired ttl now a ≡ false
        → is_expired ttl now b ≡ false
    unfolding is_expired
    Older-expired a b o e = ground arith

    clean-Sorted : (xs : List (UpdateRecord D)) → Sorted xs → Sorted (clean_up ttl now xs)
    unfolding clean_up
    clean-Sorted [] s = tt
    clean-Sorted (x ∷ xs) s = elim (Bool-cases (is_expired ttl now x)) [
      | inl h ↦ rw (h, clean_up) (clean-Sorted xs s.1)
      | inr h ↦ rw (h, clean_up) s
    ]

    clean_kept :
        (xs : List (UpdateRecord D))
        → Sorted xs
        → (y : UpdateRecord D) → Among y (clean_up ttl now xs)
        → Among y xs × (is_expired ttl now y ≡ false)
    unfolding clean_up
    clean_kept [] s y = λ a. elim a [ ]
    clean_kept (x ∷ xs) s y = elim (Bool-cases (is_expired ttl now x)) [
      | inl h ↦ rw (h, clean_up) (λ a. let (b, e) = clean_kept xs s.1 y a in (inr b, e))
      | inr h ↦
          rw (h, clean_up)
            (λ a. (a, elim a [ inl same ↦ rw same h | inr b ↦ Older-expired x y (s.0 y b) h ]))
    ]

    clean_keeps :
        (xs : List (UpdateRecord D)) (y : UpdateRecord D)
        → Among y xs
        → is_expired ttl now y ≡ false
        → Among y (clean_up ttl now xs)
    unfolding clean_up
    clean_keeps [] y a e = elim a [ ]
    clean_keeps (x ∷ xs) y a e = ground (arith, clean_keeps xs y)

  module _ (m : ℕ) where
    trim_from : (xs : List (UpdateRecord D)) (y : UpdateRecord D) → Among y (trim m xs) → Among y xs
    unfolding trim
    trim_from [] y a = elim a [ ]
    trim_from (x ∷ xs) y a = ground (arith, trim_from xs y)

    trim-Sorted : (xs : List (UpdateRecord D)) → Sorted xs → Sorted (trim m xs)
    unfolding trim
    trim-Sorted [] s = tt
    trim-Sorted (x ∷ xs) s = elim (Bool-cases (ltb m (length (x ∷ xs)))) [
      | inl h ↦ rw (h, trim) (trim-Sorted xs s.1)
      | inr h ↦ rw (h, trim) s
    ]

    length-trim : (xs : List (UpdateRecord D)) → length (trim m xs) ≤ m
    unfolding trim
    length-trim [] = omega arith
    length-trim (x ∷ xs) = ground (arith, length-trim xs)

    trim_full : (xs : List (UpdateRecord D)) → m ≤ length xs → length (trim m xs) ≡ m
    unfolding trim
    trim_full [] le = omega arith
    trim_full (x ∷ xs) le = ground (arith, trim_full xs)

    -- What trimming takes away is older than all it leaves, which are as many as there can be.
    trim_lost :
        (xs : List (UpdateRecord D))
        → Sorted xs
        → (y : UpdateRecord D) → Among y xs
        → Among y (trim m xs)
          ⊎ ((length (trim m xs) ≡ m) × ((z : UpdateRecord D) → Among z (trim m xs) → Older y z))
    unfolding trim
    trim_lost [] s y a = elim a [ ]
    trim_lost (x ∷ xs) s y a = elim (Bool-cases (ltb m (length (x ∷ xs)))) [
      | inr h ↦ rw (h, trim) (inl a)
      | inl h ↦
          rw (h, trim)
            (elim a [
              | inl same ↦
                  inr (trim_full xs (ground arith), λ z b. rw same (s.0 z (trim_from xs z b)))
              | inr b ↦ trim_lost xs s.1 y b
            ])
    ]

  -- Let a key's heap be sorted. An update of it leaves a sorted heap of at most `max_history_len`
  -- records, each of which is new or was there, and has not expired; and a record that is new or
  -- was there and has not expired is left out only if the heap is full with records that are not
  -- older than it.
  pub updated_heap_newest :
      (ttl max_len now : ℕ) (records heap : List (UpdateRecord D))
      → Sorted heap
      → let kept = updated_heap ttl max_len now records heap in
        Sorted kept
        × (length kept ≤ max_len)
        × ((y : UpdateRecord D)
            → Among y kept
            → (Among y records ⊎ Among y heap) × (is_expired ttl now y ≡ false))
        × ((y : UpdateRecord D)
            → Among y records ⊎ Among y heap
            → is_expired ttl now y ≡ false
            → Among y kept
              ⊎ ((length kept ≡ max_len) × ((z : UpdateRecord D) → Among z kept → Older y z)))
  unfolding updated_heap
  updated_heap_newest ttl max_len now records heap s =
      let pushed = push_all-Sorted records heap s in
      let clean = clean-Sorted ttl now (push_all records heap) pushed in
      (
        trim-Sorted max_len (clean_up ttl now (push_all records heap)) clean,
        length-trim max_len (clean_up ttl now (push_all records heap)),
        (λ y a.
            let (b, e) =
              clean_kept ttl now (push_all records heap) pushed y
                (trim_from max_len (clean_up ttl now (push_all records heap)) y a) in
            (pushed_from records heap y b, e)),
        λ y a e.
            trim_lost max_len (clean_up ttl now (push_all records heap)) clean y
              (clean_keeps ttl now (push_all records heap) y (pushed_all records heap y a) e),
      )
