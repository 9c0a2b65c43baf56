-- ===== src/UpdateHistoryStore/Memory.antt =====
-- pyroflow/update_history_store/memory_update_history_store.py over a parameter for its `TTLCache`.
-- A list that the cache holds is changed in place, which does not count as a new entry: `amend`.
use pyroflow.Prelude.{
  Among, ℕ, ◌≡◌, refl, ap, ◌∙◌, inl, inr, Bool, true, false, Option, none, some, List, [], ◌∷◌,
  if◌then◌else◌, Option-cases,
}
use pyroflow.UpdateHistoryStore.{
  UpdateRecord, UpdateHistoryStore, is_expired, clean_up, updated_heap,
}
use pyroflow.UpdateHistoryStore.Order.{Sorted, updated_heap_newest}

-- A cache with states `S`; `find` is told the time, since entries expire.
pub record HistoryCache (K V S : Type 0) : Type 0 where
  pub find : ℕ → K → S → Option V
  pub put : ℕ → K → V → S → S
  pub amend : K → V → S → S
  pub remove : K → S → S

-- What the code relies on, at one time and for one key. Other keys may be evicted.
pub record IsHistoryCache (K V S : Type 0) (c : HistoryCache K V S) : Type 0 where
  pub find-put : (now : ℕ) (k : K) (v : V) (s : S) → c.find now k (c.put now k v s) ≡ some v
  pub find-amend :
      (now : ℕ) (k : K) (v w : V) (s : S)
      → c.find now k s ≡ some w
      → c.find now k (c.amend k v s) ≡ some v
  pub find-remove : (now : ℕ) (k : K) (s : S) → c.find now k (c.remove k s) ≡ none

-- `if not heap`
abbrev pub is_empty : {A : Type 0} → List A → Bool
is_empty [] = true
is_empty (x ∷ xs) = false

-- `self.histories.get(key, [])`
abbrev pub or_empty : {A : Type 0} → Option (List A) → List A
or_empty none = []
or_empty (some xs) = xs

module _ {K D S : Type 0} (c : HistoryCache K (List (UpdateRecord D)) S) (ttl max_len : ℕ) where
  -- `setdefault(key, [])`
  abbrev pub with_default : ℕ → K → S → S
  with_default now k s = elim (c.find now k s) [ none ↦ c.put now k [] s | some heap ↦ s ]

  -- `_update`
  unfoldable pub update : ℕ → K → List (UpdateRecord D) → S → S
  update now k records s =
      let heap = updated_heap ttl max_len now records (or_empty (c.find now k s)) in
      if is_empty heap
      then c.remove k (with_default now k s)
      else c.amend k heap (with_default now k s)

  -- `_get`
  unfoldable pub get : ℕ → K → S → S × List (UpdateRecord D)
  get now k s = elim (c.find now k s) [
    | none ↦ (c.remove k s, [])
    | some heap ↦
        let records = clean_up ttl now heap in
        (
          if is_empty records then c.remove k (c.amend k records s) else c.amend k records s,
          records,
        )
  ]

  -- `_pop`
  unfoldable pub pop : ℕ → K → S → S × List (UpdateRecord D)
  pop now k s = (c.remove k s, clean_up ttl now (or_empty (c.find now k s)))

  -- `_delete`
  unfoldable pub delete : K → S → S
  delete k s = c.remove k s

  unfoldable pub memory_store : UpdateHistoryStore K D S
  memory_store = record { update = update; get = get; pop = pop; delete = delete }

  module _ (C : IsHistoryCache K (List (UpdateRecord D)) S c) (now : ℕ) (k : K) where
    clean_again :
        (xs : List (UpdateRecord D))
        → ((y : UpdateRecord D) → Among y xs → is_expired ttl now y ≡ false)
        → clean_up ttl now xs ≡ xs
    unfolding clean_up
    clean_again [] fresh = refl
    clean_again (x ∷ xs) fresh = rw (fresh x (inl refl), clean_up)

    default_found :
        (s : S) → (w : List (UpdateRecord D)) × (c.find now k (with_default now k s) ≡ some w)
    default_found s = elim (Option-cases (c.find now k s)) [
      | inl h ↦ ([], rw (h, with_default) (C.find-put now k [] s))
      | inr (w, h) ↦ (w, rw (h, with_default) h)
    ]

    found :
        (s : S) (heap : List (UpdateRecord D)) (e : Bool)
        → is_empty heap ≡ e
        → or_empty (
            c.find now k (
              if e
              then c.remove k (with_default now k s)
              else c.amend k heap (with_default now k s)))
          ≡ heap
    found s [] true e = rw (C.find-remove now k (with_default now k s))
    found s (x ∷ xs) false e =
        let (w, h) = default_found s in rw (C.find-amend now k (x ∷ xs) w (with_default now k s) h)
    found s [] false e = cc
    found s (x ∷ xs) true e = cc

    got : (s : S) → (get now k s).1 ≡ clean_up ttl now (or_empty (c.find now k s))
    unfolding get clean_up
    got s = elim (Option-cases (c.find now k s)) [ inl h ↦ rw (h, get) | inr (w, h) ↦ rw (h, get) ]

    -- Let the cache find what was just put or changed, and let a key's heap be sorted, if it has
    -- one. What `get` returns right after an update of the key is the heap that the update made,
    -- without a further loss.
    pub get-update :
        (records : List (UpdateRecord D)) (s : S)
        → Sorted (or_empty (c.find now k s))
        → (get now k (update now k records s)).1
          ≡ updated_heap ttl max_len now records (or_empty (c.find now k s))
    unfolding update
    get-update records s sorted =
        got (update now k records s)
        ∙ ap (clean_up ttl now)
            (found s (updated_heap ttl max_len now records (or_empty (c.find now k s))) _ refl)
        ∙ clean_again (updated_heap ttl max_len now records (or_empty (c.find now k s))) (λ y a.
          ((updated_heap_newest ttl max_len now records (or_empty (c.find now k s)) sorted).2 y
            a).1)
