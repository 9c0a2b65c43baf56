-- ===== src/UpdateHistory/Recall.antt =====
-- What comes back of the handlers that were recorded.
use pyroflow.Prelude.{
  ℕ, suc, ◌≤◌, ◌<◌, ◌≡◌, refl, sym, ap, ◌∙◌, false, none, List, [], ◌∷◌, ◌++◌, map, arith, length,
  ok, All,
}
use mathlib.Core.List.{append-nil, append_assoc}
use pyroflow.UpdateHistoryStore.{
  UpdateRecord, lt, heappush, push_all, is_expired, clean_up, trim, updated_heap,
}
use pyroflow.UpdateHistoryStore.Memory.{
  HistoryCache, IsHistoryCache, memory_store, or_empty, get-update,
}
use pyroflow.UpdateHistory.{
  HistoryHooks, HistoryState, from_key, new_records, extract_key, extract_data, store_handlers,
  record_many, key_of, get,
}

module _ {D : Type 0} (d : D) (now : ℕ) where
  -- Records of a time up to now, with numbers below `n`.
  abbrev Before : ℕ → UpdateRecord D → Type 0
  Before n r = (r.created_at ≤ now) × (r.seq < n)

  push_last :
      (n h : ℕ) (xs : List (UpdateRecord D))
      → All (Before n) xs
      → heappush (record { handler = h; payload = d; created_at = now; seq = n }) xs
        ≡ xs ++ record { handler = h; payload = d; created_at = now; seq = n } ∷ []
  unfolding heappush lt
  push_last n h [] a = refl
  push_last n h (x ∷ xs) a = ground (arith, push_last n h xs a.1)

  Before-later :
      (n h : ℕ) (xs : List (UpdateRecord D))
      → All (Before n) xs
      → All
          (Before (suc n))
          (xs ++ record { handler = h; payload = d; created_at = now; seq = n } ∷ [])
  Before-later n h [] a = ((omega arith, omega arith), tt)
  Before-later n h (x ∷ xs) a = ((omega (arith, a.0), omega (arith, a.0)), Before-later n h xs a.1)

  push_all-append :
      (n : ℕ) (hs : List ℕ) (xs : List (UpdateRecord D))
      → All (Before n) xs
      → push_all (new_records d now n hs) xs ≡ xs ++ new_records d now n hs
  unfolding push_all new_records
  push_all-append n [] xs a = sym (append-nil xs)
  push_all-append n (h ∷ hs) xs a =
      let r : UpdateRecord D = record { handler = h; payload = d; created_at = now; seq = n } in
      ap (push_all (new_records d now (suc n) hs)) (push_last n h xs a)
      ∙ push_all-append (suc n) hs (xs ++ r ∷ []) (Before-later n h xs a)
      ∙ append_assoc xs (r ∷ []) (new_records d now (suc n) hs)

  clean_new :
      (ttl n : ℕ) (hs : List ℕ)
      → 0 < ttl
      → clean_up ttl now (new_records d now n hs) ≡ new_records d now n hs
  unfolding clean_up new_records is_expired
  clean_new ttl n [] fresh = refl
  clean_new ttl n (h ∷ hs) fresh = ground arith

  trim_short : (m : ℕ) (xs : List (UpdateRecord D)) → length xs ≤ m → trim m xs ≡ xs
  unfolding trim
  trim_short m [] le = refl
  trim_short m (x ∷ xs) le = ground arith

  length-new_records : (n : ℕ) (hs : List ℕ) → length (new_records d now n hs) ≡ length hs
  unfolding new_records
  length-new_records n [] = refl
  length-new_records n (h ∷ hs) = ap suc (length-new_records (suc n) hs)

  handlers_new : (n : ℕ) (hs : List ℕ) → map (λ r. r.handler) (new_records d now n hs) ≡ hs
  unfolding new_records
  handlers_new n [] = refl
  handlers_new n (h ∷ hs) = ap (◌∷◌ h) (handlers_new (suc n) hs)

  -- A key without a history, and handlers that fit into it.
  new_heap :
      (ttl max_len n : ℕ) (hs : List ℕ)
      → 0 < ttl
      → length hs ≤ max_len
      → updated_heap ttl max_len now (new_records d now n hs) [] ≡ new_records d now n hs
  unfolding updated_heap
  new_heap ttl max_len n hs fresh fits =
      ap (λ x. trim max_len (clean_up ttl now x)) (push_all-append n hs [] tt)
      ∙ ap (trim max_len) (clean_new ttl n hs fresh)
      ∙ trim_short max_len (new_records d now n hs) (omega (arith, length-new_records n hs))

module _ {U K D S : Type 0} (h : HistoryHooks U K D) (c : HistoryCache K (List (UpdateRecord D)) S)
    (C : IsHistoryCache K (List (UpdateRecord D)) S c) (ttl max_len : ℕ) where
  -- Let the cache find what was just put or changed, let an update have a key without a history
  -- and some data, let records live for some time, and let no more handlers have run than a
  -- history holds. After `record_many` of the handlers, without a further check, the history of
  -- the key lists exactly these handlers, in the order in which they ran.
  pub get-record_many :
      (now : ℕ) (u : U) (k : K) (d : D) (hs : List ℕ) (s : HistoryState S)
      → extract_key h u ≡ ok k
      → extract_data h u ≡ ok d
      → c.find now k s.store ≡ none
      → 0 < ttl
      → length hs ≤ max_len
      → let s' = (record_many h (memory_store c ttl max_len) now u hs false s).0 in
        (records : List (UpdateRecord D)) × ((get h
            (memory_store c ttl max_len)
            now
            (from_key k)
            s').1
          ≡ ok records)
        × (map (λ r. r.handler) records ≡ hs)
  unfolding record_many store_handlers get key_of memory_store
  get-record_many now u k d hs s keyed data_of absent fresh fits = (
    new_records d now s.sequence hs,
    rw keyed (
        rw data_of (
          ap ok (
            get-update c ttl max_len C now k (new_records d now s.sequence hs) s.store
              (rw absent tt)
            ∙ ap (λ x. updated_heap ttl max_len now (new_records d now s.sequence hs) (or_empty x))
                absent
            ∙ new_heap d now ttl max_len s.sequence hs fresh fits))),
    handlers_new d now s.sequence hs,
  )
