-- ===== src/UpdateHistoryStore/Expiry.antt =====
-- What the expiry of the cache's entries does to a key's records
-- (pyroflow/update_history_store/memory_update_history_store.py).
use pyroflow.Prelude.{ℕ, ◌+◌, ◌≤◌, ◌≡◌, refl, false, Option, none, some, List, []}
use pyroflow.UpdateHistoryStore.{UpdateRecord, updated_heap}
use pyroflow.UpdateHistoryStore.Memory.{HistoryCache, is_empty, with_default, update, get}

-- What `TTLCache` documents: an entry that was made at a time is gone when `ttl` has passed, and only
-- a new entry counts, not a change of the value in place.
pub record Expires (K V S : Type 0) (c : HistoryCache K V S) (ttl : ℕ) : Type 0 where
  pub made_at : K → S → Option ℕ
  pub expired :
      (t now : ℕ) (k : K) (s : S) → made_at k s ≡ some t → t + ttl ≤ now → c.find now k s ≡ none
  pub made_at-amend : (k : K) (v : V) (s : S) → made_at k (c.amend k v s) ≡ made_at k s

module _ {K D S : Type 0} (c : HistoryCache K (List (UpdateRecord D)) S) (ttl max_len : ℕ)
    (E : Expires K (List (UpdateRecord D)) S c ttl) (k : K) (s : S) where
  open E use {made_at}

  defaulted :
      (now : ℕ) (heap : List (UpdateRecord D))
      → c.find now k s ≡ some heap
      → with_default c ttl max_len now k s ≡ s
  defaulted now heap there = rw (there, with_default) refl

  amended :
      (now : ℕ) (records heap : List (UpdateRecord D))
      → c.find now k s ≡ some heap
      → is_empty (updated_heap ttl max_len now records heap) ≡ false
      → update c ttl max_len now k records s
        ≡ c.amend k (updated_heap ttl max_len now records heap) s
  unfolding update
  amended now records heap there kept =
      rw (there, update) (rw (kept, defaulted now heap there) refl)

  got_none : (now : ℕ) (s' : S) → c.find now k s' ≡ none → (get c ttl max_len now k s').1 ≡ []
  unfolding get
  got_none now s' gone = rw (gone, get) refl

  -- A defect: let a key's entry be made at a time `t`, and let an update at a later time find the entry
  -- and leave records. Once `ttl` has passed since `t`, `get` returns no record, also none of those that
  -- the update made, and the key's entry still counts from `t`.
  pub get_forgets :
      (t now later : ℕ) (records heap : List (UpdateRecord D))
      → made_at k s ≡ some t
      → c.find now k s ≡ some heap
      → is_empty (updated_heap ttl max_len now records heap) ≡ false
      → t + ttl ≤ later
      → let s' = update c ttl max_len now k records s in
        ((get c ttl max_len later k s').1 ≡ []) × (made_at k s' ≡ some t)
  get_forgets t now later records heap made there kept over =
      let made' : made_at k (c.amend k (updated_heap ttl max_len now records heap) s) ≡ some t =
        rw (E.made_at-amend k (updated_heap ttl max_len now records heap) s) made in
      rw (amended now records heap there kept) (
        got_none later (c.amend k (updated_heap ttl max_len now records heap) s)
            (E.expired t later k _ made' over),
        made',
      )
