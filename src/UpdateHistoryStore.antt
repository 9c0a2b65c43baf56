-- ===== src/UpdateHistoryStore.antt =====
-- `UpdateRecord` of pyroflow/models.py, and the heap of records that
-- pyroflow/update_history_store/memory_update_history_store.py keeps for each key. Of a heap the code
-- sees the least record, the length and the sorted list, so it is the sorted list here.
pub mod Order
pub mod Memory
pub mod Expiry
use pyroflow.Prelude.{
  ℕ, ◌+◌, Bool, true, false, ◌&&◌, ◌||◌, List, [], ◌∷◌, ltb, leb, ◌==◌, if◌then◌else◌, length,
}

-- `payload` is `data`; `seq` is the number that `_SEQ` gave to the record; times are whole numbers.
pub record UpdateRecord (D : Type 0) : Type 0 where
  pub handler : ℕ
  pub payload : D
  pub created_at : ℕ
  pub seq : ℕ

-- The abstract methods of pyroflow/update_history_store/update_history_store.py, over the store's
-- state `S`, with the time at which they run.
pub record UpdateHistoryStore (K D S : Type 0) : Type 0 where
  pub update : ℕ → K → List (UpdateRecord D) → S → S
  pub get : ℕ → K → S → S × List (UpdateRecord D)
  pub pop : ℕ → K → S → S × List (UpdateRecord D)
  pub delete : K → S → S

module _ {D : Type 0} where
  -- `__lt__`: by time, and by number at the same time.
  unfoldable pub lt : UpdateRecord D → UpdateRecord D → Bool
  lt a b = ltb a.created_at b.created_at || (a.created_at == b.created_at && ltb a.seq b.seq)

  -- `heapq.heappush`
  unfoldable pub heappush : UpdateRecord D → List (UpdateRecord D) → List (UpdateRecord D)
  heappush r [] = r ∷ []
  heappush r (x ∷ xs) = if lt r x then r ∷ x ∷ xs else x ∷ heappush r xs

  unfoldable pub push_all : List (UpdateRecord D) → List (UpdateRecord D) → List (UpdateRecord D)
  push_all [] heap = heap
  push_all (r ∷ rs) heap = push_all rs (heappush r heap)

  unfoldable pub is_expired : ℕ → ℕ → UpdateRecord D → Bool
  is_expired ttl now r = leb (r.created_at + ttl) now

  -- `_clean_up`
  unfoldable pub clean_up : ℕ → ℕ → List (UpdateRecord D) → List (UpdateRecord D)
  clean_up ttl now [] = []
  clean_up ttl now (x ∷ xs) = if is_expired ttl now x then clean_up ttl now xs else x ∷ xs

  -- `while len(heap) > self.max_history_len: heapq.heappop(heap)`
  unfoldable pub trim : ℕ → List (UpdateRecord D) → List (UpdateRecord D)
  trim max_len [] = []
  trim max_len (x ∷ xs) = if ltb max_len (length (x ∷ xs)) then trim max_len xs else x ∷ xs

  -- The heap that an update leaves for its key.
  unfoldable pub updated_heap :
      ℕ → ℕ → ℕ → List (UpdateRecord D) → List (UpdateRecord D) → List (UpdateRecord D)
  updated_heap ttl max_len now records heap =
      trim max_len (clean_up ttl now (push_all records heap))
